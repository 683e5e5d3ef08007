-- ===== src/Tests/System.antt =====
-- The theorems on the memory, the devices and whole machines, at concrete inputs.
use quanta.Common.{
  ◌+◌, ◌*◌, ◌-◌, ◌^◌, ◌≤◌, ◌<◌, ◌≡◌, arith, true, false, ◌==◌, ltb, leb, ◌||◌, ◌&&◌, none, some, [],
  ◌∷◌, refl, if◌then◌else◌,
}
use quanta.Common.Bits.{bit}
use quanta.Common.Word.{u16}
use quanta.Ram.{Ram, load16}
use quanta.Memory.{Memory, index_of, mem_read64, mem_write64}
use quanta.Memory.Range.{mem_write64_fault}
use quanta.Device.Block.{Queue, virtio_notify, virtio_reset, Virtio}
use quanta.Device.Block.Notify.{virtio_notify-Serves}
use quanta.Device.Block.Served.{Serves, asserted}
use quanta.Device.Net.{VirtioNet, net_fifo_push, deliver_one}
use quanta.Device.Net.Fifo.{contents, frame_bytes, net_fifo_push-enqueue}
use quanta.Device.Platform.{plat_init, plat_set_harts, no_disk}
use quanta.Device.Virtqueue.{vq_chain}
use quanta.Device.Virtqueue.Chain.{length, vq_chain-length}
use quanta.Cpu.{Hart, sext_xlen}
use quanta.Decode.Csr.{satp}
use quanta.Cpu.Access.{break_reservation}
use quanta.Cpu.Access.Reservation.{holds, break_reservation-holds}
use quanta.Cpu.Step.{commit}
use quanta.Cpu.Step.Commit.{commit-instret}
use quanta.Machine.{Machine, hart}
use quanta.Mmu.{acc_load, translate_page, sv32, Outcome, physical}
use quanta.Mmu.Lookup.{translate_page-again}
use quanta.Sbi.{hart_start, hsm_enter}
use quanta.Sbi.Lifecycle.{IsFresh, hart_start-IsFresh}
use quanta.Elf.{File, Loaded}
use quanta.Elf.Fit.{elf_load-bounds}
use quanta.Softfloat.Wide.{mk128, udiv128by64}
use quanta.Softfloat.Wide.Division.{udiv128by64-divides}
use quanta.Tests.{user_hart, user_machine}

-- 4 KiB of RAM. Its first word is a page-table entry that maps 4 MiB for a user's reads, and a descriptor
-- at 16 names itself as the next.
abbrev sample_ram : Ram
sample_ram = record {
  bytes = λ i.
      if i == 0
      then 0x53
      else if i == 3
      then 0x20
      else if i == 28
      then 1
      else if i == 0x102
      then 1
      else 0;
  base = 0x80000000;
  size = 0x1000;
}

abbrev sample_memory : Memory
sample_memory = record { ram = sample_ram; fault = false; fault_addr = 0; plat = none }

mem_write64_fault_example :
    let after = mem_write64 sample_memory 0x80000ffc 5 in
    (after.fault ≡ true)
    × (after.fault_addr ≡ 0x80000ffc)
    × (after.ram ≡ sample_ram)
    × ((mem_read64 sample_memory 0x80000ffc).0 ≡ 0)
    × ((mem_read64 sample_memory 0x80000ffc).1 ≡ after)
unfolding quanta.Memory.device_at quanta.Device.Platform.plat_contains
    quanta.Device.Platform.in_window
mem_write64_fault_example = mem_write64_fault sample_memory 0x80000ffc 5 refl (omega arith)

-- A network device with one frame of two bytes in the last slot.
abbrev sample_net : VirtioNet
sample_net = record (plat_init.net) {
  fifo = λ _ k. k;
  fifo_len = λ _. 2;
  fifo_head = 15;
  fifo_count = 1;
}

net_fifo_push-enqueue_example :
    let pushed = net_fifo_push sample_net (λ k. k + 7) 3 in
    (pushed.0 ≡ true)
    × (contents pushed.1 ≡ (0 ∷ 1 ∷ []) ∷ (7 ∷ 8 ∷ 9 ∷ []) ∷ [])
    × (pushed.1.fifo_count ≤ 16)
unfolding quanta.Device.Net.Fifo.enqueue contents quanta.Device.Net.Fifo.frames_from
    quanta.Device.Net.Fifo.bytes_from
net_fifo_push-enqueue_example = net_fifo_push-enqueue sample_net (λ k. k + 7) 3 (omega arith)

vq_chain-length_example :
    (length (vq_chain true sample_ram 0x80000010 8 0) ≤ 8)
    × (length (vq_chain true sample_ram 0x80000010 8 0) ≤ 256)
vq_chain-length_example = vq_chain-length true sample_ram 0x80000010 8 0

-- A queue of eight whose rings stand at 0x100 and 0x200, where the driver published one chain.
abbrev sample_virtio : Virtio
sample_virtio = record (virtio_reset) {
  queue_num = 8;
  queue_ready = 1;
  avail_addr = 0x80000100;
  used_addr = 0x80000200;
}

virtio_notify-Serves_example :
    let idx = load16 sample_ram.bytes 0x102 in
    let start : Queue = record {
      bytes = sample_ram.bytes;
      disk = no_disk;
      virtio = sample_virtio;
    } in
    let after = virtio_notify true sample_ram no_disk sample_virtio in
    (end : Queue) × (Serves true sample_ram 0x100 0x200 (u16 (idx + 2 ^ 16 - 0)) start end
      × ((end.virtio.last_avail ≡ idx)
          × ((after ≡ asserted end) × (bit 0 after.virtio.interrupt_status ≡ 1))))
unfolding quanta.Device.Virtqueue.dma_ptr
virtio_notify-Serves_example =
    virtio_notify-Serves true sample_ram no_disk sample_virtio 0x100 0x200 (λ i. ground arith)
      (omega arith) (omega arith) (omega arith) (omega arith) refl refl

-- Two harts, of which the second is stopped and has a reservation.
abbrev pair_machine : Machine
pair_machine = record user_machine {
  harts = λ i. record user_hart { hsm_state = i; reserve_valid = true; reserve_addr = 0x80000004 };
  mem = record sample_memory { plat = some (plat_set_harts plat_init 2) };
}

hart_start-IsFresh_example :
    let fresh = hsm_enter (pair_machine.harts 1) 0x80000400 9 in
    IsFresh fresh 0 0x80000400 9 × ((hart_start pair_machine 0x80000400 9 (some 1)).harts 1 ≡ fresh)
hart_start-IsFresh_example = hart_start-IsFresh pair_machine 0x80000400 9 1 (ground arith)

break_reservation-holds_example :
    holds ((break_reservation pair_machine 0x80000007).harts 1) 0x80000004 ≡ false
unfolding quanta.Cpu.Access.Reservation.reaches plat_set_harts
break_reservation-holds_example = break_reservation-holds pair_machine 0x80000007 1 0x80000004

commit-instret_example :
    let after = hart (commit 0x13 (0x80000014, user_machine)) in
    (after.instret ≡ 8)
    × ((after.trapped || after.halted) ≡ false)
    × ((after.pc ≡ sext_xlen user_hart 0x80000014))
commit-instret_example = commit-instret 0x13 0x80000014 user_machine

-- A user's hart under that page table.
abbrev paging_hart : Hart
paging_hart = record user_hart { csr = λ a. if a == satp then 0x80080000 else 0 }

translate_page-again_example :
    let w = sv32 0x80080000 in
    let o = translate_page w paging_hart sample_memory 0x1234 acc_load 0 in
    translate_page w o.cpu o.mem 0x1234 acc_load 0 ≡ o
unfolding sv32 quanta.Mmu.Lookup.is_physical translate_page quanta.Mmu.tlb_hit quanta.Mmu.after_walk
    quanta.Mmu.finish quanta.Mmu.walk_from quanta.Mmu.walk_level quanta.Mmu.read_pte
    quanta.Mmu.at_entry quanta.Mmu.classify quanta.Mmu.perm_ok quanta.Mmu.kind_ok
    quanta.Mmu.leaf_ppn index_of quanta.Memory.device_at quanta.Device.Platform.plat_contains
    quanta.Device.Platform.in_window quanta.Memory.mem_read32 quanta.Memory.read_at
    quanta.Memory.ram_read quanta.Ram.load32
translate_page-again_example =
    translate_page-again (sv32 0x80080000) paging_hart sample_memory 0x1234 acc_load 0 (omega arith)
      refl

-- A 32-bit executable of one segment with four bytes at 0x80000000.
abbrev sample_elf : File
sample_elf = record {
  bytes = λ i.
      if i == 0
      then 0x7f
      else if i == 1
      then 0x45
      else if i == 2
      then 0x4c
      else if i == 3
      then 0x46
      else if i == 4
      then 1
      else if i == 5
      then 1
      else if i == 16
      then 2
      else if i == 18
      then 243
      else if i == 27
      then 0x80
      else if i == 28
      then 52
      else if i == 42
      then 32
      else if i == 44
      then 1
      else if i == 52
      then 1
      else if i == 56
      then 84
      else if i == 63
      then 0x80
      else if i == 68
      then 4
      else if i == 72
      then 4
      else 0;
  len = 88;
}

-- What its load gives.
abbrev sample_loaded : Loaded
sample_loaded = record {
  mem = record {
    ram = record {
      bytes = λ k. if leb 0 k && ltb k (0 + 4) then sample_elf.bytes (84 + (k - 0)) else 0;
      base = 0x80000000;
      size = 0x10004;
    };
    fault = false;
    fault_addr = 0;
    plat = none;
  };
  entry = 0x80000000;
  xlen = 32;
}

elf_load-bounds_example :
    (0x80000000 + 0x10004 ≤ 2 ^ 32)
    × ((0x80000000 ≤ 0x80000000) × (0x80000000 < 0x80000000 + 0x10004))
    × ((0x10000 < 0x10004) × (0x10004 ≤ 0x10000000))
unfolding quanta.Elf.elf_load quanta.Elf.load_image quanta.Elf.and_then quanta.Elf.check_header
    quanta.Elf.table_of quanta.Elf.measure quanta.Elf.measure_entry quanta.Elf.measure_segment
    quanta.Elf.read_phdr quanta.Elf.region quanta.Elf.load_segments quanta.Elf.load_segment
    quanta.Elf.copied quanta.Elf.at_entry quanta.Memory.mem_init quanta.Memory.mem_load
    quanta.Memory.load_at index_of quanta.Ram.load32 quanta.Ram.load16
elf_load-bounds_example = elf_load-bounds true 0 (some sample_elf) sample_loaded refl

udiv128by64-divides_example :
    ((udiv128by64 (mk128 1 5) 3).0 * 3 + (udiv128by64 (mk128 1 5) 3).1 ≡ 1 * 2 ^ 64 + 5)
    × ((udiv128by64 (mk128 1 5) 3).1 < 3)
udiv128by64-divides_example =
    udiv128by64-divides (mk128 1 5) 3 (omega arith) (omega arith) (omega arith)
