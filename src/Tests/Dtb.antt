-- ===== src/Tests/Dtb.antt =====
-- The theorems on the device tree builder, at concrete inputs.
use quanta.Common.{◌≡◌, refl, true, [], ◌∷◌}
use quanta.Dtb.{Fdt, name_at, intern, codes}
use quanta.Dtb.Tree.{DtbConfig, begun}
use quanta.Dtb.Names.{intern-name_at}

-- One hart with 128 MiB, a disk and an initramfs.
abbrev virt : DtbConfig
virt = record {
  mem_base = 0x80000000;
  mem_size = 0x8000000;
  test_base = 0x100000;
  test_size = 0x1000;
  clint_base = 0x2000000;
  clint_size = 0x10000;
  plic_base = 0xc000000;
  plic_size = 0x600000;
  uart_base = 0x10000000;
  uart_size = 0x100;
  uart_irq = 10;
  plic_ndev = 31;
  boot_hart = 0;
  nharts = 1;
  timebase_freq = 10000000;
  isa = 114 ∷ 118 ∷ 51 ∷ 50 ∷ [];
  mmu_type = 115 ∷ 118 ∷ [];
  bootargs = [];
  initrd_start = 0x84000000;
  initrd_end = 0x84001000;
  virtio_net_base = 0;
  virtio_net_size = 0;
  virtio_net_irq = 0;
  virtio_blk_base = 0x10001000;
  virtio_blk_size = 0x1000;
  virtio_blk_irq = 1;
}

-- A builder whose strings block is empty.
abbrev builder : Fdt
builder = begun (λ k. 7) 64

intern-name_at_example :
    name_at (intern builder (codes "reg")).1.strings (intern builder (codes "reg")).0 (codes "reg")
    ≡ true
unfolding intern codes quanta.Dtb.find_name quanta.Dtb.append_name quanta.Dtb.size
intern-name_at_example = intern-name_at builder (codes "reg") refl
