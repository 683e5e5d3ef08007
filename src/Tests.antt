-- ===== src/Tests.antt =====
-- The theorems at concrete inputs.
pub mod Models
pub mod System
pub mod Net
pub mod Gdb
pub mod Dtb
pub mod Engine
use quanta.Common.{
  ℕ, zero, suc, ◌+◌, ◌-◌, ◌*◌, ◌/◌, ◌%◌, ◌^◌, ◌≤◌, ◌<◌, ◌≡◌, ◌≢◌, ◌⊎◌, arith, Bool, true, false,
  ◌==◌, ltb, if◌then◌else◌, Option, none, some, List, [], ◌∷◌, ◌++◌, refl, bit_and,
}
use quanta.Common.Bits.{bit}
use quanta.Common.Word.{u64, sext32, ◌<<◌, update}
use quanta.Decode.{opcode, rd, imm_j}
use quanta.Decode.Fields.{sign_fill}
use quanta.Decode.Csr.{mstatus, sstatus}
use quanta.Cpu.{Hart, none_yet, reg_write, priv_u, priv_m}
use quanta.Cpu.Scan.{bm_clz}
use quanta.Cpu.Scan.Count.{bm_clz_lem}
use quanta.Cpu.Muldiv.{mulhu64, muldiv64}
use quanta.Cpu.Muldiv.High.{mulhu64_lem}
use quanta.Cpu.Muldiv.Division.{muldiv64-division}
use quanta.Cpu.Alu.{taken}
use quanta.Cpu.Alu.Registers.{alu-WritesRd, alu-IsSext, IsSext, WritesRd}
use quanta.Cpu.Control.{alu, csr_write, csr_read}
use quanta.Cpu.Control.Window.{csr_write-sstatus}
use quanta.Cpu.Interrupt.{deliverable, irq_order, take_interrupt}
use quanta.Cpu.Interrupt.Priority.{NoneReady, deliverable_first, take_interrupt-priv, ready}
use quanta.Cpu.Status.{sstatus_mask}
use quanta.Cpu.Trap.{exec_mret, enter_trap}
use quanta.Machine.{Machine, hart, set_cpu}
use quanta.Cpu.Trap.Return.{exec_mret-enter_trap}

-- A hart in user mode with one register set and some interrupts enabled.
abbrev pub user_hart : Hart
user_hart = record {
  xlen = 32;
  regs = λ _. 0;
  fregs = λ _. 0;
  csr = λ a. if a == mstatus then 0x8 else 0x888;
  pc = 0x80000010;
  hartid = 0;
  priv = priv_u;
  halted = false;
  halt_reason = none_yet;
  exit_code = 0;
  instret = 7;
  trapped = false;
  sbi_timer_armed = false;
  hsm_state = 0;
  reserve_valid = false;
  reserve_addr = 0;
  tlb = λ _. record { valid = false; vpn = 0; asid = 0; ppn = 0; pte_flags = 0 };
}

-- A machine whose harts are all that one, with four bytes of RAM and no devices.
abbrev pub user_machine : Machine
user_machine = record {
  harts = λ _. user_hart;
  cur = 0;
  mem = record {
    ram = record { bytes = λ _. 0; base = 0x80000000; size = 4 };
    fault = false;
    fault_addr = 0;
    plat = none;
  };
  cache = none;
  dcaches = λ _. none;
  console = [];
}

muldiv64-division_example :
    (u64 (muldiv64 4 (2 ^ 63) (2 ^ 64 - 1) * (2 ^ 64 - 1) + muldiv64 6 (2 ^ 63) (2 ^ 64 - 1))
      ≡ 2 ^ 63)
    × (u64 (muldiv64 5 (2 ^ 63) (2 ^ 64 - 1) * (2 ^ 64 - 1) + muldiv64 7 (2 ^ 63) (2 ^ 64 - 1))
        ≡ 2 ^ 63)
muldiv64-division_example = muldiv64-division (2 ^ 63) (2 ^ 64 - 1) (omega arith) (omega arith)

mulhu64_example : mulhu64 (2 ^ 64 - 1) (2 ^ 64 - 3) ≡ 2 ^ 64 - 4
mulhu64_example = mulhu64_lem (2 ^ 64 - 1) (2 ^ 64 - 3) (omega arith) (omega arith)

exec_mret-enter_trap_example :
    (exec_mret (set_cpu user_machine (enter_trap user_hart 8 0 false))).0 ≡ 0x80000010
    × ((hart (exec_mret (set_cpu user_machine (enter_trap user_hart 8 0 false))).1).priv ≡ priv_u)
    × (bit 3
          ((hart (exec_mret (set_cpu user_machine (enter_trap user_hart 8 0 false))).1).csr mstatus)
        ≡ 1)
exec_mret-enter_trap_example = exec_mret-enter_trap user_machine 8 0 (omega arith) (omega arith)

-- ADDI x5, x0, 7.
abbrev addi : ℕ
addi = 0x00700293

alu-WritesRd_example : WritesRd user_hart addi (reg_write user_hart 5 7)
unfolding alu opcode reg_write quanta.Cpu.Alu.exec_op_imm quanta.Cpu.Alu.or_else
    quanta.Cpu.Bitmanip.exec_bitmanip_imm quanta.Cpu.Bitmanip.write_back
    quanta.Cpu.Bitmanip.bitmanip_imm quanta.Decode.funct3 rd quanta.Cpu.Alu.base_result
    quanta.Cpu.reg_read quanta.Decode.rs1 quanta.Decode.imm_i
alu-WritesRd_example = alu-WritesRd user_hart addi (reg_write user_hart 5 7) refl

alu-IsSext_example : IsSext (reg_write user_hart 5 7)
unfolding alu opcode reg_write quanta.Cpu.Alu.exec_op_imm quanta.Cpu.Alu.or_else
    quanta.Cpu.Bitmanip.exec_bitmanip_imm quanta.Cpu.Bitmanip.write_back
    quanta.Cpu.Bitmanip.bitmanip_imm quanta.Decode.funct3 rd quanta.Cpu.Alu.base_result
    quanta.Cpu.reg_read quanta.Decode.rs1 quanta.Decode.imm_i
alu-IsSext_example =
    alu-IsSext user_hart (reg_write user_hart 5 7) addi (refl, λ i narrow. refl) refl

take_interrupt-priv_example : user_hart.priv ≤ (take_interrupt (some 0x80) user_hart).1.priv
unfolding take_interrupt quanta.Cpu.Interrupt.effective_mip quanta.Cpu.Interrupt.live_mip
    quanta.Cpu.Interrupt.deliver deliverable quanta.Cpu.Interrupt.gate_open
    quanta.Cpu.Interrupt.to_supervisor quanta.Cpu.Interrupt.s_on
take_interrupt-priv_example = take_interrupt-priv (some 0x80) user_hart (omega arith) refl

deliverable_first_example :
    (ready user_hart 0x88 3 ≡ true)
    × ((before : List ℕ) × ((after : List ℕ) × ((irq_order ≡ before ++ 3 ∷ after)
            × NoneReady user_hart 0x88 before)))
unfolding deliverable quanta.Cpu.Interrupt.gate_open quanta.Cpu.Interrupt.to_supervisor
    quanta.Cpu.Interrupt.s_on
deliverable_first_example = deliverable_first user_hart 0x88 3 irq_order refl

csr_write-sstatus_example :
    (bit 1 ((csr_write user_hart sstatus 0x2).csr mstatus) ≡ 1)
    × (bit 1 (csr_read none (csr_write user_hart sstatus 0x2) sstatus) ≡ 1)
csr_write-sstatus_example = csr_write-sstatus none user_hart 0x2 1 (omega arith)

-- A register of RV32 that is negative, with the bits 63 to 32 that it has in the hart.
bm_clz_lem_example :
    let v = 2 ^ 64 - 16 in
    (bm_clz v 32 < 32)
    × ((2 ^ (32 - 1 - bm_clz v 32) ≤ v % 2 ^ 32) × (v % 2 ^ 32 < 2 ^ (32 - bm_clz v 32)))
bm_clz_lem_example = bm_clz_lem (2 ^ 64 - 16) 32 (omega arith)
