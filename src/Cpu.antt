-- ===== src/Cpu.antt =====
-- src/cpu.c and src/cpu.h: one hart, its registers, and the names that the executor shares. A
-- pointer to a device or a cache is not a field: what an operation needs of it is an argument.
pub mod Status
pub mod Scan
pub mod Bitmanip
pub mod Muldiv
pub mod Alu
pub mod Trap
pub mod Interrupt
pub mod Control
pub mod Access
pub mod Step
pub mod Float
use quanta.Common.{ℕ, ◌-◌, Bool, false, ◌==◌, if◌then◌else◌}
use quanta.Common.Word.{◌|||◌, ◌<<◌, shl64, sext32, update}
use quanta.Decode.Csr.{misa}

pub data HaltReason : Type 0 where
  none_yet : HaltReason
  exit : HaltReason
  ebreak : HaltReason
  illegal_insn : HaltReason
  unimp_system : HaltReason
  unknown_syscall : HaltReason
  mem_fault : HaltReason

-- The privileges.
abbrev pub priv_u : ℕ
priv_u = 0

abbrev pub priv_s : ℕ
priv_s = 1

abbrev pub priv_m : ℕ
priv_m = 3

-- `TlbEntry` of src/cpu.h.
pub record TlbEntry : Type 0 where
  pub valid : Bool
  pub vpn : ℕ
  pub asid : ℕ
  pub ppn : ℕ
  pub pte_flags : ℕ

pub record Hart : Type 0 where
  pub xlen : ℕ
  pub regs : ℕ → ℕ
  pub fregs : ℕ → ℕ
  pub csr : ℕ → ℕ
  pub pc : ℕ
  pub hartid : ℕ
  pub priv : ℕ
  pub halted : Bool
  pub halt_reason : HaltReason
  pub exit_code : ℕ
  pub instret : ℕ
  pub trapped : Bool
  pub sbi_timer_armed : Bool
  pub hsm_state : ℕ
  pub reserve_valid : Bool
  pub reserve_addr : ℕ
  pub tlb : ℕ → TlbEntry

unfoldable pub sext_xlen : Hart → ℕ → ℕ
sext_xlen cpu v = if cpu.xlen == 32 then sext32 v else v

unfoldable pub cause_interrupt : Hart → ℕ
cause_interrupt cpu = shl64 1 (cpu.xlen - 1)

-- `mmu_flush` of src/mmu.c, over all the entries at once.
unfoldable pub mmu_flush : Hart → Hart
mmu_flush cpu = record cpu { tlb = λ i. record (cpu.tlb i) { valid = false } }

-- `cpu0` is what the memory holds before: a TLB entry keeps its stale fields.
unfoldable pub cpu_init : Hart → ℕ → ℕ → Hart
cpu_init cpu0 entry_pc xlen =
    let mxl = if xlen == 64 then 2 else 1 in
    let extensions =
      1 << 1 ||| 1 << 2 ||| 1 << 3 ||| 1 << 5 ||| 1 << 8 ||| 1 << 12 ||| 1 << 18 ||| 1 << 20 in
    mmu_flush record cpu0 {
      xlen = xlen;
      regs = λ _. 0;
      fregs = λ _. 0;
      csr = update (λ _. 0) misa (shl64 mxl (xlen - 2) ||| extensions);
      pc = entry_pc;
      hartid = 0;
      priv = priv_m;
      halted = false;
      halt_reason = none_yet;
      exit_code = 0;
      instret = 0;
      trapped = false;
      sbi_timer_armed = false;
      hsm_state = 0;
      reserve_valid = false;
      reserve_addr = 0;
    }

unfoldable pub reg_read : Hart → ℕ → ℕ
reg_read cpu i = if i == 0 then 0 else cpu.regs i

unfoldable pub reg_write : Hart → ℕ → ℕ → Hart
reg_write cpu i value =
    if i == 0 then cpu else record cpu { regs = update cpu.regs i (sext_xlen cpu value) }
