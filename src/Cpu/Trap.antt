-- ===== src/Cpu/Trap.antt =====
-- Traps of src/cpu.c: entry, delegation, the returns, and the built-in environment below a guest
-- that installs no handler: src/sbi.c for a supervisor, src/syscall.c for the rest.
pub mod Return
use quanta.Common.{ℕ, ◌+◌, ◌*◌, Bool, true, ◌&&◌, ◌==◌, leb, ltb, if◌then◌else◌, nonzero}
use quanta.Common.Word.{◌|||◌, ◌&&&◌, ◌<<◌, ◌>>◌, u64, clear64, test_bits, update, not64}
use quanta.Decode.Csr.{mstatus, mepc, mcause, mtval, mtvec, medeleg, sepc, scause, stval, stvec}
use quanta.Cpu.{
  Hart, HaltReason, priv_u, priv_s, priv_m, cause_interrupt, ebreak, illegal_insn, mem_fault,
}
use quanta.Machine.{Machine, hart, set_cpu}
use quanta.Sbi.{sbi_call}
use quanta.Syscall.{syscall_dispatch}
use quanta.Cpu.Status.{
  mstatus_sie, mstatus_mie, mstatus_spie, mstatus_mpie, mstatus_spp, mstatus_mpp, mstatus_mprv,
  cause_breakpoint, cause_ecall_u, cause_ecall_s, cause_ecall_m, cause_illegal_insn,
}

abbrev pub halt : Machine → HaltReason → Machine
halt m reason = let cpu = hart m in set_cpu m (record cpu { halt_reason = reason; halted = true })

unfoldable pub legacy_trap : Machine → ℕ → Machine
legacy_trap m cause =
    if cause == cause_ecall_s
    then sbi_call m
    else if cause == cause_ecall_u
    then syscall_dispatch m
    else if cause == cause_ecall_m
    then syscall_dispatch m
    else if cause == cause_breakpoint
    then halt m ebreak
    else if ltb cause 2
    then halt m mem_fault
    else if leb 4 cause && ltb cause 8
    then halt m mem_fault
    else halt m illegal_insn

-- The status word that trap entry to S-mode and to M-mode stacks.
unfoldable pub stack_s : ℕ → ℕ → ℕ
stack_s s0 prev =
    let s1 = clear64 s0 mstatus_spie ||| (if test_bits s0 mstatus_sie then mstatus_spie else 0) in
    let s2 = clear64 s1 mstatus_sie in
    clear64 s2 mstatus_spp ||| (if nonzero prev then mstatus_spp else 0)

unfoldable pub stack_m : ℕ → ℕ → ℕ
stack_m s0 prev =
    let s1 = clear64 s0 mstatus_mpie ||| (if test_bits s0 mstatus_mie then mstatus_mpie else 0) in
    let s2 = clear64 s1 mstatus_mie in clear64 s2 mstatus_mpp ||| prev << 11

-- The handler's address.
unfoldable pub vector : Hart → ℕ → ℕ → ℕ
vector cpu cause tvec =
    let intbit = cause_interrupt cpu in
    let base = clear64 tvec 3 in
    if test_bits cause intbit && test_bits tvec 1
    then u64 (base + u64 (4 * clear64 cause intbit))
    else base

unfoldable pub enter_trap : Hart → ℕ → ℕ → Bool → Hart
enter_trap cpu cause tval to_s =
    let s = cpu.csr mstatus in
    if to_s
    then record cpu {
      csr =
          update (update (update (update cpu.csr sepc cpu.pc) scause cause) stval tval) mstatus
            (stack_s s cpu.priv);
      priv = priv_s;
      pc = vector cpu cause (cpu.csr stvec);
      trapped = true;
    }
    else record cpu {
      csr =
          update (update (update (update cpu.csr mepc cpu.pc) mcause cause) mtval tval) mstatus
            (stack_m s cpu.priv);
      priv = priv_m;
      pc = vector cpu cause (cpu.csr mtvec);
      trapped = true;
    }

-- `to_s` in `raise_trap`.
unfoldable pub delegated : Hart → ℕ → Bool
delegated cpu cause = leb cpu.priv priv_s && test_bits (cpu.csr medeleg >> cause) 1

unfoldable pub raise_trap : Machine → ℕ → ℕ → Machine
raise_trap m cause tval =
    let cpu = hart m in
    let to_s = delegated cpu cause in
    let tvec = if to_s then cpu.csr stvec else cpu.csr mtvec in
    if clear64 tvec 3 == 0 then legacy_trap m cause else set_cpu m (enter_trap cpu cause tval to_s)

-- The status word that MRET and SRET restore.
unfoldable pub unstack_m : ℕ → ℕ
unstack_m s0 =
    let mpp = (s0 &&& mstatus_mpp) >> 11 in
    let s1 = clear64 s0 mstatus_mie ||| (if test_bits s0 mstatus_mpie then mstatus_mie else 0) in
    let s2 = clear64 (s1 ||| mstatus_mpie) mstatus_mpp in
    if mpp == priv_m then s2 else clear64 s2 mstatus_mprv

unfoldable pub unstack_s : ℕ → ℕ
unstack_s s0 =
    let s1 = clear64 s0 mstatus_sie ||| (if test_bits s0 mstatus_spie then mstatus_sie else 0) in
    clear64 (clear64 (s1 ||| mstatus_spie) mstatus_spp) mstatus_mprv

-- The registers that a return sets.
unfoldable pub leave_m : Hart → Hart
leave_m cpu =
    let s = cpu.csr mstatus in
    record cpu { csr = update cpu.csr mstatus (unstack_m s); priv = (s &&& mstatus_mpp) >> 11 }

unfoldable pub leave_s : Hart → Hart
leave_s cpu =
    let s = cpu.csr mstatus in
    record cpu {
      csr = update cpu.csr mstatus (unstack_s s);
      priv = if test_bits s mstatus_spp then priv_s else priv_u;
    }

-- The returns, with the next PC.
unfoldable pub exec_mret : Machine → ℕ × Machine
exec_mret m =
    let cpu = hart m in
    let illegal = raise_trap m cause_illegal_insn 0 in
    if ltb cpu.priv priv_m
    then ((hart illegal).pc, illegal)
    else (cpu.csr mepc, set_cpu m (leave_m cpu))

unfoldable pub exec_sret : Machine → ℕ × Machine
exec_sret m =
    let cpu = hart m in
    let illegal = raise_trap m cause_illegal_insn 0 in
    if ltb cpu.priv priv_s
    then ((hart illegal).pc, illegal)
    else (cpu.csr sepc, set_cpu m (leave_s cpu))
