-- ===== src/Cpu/Control.antt =====
-- CSR access and the SYSTEM instructions of src/cpu.c, and the ALU step that src/jit.c shares with
-- the interpreter. `devices` is as in `Interrupt`.
pub mod Window
use quanta.Common.{
  ℕ, ◌+◌, ◌==◌, Bool, true, false, ◌&&◌, ◌||◌, ltb, not, if◌then◌else◌, Option, none, some,
}
use quanta.Common.Word.{◌|||◌, ◌&&&◌, ◌<<◌, ◌>>◌, u32, u64, clear64, test_bits, update}
use quanta.Decode.{opcode, rd, funct3, rs1}
use quanta.Decode.Csr.{
  fflags, frm, fcsr, cycle, time, instret, cycleh, timeh, instreth, sstatus, sie, sip, mstatus, mie,
  mip, mtopi, stopi, satp, mstatush, menvcfg, menvcfgh, stimecmp, stimecmph,
}
use quanta.Decode.Op.{imm, imm_32, reg, reg_32}
use quanta.Mmu.Mode.{mmu_satp_supported}
use quanta.Machine.{Machine, hart, set_cpu}
use quanta.Cpu.{Hart, priv_s, reg_read, reg_write, mmu_flush}
use quanta.Cpu.Alu.{exec_op_imm, exec_op, exec_op_imm32, exec_op32}
use quanta.Cpu.Interrupt.{topi_value}
use quanta.Cpu.Status.{
  sstatus_mask, s_int_mask, menvcfg_stce, cause_illegal_insn, cause_breakpoint, cause_ecall_u,
}
use quanta.Cpu.Trap.{raise_trap, exec_mret, exec_sret}

unfoldable pub csr_read : Option ℕ → Hart → ℕ → ℕ
csr_read devices cpu addr =
    if addr == fflags
    then cpu.csr fcsr &&& 0x1f
    else if addr == frm
    then cpu.csr fcsr >> 5 &&& 0x7
    else if addr == cycle || addr == time || addr == instret
    then cpu.instret
    else if addr == cycleh || addr == timeh || addr == instreth
    then cpu.instret >> 32
    else if addr == sstatus
    then cpu.csr mstatus &&& sstatus_mask
    else if addr == sie
    then cpu.csr mie &&& s_int_mask
    else if addr == sip
    then cpu.csr mip &&& s_int_mask
    else if addr == mtopi
    then topi_value devices cpu false
    else if addr == stopi
    then topi_value devices cpu true
    else cpu.csr addr

-- A register of the file.
abbrev pub set_csr : Hart → ℕ → ℕ → Hart
set_csr cpu addr value = record cpu { csr = update cpu.csr addr value }

unfoldable pub csr_write : Hart → ℕ → ℕ → Hart
csr_write cpu addr value =
    if addr == fcsr
    then set_csr cpu fcsr (value &&& 0xff)
    else if addr == fflags
    then set_csr cpu fcsr (clear64 (cpu.csr fcsr) 0x1f ||| (value &&& 0x1f))
    else if addr == frm
    then set_csr cpu fcsr (clear64 (cpu.csr fcsr) 0xe0 ||| (value &&& 0x7) << 5)
    else if addr == sstatus
    then set_csr cpu mstatus (clear64 (cpu.csr mstatus) sstatus_mask ||| (value &&& sstatus_mask))
    else if addr == sie
    then set_csr cpu mie (clear64 (cpu.csr mie) s_int_mask ||| (value &&& s_int_mask))
    else if addr == sip
    then set_csr cpu mip (clear64 (cpu.csr mip) s_int_mask ||| (value &&& s_int_mask))
    else if addr == satp
    then (if mmu_satp_supported cpu value then mmu_flush (set_csr cpu satp value) else cpu)
    else set_csr cpu addr value

-- The tests of `exec_csr`, from the instruction's address, funct3, rs1 and rd fields.
unfoldable pub writes : ℕ → ℕ → Bool
writes f3 rs1f = f3 &&& 0x3 == 0x1 || not (rs1f == 0)

unfoldable pub reads : ℕ → ℕ → Bool
reads f3 rdf = not (f3 &&& 0x3 == 0x1) || not (rdf == 0)

unfoldable pub rv32_only_csr : ℕ → Bool
rv32_only_csr addr =
    addr == cycleh
    || addr == timeh
    || addr == instreth
    || addr == mstatush
    || addr == menvcfgh
    || addr == stimecmph

unfoldable pub sstc_denied : Hart → ℕ → Bool
sstc_denied cpu addr =
    (addr == stimecmp || addr == stimecmph)
    && cpu.priv == priv_s
    && not (test_bits (cpu.csr menvcfg) menvcfg_stce)

unfoldable pub csr_denied : Hart → ℕ → Bool → Bool
csr_denied cpu addr writing =
    ltb cpu.priv (addr >> 8 &&& 0x3)
    || writing && addr >> 10 &&& 0x3 == 0x3
    || cpu.xlen == 64 && rv32_only_csr addr
    || sstc_denied cpu addr

-- The value that a write commits.
unfoldable pub csr_operand : ℕ → ℕ → ℕ → ℕ
csr_operand f3 old src =
    if f3 &&& 0x3 == 0x1 then src else if f3 &&& 0x3 == 0x2 then old ||| src else clear64 old src

unfoldable pub exec_csr : Option ℕ → Machine → ℕ → Machine
exec_csr devices m inst =
    let cpu = hart m in
    let addr = inst >> 20 &&& 0xfff in
    let f3 = funct3 inst in
    let rs1f = rs1 inst in
    let src = if test_bits f3 0x4 then rs1f else reg_read cpu rs1f in
    let old = if reads f3 (rd inst) then csr_read devices cpu addr else 0 in
    let written = if writes f3 rs1f then csr_write cpu addr (csr_operand f3 old src) else cpu in
    if csr_denied cpu addr (writes f3 rs1f)
    then raise_trap m cause_illegal_insn inst
    else set_cpu m (reg_write written (rd inst) old)

-- A state with the PC after a SYSTEM instruction.
abbrev pub next : Machine → ℕ × Machine
next m = (u64 ((hart m).pc + 4), m)

-- SYSTEM, with the next PC.
unfoldable pub exec_system : Option ℕ → Machine → ℕ → ℕ × Machine
exec_system devices m inst =
    let cpu = hart m in
    let f3 = funct3 inst in
    let f12 = inst >> 20 in
    let illegal = raise_trap m cause_illegal_insn inst in
    if f3 == 0
    then (if inst >> 25 == 0x09
        then next (if ltb cpu.priv priv_s then illegal else set_cpu m (mmu_flush cpu))
        else if f12 == 0x000
        then next (raise_trap m (cause_ecall_u + cpu.priv) 0)
        else if f12 == 0x001
        then next (raise_trap m cause_breakpoint 0)
        else if f12 == 0x302
        then exec_mret m
        else if f12 == 0x102
        then exec_sret m
        else if f12 == 0x105
        then next m
        else next illegal)
    else if f3 == 0x4
    then next illegal
    else next (exec_csr devices m inst)

-- The instruction of `cpu_exec_alu`, `none` where it is illegal.
unfoldable pub alu : Hart → ℕ → Option Hart
alu cpu inst =
    let op = opcode inst in
    if op == imm
    then some (exec_op_imm cpu inst)
    else if op == imm_32
    then exec_op_imm32 cpu inst
    else if op == reg
    then some (exec_op cpu inst)
    else if op == reg_32
    then exec_op32 cpu inst
    else none

unfoldable pub alu_outcome : Machine → ℕ → Option Hart → Machine
alu_outcome m inst none = raise_trap m cause_illegal_insn inst
alu_outcome m inst (some after) = set_cpu m after

-- The C's 1, that the instruction did not retire, and the state.
unfoldable pub cpu_exec_alu : Machine → ℕ → Bool × Machine
cpu_exec_alu m inst =
    let cpu = record (hart m) { trapped = false } in
    let after = alu_outcome (set_cpu m cpu) inst (alu cpu inst) in
    ((hart after).trapped || (hart after).halted, after)
