-- ===== src/Cpu/Alu.antt =====
-- The integer instructions of src/cpu.c: OP-IMM, OP, their word forms, and BRANCH. `none` stands
-- for an instruction that is illegal: the C raises the trap there, as `alu_outcome` of
-- `Control` does.
pub mod Branch
pub mod Registers
use quanta.Common.{ℕ, ◌+◌, Bool, false, ◌==◌, ltb, not, if◌then◌else◌, Option, none, some}
use quanta.Common.Word.{
  ◌|||◌, ◌^^^◌, ◌&&&◌, ◌>>◌, u32, u64, shl32, shl64, sub32, sub64, slt64, asr32, asr64, sext32,
}
use quanta.Decode.{rd, funct3, funct7, rs1, rs2, imm_i, imm_b}
use quanta.Cpu.{Hart, reg_read, reg_write}
use quanta.Cpu.Bitmanip.{
  exec_bitmanip_op, exec_bitmanip_imm, exec_bitmanip_op32, exec_bitmanip_imm32,
}
use quanta.Cpu.Muldiv.{exec_muldiv, muldivw}

-- The first of two results: the C returns after a helper that executed the instruction.
unfoldable pub or_else {ℓ} : {A : Type ℓ} → Option A → A → A
or_else none a = a
or_else (some b) a = b

unfoldable pub or_try {ℓ} : {A : Type ℓ} → Option A → Option A → Option A
or_try none a = a
or_try (some b) a = some b

-- The right shifts, at the architectural width.
unfoldable pub shift_right : ℕ → Bool → ℕ → ℕ → ℕ
shift_right xlen signed a shamt =
    if signed
    then (if xlen == 64 then asr64 a shamt else sext32 (asr32 (u32 a) shamt))
    else (if xlen == 64 then a >> shamt else u32 a >> shamt)

-- `result` in `exec_op_imm` and in `exec_op`. `alt` selects SRAI or SRA, and in `exec_op` SUB.
unfoldable pub base_result : ℕ → ℕ → ℕ → Bool → Bool → ℕ → ℕ
base_result xlen f3 a alt subtract b =
    let shamt = u32 b &&& (if xlen == 64 then 0x3f else 0x1f) in
    if f3 == 0x0
    then (if subtract then sub64 a b else u64 (a + b))
    else if f3 == 0x1
    then shl64 a shamt
    else if f3 == 0x2
    then (if slt64 a b then 1 else 0)
    else if f3 == 0x3
    then (if ltb a b then 1 else 0)
    else if f3 == 0x4
    then a ^^^ b
    else if f3 == 0x5
    then shift_right xlen alt a shamt
    else if f3 == 0x6
    then a ||| b
    else a &&& b

unfoldable pub exec_op_imm : Hart → ℕ → Hart
exec_op_imm cpu inst = or_else (exec_bitmanip_imm cpu inst) (
    reg_write cpu (rd inst) (
      base_result cpu.xlen (funct3 inst) (reg_read cpu (rs1 inst)) (inst >> 30 &&& 1 == 1) false
        (sext32 (imm_i inst))))

unfoldable pub exec_op : Hart → ℕ → Hart
exec_op cpu inst =
    let alt = funct7 inst == 0x20 in
    if funct7 inst == 0x01
    then exec_muldiv cpu inst
    else or_else (exec_bitmanip_op cpu inst) (
        reg_write cpu (rd inst) (
          base_result cpu.xlen (funct3 inst) (reg_read cpu (rs1 inst)) alt alt
            (reg_read cpu (rs2 inst))))

-- A 32-bit result, sign-extended to its destination.
unfoldable pub write_word : Hart → ℕ → Option ℕ → Option Hart
write_word cpu inst none = none
write_word cpu inst (some result) = some (reg_write cpu (rd inst) (sext32 result))

-- `result` in `exec_op_imm32` and in `exec_op32`.
unfoldable pub word_result : ℕ → ℕ → Bool → Bool → ℕ → Option ℕ
word_result f3 a alt subtract b =
    let shamt = b &&& 0x1f in
    if f3 == 0x0
    then some (if subtract then sub32 a b else u32 (a + b))
    else if f3 == 0x1
    then some (shl32 a shamt)
    else if f3 == 0x5
    then some (if alt then asr32 a shamt else a >> shamt)
    else none

unfoldable pub exec_op_imm32 : Hart → ℕ → Option Hart
exec_op_imm32 cpu inst =
    if not (cpu.xlen == 64)
    then none
    else or_try (exec_bitmanip_imm32 cpu inst) (
        write_word cpu inst (
          word_result (funct3 inst) (u32 (reg_read cpu (rs1 inst))) (inst >> 30 &&& 1 == 1) false
            (imm_i inst)))

unfoldable pub exec_muldivw : Hart → ℕ → Option Hart
exec_muldivw cpu inst =
    write_word cpu inst
      (muldivw (funct3 inst) (u32 (reg_read cpu (rs1 inst))) (u32 (reg_read cpu (rs2 inst))))

unfoldable pub exec_op32 : Hart → ℕ → Option Hart
exec_op32 cpu inst =
    let alt = funct7 inst == 0x20 in
    if not (cpu.xlen == 64)
    then none
    else if funct7 inst == 0x01
    then exec_muldivw cpu inst
    else or_try (exec_bitmanip_op32 cpu inst) (
        write_word cpu inst (
          word_result (funct3 inst) (u32 (reg_read cpu (rs1 inst))) alt alt
            (u32 (reg_read cpu (rs2 inst)))))

-- `taken` in `exec_branch`.
unfoldable pub taken : ℕ → ℕ → ℕ → Bool
taken f3 a b =
    if f3 == 0x0
    then a == b
    else if f3 == 0x1
    then not (a == b)
    else if f3 == 0x4
    then slt64 a b
    else if f3 == 0x5
    then not (slt64 a b)
    else if f3 == 0x6
    then ltb a b
    else if f3 == 0x7
    then not (ltb a b)
    else false

unfoldable pub exec_branch : Hart → ℕ → ℕ → ℕ
exec_branch cpu inst ilen =
    if taken (funct3 inst) (reg_read cpu (rs1 inst)) (reg_read cpu (rs2 inst))
    then u64 (cpu.pc + sext32 (imm_b inst))
    else u64 (cpu.pc + ilen)
