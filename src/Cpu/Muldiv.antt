-- ===== src/Cpu/Muldiv.antt =====
-- The multiply and divide group of src/cpu.c: RV64M at full width, RV32M, and the word forms.
pub mod High
pub mod Division
use quanta.Common.{
  ℕ, ◌+◌, ◌-◌, ◌*◌, ◌/◌, ◌%◌, ◌^◌, ◌==◌, ltb, ◌&&◌, if◌then◌else◌, Option, none, some,
}
use quanta.Common.Int.{◌*ℤ◌, ◌/ℤ◌, ◌%ℤ◌, pos}
use quanta.Common.Word.{◌>>◌, u32, u64, sub64, signed32, signed64, of_ℤ32, of_ℤ64, asr64, sext32}
use quanta.Decode.{rd, funct3, rs1, rs2}
use quanta.Cpu.{Hart, reg_read, reg_write}

unfoldable pub mulhu64 : ℕ → ℕ → ℕ
mulhu64 a b =
    let alo = u32 a in
    let ahi = a >> 32 in
    let blo = u32 b in
    let bhi = b >> 32 in
    let lo_lo = u64 (alo * blo) in
    let lo_hi = u64 (alo * bhi) in
    let hi_lo = u64 (ahi * blo) in
    let hi_hi = u64 (ahi * bhi) in
    let cross = u64 (lo_lo >> 32 + u32 lo_hi + u32 hi_lo) in
    u64 (hi_hi + lo_hi >> 32 + hi_lo >> 32 + cross >> 32)

-- INT64_MIN, INT32_MIN, and -1 at both widths.
abbrev pub int64_min : ℕ
int64_min = 2 ^ 63

abbrev pub int32_min : ℕ
int32_min = 2 ^ 31

abbrev pub minus_one64 : ℕ
minus_one64 = 2 ^ 64 - 1

abbrev pub minus_one32 : ℕ
minus_one32 = 2 ^ 32 - 1

-- `sa < 0`.
abbrev pub is_neg64 : ℕ → ℕ → ℕ
is_neg64 a v = if ltb a (2 ^ 63) then 0 else v

-- `result` in `exec_muldiv64`, from funct3 and the operands.
unfoldable pub muldiv64 : ℕ → ℕ → ℕ → ℕ
muldiv64 f3 a b =
    if f3 == 0x0
    then u64 (a * b)
    else if f3 == 0x1
    then sub64 (sub64 (mulhu64 a b) (is_neg64 a b)) (is_neg64 b a)
    else if f3 == 0x2
    then sub64 (mulhu64 a b) (is_neg64 a b)
    else if f3 == 0x3
    then mulhu64 a b
    else if f3 == 0x4
    then (if b == 0
        then minus_one64
        else if a == int64_min && b == minus_one64
        then int64_min
        else of_ℤ64 (signed64 a /ℤ signed64 b))
    else if f3 == 0x5
    then (if b == 0 then minus_one64 else a / b)
    else if f3 == 0x6
    then (if b == 0
        then a
        else if a == int64_min && b == minus_one64
        then 0
        else of_ℤ64 (signed64 a %ℤ signed64 b))
    else (if b == 0 then a else a % b)

-- `result` in `exec_muldiv` on RV32.
unfoldable pub muldiv32 : ℕ → ℕ → ℕ → ℕ
muldiv32 f3 a b =
    if f3 == 0x0
    then u32 (u64 (a * b))
    else if f3 == 0x1
    then u32 (asr64 (of_ℤ64 (signed32 a *ℤ signed32 b)) 32)
    else if f3 == 0x2
    then u32 (asr64 (of_ℤ64 (signed32 a *ℤ pos b)) 32)
    else if f3 == 0x3
    then u32 (u64 (a * b) >> 32)
    else if f3 == 0x4
    then (if b == 0
        then minus_one32
        else if a == int32_min && b == minus_one32
        then int32_min
        else of_ℤ32 (signed32 a /ℤ signed32 b))
    else if f3 == 0x5
    then (if b == 0 then minus_one32 else a / b)
    else if f3 == 0x6
    then (if b == 0
        then a
        else if a == int32_min && b == minus_one32
        then 0
        else of_ℤ32 (signed32 a %ℤ signed32 b))
    else (if b == 0 then a else a % b)

-- `result` in `exec_muldivw`, `none` for an illegal instruction.
unfoldable pub muldivw : ℕ → ℕ → ℕ → Option ℕ
muldivw f3 a b =
    if f3 == 0x0
    then some (u32 (a * b))
    else if f3 == 0x4
    then some (
        if b == 0
        then minus_one32
        else if a == int32_min && b == minus_one32
        then int32_min
        else of_ℤ32 (signed32 a /ℤ signed32 b))
    else if f3 == 0x5
    then some (if b == 0 then minus_one32 else a / b)
    else if f3 == 0x6
    then some (
        if b == 0
        then a
        else if a == int32_min && b == minus_one32
        then 0
        else of_ℤ32 (signed32 a %ℤ signed32 b))
    else if f3 == 0x7
    then some (if b == 0 then a else a % b)
    else none

unfoldable pub exec_muldiv64 : Hart → ℕ → Hart
exec_muldiv64 cpu inst =
    reg_write cpu (rd inst)
      (muldiv64 (funct3 inst) (reg_read cpu (rs1 inst)) (reg_read cpu (rs2 inst)))

unfoldable pub exec_muldiv : Hart → ℕ → Hart
exec_muldiv cpu inst =
    if cpu.xlen == 64
    then exec_muldiv64 cpu inst
    else reg_write cpu (rd inst)
        (muldiv32 (funct3 inst) (u32 (reg_read cpu (rs1 inst))) (u32 (reg_read cpu (rs2 inst))))
