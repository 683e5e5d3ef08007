-- ===== src/Cpu/Alu/Branch.antt =====
-- Registers hold a 32-bit value sign-extended to 64 bits on RV32: what that means for BRANCH.
use quanta.Common.{ℕ, ◌^◌, ◌<◌, ◌≡◌, arith, Bool, false, not, ◌==◌, ltb, if◌then◌else◌}
use quanta.Common.Word.{sext32, slt32, slt64}
use quanta.Cpu.Alu.{taken}

-- The branch conditions on 32-bit operands.
abbrev pub taken_32 : ℕ → ℕ → ℕ → Bool
taken_32 f3 x y =
    if f3 == 0x0
    then x == y
    else if f3 == 0x1
    then not (x == y)
    else if f3 == 0x4
    then slt32 x y
    else if f3 == 0x5
    then not (slt32 x y)
    else if f3 == 0x6
    then ltb x y
    else if f3 == 0x7
    then not (ltb x y)
    else false

module _ (x y : ℕ) (hx : x < 2 ^ 32) (hy : y < 2 ^ 32) where
  eq-sext32 : (sext32 x == sext32 y) ≡ (x == y)
  eq-sext32 = ground arith

  ltb-sext32 : ltb (sext32 x) (sext32 y) ≡ ltb x y
  ltb-sext32 = ground arith

  slt64-sext32 : slt64 (sext32 x) (sext32 y) ≡ slt32 x y
  slt64-sext32 = ground arith

-- A branch on sign-extended operands goes the way that the 32-bit operands say, for all six
-- conditions, signed and unsigned.
pub taken-sext32 :
    (f3 x y : ℕ) → x < 2 ^ 32 → y < 2 ^ 32 → taken f3 (sext32 x) (sext32 y) ≡ taken_32 f3 x y
unfolding taken
taken-sext32 f3 x y hx hy = rw (eq-sext32 x y hx hy, ltb-sext32 x y hx hy, slt64-sext32 x y hx hy)
