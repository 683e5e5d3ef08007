-- ===== src/Common/Word.antt =====
-- C's fixed-width integers as native numbers. A signed value is kept as its bit pattern, and
-- `signed` is the integer that the pattern stands for.
use Prim.Native.Nat.{ℕ, ◌+◌, ◌-◌, ◌*◌, ◌/◌, ◌%◌, ◌^◌, bit_and, bit_or, bit_xor}
use mathlib.Core.Bool.{Bool}
use quanta.Common.Tests.{ltb, if◌then◌else◌, ◌==◌}
use quanta.Common.Int.{ℤ, pos, negsuc, ltb_ℤ}

abbrev pub u8 : ℕ → ℕ
u8 n = n % 2 ^ 8

abbrev pub u16 : ℕ → ℕ
u16 n = n % 2 ^ 16

abbrev pub u32 : ℕ → ℕ
u32 n = n % 2 ^ 32

abbrev pub u64 : ℕ → ℕ
u64 n = n % 2 ^ 64

-- C's bit operations. `|` and `&` bind looser than the shifts here, and `&` tighter than `|`.
infixl 55 ◌|||◌
infixl 56 ◌^^^◌
infixl 58 ◌&&&◌
abbrev pub ◌|||◌ : ℕ → ℕ → ℕ
a ||| b = bit_or a b

abbrev pub ◌^^^◌ : ℕ → ℕ → ℕ
a ^^^ b = bit_xor a b

abbrev pub ◌&&&◌ : ℕ → ℕ → ℕ
a &&& b = bit_and a b

-- The shifts before any wrap: the casts are written where C makes them.
infixl 75 ◌<<◌ ◌>>◌
abbrev pub ◌<<◌ : ℕ → ℕ → ℕ
x << k = x * 2 ^ k

abbrev pub ◌>>◌ : ℕ → ℕ → ℕ
x >> k = x / 2 ^ k

-- The shifts to the left of `uint32_t` and `uint64_t`.
abbrev pub shl32 : ℕ → ℕ → ℕ
shl32 x k = u32 (x << k)

abbrev pub shl64 : ℕ → ℕ → ℕ
shl64 x k = u64 (x << k)

-- `~x`, of a value that fits.
abbrev pub not32 : ℕ → ℕ
not32 x = 2 ^ 32 - 1 - x

abbrev pub not64 : ℕ → ℕ
not64 x = 2 ^ 64 - 1 - x

-- `a - b` of unsigned words that fit.
abbrev pub sub32 : ℕ → ℕ → ℕ
sub32 a b = u32 (a + 2 ^ 32 - b)

abbrev pub sub64 : ℕ → ℕ → ℕ
sub64 a b = u64 (a + 2 ^ 64 - b)

-- `(uint64_t)(int64_t)(intN_t)v`: the low bits of `v`, sign-extended to 64.
abbrev pub sext8 : ℕ → ℕ
sext8 v = let w = v % 2 ^ 8 in if ltb w (2 ^ 7) then w else w + (2 ^ 64 - 2 ^ 8)

abbrev pub sext16 : ℕ → ℕ
sext16 v = let w = v % 2 ^ 16 in if ltb w (2 ^ 15) then w else w + (2 ^ 64 - 2 ^ 16)

abbrev pub sext32 : ℕ → ℕ
sext32 v = let w = v % 2 ^ 32 in if ltb w (2 ^ 31) then w else w + (2 ^ 64 - 2 ^ 32)

-- `>>` of a signed value: the sign bit comes in at the top.
abbrev pub asr32 : ℕ → ℕ → ℕ
asr32 v k = if ltb v (2 ^ 31) then v >> k else not32 (not32 v >> k)

abbrev pub asr64 : ℕ → ℕ → ℕ
asr64 v k = if ltb v (2 ^ 63) then v >> k else not64 (not64 v >> k)

-- The integer that a pattern of 32 or 64 bits stands for, and the pattern of an integer.
abbrev pub signed32 : ℕ → ℤ
signed32 w = if ltb w (2 ^ 31) then pos w else negsuc (2 ^ 32 - 1 - w)

abbrev pub signed64 : ℕ → ℤ
signed64 w = if ltb w (2 ^ 63) then pos w else negsuc (2 ^ 64 - 1 - w)

abbrev pub of_ℤ32 : ℤ → ℕ
of_ℤ32 (pos n) = u32 n
of_ℤ32 (negsuc n) = 2 ^ 32 - 1 - n % 2 ^ 32

abbrev pub of_ℤ64 : ℤ → ℕ
of_ℤ64 (pos n) = u64 n
of_ℤ64 (negsuc n) = 2 ^ 64 - 1 - n % 2 ^ 64

-- `(int32_t)a < (int32_t)b` and `(int64_t)a < (int64_t)b`.
abbrev pub slt32 : ℕ → ℕ → Bool
slt32 a b = ltb_ℤ (signed32 a) (signed32 b)

abbrev pub slt64 : ℕ → ℕ → Bool
slt64 a b = ltb_ℤ (signed64 a) (signed64 b)

-- `x & ~m` clears the bits of `m`.
abbrev pub clear64 : ℕ → ℕ → ℕ
clear64 x m = bit_and x (not64 m)

abbrev pub clear32 : ℕ → ℕ → ℕ
clear32 x m = bit_and x (not32 m)

-- `x & m` as a truth value.
abbrev pub test_bits : ℕ → ℕ → Bool
test_bits x m = ltb 0 (bit_and x m)

-- An array as a function of its index, and a write to one place.
abbrev pub update {ℓ} : {A : Type ℓ} → (ℕ → A) → ℕ → A → ℕ → A
update f k v j = if j == k then v else f j

-- Writes to one half of a 64-bit register, `v` a 32-bit value.
abbrev pub set_low : ℕ → ℕ → ℕ
set_low x v = x &&& 0xffffffff00000000 ||| v

abbrev pub set_high : ℕ → ℕ → ℕ
set_high x v = x &&& 0x00000000ffffffff ||| v << 32
