-- ===== src/Common/Bits.antt =====
-- Laws of the native bit operations, for every width.
use native.Mathlib.Nat.{div-add-mod', div-eq_of_lt, mod-eq_of_lt, mul-div_right, mul-mod_left}
use quanta.Common.Power.{two_pow_pos, two-pow-suc, mod-two-pow-suc}
use quanta.Common.Digits.{
  bit_and_low, bit_or_low, bit_xor_low, differ_digits, bitwise-lt, bitwise-split, bitwise-digit,
}
use Prim.Native.Nat.{
  ℕ, zero, suc, ◌+◌, ◌-◌, ◌*◌, ◌/◌, ◌%◌, ◌^◌, ◌≤◌, ◌<◌, min, max, bit_and, bit_or, bit_xor, differ,
  bit_and-bitwise, bit_or-bitwise, bit_xor-bitwise,
}
use mathlib.Core.Path.{◌≡◌, refl, ◌∙◌}
use native.Mathlib.Omega.{arith}

pub zero-bit_and : (b : ℕ) → bit_and 0 b ≡ 0
zero-bit_and b = bit_and-bitwise 0 b

pub zero-bit_or : (b : ℕ) → bit_or 0 b ≡ b
zero-bit_or b = bit_or-bitwise 0 b

pub zero-bit_xor : (b : ℕ) → bit_xor 0 b ≡ b
zero-bit_xor b = bit_xor-bitwise 0 b

-- `or` and `and` share out the sum of two numbers.
or_and_fuel : (n a b : ℕ) → a ≤ n → bit_or a b + bit_and a b ≡ a + b
or_and_fuel n zero b h = omega (arith, zero-bit_or b, zero-bit_and b)
or_and_fuel zero (suc a) b h = absurd (omega arith)
or_and_fuel (suc n) (suc a) b h = omega (
  arith,
  bit_or_low (suc a) b,
  bit_and_low (suc a) b,
  or_and_fuel n (suc a / 2) (b / 2) (omega arith),
)

pub bit_or-add-bit_and : (a b : ℕ) → bit_or a b + bit_and a b ≡ a + b
bit_or-add-bit_and a b = or_and_fuel a a b (omega arith)

xor_and_fuel : (n a b : ℕ) → a ≤ n → bit_xor a b + 2 * bit_and a b ≡ a + b
xor_and_fuel n zero b h = omega (arith, zero-bit_xor b, zero-bit_and b)
xor_and_fuel zero (suc a) b h = absurd (omega arith)
xor_and_fuel (suc n) (suc a) b h = omega (
  arith,
  bit_xor_low (suc a) b,
  bit_and_low (suc a) b,
  differ_digits (suc a % 2) (b % 2) (omega arith) (omega arith),
  xor_and_fuel n (suc a / 2) (b / 2) (omega arith),
)

pub bit_xor-add-bit_and : (a b : ℕ) → bit_xor a b + 2 * bit_and a b ≡ a + b
bit_xor-add-bit_and a b = xor_and_fuel a a b (omega arith)

and_comm_fuel : (n a b : ℕ) → a ≤ n → b ≤ n → bit_and a b ≡ bit_and b a
and_comm_fuel zero zero zero h j = refl
and_comm_fuel zero zero (suc b) h j = absurd (omega arith)
and_comm_fuel zero (suc a) b h j = absurd (omega arith)
and_comm_fuel (suc n) a b h j = omega (
  arith,
  bit_and_low a b,
  bit_and_low b a,
  and_comm_fuel n (a / 2) (b / 2) (omega arith) (omega arith),
)

pub bit_and_comm : (a b : ℕ) → bit_and a b ≡ bit_and b a
bit_and_comm a b = and_comm_fuel (a + b) a b (omega arith) (omega arith)

pub bit_or_comm : (a b : ℕ) → bit_or a b ≡ bit_or b a
bit_or_comm a b = omega (arith, bit_or-add-bit_and a b, bit_or-add-bit_and b a, bit_and_comm a b)

pub bit_and-zero : (a : ℕ) → bit_and a 0 ≡ 0
bit_and-zero a = bit_and_comm a 0 ∙ zero-bit_and a

pub bit_or-zero : (a : ℕ) → bit_or a 0 ≡ a
bit_or-zero a = bit_or_comm a 0 ∙ zero-bit_or a

and_le_fuel : (n a b : ℕ) → a ≤ n → bit_and a b ≤ a
and_le_fuel n zero b h = omega (arith, zero-bit_and b)
and_le_fuel zero (suc a) b h = absurd (omega arith)
and_le_fuel (suc n) (suc a) b h =
    omega (arith, bit_and_low (suc a) b, and_le_fuel n (suc a / 2) (b / 2) (omega arith))

pub bit_and-le : (a b : ℕ) → bit_and a b ≤ a
bit_and-le a b = and_le_fuel a a b (omega arith)

and_digit_fits : (x y : ℕ) → x < 2 → y < 2 → min x y < 2
and_digit_fits x y h k = omega arith

or_digit_fits : (x y : ℕ) → x < 2 → y < 2 → max x y < 2
or_digit_fits x y h k = omega arith

xor_digit_fits : (x y : ℕ) → x < 2 → y < 2 → differ x y < 2
xor_digit_fits x y h k = omega (arith, differ_digits x y h k)

pub bit_or-lt : (k a b : ℕ) → a < 2 ^ k → b < 2 ^ k → bit_or a b < 2 ^ k
bit_or-lt = bitwise-lt bit_or max bit_or_low or_digit_fits refl

pub bit_xor-lt : (k a b : ℕ) → a < 2 ^ k → b < 2 ^ k → bit_xor a b < 2 ^ k
bit_xor-lt = bitwise-lt bit_xor differ bit_xor_low xor_digit_fits refl

pub bit_and-split :
    (k a b : ℕ)
    → bit_and a b ≡ bit_and (a / 2 ^ k) (b / 2 ^ k) * 2 ^ k + bit_and (a % 2 ^ k) (b % 2 ^ k)
bit_and-split = bitwise-split bit_and min bit_and_low and_digit_fits refl

pub bit_or-split :
    (k a b : ℕ)
    → bit_or a b ≡ bit_or (a / 2 ^ k) (b / 2 ^ k) * 2 ^ k + bit_or (a % 2 ^ k) (b % 2 ^ k)
bit_or-split = bitwise-split bit_or max bit_or_low or_digit_fits refl

-- The digit of a number at a place.
abbrev pub bit : ℕ → ℕ → ℕ
bit k a = a / 2 ^ k % 2

pub bit-bit_and : (k a b : ℕ) → bit k (bit_and a b) ≡ min (bit k a) (bit k b)
bit-bit_and = bitwise-digit bit_and min bit_and_low and_digit_fits refl

pub bit-bit_or : (k a b : ℕ) → bit k (bit_or a b) ≡ max (bit k a) (bit k b)
bit-bit_or = bitwise-digit bit_or max bit_or_low or_digit_fits refl

pub bit-bit_xor : (k a b : ℕ) → bit k (bit_xor a b) ≡ differ (bit k a) (bit k b)
bit-bit_xor = bitwise-digit bit_xor differ bit_xor_low xor_digit_fits refl

-- `a | b` is a sum where `b` fits below the lowest digit that `a` sets.
pub bit_or_add : (k a b : ℕ) → a % 2 ^ k ≡ 0 → b < 2 ^ k → bit_or a b ≡ a + b
bit_or_add k a b h fits = ground (
  arith,
  bit_or-split k a b,
  div-add-mod' a (2 ^ k),
  div-eq_of_lt fits,
  mod-eq_of_lt fits,
  bit_or-zero (a / 2 ^ k),
  zero-bit_or b,
)

-- `a & (2^k - 1)` keeps the low `k` digits.
pub bit_and_mask : (k a : ℕ) → bit_and a (2 ^ k - 1) ≡ a % 2 ^ k
bit_and_mask zero a = omega (arith, bit_and-zero a)
bit_and_mask (suc k) a = ground (
  arith,
  bit_and_low a (2 ^ suc k - 1),
  two-pow-suc k,
  two_pow_pos k,
  mod-two-pow-suc a k,
  bit_and_mask k (a / 2),
)

-- `a & (m << k)` looks at the digits of `a` from `k` up.
pub bit_and_shifted : (k a m : ℕ) → bit_and a (m * 2 ^ k) ≡ bit_and (a / 2 ^ k) m * 2 ^ k
bit_and_shifted k a m = ground (
  arith,
  bit_and-split k a (m * 2 ^ k),
  mul-div_right m (two_pow_pos k),
  mul-mod_left m (2 ^ k),
  bit_and-zero (a % 2 ^ k),
)

-- `a & ~m` takes off the digits that `a` shares with `m`.
pub bit_and_not : (n a m : ℕ) → a < 2 ^ n → m < 2 ^ n → bit_and a (2 ^ n - 1 - m) + bit_and a m ≡ a
bit_and_not zero zero zero h j = refl
bit_and_not zero zero (suc m) h j = absurd (omega arith)
bit_and_not zero (suc a) m h j = absurd (omega arith)
bit_and_not (suc n) a m h j = ground (
  arith,
  bit_and_low a (2 ^ suc n - 1 - m),
  bit_and_low a m,
  two-pow-suc n,
  bit_and_not n (a / 2) (m / 2),
)

and_self_fuel : (n a : ℕ) → a ≤ n → bit_and a a ≡ a
and_self_fuel n zero h = zero-bit_and 0
and_self_fuel zero (suc a) h = absurd (omega arith)
and_self_fuel (suc n) (suc a) h =
    omega (arith, bit_and_low (suc a) (suc a), and_self_fuel n (suc a / 2) (omega arith))

pub bit_and_self : (a : ℕ) → bit_and a a ≡ a
bit_and_self a = and_self_fuel a a (omega arith)

-- The same with the low part first.
pub bit_or_add_low : (k a b : ℕ) → a < 2 ^ k → b % 2 ^ k ≡ 0 → bit_or a b ≡ a + b
bit_or_add_low k a b fits h = bit_or_comm a b ∙ omega (arith, bit_or_add k b a h fits)
