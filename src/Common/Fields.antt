-- ===== src/Common/Fields.antt =====
-- A field of a word: how a clear, a set and a test of its bits read on the numbers.
use Prim.Native.Nat.{ℕ, ◌+◌, ◌-◌, ◌*◌, ◌/◌, ◌%◌, ◌^◌, ◌<◌, bit_and, bit_or}
use mathlib.Core.Path.{◌≡◌, ◌∙◌, ap, sym}
use native.Mathlib.Omega.{arith}
use native.Mathlib.Nat.{div-eq_of_lt, div-add-mod', mul-add-div_right, mul-mod_left, mod-lt}
use quanta.Common.Tests.{ltb}
use quanta.Common.Bits.{
  bit_and_shifted, bit_and_mask, bit_and_not, bit_and-split, bit_or-add-bit_and, zero-bit_and,
  bit_and-zero,
}
use quanta.Common.Power.{two_pow_pos}
use quanta.Common.Word.{clear64, test_bits}

pub read_field : (k w a : ℕ) → bit_and a ((2 ^ w - 1) * 2 ^ k) ≡ a / 2 ^ k % 2 ^ w * 2 ^ k
read_field k w a =
    bit_and_shifted k a (2 ^ w - 1) ∙ ap (λ t. t * 2 ^ k) (bit_and_mask w (a / 2 ^ k))

pub clear_field :
    (k w a : ℕ)
    → a < 2 ^ 64
    → (2 ^ w - 1) * 2 ^ k < 2 ^ 64
    → clear64 a ((2 ^ w - 1) * 2 ^ k) + a / 2 ^ k % 2 ^ w * 2 ^ k ≡ a
clear_field k w a ha hm =
    ap (λ t. clear64 a ((2 ^ w - 1) * 2 ^ k) + t) (sym (read_field k w a))
    ∙ bit_and_not 64 a ((2 ^ w - 1) * 2 ^ k) ha hm

-- Numbers with no bit in common below `w`, and one that has none above.
disjoint : (w a v : ℕ) → a % 2 ^ w ≡ 0 → v < 2 ^ w → bit_and a v ≡ 0
disjoint w a v h fits = ground (
  arith,
  bit_and-split w a v,
  div-eq_of_lt fits,
  bit_and-zero (a / 2 ^ w),
  zero-bit_and (v % 2 ^ w),
)

pub set_field :
    (k w a v : ℕ) → a / 2 ^ k % 2 ^ w ≡ 0 → v < 2 ^ w → bit_or a (v * 2 ^ k) ≡ a + v * 2 ^ k
set_field k w a v h fits = ground (
  arith,
  bit_or-add-bit_and a (v * 2 ^ k),
  bit_and_shifted k a v,
  disjoint w (a / 2 ^ k) v h fits,
)

pub test_field : (k a : ℕ) → test_bits a (1 * 2 ^ k) ≡ ltb 0 (a / 2 ^ k % 2)
test_field k a = ground (arith, read_field k 1 a, two_pow_pos k)

-- What a clear leaves, from the parts above and below the field.
cleared :
    (k w a : ℕ)
    → a < 2 ^ 64
    → (2 ^ w - 1) * 2 ^ k < 2 ^ 64
    → clear64 a ((2 ^ w - 1) * 2 ^ k) ≡ a / 2 ^ k / 2 ^ w * 2 ^ w * 2 ^ k + a % 2 ^ k
cleared k w a ha hm = omega (
  arith,
  clear_field k w a ha hm,
  div-add-mod' a (2 ^ k),
  ap (λ t. t * 2 ^ k) (div-add-mod' (a / 2 ^ k) (2 ^ w)),
)

cleared-div :
    (k w a : ℕ)
    → a < 2 ^ 64
    → (2 ^ w - 1) * 2 ^ k < 2 ^ 64
    → clear64 a ((2 ^ w - 1) * 2 ^ k) / 2 ^ k ≡ a / 2 ^ k / 2 ^ w * 2 ^ w
cleared-div k w a ha hm =
    let pos = two_pow_pos k in
    ap (λ t. t / 2 ^ k) (cleared k w a ha hm)
    ∙ mul-add-div_right {m = 2 ^ k} pos (a / 2 ^ k / 2 ^ w * 2 ^ w) (a % 2 ^ k)
    ∙ omega (arith, div-eq_of_lt (mod-lt a pos))

-- A field that is cleared and then written, as a sum.
pub put_field :
    (k w s v : ℕ)
    → s < 2 ^ 64
    → (2 ^ w - 1) * 2 ^ k < 2 ^ 64
    → v < 2 ^ w
    → bit_or (clear64 s ((2 ^ w - 1) * 2 ^ k)) (v * 2 ^ k) + s / 2 ^ k % 2 ^ w * 2 ^ k
      ≡ s + v * 2 ^ k
put_field k w s v hs hm hv =
    let empty : clear64 s ((2 ^ w - 1) * 2 ^ k) / 2 ^ k % 2 ^ w ≡ 0 =
      ap (λ t. t % 2 ^ w) (cleared-div k w s hs hm) ∙ mul-mod_left (s / 2 ^ k / 2 ^ w) (2 ^ w) in
    omega
      (arith, set_field k w (clear64 s ((2 ^ w - 1) * 2 ^ k)) v empty hv, clear_field k w s hs hm)
