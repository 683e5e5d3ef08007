-- ===== src/Common/Digits.antt =====
-- The native bit operations, from their definition on binary digits: the lowest digit, and the
-- split of both numbers at any digit.
use Prim.Native.Nat.{
  ℕ, zero, suc, ◌+◌, ◌*◌, ◌/◌, ◌%◌, ◌^◌, ◌≤◌, ◌<◌, min, max, bit_and, bit_or, bit_xor, digits,
  differ, bit_and-bitwise, bit_or-bitwise, bit_xor-bitwise,
}
use mathlib.Core.Path.{◌≡◌, refl, ap, ◌∙◌}
use native.Mathlib.Omega.{arith}
use native.Mathlib.Nat.{mul-add-div_right, div-eq_of_lt, mod-lt}
use quanta.Common.Power.{div-two-pow-suc, mod-two-pow-suc, two-pow-suc, two_pow_pos}

-- The count of digits to go does not matter once it covers the first number.
module _ (rest : ℕ → ℕ) (digit : ℕ → ℕ → ℕ) where
  enough_digits : (n m a b : ℕ) → a ≤ n → a ≤ m → digits rest digit n a b ≡ digits rest digit m a b
  enough_digits zero zero a b h k = refl
  enough_digits zero (suc m) zero b h k = refl
  enough_digits zero (suc m) (suc a) b h k = absurd (omega arith)
  enough_digits (suc n) zero zero b h k = refl
  enough_digits (suc n) zero (suc a) b h k = absurd (omega arith)
  enough_digits (suc n) (suc m) zero b h k = refl
  enough_digits (suc n) (suc m) (suc a) b h k =
      omega (arith, enough_digits n m (suc a / 2) (b / 2) (omega arith) (omega arith))

pub bit_and_low : (a b : ℕ) → bit_and a b ≡ bit_and (a / 2) (b / 2) * 2 + min (a % 2) (b % 2)
bit_and_low zero b = omega (arith, bit_and-bitwise 0 b, bit_and-bitwise 0 (b / 2))
bit_and_low (suc a) b = omega (
  arith,
  bit_and-bitwise (suc a) b,
  bit_and-bitwise (suc a / 2) (b / 2),
  enough_digits (λ y. 0) min a (suc a / 2) (suc a / 2) (b / 2) (omega arith) (omega arith),
)

pub bit_or_low : (a b : ℕ) → bit_or a b ≡ bit_or (a / 2) (b / 2) * 2 + max (a % 2) (b % 2)
bit_or_low zero b = omega (arith, bit_or-bitwise 0 b, bit_or-bitwise 0 (b / 2))
bit_or_low (suc a) b = omega (
  arith,
  bit_or-bitwise (suc a) b,
  bit_or-bitwise (suc a / 2) (b / 2),
  enough_digits (λ y. y) max a (suc a / 2) (suc a / 2) (b / 2) (omega arith) (omega arith),
)

pub bit_xor_low : (a b : ℕ) → bit_xor a b ≡ bit_xor (a / 2) (b / 2) * 2 + differ (a % 2) (b % 2)
bit_xor_low zero b = omega (arith, bit_xor-bitwise 0 b, bit_xor-bitwise 0 (b / 2))
bit_xor_low (suc a) b = omega (
  arith,
  bit_xor-bitwise (suc a) b,
  bit_xor-bitwise (suc a / 2) (b / 2),
  enough_digits (λ y. y) differ a (suc a / 2) (suc a / 2) (b / 2) (omega arith) (omega arith),
)

pub differ_digits : (x y : ℕ) → x < 2 → y < 2 → differ x y ≡ (x + y) % 2
differ_digits zero y h k = omega arith
differ_digits (suc zero) zero h k = refl
differ_digits (suc zero) (suc zero) h k = refl
differ_digits (suc zero) (suc (suc y)) h k = absurd (omega arith)
differ_digits (suc (suc x)) y h k = absurd (omega arith)

-- What holds of any operation that works digit by digit.
module _ (op digit : ℕ → ℕ → ℕ)
    (low : (a b : ℕ) → op a b ≡ op (a / 2) (b / 2) * 2 + digit (a % 2) (b % 2))
    (fits : (x y : ℕ) → x < 2 → y < 2 → digit x y < 2) (none_set : op 0 0 ≡ 0) where
  -- The result has no digit above those of the arguments.
  pub bitwise-lt : (k a b : ℕ) → a < 2 ^ k → b < 2 ^ k → op a b < 2 ^ k
  bitwise-lt zero zero zero h j = omega (arith, none_set)
  bitwise-lt zero zero (suc b) h j = absurd (omega arith)
  bitwise-lt zero (suc a) b h j = absurd (omega arith)
  bitwise-lt (suc k) a b h j = omega (
    arith,
    low a b,
    two-pow-suc k,
    fits (a % 2) (b % 2) (omega arith) (omega arith),
    bitwise-lt k (a / 2) (b / 2) (omega (arith, two-pow-suc k)) (omega (arith, two-pow-suc k)),
  )

  -- The digits from `k` up and those below are worked out apart.
  pub bitwise-split :
      (k a b : ℕ) → op a b ≡ op (a / 2 ^ k) (b / 2 ^ k) * 2 ^ k + op (a % 2 ^ k) (b % 2 ^ k)
  bitwise-split zero a b = ground (arith, none_set)
  bitwise-split (suc k) a b =
      rw (div-two-pow-suc a k, div-two-pow-suc b k)
        (ground (
          arith,
          low a b,
          bitwise-split k (a / 2) (b / 2),
          low (a % 2 ^ suc k) (b % 2 ^ suc k),
          mod-two-pow-suc a k,
          mod-two-pow-suc b k,
          ap (λ (t : ℕ). op (a / 2 / 2 ^ k) (b / 2 / 2 ^ k) * t) (two-pow-suc k),
        ))

  -- Quotients by powers of two go through the operation.
  pub bitwise-div : (k a b : ℕ) → op a b / 2 ^ k ≡ op (a / 2 ^ k) (b / 2 ^ k)
  bitwise-div k a b =
      ap (λ t. t / 2 ^ k) (bitwise-split k a b)
      ∙ mul-add-div_right (two_pow_pos k) (op (a / 2 ^ k) (b / 2 ^ k)) (op (a % 2 ^ k) (b % 2 ^ k))
      ∙ omega (
        arith,
        div-eq_of_lt (
            bitwise-lt k (a % 2 ^ k) (b % 2 ^ k) (mod-lt a (two_pow_pos k))
              (mod-lt b (two_pow_pos k))),
      )

  -- The digit at `k` of the result is the operation on the digits at `k`.
  pub bitwise-digit : (k a b : ℕ) → op a b / 2 ^ k % 2 ≡ digit (a / 2 ^ k % 2) (b / 2 ^ k % 2)
  bitwise-digit k a b = rw (bitwise-div k a b) (
      omega (
        arith,
        low (a / 2 ^ k) (b / 2 ^ k),
        fits (a / 2 ^ k % 2) (b / 2 ^ k % 2) (omega arith) (omega arith),
      ))
