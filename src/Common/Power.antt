-- ===== src/Common/Power.antt =====
-- Quotients and remainders by powers of two, one bit at a time.
use Prim.Native.Nat.{ℕ, zero, suc, ◌+◌, ◌-◌, ◌≤◌, ◌*◌, ◌/◌, ◌%◌, ◌^◌, ◌<◌}
use mathlib.Core.Path.{◌≡◌, refl, sym, ap, ◌∙◌}
use native.Mathlib.Nat.{
  pow-succ', one-le-pow, div-div-eq-div-mul, mul-add-mod_self_right, mod-eq_of_lt, div-add-mod',
  mod-lt, pow-le-pow_right, mul-mod_right,
}
use native.Mathlib.Omega.{arith}

pub two_pow_pos : (k : ℕ) → 0 < 2 ^ k
two_pow_pos k = one-le-pow k 2 (omega arith)

pub div-two-pow-suc : (a k : ℕ) → a / 2 ^ suc k ≡ a / 2 / 2 ^ k
div-two-pow-suc a k = rw (pow-succ' 2 k, div-div-eq-div-mul)

-- The remainder by twice `m`, from the quotient by two.
mod-two_mul : (a m : ℕ) → 0 < m → a % (2 * m) ≡ a / 2 % m * 2 + a % 2
mod-two_mul a m h =
    ap (λ t. t % (2 * m)) parts
    ∙ mul-add-mod_self_right (a / 2 / m) (2 * m) (a / 2 % m * 2 + a % 2)
    ∙ mod-eq_of_lt (omega (arith, mod-lt (a / 2) h))
  where
    parts : a ≡ a / 2 / m * (2 * m) + (a / 2 % m * 2 + a % 2)
    parts = omega (arith, div-add-mod' (a / 2) m)

pub mod-two-pow-suc : (a k : ℕ) → a % 2 ^ suc k ≡ a / 2 % 2 ^ k * 2 + a % 2
mod-two-pow-suc a k = rw (pow-succ' 2 k) (mod-two_mul a (2 ^ k) (two_pow_pos k))

pub two-pow-suc : (k : ℕ) → 2 ^ suc k ≡ 2 * 2 ^ k
two-pow-suc k = pow-succ' 2 k

pub two_pow_lt : (j k : ℕ) → j < k → 2 ^ j < 2 ^ k
two_pow_lt j k h = omega (
  arith,
  two-pow-suc j,
  two_pow_pos j,
  pow-le-pow_right {n = 2} (omega arith) {i = suc j} {j = k} h,
)

pub two_pow_add : (j k l : ℕ) → j + k ≡ l → 2 ^ j * 2 ^ k ≡ 2 ^ l
two_pow_add zero k l e = let e' : k ≡ l = omega arith in rw e' (omega arith)
two_pow_add (suc j) k l e =
    let e' : l ≡ suc (l - 1) = omega arith in
    rw e' (
      omega (
        arith,
        two-pow-suc j,
        two-pow-suc (l - 1),
        two_pow_add j k (l - 1) (omega arith),
        ap (λ (t : ℕ). t * 2 ^ k) (two-pow-suc j),
      ))

-- A product of two powers from 2 ^ 32 on wraps to 0.
pub two_pow_mul-wraps : (j k : ℕ) → 32 ≤ j + k → 2 ^ j * 2 ^ k % 2 ^ 32 ≡ 0
two_pow_mul-wraps j k h =
    ap (λ t. t % 2 ^ 32)
      (two_pow_add j k (j + k) refl ∙ sym (two_pow_add 32 (j + k - 32) (j + k) (omega arith)))
    ∙ mul-mod_right (2 ^ 32) (2 ^ (j + k - 32))
