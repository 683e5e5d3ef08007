-- ===== src/Cpu/Muldiv/Division.antt =====
-- Quotient and remainder together give back the dividend.
use quanta.Common.{
  ℕ, zero, suc, ◌+◌, ◌-◌, ◌*◌, ◌/◌, ◌%◌, ◌^◌, ◌≤◌, ◌<◌, ◌≡◌, ◌⊎◌, inl, inr, arith, ◌==◌,
  if◌then◌else◌, ◌∙◌, ap, sym, refl as path_refl,
}
use native.Mathlib.Nat.{div-le_self, div-add-mod', mod-lt, add-mul, mul-add}
use quanta.Common.Int.{pos, negsuc, sub_ℕ, ◌/ℤ◌, ◌%ℤ◌}
use quanta.Common.Word.{u64, signed64, of_ℤ64}
use quanta.Cpu.Muldiv.{muldiv64}

-- The pattern of -n.
abbrev negate : ℕ → ℕ
negate n = if n == 0 then 0 else 2 ^ 64 - n

of_ℤ64-sub_ℕ : (n : ℕ) → n ≤ 2 ^ 64 - 1 → of_ℤ64 (sub_ℕ 0 n) ≡ negate n
of_ℤ64-sub_ℕ zero h = path_refl
of_ℤ64-sub_ℕ (suc n) h = ground arith

-- Products of a word and of its negation add up to a multiple of 2 ^ 64.
complement : (d x y : ℕ) → d + x ≡ 2 ^ 64 → d * y + x * y ≡ 2 ^ 64 * y
complement d x y h = sym (add-mul d x y) ∙ ap (λ t. t * y) h

complement_right : (x d y : ℕ) → d + y ≡ 2 ^ 64 → x * d + x * y ≡ x * 2 ^ 64
complement_right x d y h = sym (mul-add x d y) ∙ ap (λ t. x * t) h

pos-pos :
    (a b : ℕ) → a < 2 ^ 63 → 0 < b → u64 (of_ℤ64 (pos a /ℤ pos b) * b + of_ℤ64 (pos a %ℤ pos b)) ≡ a
unfolding ◌/ℤ◌ ◌%ℤ◌
pos-pos a b ha hb =
    let q : a / b ≤ a = div-le_self a b in
    let r : a % b < b = mod-lt a hb in
    let sum : a / b * b + a % b ≡ a = div-add-mod' a b in ground arith

-- A negative divisor: -b is its pattern's distance to 2 ^ 64.
pos-neg :
    (a n : ℕ)
    → a < 2 ^ 63
    → n < 2 ^ 63
    → u64 (of_ℤ64 (pos a /ℤ negsuc n) * (2 ^ 64 - 1 - n) + of_ℤ64 (pos a %ℤ negsuc n)) ≡ a
unfolding ◌/ℤ◌ ◌%ℤ◌
pos-neg a n ha hn =
    let b = suc n in
    let q : a / b ≤ a = div-le_self a b in
    let r : a % b < b = mod-lt a (omega arith) in
    let sum : a / b * b + a % b ≡ a = div-add-mod' a b in
    let quotient : of_ℤ64 (sub_ℕ 0 (a / b)) ≡ negate (a / b) = of_ℤ64-sub_ℕ (a / b) (omega arith) in
    let d = 2 ^ 64 - 1 - n in
    let by_divisor : a / b * d + a / b * b ≡ a / b * 2 ^ 64 =
      complement_right (a / b) d b (omega arith) in
    let by_quotient : (2 ^ 64 - a / b) * d + a / b * d ≡ 2 ^ 64 * d =
      complement (2 ^ 64 - a / b) (a / b) d (omega arith) in
    ground arith

neg-pos :
    (m b : ℕ)
    → m < 2 ^ 63
    → 0 < b
    → b < 2 ^ 63
    → u64 (of_ℤ64 (negsuc m /ℤ pos b) * b + of_ℤ64 (negsuc m %ℤ pos b)) ≡ 2 ^ 64 - 1 - m
unfolding ◌/ℤ◌ ◌%ℤ◌
neg-pos m b hm pos_b hb =
    let a = suc m in
    let q : a / b ≤ a = div-le_self a b in
    let r : a % b < b = mod-lt a pos_b in
    let sum : a / b * b + a % b ≡ a = div-add-mod' a b in
    let quotient : of_ℤ64 (sub_ℕ 0 (a / b)) ≡ negate (a / b) = of_ℤ64-sub_ℕ (a / b) (omega arith) in
    let remainder : of_ℤ64 (sub_ℕ 0 (a % b)) ≡ negate (a % b) =
      of_ℤ64-sub_ℕ (a % b) (omega arith) in
    let by_quotient : (2 ^ 64 - a / b) * b + a / b * b ≡ 2 ^ 64 * b =
      complement (2 ^ 64 - a / b) (a / b) b (omega arith) in
    ground arith

neg-neg :
    (m n : ℕ)
    → m < 2 ^ 63
    → n < 2 ^ 63
    → u64 (of_ℤ64 (negsuc m /ℤ negsuc n) * (2 ^ 64 - 1 - n) + of_ℤ64 (negsuc m %ℤ negsuc n))
      ≡ 2 ^ 64 - 1 - m
unfolding ◌/ℤ◌ ◌%ℤ◌
neg-neg m n hm hn =
    let a = suc m in
    let b = suc n in
    let d = 2 ^ 64 - 1 - n in
    let q : a / b ≤ a = div-le_self a b in
    let r : a % b < b = mod-lt a (omega arith) in
    let sum : a / b * b + a % b ≡ a = div-add-mod' a b in
    let remainder : of_ℤ64 (sub_ℕ 0 (a % b)) ≡ negate (a % b) =
      of_ℤ64-sub_ℕ (a % b) (omega arith) in
    let by_divisor : a / b * d + a / b * b ≡ a / b * 2 ^ 64 =
      complement_right (a / b) d b (omega arith) in
    ground arith

-- The signed identity, of any operands but a zero divisor.
signed :
    (a b : ℕ)
    → a < 2 ^ 64
    → b < 2 ^ 64
    → 0 < b
    → u64 (of_ℤ64 (signed64 a /ℤ signed64 b) * b + of_ℤ64 (signed64 a %ℤ signed64 b)) ≡ a
signed a b ha hb pos_b =
    let na : 2 ^ 63 ≤ a → 2 ^ 64 - 1 - (2 ^ 64 - 1 - a) ≡ a = λ h. omega arith in
    let nb : 2 ^ 63 ≤ b → 2 ^ 64 - 1 - (2 ^ 64 - 1 - b) ≡ b = λ h. omega arith in
    let ma : 2 ^ 63 ≤ a → 2 ^ 64 - 1 - a < 2 ^ 63 = λ h. omega arith in
    let mb : 2 ^ 63 ≤ b → 2 ^ 64 - 1 - b < 2 ^ 63 = λ h. omega arith in
    grind (arith, pos-pos, pos-neg, neg-pos, neg-neg)

cmp_zero : (b : ℕ) → (b ≡ 0) ⊎ (0 < b)
cmp_zero zero = inl path_refl
cmp_zero (suc b) = inr (omega arith)

-- DIV and REM, and DIVU and REMU, agree: quotient times divisor plus remainder is the dividend,
-- modulo 2 ^ 64, whatever the operands, zero divisors and the overflow of INT64_MIN / -1 included.
pub muldiv64-division :
    (a b : ℕ)
    → a < 2 ^ 64
    → b < 2 ^ 64
    → (u64 (muldiv64 4 a b * b + muldiv64 6 a b) ≡ a)
      × (u64 (muldiv64 5 a b * b + muldiv64 7 a b) ≡ a)
unfolding muldiv64
muldiv64-division a b ha hb =
    let division : a / b * b + a % b ≡ a = div-add-mod' a b in
    let q : a / b ≤ a = div-le_self a b in
    (
      (elim (cmp_zero b) [
        | inl z ↦ ground arith
        | inr p ↦ (let main = signed a b ha hb p in ground arith)
      ]),
      ground arith,
    )
