-- ===== src/Softfloat/Wide/Division.antt =====
-- The long division of 128 bits by 64 of src/softfloat.c.
use quanta.Common.{
  ℕ, zero, suc, ◌+◌, ◌*◌, ◌/◌, ◌%◌, ◌^◌, ◌<◌, ◌≤◌, ◌≡◌, ◌⊎◌, arith, ◌||◌, nonzero, leb, Bool-cases,
  inl, inr, ◌∙◌, ap, refl,
}
use native.Mathlib.Nat.{add-mod_right}
use quanta.Common.Power.{two_pow_lt, two-pow-suc, mod-two-pow-suc, div-two-pow-suc}
use quanta.Common.Bits.{bit_or_add, bit_and_mask}
use quanta.Common.Word.{◌|||◌, ◌&&&◌, ◌>>◌, shl64}
use quanta.Softfloat.Wide.{U128, udiv_round, udiv_loop, udiv128by64}

-- The shifted remainder with the next bit.
shift_in : (r b : ℕ) → b < 2 → shl64 r 1 ||| b ≡ r * 2 % 2 ^ 64 + b
shift_in r b hb = bit_or_add 1 (shl64 r 1) b (omega arith) (omega arith)

-- The quotient with the bit of a power below its own bits.
set_bit : (q i : ℕ) → 2 ^ i < 2 ^ 64 → q % 2 ^ suc i ≡ 0 → q ||| shl64 1 i ≡ q + 2 ^ i
set_bit q i small clear =
    let one : shl64 1 i ≡ 2 ^ i = omega arith in
    ap (λ x. q ||| x) one ∙ bit_or_add (suc i) q (2 ^ i) clear (two_pow_lt i (suc i) (omega arith))

-- What a round does, with the remainder and the next bit as an integer.
Step : ℕ → ℕ → ℕ → ℕ → ℕ × ℕ → Type 0
Step den i q v s =
    ((den ≤ v) × ((s.0 ≡ q + 2 ^ i) × (s.1 + den ≡ v))) ⊎ ((v < den) × ((s.0 ≡ q) × (s.1 ≡ v)))

udiv_round-Step :
    (lo den i q r : ℕ)
    → 2 ^ i < 2 ^ 64
    → q % 2 ^ suc i ≡ 0
    → r < den
    → den < 2 ^ 64
    → Step den i q (r * 2 + lo / 2 ^ i % 2) (udiv_round lo den i (q, r))
unfolding udiv_round Step
udiv_round-Step lo den i q r small clear below fits =
    let b = lo / 2 ^ i % 2 in
    let bit : lo >> i &&& 1 ≡ b = bit_and_mask 1 (lo / 2 ^ i) in
    let next : shl64 r 1 ||| (lo >> i &&& 1) ≡ r * 2 % 2 ^ 64 + b =
      ap (λ x. shl64 r 1 ||| x) bit ∙ shift_in r b (omega arith) in
    let quotient = set_bit q i small clear in
    rw next elim (Bool-cases (nonzero (r >> 63) || leb den (r * 2 % 2 ^ 64 + b))) [
      | inl big ↦ rw big (inl (ground arith, (quotient, ground arith)))
      | inr less ↦ rw less (inr (ground arith, (refl, ground arith)))
    ]

-- The numerator's bits from one on.
low_bits : (lo i : ℕ) → lo % 2 ^ suc i ≡ lo / 2 ^ i % 2 * 2 ^ i + lo % 2 ^ i
low_bits lo zero = omega arith
low_bits lo (suc i) = omega (
  arith,
  low_bits (lo / 2) i,
  mod-two-pow-suc lo (suc i),
  mod-two-pow-suc lo i,
  ap (λ t. t % 2 * 2 ^ suc i) (div-two-pow-suc lo i),
  two-pow-suc i,
  ap (λ t. lo / 2 / 2 ^ i % 2 * t) (two-pow-suc i),
)

-- The sum over a round that subtracts, and over one that does not.
taken_sum :
    (q den r b p p2 l l2 s0 s1 total : ℕ)
    → s0 ≡ q + p
    → s1 + den ≡ r * 2 + b
    → p2 ≡ 2 * p
    → l2 ≡ b * p + l
    → total ≡ s0 * den + s1 * p + l
    → total ≡ q * den + r * p2 + l2
taken_sum q den r b p p2 l l2 s0 s1 total es er ep el et =
    omega (arith, ap (λ t. t * den) es, ap (λ t. t * p) er, ap (λ t. r * t) ep)

skipped_sum :
    (q den r b p p2 l l2 s0 s1 total : ℕ)
    → s0 ≡ q
    → s1 ≡ r * 2 + b
    → p2 ≡ 2 * p
    → l2 ≡ b * p + l
    → total ≡ s0 * den + s1 * p + l
    → total ≡ q * den + r * p2 + l2
skipped_sum q den r b p p2 l l2 s0 s1 total es er ep el et =
    omega (arith, ap (λ t. t * den) es, ap (λ t. t * p) er, ap (λ t. r * t) ep)

-- The rest of the division, with the bits of the quotient below `left` still 0.
rounds :
    (lo den left q r : ℕ)
    → left ≤ 64
    → q % 2 ^ left ≡ 0
    → r < den
    → den < 2 ^ 64
    → let s = udiv_loop lo den left (q, r) in
      (s.0 * den + s.1 ≡ q * den + r * 2 ^ left + lo % 2 ^ left) × (s.1 < den)
unfolding udiv_loop Step
rounds lo den zero q r few clear below fits = (omega arith, below)
rounds lo den (suc i) q r few clear below fits =
    let s = udiv_round lo den i (q, r) in
    let b = lo / 2 ^ i % 2 in
    let two = two-pow-suc i in
    let low = low_bits lo i in
    elim (udiv_round-Step lo den i q r (two_pow_lt i 64 (omega arith)) clear below fits) [
      | inl (big, (eq, er)) ↦
          let rest =
            rounds lo den i s.0 s.1 (omega arith)
              (ap (λ t. t % 2 ^ i) eq ∙ add-mod_right q (2 ^ i) ∙ omega (arith, low_bits q i))
              (omega arith) fits in
          (
            taken_sum q den r b (2 ^ i) (2 ^ suc i) (lo % 2 ^ i) (lo % 2 ^ suc i) s.0 s.1 _ eq er
                two low rest.0,
            rest.1,
          )
      | inr (less, (eq, er)) ↦
          let rest =
            rounds lo den i s.0 s.1 (omega arith)
              (ap (λ t. t % 2 ^ i) eq ∙ omega (arith, low_bits q i)) (omega arith) fits in
          (
            skipped_sum q den r b (2 ^ i) (2 ^ suc i) (lo % 2 ^ i) (lo % 2 ^ suc i) s.0 s.1 _ eq er
                two low rest.0,
            rest.1,
          )
    ]

-- Of words, the quotient and the remainder of a numerator whose high word is below the denominator.
pub udiv128by64-divides :
    (num : U128) (den : ℕ)
    → num.hi < den
    → den < 2 ^ 64
    → num.lo < 2 ^ 64
    → (((udiv128by64 num den).0 * den + (udiv128by64 num den).1) ≡ num.hi * 2 ^ 64 + num.lo)
      × ((udiv128by64 num den).1 < den)
unfolding udiv128by64
udiv128by64-divides num den below fits low =
    let s = rounds num.lo den 64 0 num.hi (omega arith) (omega arith) below fits in
    (omega arith, s.1)
