-- ===== src/Cpu/Scan/Count.antt =====
-- What the scans count.
use quanta.Common.{
  ℕ, zero, suc, ◌+◌, ◌-◌, ◌*◌, ◌/◌, ◌%◌, ◌^◌, ◌≤◌, ◌<◌, ◌≡◌, arith, ltb, Bool-cases, inl, inr, ap,
  refl, sym, ◌∙◌,
}
use mathlib.Core.Path.{subst}
use native.Mathlib.Nat.{div-lt_iff_lt-mul, div-add-mod', mod-lt}
use quanta.Common.Bits.{bit_and_mask}
use quanta.Common.Power.{two_pow_pos, two-pow-suc, mod-two-pow-suc, div-two-pow-suc}
use quanta.Common.Word.{test_bits, ◌>>◌}
use quanta.Cpu.Scan.{bm_clz, bm_clz_loop}

-- The count bounds the value on both sides, with the bits below `left` still to scan.
clz_from :
    (left v n : ℕ)
    → v < 2 ^ left
    → 0 < v
    → (n ≤ bm_clz_loop v left n)
      × ((bm_clz_loop v left n < n + left)
          × ((2 ^ (n + left - 1 - bm_clz_loop v left n) ≤ v)
              × (v < 2 ^ (n + left - bm_clz_loop v left n))))
unfolding bm_clz_loop
clz_from zero v n below pos = absurd (omega arith)
clz_from (suc left) v n below pos =
    let top : test_bits (v >> left) 1 ≡ ltb 0 (v / 2 ^ left % 2) =
      ap (λ t. ltb 0 t) (bit_and_mask 1 (v / 2 ^ left)) in
    let double : 2 ^ suc left ≡ 2 * 2 ^ left = two-pow-suc left in
    let small : v / 2 ^ left < 2 = (div-lt_iff_lt-mul (two_pow_pos left)).1 (omega arith) in
    let split : v / 2 ^ left * 2 ^ left + v % 2 ^ left ≡ v = div-add-mod' v (2 ^ left) in
    let rest : v % 2 ^ left < 2 ^ left = mod-lt v (two_pow_pos left) in
    elim (Bool-cases (test_bits (v >> left) 1)) [
      | inl set ↦
          let one : v / 2 ^ left ≡ 1 = ground arith in
          let e1 : n + suc left - 1 - n ≡ left = omega arith in
          let e2 : n + suc left - n ≡ suc left = omega arith in
          let above : 2 ^ left ≤ v = omega (arith, ap (λ t. t * 2 ^ left) one) in
          rw (set, e1, e2) (omega arith, (omega arith, (above, below)))
      | inr clear ↦
          let none : v / 2 ^ left ≡ 0 = ground arith in
          let less : v < 2 ^ left = omega (arith, ap (λ t. t * 2 ^ left) none) in
          let shift : n + 1 + left ≡ n + suc left = omega arith in
          let found = clz_from left v (n + 1) less pos in
          rw clear (
            omega (arith, found.0),
            (
              omega (arith, found.1.0),
              (
                subst (λ t. 2 ^ (t - 1 - bm_clz_loop v left (n + 1)) ≤ v) shift found.1.1.0,
                subst (λ t. v < 2 ^ (t - bm_clz_loop v left (n + 1))) shift found.1.1.1,
              ),
            ),
          )
    ]

-- The bits below the width are the value's.
low_bit : (v k bits : ℕ) → k < bits → v % 2 ^ bits / 2 ^ k % 2 ≡ v / 2 ^ k % 2
low_bit v k zero h = absurd (omega arith)
low_bit v zero (suc bits) h = omega (arith, mod-two-pow-suc v bits)
low_bit v (suc k) (suc bits) h =
    let half : v % 2 ^ suc bits / 2 ≡ v / 2 % 2 ^ bits = omega (arith, mod-two-pow-suc v bits) in
    rw (div-two-pow-suc (v % 2 ^ suc bits) k, div-two-pow-suc v k, half)
      (low_bit (v / 2) k bits (omega arith))

-- The scan reads the bits below the width only.
clz_loop-mod :
    (v bits left n : ℕ) → left ≤ bits → bm_clz_loop v left n ≡ bm_clz_loop (v % 2 ^ bits) left n
unfolding bm_clz_loop
clz_loop-mod v bits zero n h = refl
clz_loop-mod v bits (suc left) n h =
    let rest = clz_loop-mod v bits left (n + 1) (omega arith) in
    let same = low_bit v left bits h in
    let here : test_bits (v >> left) 1 ≡ test_bits ((v % 2 ^ bits) >> left) 1 =
      ap (λ t. ltb 0 t)
        (bit_and_mask 1 (v / 2 ^ left)
          ∙ (sym same ∙ sym (bit_and_mask 1 (v % 2 ^ bits / 2 ^ left)))) in
    rw (here, rest) refl

-- CLZ counts the zeros above the highest set bit of the value's low `bits` bits, where they are not
-- all 0: with n the count, they lie from 2 ^ (bits - 1 - n) to below 2 ^ (bits - n). Bits
-- above the width do not count.
pub bm_clz_lem :
    (v bits : ℕ)
    → 0 < v % 2 ^ bits
    → (bm_clz v bits < bits)
      × ((2 ^ (bits - 1 - bm_clz v bits) ≤ v % 2 ^ bits)
          × (v % 2 ^ bits < 2 ^ (bits - bm_clz v bits)))
unfolding bm_clz
bm_clz_lem v bits pos =
    let low = v % 2 ^ bits in
    let below : low < 2 ^ bits = mod-lt v (two_pow_pos bits) in
    rw (clz_loop-mod v bits bits 0 (omega arith)) (
      subst
        (λ t.
          (bm_clz_loop low bits 0 < t)
          × ((2 ^ (t - 1 - bm_clz_loop low bits 0) ≤ low)
              × (low < 2 ^ (t - bm_clz_loop low bits 0))))
        (omega arith) (clz_from bits low 0 below pos).1)
