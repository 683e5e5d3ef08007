-- ===== src/Cache/Geometry.antt =====
-- Powers of two: the test `x & (x - 1)`, the logarithm, and what `cache_init` accepts.
use quanta.Common.{
  ℕ, zero, suc, ◌+◌, ◌-◌, ◌*◌, ◌/◌, ◌%◌, ◌^◌, ◌≤◌, ◌<◌, ◌≡◌, refl, arith, Bool, true, bit_and, ap,
  ◌∙◌, sym,
}
use native.Mathlib.Nat.{pow-le-pow_right, div-le_self, div-add-mod'}
use native.Mathlib.Decide.{ℕ_discrete, dec_lt}
use quanta.Common.Power.{two-pow-suc, two_pow_lt}
use quanta.Common.Digits.{bit_and_low}
use quanta.Common.Bits.{bit_and_self}
use quanta.Common.Word.{u32}
use quanta.Cache.{Cache, ready, is_pow2, log2u_loop, log2u, cache_init}

-- An even number that shares no digit with its predecessor: so does its half. An odd one is 1.
halve : (x : ℕ) → 1 < x → bit_and x (x - 1) ≡ 0 → (x % 2 ≡ 0) × (bit_and (x / 2) (x / 2 - 1) ≡ 0)
halve x big e = elim (ℕ_discrete (x % 2) 0) [
  | yes even ↦ ground (arith, even, bit_and_low x (x - 1))
  | no odd ↦ absurd (ground (arith, bit_and_low x (x - 1), bit_and_self (x / 2)))
]

-- A number that shares no digit with its predecessor is a power of two.
pow2_exponent : (fuel x : ℕ) → x ≤ fuel → 0 < x → bit_and x (x - 1) ≡ 0 → (k : ℕ) × (x ≡ 2 ^ k)
pow2_exponent zero x h pos e = absurd (omega arith)
pow2_exponent (suc fuel) zero h pos e = absurd (omega arith)
pow2_exponent (suc fuel) (suc zero) h pos e = (0, refl)
pow2_exponent (suc fuel) (suc (suc x)) h pos e =
    let (even, rest) = halve (suc (suc x)) (omega arith) e in
    let (k, half) = pow2_exponent fuel (suc (suc x) / 2) (omega arith) (omega arith) rest in
    (suc k, omega (arith, two-pow-suc k, half, even))

pub is_pow2-exponent : (x : ℕ) → x < 2 ^ 32 → is_pow2 x ≡ true → (k : ℕ) × (x ≡ 2 ^ k)
unfolding is_pow2
is_pow2-exponent x h e = pow2_exponent x x (omega arith) (ground arith) (ground arith)

log2u_loop-eq : (rounds k n : ℕ) → n ≤ k → k ≤ n + rounds → log2u_loop rounds (2 ^ k) n ≡ k
unfolding log2u_loop
log2u_loop-eq zero k n h j = omega arith
log2u_loop-eq (suc rounds) k n h j = elim (dec_lt n k) [
  | yes more ↦ ground (arith, two_pow_lt n k more, log2u_loop-eq rounds k (n + 1))
  | no done ↦ let e : n ≡ k = omega arith in rw e (ground arith)
]

pub log2u-two_pow : (k : ℕ) → k < 32 → log2u (2 ^ k) ≡ k
unfolding log2u
log2u-two_pow k h = log2u_loop-eq 31 k 0 (omega arith) (omega arith)

-- What an accepted cache looks like: powers of two, and the set count as asked for.
pub record IsGeometry (c : Cache) : Type 0 where
  pub block : c.block_size ≡ 2 ^ c.offset_bits
  pub sets : c.num_sets ≡ 2 ^ c.index_bits
  pub ways : 0 < c.assoc

is_pow2-log2u : (x : ℕ) → x < 2 ^ 32 → is_pow2 x ≡ true → x ≡ 2 ^ log2u x
is_pow2-log2u x h e =
    let (k, power) = is_pow2-exponent x h e in
    elim (dec_lt k 32) [
      | yes small ↦ power ∙ ap (λ t. 2 ^ t) (sym (log2u-two_pow k small) ∙ ap log2u (sym power))
      | no big ↦ absurd (
          omega
            (arith, power, pow-le-pow_right {n = 2} (omega arith) {i = 32} {j = k} (omega arith)))
    ]

is_pow2-pos : (x : ℕ) → is_pow2 x ≡ true → 0 < x
unfolding is_pow2
is_pow2-pos x e = ground arith

-- What `cache_init` accepts has a power of two for its block size, its ways and its sets, with the
-- logarithms that the address split uses, and its lines fill the size asked for.
pub cache_init-ready :
    (size assoc block : ℕ) (allocated : Bool) {c : Cache}
    → size < 2 ^ 32
    → assoc < 2 ^ 32
    → block < 2 ^ 32
    → cache_init size assoc block allocated ≡ ready c
    → IsGeometry c
      × (c.assoc ≡ assoc)
      × (c.block_size ≡ block)
      × (c.num_sets * ((assoc * block) % 2 ^ 32) ≡ size)
unfolding cache_init
cache_init-ready size assoc block allocated {c} hs ha hb e =
    let per_set = u32 (assoc * block) in
    ground (
      arith,
      is_pow2-log2u block,
      is_pow2-log2u (size / per_set),
      is_pow2-pos assoc,
      div-le_self size per_set,
      div-add-mod' size per_set,
    )
