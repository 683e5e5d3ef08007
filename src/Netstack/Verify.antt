-- ===== src/Netstack/Verify.antt =====
-- The internet checksum of src/netstack.c: a receiver that sums what the stack sealed gets 0.
use quanta.Common.{
  ℕ, zero, suc, ◌+◌, ◌-◌, ◌*◌, ◌/◌, ◌%◌, ◌^◌, ◌≤◌, ◌<◌, ◌≡◌, ◌≢◌, arith, refl, sym, ap, ◌∙◌, ◌==◌,
  inl, inr, Bool, true, false, Bool-cases, if◌then◌else◌,
}
use quanta.Common.Bits.{bit_or_add, bit_and_mask}
use quanta.Common.Word.{◌<<◌, ◌>>◌, u32}
use quanta.Netstack.{be16, put_be16}
use quanta.Netstack.Checksum.{sum_words, sum_bytes, fold_sum, complement}

abbrev pub IsBytes : (ℕ → ℕ) → Type 0
IsBytes d = (k : ℕ) → d k < 256

-- Two rounds fold a 32-bit sum to 16 bits, and change it by a multiple of 65535 only.
pub record Folds (s r : ℕ) : Type 0 where
  pub fits : r < 2 ^ 16
  pub times : ℕ
  pub whole : s ≡ times * 65535 + r
  pub kept : 0 < s → 0 < r

low_half : (s : ℕ) → fold_sum 1 s ≡ (if s >> 16 == 0 then s else s % 2 ^ 16 + s / 2 ^ 16)
unfolding fold_sum
low_half s = ground (arith, bit_and_mask 16 s)

two_rounds :
    (s : ℕ) → fold_sum 2 s ≡ (if s >> 16 == 0 then s else fold_sum 1 (s % 2 ^ 16 + s / 2 ^ 16))
unfolding fold_sum
two_rounds s = ap (λ t. if s >> 16 == 0 then s else fold_sum 1 (t + s / 2 ^ 16)) (bit_and_mask 16 s)

fold_sum-Folds : (s : ℕ) → s < 2 ^ 32 → Folds s (fold_sum 2 s)
fold_sum-Folds s h =
    let next = s % 2 ^ 16 + s / 2 ^ 16 in
    elim (Bool-cases (s >> 16 == 0)) [
      | inl e ↦
          rw (two_rounds s, e)
            (record { fits = ground (arith, e); times = 0; whole = omega arith; kept = λ p. p })
      | inr e ↦ elim (Bool-cases (next >> 16 == 0)) [
        | inl f ↦
            rw (two_rounds s, e, low_half next, f)
              (record {
                fits = ground (arith, f);
                times = s / 2 ^ 16;
                whole = omega arith;
                kept = λ p. omega arith;
              })
        | inr f ↦
            let big : 2 ^ 16 ≤ next = ground (arith, f) in
            rw (two_rounds s, e, low_half next, f)
              (record {
                fits = omega arith;
                times = s / 2 ^ 16 + next / 2 ^ 16;
                whole = omega arith;
                kept = λ p. omega arith;
              })
      ]
    ]

complement-fold : (s : ℕ) → s < 2 ^ 32 → complement s ≡ 65535 - fold_sum 2 s
unfolding complement
complement-fold s h = omega (arith, (fold_sum-Folds s h).fits)

-- A sum with its own complement added folds to 65535, of which the complement is 0.
complement-add : (s : ℕ) → s + 65535 < 2 ^ 32 → complement (s + complement s) ≡ 0
complement-add s h =
    let a = fold_sum-Folds s (omega arith) in
    let c = complement-fold s (omega arith) in
    let all = s + complement s in
    let b = fold_sum-Folds all (omega (arith, c)) in
    omega (
      arith,
      a.fits,
      a.whole,
      b.fits,
      b.whole,
      b.kept (omega (arith, a.fits, c)),
      c,
      complement-fold all (omega (arith, c)),
    )

pub be16-add : (d : ℕ → ℕ) (i : ℕ) → IsBytes d → be16 d i ≡ d i * 256 + d (i + 1)
unfolding be16
be16-add d i b = omega (arith, bit_or_add 8 (d i << 8) (d (i + 1)) (omega arith) (b (i + 1)))

-- The sum of `left` words from `i` on, which does not wrap.
words : (ℕ → ℕ) → ℕ → ℕ → ℕ
words d i zero = 0
words d i (suc left) = be16 d i + words d (i + 2) left

sum_words-words :
    (d : ℕ → ℕ) (i left sum : ℕ)
    → IsBytes d
    → sum + left * 65536 < 2 ^ 32
    → sum_words d i left sum ≡ sum + words d i left
unfolding sum_words words
sum_words-words d i zero sum b h = omega arith
sum_words-words d i (suc left) sum b h =
    let word = be16-add d i b in
    let low = b i in
    let high = b (i + 1) in
    let small : u32 (sum + be16 d i) ≡ sum + be16 d i = omega arith in
    rw small (omega (arith, sum_words-words d (i + 2) left (sum + be16 d i) b (omega arith)))

pub put_be16-apart : (d : ℕ → ℕ) (i v k : ℕ) → k ≢ i → k ≢ i + 1 → put_be16 d i v k ≡ d k
unfolding put_be16
put_be16-apart d i v k p q = ground arith

be16-put_be16 : (d : ℕ → ℕ) (i v : ℕ) → v < 2 ^ 16 → be16 (put_be16 d i v) i ≡ v
unfolding be16 put_be16
be16-put_be16 d i v h = ground (arith, bit_or_add 8 (v / 256 % 256 * 256) (v % 256))

first_word : (a d : ℕ → ℕ) (i : ℕ) → a i ≡ d i → a (i + 1) ≡ d (i + 1) → be16 a i ≡ be16 d i
unfolding be16
first_word a d i p q = rw (p, q) refl

words-apart :
    (d : ℕ → ℕ) (i left at v : ℕ) → at + 2 ≤ i → words (put_be16 d at v) i left ≡ words d i left
unfolding words be16
words-apart d i zero at v h = refl
words-apart d i (suc left) at v h =
    let rest = words-apart d (i + 2) left at v (omega arith) in
    let low = put_be16-apart d at v i (omega arith) (omega arith) in
    let high = put_be16-apart d at v (i + 1) (omega arith) (omega arith) in
    rw (low, high, rest) refl

-- A word of 0 that is written adds to the sum what is written.
words-put_be16 :
    (d : ℕ → ℕ) (i left k at v : ℕ)
    → at ≡ i + 2 * k
    → v < 2 ^ 16
    → k < left
    → be16 d at ≡ 0
    → words (put_be16 d at v) i left ≡ words d i left + v
unfolding words
words-put_be16 d i zero k at v a hv hk e = absurd (omega arith)
words-put_be16 d i (suc left) zero at v a hv hk e =
    let here : at ≡ i = omega arith in
    let written : be16 (put_be16 d at v) i ≡ v =
      ap (be16 (put_be16 d at v)) (sym here) ∙ be16-put_be16 d at v hv in
    let empty : be16 d i ≡ 0 = ap (be16 d) (sym here) ∙ e in
    omega (arith, written, words-apart d (i + 2) left at v (omega arith), empty)
words-put_be16 d i (suc left) (suc k) at v a hv hk e =
    let low = put_be16-apart d at v i (omega arith) (omega arith) in
    let high = put_be16-apart d at v (i + 1) (omega arith) (omega arith) in
    let first : be16 (put_be16 d at v) i ≡ be16 d i = first_word (put_be16 d at v) d i low high in
    omega (arith, first, words-put_be16 d (i + 2) left k at v (omega arith) hv (omega arith) e)

pub put_be16-IsBytes : (d : ℕ → ℕ) (i v : ℕ) → IsBytes d → IsBytes (put_be16 d i v)
unfolding put_be16
put_be16-IsBytes d i v b k = ground (arith, b k)

-- The odd byte at the end.
tail : (ℕ → ℕ) → ℕ → ℕ
tail d len = if len % 2 == 1 then d (len - 1) * 256 else 0

tail-small : (d : ℕ → ℕ) (len : ℕ) → IsBytes d → tail d len < 65536
unfolding tail
tail-small d len b = ground (arith, b (len - 1))

words-small : (d : ℕ → ℕ) (i left : ℕ) → IsBytes d → words d i left ≤ left * 65535
unfolding words
words-small d i zero b = omega arith
words-small d i (suc left) b =
    omega (arith, words-small d (i + 2) left b, be16-add d i b, b i, b (i + 1))

sum_bytes-total :
    (d : ℕ → ℕ) (len start : ℕ)
    → IsBytes d
    → len ≤ 2 ^ 16
    → start < 2 ^ 20
    → sum_bytes d len start ≡ start + words d 0 (len / 2) + tail d len
unfolding sum_bytes tail
sum_bytes-total d len start b hl hs =
    let sum = sum_words-words d 0 (len / 2) start b (omega arith) in
    let small = words-small d 0 (len / 2) b in ground (arith, b (len - 1))

tail-put_be16 :
    (d : ℕ → ℕ) (len k v : ℕ) → 2 * k + 2 ≤ len → tail (put_be16 d (2 * k) v) len ≡ tail d len
unfolding tail
tail-put_be16 d len k v h = elim (Bool-cases (len % 2 == 1)) [
  | inl e ↦
      let odd : len % 2 ≡ 1 = ground (arith, e) in
      rw (e, put_be16-apart d (2 * k) v (len - 1) (omega arith) (omega arith)) refl
  | inr e ↦ rw e refl
]

-- The bytes sealed with the complement of their sum, at an even place that held 0, sum to 0.
pub complement-sum_bytes :
    (d : ℕ → ℕ) (len k start : ℕ)
    → IsBytes d
    → len ≤ 2 ^ 16
    → start < 2 ^ 20
    → 2 * k + 2 ≤ len
    → be16 d (2 * k) ≡ 0
    → complement (sum_bytes (put_be16 d (2 * k) (complement (sum_bytes d len start))) len start) ≡ 0
complement-sum_bytes d len k start b hl hs hk e =
    let s = sum_bytes d len start in
    let total = sum_bytes-total d len start b hl hs in
    let small = words-small d 0 (len / 2) b in
    let last = tail-small d len b in
    let c = complement-fold s (omega arith) in
    let sealed = put_be16 d (2 * k) (complement s) in
    let after : sum_bytes sealed len start ≡ s + complement s = omega (
      arith,
      sum_bytes-total sealed len start (put_be16-IsBytes d (2 * k) (complement s) b) hl hs,
      words-put_be16 d 0 (len / 2) k (2 * k) (complement s) (omega arith) (omega arith)
          (omega arith) e,
      tail-put_be16 d len k (complement s) hk,
    ) in
    ap complement after ∙ complement-add s (omega arith)

-- The octets of a message as RFC 1071 adds them up, the first of a pair being the high one and an odd
-- one at the end too; `high` says that a pair begins. The sum is the integer, which does not wrap.
unfoldable pub octets : Bool → (ℕ → ℕ) → ℕ → ℕ → ℕ
octets high d i zero = 0
octets true d i (suc left) = d i * 256 + octets false d (i + 1) left
octets false d i (suc left) = d i + octets true d (i + 1) left

-- A message that a receiver takes: the sum, from what is added before, is a ones' complement zero.
pub record IsValid (start : ℕ) (d : ℕ → ℕ) (len : ℕ) : Type 0 where
  pub whole : (start + octets true d 0 len) % 65535 ≡ 0
  pub positive : 0 < start + octets true d 0 len

octets-words : (d : ℕ → ℕ) (i left : ℕ) → IsBytes d → octets true d i (2 * left) ≡ words d i left
unfolding octets words
octets-words d i zero b = refl
octets-words d i (suc left) b =
    let two : 2 * suc left ≡ suc (suc (2 * left)) = omega arith in
    let next : i + 1 + 1 ≡ i + 2 = omega arith in
    rw (two, next) (omega (arith, octets-words d (i + 2) left b, be16-add d i b))

octets-odd :
    (d : ℕ → ℕ) (i left : ℕ)
    → IsBytes d
    → octets true d i (suc (2 * left)) ≡ words d i left + d (i + 2 * left) * 256
unfolding octets words
octets-odd d i zero b = let same : i + 2 * 0 ≡ i = omega arith in rw same (omega arith)
octets-odd d i (suc left) b =
    let two : 2 * suc left ≡ suc (suc (2 * left)) = omega arith in
    let next : i + 1 + 1 ≡ i + 2 = omega arith in
    let last : i + suc (suc (2 * left)) ≡ i + 2 + 2 * left = omega arith in
    rw (two, next, last) (omega (arith, octets-odd d (i + 2) left b, be16-add d i b))

octets-total :
    (d : ℕ → ℕ) (len : ℕ) → IsBytes d → octets true d 0 len ≡ words d 0 (len / 2) + tail d len
unfolding tail
octets-total d len b = elim (Bool-cases (len % 2 == 1)) [
  | inl e ↦
      let odd : len ≡ suc (2 * (len / 2)) = ground (arith, e) in
      let last : len - 1 ≡ 0 + 2 * (len / 2) = ground (arith, e) in
      rw (e, last) (ap (octets true d 0) odd ∙ octets-odd d 0 (len / 2) b)
  | inr e ↦
      let even : len ≡ 2 * (len / 2) = ground (arith, e) in
      rw e (ap (octets true d 0) even ∙ octets-words d 0 (len / 2) b ∙ omega arith)
]

-- What the code's sum finds right, the receiver does.
pub complement-IsValid :
    (d : ℕ → ℕ) (len start : ℕ)
    → IsBytes d
    → len ≤ 2 ^ 16
    → start < 2 ^ 20
    → complement (sum_bytes d len start) ≡ 0
    → IsValid start d len
complement-IsValid d len start b hl hs zero_sum =
    let total = sum_bytes-total d len start b hl hs in
    let small = words-small d 0 (len / 2) b in
    let last = tail-small d len b in
    let s = sum_bytes d len start in
    let f = fold_sum-Folds s (omega arith) in
    let c = complement-fold s (omega arith) in
    let same = octets-total d len b in
    record { whole = omega (arith, f.fits, f.whole); positive = omega (arith, f.fits, f.whole) }
