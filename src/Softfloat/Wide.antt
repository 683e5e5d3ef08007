-- ===== src/Softfloat/Wide.antt =====
-- The 128-bit integers of src/softfloat.c, as two words.
pub mod Division
use quanta.Common.{
  ℕ, zero, suc, ◌+◌, ◌-◌, ◌*◌, ◌^◌, ◌||◌, Bool, false, not, ◌==◌, ltb, leb, if◌then◌else◌, nonzero,
  of_bool,
}
use quanta.Common.Word.{◌|||◌, ◌&&&◌, ◌<<◌, ◌>>◌, u32, u64, shl64, sub64}

pub record U128 : Type 0 where
  pub hi : ℕ
  pub lo : ℕ

abbrev pub mk128 : ℕ → ℕ → U128
mk128 hi lo = record { hi = hi; lo = lo }

unfoldable pub is0_128 : U128 → Bool
is0_128 a = (a.hi ||| a.lo) == 0

-- One halving of `clz64`: the word and the count.
unfoldable pub clz_step : ℕ → ℕ → ℕ × ℕ → ℕ × ℕ
clz_step bound k (x, n) = if leb x bound then (shl64 x k, n + k) else (x, n)

unfoldable pub clz64 : ℕ → ℕ
clz64 x =
    let s1 = clz_step 0x00000000ffffffff 32 (x, 0) in
    let s2 = clz_step 0x0000ffffffffffff 16 s1 in
    let s3 = clz_step 0x00ffffffffffffff 8 s2 in
    let s4 = clz_step 0x0fffffffffffffff 4 s3 in
    let s5 = clz_step 0x3fffffffffffffff 2 s4 in
    let s6 = clz_step 0x7fffffffffffffff 1 s5 in if x == 0 then 64 else s6.1

unfoldable pub clz128 : U128 → ℕ
clz128 a = if a.hi == 0 then 64 + clz64 a.lo else clz64 a.hi

-- The index of the top set bit, of a value that is not 0.
unfoldable pub msb128 : U128 → ℕ
msb128 a = 127 - clz128 a

-- `get_bit128` at an index up to 127.
unfoldable pub get_bit128 : U128 → ℕ → ℕ
get_bit128 a i = if ltb 127 i then 0 else (if leb 64 i then a.hi >> (i - 64) else a.lo >> i) &&& 1

-- `cmp128(a, b) >= 0` and `< 0`.
unfoldable pub below128 : U128 → U128 → Bool
below128 a b = if a.hi == b.hi then ltb a.lo b.lo else ltb a.hi b.hi

unfoldable pub add128 : U128 → U128 → U128
add128 a b = let lo = u64 (a.lo + b.lo) in mk128 (u64 (a.hi + b.hi + of_bool (ltb lo a.lo))) lo

unfoldable pub sub128 : U128 → U128 → U128
sub128 a b = mk128 (sub64 (sub64 a.hi b.hi) (of_bool (ltb a.lo b.lo))) (sub64 a.lo b.lo)

unfoldable pub shl128 : U128 → ℕ → U128
shl128 a n =
    if n == 0
    then a
    else if leb 64 n
    then mk128 (shl64 a.lo (n - 64)) 0
    else mk128 (shl64 a.hi n ||| a.lo >> (64 - n)) (shl64 a.lo n)

-- With whether a bit was lost.
unfoldable pub shr128_jam : U128 → ℕ → U128 × Bool
shr128_jam a n =
    let m = n - 64 in
    if n == 0
    then (a, false)
    else if leb 128 n
    then (mk128 0 0, not (is0_128 a))
    else if leb 64 n
    then (mk128 0 (a.hi >> m), nonzero (a.lo ||| (if m == 0 then 0 else a.hi &&& (2 ^ m - 1))))
    else (mk128 (a.hi >> n) (a.lo >> n ||| shl64 a.hi (64 - n)), nonzero (a.lo &&& (2 ^ n - 1)))

unfoldable pub mul64 : ℕ → ℕ → U128
mul64 a b =
    let ll = u64 (u32 a * u32 b) in
    let lh = u64 (u32 a * (b >> 32)) in
    let hl = u64 ((a >> 32) * u32 b) in
    let hh = u64 ((a >> 32) * (b >> 32)) in
    let cross = u64 (ll >> 32 + u32 lh + u32 hl) in
    mk128 (u64 (hh + lh >> 32 + hl >> 32 + cross >> 32)) (ll &&& 0xffffffff ||| shl64 cross 32)

-- One round of the division, for bit `i`: the quotient and the remainder.
unfoldable pub udiv_round : ℕ → ℕ → ℕ → ℕ × ℕ → ℕ × ℕ
udiv_round lo den i (q, r) =
    let next = shl64 r 1 ||| (lo >> i &&& 1) in
    if nonzero (r >> 63) || leb den next then (q ||| shl64 1 i, sub64 next den) else (q, next)

-- The rounds from bit `left - 1` down.
unfoldable pub udiv_loop : ℕ → ℕ → ℕ → ℕ × ℕ → ℕ × ℕ
udiv_loop lo den zero state = state
udiv_loop lo den (suc left) state = udiv_loop lo den left (udiv_round lo den left state)

unfoldable pub udiv128by64 : U128 → ℕ → ℕ × ℕ
udiv128by64 num den = udiv_loop num.lo den 64 (0, num.hi)

-- One round of the square root, for the bits `2i + 1` and `2i`: the root and the remainder.
unfoldable pub isqrt_round : U128 → ℕ → ℕ × U128 → ℕ × U128
isqrt_round x i (root, rem0) =
    let pair = get_bit128 x (2 * i + 1) << 1 ||| get_bit128 x (2 * i) in
    let rem = add128 (shl128 rem0 2) (mk128 0 pair) in
    let trial = add128 (shl128 (mk128 0 root) 2) (mk128 0 1) in
    if below128 rem trial then (shl64 root 1, rem) else (shl64 root 1 ||| 1, sub128 rem trial)

unfoldable pub isqrt_loop : U128 → ℕ → ℕ × U128 → ℕ × U128
isqrt_loop x zero state = state
isqrt_loop x (suc left) state = isqrt_loop x left (isqrt_round x left state)

-- The root, and whether something remains.
unfoldable pub isqrt128 : U128 → ℕ × Bool
isqrt128 x = let s = isqrt_loop x 64 (0, mk128 0 0) in (s.0, not (is0_128 s.1))

unfoldable pub srjam64 : ℕ → ℕ → ℕ
srjam64 a dist =
    if dist == 0
    then a
    else if leb 64 dist
    then (if a == 0 then 0 else 1)
    else a >> dist ||| (if a &&& (2 ^ dist - 1) == 0 then 0 else 1)
