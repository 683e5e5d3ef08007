-- ===== src/Softfloat/Sum.antt =====
-- The 256-bit accumulator of src/softfloat.c, addition, subtraction and the fused multiply-add.
use quanta.Common.{
  ℕ, zero, suc, ◌+◌, ◌-◌, ◌*◌, ◌/◌, ◌%◌, ◌^◌, ◌||◌, ◌&&◌, Bool, false, not, ◌==◌, ltb, leb,
  if◌then◌else◌, nonzero, of_bool,
}
use quanta.Common.Int.{ℤ, pos, negsuc, pos_part, ltb_ℤ, ◌+ℤ◌}
use quanta.Common.Word.{◌|||◌, ◌^^^◌, ◌&&&◌, ◌>>◌, u64, shl64, sub64, update}
use quanta.Softfloat.Format.{
  Fmt, Up, sf_rdn, ◌-ℤ◌, unpack, qnan_bits, sign_bit, make_inf, make_zero,
}
use quanta.Softfloat.Round.{round_mag}
use quanta.Softfloat.Arith.{flip, invalid_if, invalid}
use quanta.Softfloat.Compare.{Order, less, same, more, is_nan, is_inf, is_zero, same_sign}
use quanta.Softfloat.Wide.{U128, mk128, msb128, clz64, mul64}

-- `w`: four words, the least significant first.
abbrev pub U256 : Type 0
U256 = ℕ → ℕ

unfoldable pub u256_from128 : U128 → U256
u256_from128 a i = if i == 0 then a.lo else if i == 1 then a.hi else 0

unfoldable pub is0_256 : U256 → Bool
is0_256 a = (a 0 ||| a 1 ||| a 2 ||| a 3) == 0

-- The scan down from word `left - 1`, of a value that is not 0.
unfoldable pub msb_from : U256 → ℕ → ℕ
msb_from a zero = 0
msb_from a (suc left) =
    let rest = msb_from a left in if a left == 0 then rest else left * 64 + (63 - clz64 (a left))

abbrev pub msb256 : U256 → ℕ
msb256 a = msb_from a 4

unfoldable pub cmp_from : U256 → U256 → ℕ → Order
cmp_from a b zero = same
cmp_from a b (suc left) =
    let rest = cmp_from a b left in
    if a left == b left then rest else if ltb (a left) (b left) then less else more

abbrev pub cmp256 : U256 → U256 → Order
cmp256 a b = cmp_from a b 4

-- A round of the addition, with the result so far and the carry.
unfoldable pub add_round : U256 → U256 → ℕ → U256 × ℕ → U256 × ℕ
add_round a b i (r, carry) =
    let s1 = u64 (a i + carry) in
    let s = u64 (s1 + b i) in (update r i s, of_bool (ltb s1 carry) + of_bool (ltb s (b i)))

unfoldable pub sub_round : U256 → U256 → ℕ → U256 × ℕ → U256 × ℕ
sub_round a b i (r, borrow) =
    let bi = u64 (b i + borrow) in
    (update r i (sub64 (a i) bi), of_bool (ltb bi borrow) + of_bool (ltb (a i) bi))

-- The four rounds.
unfoldable pub words : (ℕ → U256 × ℕ → U256 × ℕ) → U256
words round = (round 3 (round 2 (round 1 (round 0 ((λ _. 0), 0))))).0

unfoldable pub add256 : U256 → U256 → U256
add256 a b = words (add_round a b)

unfoldable pub sub256 : U256 → U256 → U256
sub256 a b = words (sub_round a b)

unfoldable pub shl128_256 : U128 → ℕ → U256
shl128_256 a n i =
    let s = u256_from128 a in
    let word = n / 64 in
    let bit = n % 64 in
    let k = i - word in
    if leb 256 n || ltb i word || ltb 3 i
    then 0
    else shl64 (s k) bit ||| (if ltb 0 bit && ltb 0 k then s (k - 1) >> (64 - bit) else 0)

-- Whether one of the words below an index is not 0.
unfoldable pub lost_words : U256 → ℕ → Bool
lost_words a zero = false
lost_words a (suc left) = lost_words a left || nonzero (a left)

unfoldable pub shr256_jam : U256 → ℕ → U256 × Bool
shr256_jam a n =
    let word = n / 64 in
    let bit = n % 64 in
    let shifted : U256 = λ i.
      if ltb 3 (i + word)
      then 0
      else a (i + word) >> bit
        ||| (if ltb 0 bit && ltb (i + word + 1) 4
            then shl64 (a (i + word + 1)) (64 - bit)
            else 0) in
    if n == 0
    then (a, false)
    else if leb 256 n
    then ((λ _. 0), not (is0_256 a))
    else (shifted, lost_words a word || ltb 0 bit && nonzero (a word &&& (2 ^ bit - 1)))

-- A magnitude with its sign.
pub record Term : Type 0 where
  pub sign : Bool
  pub sig : U128
  pub exp : ℤ

abbrev pub lead_of : Term → ℤ
lead_of t = t.exp +ℤ pos (msb128 t.sig)

-- The second operand in the window, with what falls below it.
unfoldable pub align : U128 → ℤ → U256 × Bool
align sig (pos n) = (shl128_256 sig n, false)
align sig (negsuc n) = shr256_jam (u256_from128 sig) (n + 1)

-- The exact sum, its sign and its sticky bit, by the order of the magnitudes.
unfoldable pub difference : Bool → Bool → U256 → U256 → Bool → Order → U256 × (Bool × Bool)
difference sx sy a b sticky more =
    let m = sub256 a b in (if sticky then sub256 m (u256_from128 (mk128 0 1)) else m, (sx, sticky))
difference sx sy a b sticky less = (sub256 b a, (sy, sticky))
difference sx sy a b sticky same = ((λ _. 0), (sx, false))

-- The sum into the rounding.
unfoldable pub round_sum : Fmt → ℤ → ℕ → ℕ → U256 × (Bool × Bool) → ℕ × ℕ
round_sum f wbot rm flags (m, (sign, sticky)) =
    let mb = msb256 m in
    let red = shr256_jam m (mb - 127) in
    if is0_256 m && not sticky
    then (make_zero f (rm == sf_rdn), flags)
    else if leb mb 127
    then round_mag f sign (mk128 (m 1) (m 0)) wbot sticky rm flags
    else round_mag f sign (mk128 (red.0 1) (red.0 0)) (wbot +ℤ pos (mb - 127)) (sticky || red.1) rm
        flags

-- `add_core` with the operand of the higher leading bit first. An exact cancellation comes to
-- `round_sum` as 0 without a sticky bit, with the same result.
unfoldable pub add_ordered : Fmt → Term → Term → ℕ → ℕ → ℕ × ℕ
add_ordered f x y rm flags =
    let wbot = lead_of x -ℤ pos 253 in
    let a = shl128_256 x.sig (pos_part (x.exp -ℤ wbot)) in
    let aligned = align y.sig (y.exp -ℤ wbot) in
    round_sum f wbot rm flags (
      if same_sign x.sign y.sign
      then (add256 a aligned.0, (x.sign, aligned.1))
      else difference x.sign y.sign a aligned.0 aligned.1 (cmp256 a aligned.0))

unfoldable pub add_core : Fmt → Term → Term → ℕ → ℕ → ℕ × ℕ
add_core f x y rm flags =
    if ltb_ℤ (lead_of x) (lead_of y) then add_ordered f y x rm flags else add_ordered f x y rm flags

abbrev pub term : Bool → U128 → ℤ → Term
term sign sig exp = record { sign = sign; sig = sig; exp = exp }

-- `fp_add` on operands that are unpacked, the second with its sign flipped for a subtraction.
unfoldable pub add_parts : Fmt → ℕ → ℕ → Up → Up → ℕ → ℕ → ℕ × ℕ
add_parts f a b ua ub rm flags =
    if is_nan ua.cls || is_nan ub.cls
    then (qnan_bits f, invalid_if (ua.snan || ub.snan) flags)
    else if is_inf ua.cls && is_inf ub.cls
    then (if same_sign ua.sign ub.sign then (make_inf f ua.sign, flags) else invalid f flags)
    else if is_inf ua.cls
    then (make_inf f ua.sign, flags)
    else if is_inf ub.cls
    then (make_inf f ub.sign, flags)
    else if is_zero ua.cls && is_zero ub.cls
    then (make_zero f (if same_sign ua.sign ub.sign then ua.sign else rm == sf_rdn), flags)
    else if is_zero ua.cls
    then (b, flags)
    else if is_zero ub.cls
    then (a, flags)
    else add_core f (term ua.sign ua.sig ua.exp2) (term ub.sign ub.sig ub.exp2) rm flags

unfoldable pub fp_add : Fmt → ℕ → ℕ → Bool → ℕ → ℕ → ℕ × ℕ
fp_add f a b sub rm flags =
    let ub = unpack f b in
    add_parts f a (if sub then b ^^^ sign_bit f else b) (unpack f a)
      (record ub { sign = flip sub ub.sign }) rm flags

-- `fp_muladd` on operands that are unpacked.
unfoldable pub muladd_parts : Fmt → ℕ → Up → Up → Up → ℕ → ℕ → ℕ × ℕ
muladd_parts f c ua ub uc rm flags =
    let psign = flip ua.sign ub.sign in
    let prod_invalid = is_inf ua.cls && is_zero ub.cls || is_zero ua.cls && is_inf ub.cls in
    let product = mul64 ua.sig.lo ub.sig.lo in
    let exp = ua.exp2 +ℤ ub.exp2 in
    if is_nan ua.cls || is_nan ub.cls || is_nan uc.cls || prod_invalid
    then (qnan_bits f, invalid_if (ua.snan || ub.snan || uc.snan || prod_invalid) flags)
    else if is_inf ua.cls || is_inf ub.cls
    then (if is_inf uc.cls && not (same_sign uc.sign psign)
        then invalid f flags
        else (make_inf f psign, flags))
    else if is_inf uc.cls
    then (make_inf f uc.sign, flags)
    else if is_zero ua.cls || is_zero ub.cls
    then (if is_zero uc.cls
        then (make_zero f (if same_sign psign uc.sign then psign else rm == sf_rdn), flags)
        else (c, flags))
    else if is_zero uc.cls
    then round_mag f psign product exp false rm flags
    else add_core f (term psign product exp) (term uc.sign uc.sig uc.exp2) rm flags

unfoldable pub fp_muladd : Fmt → ℕ → ℕ → ℕ → ℕ → ℕ → ℕ × ℕ
fp_muladd f a b c rm flags = muladd_parts f c (unpack f a) (unpack f b) (unpack f c) rm flags
