-- ===== src/Softfloat/Compare.antt =====
-- The order, minimum, maximum and classification of src/softfloat.c.
use quanta.Common.{ℕ, ◌-◌, ◌||◌, ◌&&◌, Bool, true, false, not, ◌==◌, if◌then◌else◌}
use quanta.Common.Int.{ℤ, pos, negsuc, ltb_ℤ, ◌+ℤ◌}
use quanta.Common.Word.{◌|||◌, ◌&&&◌, ◌>>◌, shl64}
use quanta.Softfloat.Format.{
  Fmt, Up, Class, cls_zero, cls_normal, cls_inf, cls_nan, sf_nv, unpack, qnan_bits,
}
use quanta.Softfloat.Wide.{U128, msb128, below128, shl128}

-- The three results of a comparison in C: -1, 0 and 1.
pub data Order : Type 0 where
  less : Order
  same : Order
  more : Order

unfoldable pub opposite : Order → Order
opposite less = more
opposite same = same
opposite more = less

abbrev pub is_nan : Class → Bool
is_nan cls_nan = true
is_nan _ = false

abbrev pub is_inf : Class → Bool
is_inf cls_inf = true
is_inf _ = false

abbrev pub is_zero : Class → Bool
is_zero cls_zero = true
is_zero _ = false

unfoldable pub cmp128 : U128 → U128 → Order
cmp128 a b = if below128 a b then less else if below128 b a then more else same

-- The exponent of the leading bit, far down for 0.
unfoldable pub lead : Up → ℤ
lead u = u.exp2 +ℤ (if is_zero u.cls then negsuc 99999 else pos (msb128 u.sig))

unfoldable pub magnitude : Up → Up → Order
magnitude a b =
    if is_inf a.cls || is_inf b.cls
    then (if is_inf a.cls && is_inf b.cls then same else if is_inf a.cls then more else less)
    else if ltb_ℤ (lead a) (lead b)
    then less
    else if ltb_ℤ (lead b) (lead a)
    then more
    else cmp128 (shl128 a.sig (127 - msb128 a.sig)) (shl128 b.sig (127 - msb128 b.sig))

abbrev pub same_sign : Bool → Bool → Bool
same_sign a b = if a then b else not b

unfoldable pub order_of : Up → Up → Order
order_of a b =
    if is_zero a.cls && is_zero b.cls
    then same
    else if not (same_sign a.sign b.sign)
    then (if a.sign then less else more)
    else if a.sign
    then opposite (magnitude a b)
    else magnitude a b

unfoldable pub fcmp : Fmt → ℕ → ℕ → Order
fcmp f a b = order_of (unpack f a) (unpack f b)

abbrev pub is_less : Order → Bool
is_less less = true
is_less _ = false

abbrev pub is_same : Order → Bool
is_same same = true
is_same _ = false

-- `f32_eq` and `f64_eq`: only a signalling NaN is invalid.
unfoldable pub feq : Fmt → ℕ → ℕ → ℕ → Bool × ℕ
feq f a b flags =
    let ua = unpack f a in
    let ub = unpack f b in
    if is_nan ua.cls || is_nan ub.cls
    then (false, if ua.snan || ub.snan then flags ||| sf_nv else flags)
    else (is_same (fcmp f a b), flags)

-- `f32_lt` and `f64_lt`.
unfoldable pub flt : Fmt → ℕ → ℕ → ℕ → Bool × ℕ
flt f a b flags =
    if is_nan (unpack f a).cls || is_nan (unpack f b).cls
    then (false, flags ||| sf_nv)
    else (is_less (fcmp f a b), flags)

-- `f32_le` and `f64_le`.
unfoldable pub fle : Fmt → ℕ → ℕ → ℕ → Bool × ℕ
fle f a b flags =
    if is_nan (unpack f a).cls || is_nan (unpack f b).cls
    then (false, flags ||| sf_nv)
    else (is_less (fcmp f a b) || is_same (fcmp f a b), flags)

-- The choice between two numbers by their order.
unfoldable pub choose : ℕ → ℕ → Bool → Bool → Order → ℕ
choose a b a_negative want_max same = if same_sign a_negative (not want_max) then a else b
choose a b a_negative want_max more = if want_max then a else b
choose a b a_negative want_max less = if want_max then b else a

unfoldable pub fp_minmax : Fmt → ℕ → ℕ → Bool → ℕ → ℕ × ℕ
fp_minmax f a b want_max flags =
    let ua = unpack f a in
    let ub = unpack f b in
    let raised = if ua.snan || ub.snan then flags ||| sf_nv else flags in
    if is_nan ua.cls && is_nan ub.cls
    then (qnan_bits f, raised)
    else if is_nan ua.cls
    then (b, raised)
    else if is_nan ub.cls
    then (a, raised)
    else (choose a b ua.sign want_max (fcmp f a b), flags)

-- The bit of FCLASS for a class; `small` is a zero exponent field.
unfoldable pub class_bit : Bool → Bool → Bool → Class → ℕ
class_bit sign snan small cls_inf = if sign then 0x001 else 0x080
class_bit sign snan small cls_zero = if sign then 0x008 else 0x010
class_bit sign snan small cls_nan = if snan then 0x100 else 0x200
class_bit sign snan small cls_normal =
    if small then (if sign then 0x004 else 0x020) else if sign then 0x002 else 0x040

unfoldable pub fp_classify : Fmt → ℕ → ℕ
fp_classify f a =
    let u = unpack f a in
    class_bit u.sign u.snan ((a >> f.mantbits &&& (shl64 1 f.expbits - 1)) == 0) u.cls
