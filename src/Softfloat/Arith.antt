-- ===== src/Softfloat/Arith.antt =====
-- Multiplication, division and square root of src/softfloat.c, in either format.
use quanta.Common.{ℕ, ◌-◌, ◌*◌, ◌%◌, ◌||◌, Bool, false, not, ◌==◌, leb, if◌then◌else◌}
use quanta.Common.Int.{ℤ, pos, negsuc, ◌+ℤ◌, ◌/ℤ◌}
use quanta.Common.Word.{◌|||◌}
use quanta.Softfloat.Format.{
  Fmt, Up, Class, cls_zero, cls_normal, cls_inf, cls_nan, sf_nv, sf_dz, ◌-ℤ◌, unpack, qnan_bits,
  make_inf, make_zero,
}
use quanta.Softfloat.Round.{round_mag}
use quanta.Softfloat.Wide.{mk128, is0_128, msb128, shl128, mul64, udiv128by64, isqrt128}

-- The exclusive or of two signs.
unfoldable pub flip : Bool → Bool → Bool
flip a b = if a then not b else b

-- The invalid operation, if a signalling NaN or the operation itself is the reason.
abbrev pub invalid_if : Bool → ℕ → ℕ
invalid_if b flags = if b then flags ||| sf_nv else flags

-- A canonical NaN with the flags of two operands.
abbrev pub nan_result : Fmt → Up → Up → ℕ → ℕ × ℕ
nan_result f a b flags = (qnan_bits f, invalid_if (a.snan || b.snan) flags)

abbrev pub invalid : Fmt → ℕ → ℕ × ℕ
invalid f flags = (qnan_bits f, flags ||| sf_nv)

-- `fp_mul` by the classes of the operands.
unfoldable pub mul_classes : Fmt → Up → Up → ℕ → ℕ → Class → Class → ℕ × ℕ
mul_classes f a b rm flags cls_nan other = nan_result f a b flags
mul_classes f a b rm flags cls_inf cls_nan = nan_result f a b flags
mul_classes f a b rm flags cls_inf cls_zero = invalid f flags
mul_classes f a b rm flags cls_inf cls_inf = (make_inf f (flip a.sign b.sign), flags)
mul_classes f a b rm flags cls_inf cls_normal = (make_inf f (flip a.sign b.sign), flags)
mul_classes f a b rm flags cls_zero cls_nan = nan_result f a b flags
mul_classes f a b rm flags cls_zero cls_inf = invalid f flags
mul_classes f a b rm flags cls_zero cls_zero = (make_zero f (flip a.sign b.sign), flags)
mul_classes f a b rm flags cls_zero cls_normal = (make_zero f (flip a.sign b.sign), flags)
mul_classes f a b rm flags cls_normal cls_nan = nan_result f a b flags
mul_classes f a b rm flags cls_normal cls_inf = (make_inf f (flip a.sign b.sign), flags)
mul_classes f a b rm flags cls_normal cls_zero = (make_zero f (flip a.sign b.sign), flags)
mul_classes f a b rm flags cls_normal cls_normal =
    round_mag f (flip a.sign b.sign) (mul64 a.sig.lo b.sig.lo) (a.exp2 +ℤ b.exp2) false rm flags

unfoldable pub fp_mul : Fmt → ℕ → ℕ → ℕ → ℕ → ℕ × ℕ
fp_mul f a b rm flags =
    let ua = unpack f a in let ub = unpack f b in mul_classes f ua ub rm flags ua.cls ub.cls

-- `norm_operand`, of an operand that is a number other than 0.
unfoldable pub norm_operand : Fmt → Up → Up
norm_operand f u =
    let mb = msb128 u.sig in
    let shift = f.mantbits - mb in
    if is0_128 u.sig
    then u
    else if leb f.mantbits mb
    then u
    else record u { sig = shl128 u.sig shift; exp2 = u.exp2 -ℤ pos shift }

unfoldable pub div_normal : Fmt → Up → Up → ℕ → ℕ → ℕ × ℕ
div_normal f a0 b0 rm flags =
    let a = norm_operand f a0 in
    let b = norm_operand f b0 in
    let p = if f.width == 32 then 28 else 61 in
    let q = udiv128by64 (shl128 a.sig p) b.sig.lo in
    round_mag f (flip a.sign b.sign) (mk128 0 q.0) (a.exp2 -ℤ b.exp2 -ℤ pos p) (not (q.1 == 0)) rm
      flags

-- `fp_div` by the classes of the operands.
unfoldable pub div_classes : Fmt → Up → Up → ℕ → ℕ → Class → Class → ℕ × ℕ
div_classes f a b rm flags cls_nan other = nan_result f a b flags
div_classes f a b rm flags cls_inf cls_nan = nan_result f a b flags
div_classes f a b rm flags cls_inf cls_inf = invalid f flags
div_classes f a b rm flags cls_inf cls_zero = (make_inf f (flip a.sign b.sign), flags)
div_classes f a b rm flags cls_inf cls_normal = (make_inf f (flip a.sign b.sign), flags)
div_classes f a b rm flags cls_zero cls_nan = nan_result f a b flags
div_classes f a b rm flags cls_zero cls_inf = (make_zero f (flip a.sign b.sign), flags)
div_classes f a b rm flags cls_zero cls_zero = invalid f flags
div_classes f a b rm flags cls_zero cls_normal = (make_zero f (flip a.sign b.sign), flags)
div_classes f a b rm flags cls_normal cls_nan = nan_result f a b flags
div_classes f a b rm flags cls_normal cls_inf = (make_zero f (flip a.sign b.sign), flags)
div_classes f a b rm flags cls_normal cls_zero = (make_inf f (flip a.sign b.sign), flags ||| sf_dz)
div_classes f a b rm flags cls_normal cls_normal = div_normal f a b rm flags

unfoldable pub fp_div : Fmt → ℕ → ℕ → ℕ → ℕ → ℕ × ℕ
fp_div f a b rm flags =
    let ua = unpack f a in let ub = unpack f b in div_classes f ua ub rm flags ua.cls ub.cls

-- `e & 1`.
unfoldable pub is_odd : ℤ → Bool
is_odd (pos n) = n % 2 == 1
is_odd (negsuc n) = n % 2 == 0

unfoldable pub sqrt_normal : Fmt → Up → ℕ → ℕ → ℕ × ℕ
sqrt_normal f u0 rm flags =
    let u = norm_operand f u0 in
    let odd = is_odd u.exp2 in
    let s = if odd then shl128 u.sig 1 else u.sig in
    let e = if odd then u.exp2 -ℤ pos 1 else u.exp2 in
    let p = if f.width == 32 then 28 else 35 in
    let root = isqrt128 (shl128 s (2 * p)) in
    round_mag f false (mk128 0 root.0) (e /ℤ pos 2 -ℤ pos p) root.1 rm flags

-- `fp_sqrt` by the class of the operand.
unfoldable pub sqrt_class : Fmt → ℕ → Up → ℕ → ℕ → Class → ℕ × ℕ
sqrt_class f a u rm flags cls_nan = (qnan_bits f, invalid_if u.snan flags)
sqrt_class f a u rm flags cls_zero = (a, flags)
sqrt_class f a u rm flags cls_inf = if u.sign then invalid f flags else (make_inf f false, flags)
sqrt_class f a u rm flags cls_normal =
    let root = sqrt_normal f u rm flags in if u.sign then invalid f flags else root

unfoldable pub fp_sqrt : Fmt → ℕ → ℕ → ℕ → ℕ × ℕ
fp_sqrt f a rm flags = let u = unpack f a in sqrt_class f a u rm flags u.cls
