-- ===== src/Softfloat/Convert.antt =====
-- The conversions of src/softfloat.c between the formats and to and from integers.
use quanta.Common.{
  ℕ, ◌+◌, ◌-◌, ◌^◌, ◌||◌, ◌&&◌, Bool, true, false, not, ◌==◌, ltb, leb, if◌then◌else◌, nonzero,
  of_bool,
}
use quanta.Common.Int.{ℤ, pos, negsuc}
use quanta.Common.Word.{◌|||◌, ◌&&&◌, ◌>>◌, u32, u64, shl64, sub64}
use quanta.Softfloat.Format.{
  Fmt, f32, f64, Up, Class, cls_zero, cls_normal, cls_inf, cls_nan, sf_rne, sf_rdn, sf_rup, sf_rmm,
  sf_nv, sf_nx, unpack, qnan_bits, make_inf, make_zero,
}
use quanta.Softfloat.Round.{round_mag}
use quanta.Softfloat.Wide.{mk128, clz64}

-- A value into a format: `f32_to_f64` and `f64_to_f32`.
unfoldable pub convert_class : Fmt → Up → ℕ → ℕ → Class → ℕ × ℕ
convert_class f u rm flags cls_nan = (qnan_bits f, if u.snan then flags ||| sf_nv else flags)
convert_class f u rm flags cls_inf = (make_inf f u.sign, flags)
convert_class f u rm flags cls_zero = (make_zero f u.sign, flags)
convert_class f u rm flags cls_normal = round_mag f u.sign u.sig u.exp2 false rm flags

unfoldable pub f32_to_f64 : ℕ → ℕ → ℕ × ℕ
f32_to_f64 a flags = let u = unpack f32 a in convert_class f64 u sf_rne flags u.cls

unfoldable pub f64_to_f32 : ℕ → ℕ → ℕ → ℕ × ℕ
f64_to_f32 a rm flags =
    let u = unpack f64 a in let got = convert_class f32 u rm flags u.cls in (u32 got.0, got.1)

-- The rounding of an integer part.
unfoldable pub increment : ℕ → Bool → Bool → Bool → ℕ → Bool
increment rm sign round sticky floor =
    if rm == sf_rne
    then round && (sticky || nonzero (floor &&& 1))
    else if rm == sf_rdn
    then sign && (round || sticky)
    else if rm == sf_rup
    then not sign && (round || sticky)
    else if rm == sf_rmm
    then round
    else false

-- What `to_int_mag` gives.
pub record IntMag : Type 0 where
  pub mag : ℕ
  pub overflow : Bool
  pub inexact : Bool

unfoldable pub to_int_mag : ℕ → ℤ → Bool → ℕ → IntMag
to_int_mag sig (pos e) sign rm =
    if sig == 0
    then record { mag = 0; overflow = false; inexact = false }
    else if ltb 63 (63 - clz64 sig + e)
    then record { mag = 0; overflow = true; inexact = false }
    else record { mag = shl64 sig e; overflow = false; inexact = false }
to_int_mag sig (negsuc e) sign rm =
    let rsh = e + 1 in
    let floor = if leb 64 rsh then 0 else sig >> rsh in
    let round = leb rsh 64 && nonzero (sig >> e &&& 1) in
    let below = if leb 64 e then 2 ^ 64 - 1 else 2 ^ e - 1 in
    let sticky = nonzero (sig &&& below) in
    if sig == 0 then record { mag = 0; overflow = false; inexact = false } else record {
      mag = u64 (floor + of_bool (increment rm sign round sticky floor));
      overflow = false;
      inexact = round || sticky;
    }

-- The bounds of an integer type.
unfoldable pub max_positive : Bool → ℕ → ℕ
max_positive is_signed intbits =
    if is_signed
    then shl64 1 (intbits - 1) - 1
    else if leb 64 intbits
    then 2 ^ 64 - 1
    else shl64 1 intbits - 1

unfoldable pub min_negative : Bool → ℕ → ℕ
min_negative is_signed intbits = if is_signed then shl64 1 (intbits - 1) else 0

abbrev pub inexact_if : Bool → ℕ → ℕ
inexact_if b flags = if b then flags ||| sf_nx else flags

-- The range check of a magnitude.
unfoldable pub in_range : Bool → ℕ → Bool → ℕ → IntMag → ℕ × ℕ
in_range is_signed intbits sign flags m =
    let maxpos = max_positive is_signed intbits in
    let minneg = min_negative is_signed intbits in
    let all = if leb 64 intbits then 2 ^ 64 - 1 else shl64 1 intbits - 1 in
    if sign
    then (if m.overflow || ltb minneg m.mag
        then (minneg, flags ||| sf_nv)
        else if not is_signed && not (m.mag == 0)
        then (0, flags ||| sf_nv)
        else (sub64 0 m.mag &&& all, inexact_if m.inexact flags))
    else if m.overflow || ltb maxpos m.mag
    then (maxpos, flags ||| sf_nv)
    else (m.mag, inexact_if m.inexact flags)

unfoldable pub to_int_class : Bool → ℕ → Up → ℕ → ℕ → Class → ℕ × ℕ
to_int_class is_signed intbits u rm flags cls_nan =
    (max_positive is_signed intbits, flags ||| sf_nv)
to_int_class is_signed intbits u rm flags cls_zero = (0, flags)
to_int_class is_signed intbits u rm flags cls_inf = (
  if u.sign then min_negative is_signed intbits else max_positive is_signed intbits,
  flags ||| sf_nv,
)
to_int_class is_signed intbits u rm flags cls_normal =
    in_range is_signed intbits u.sign flags (to_int_mag u.sig.lo u.exp2 u.sign rm)

unfoldable pub fp_to_int : Fmt → ℕ → Bool → ℕ → ℕ → ℕ → ℕ × ℕ
fp_to_int f a is_signed intbits rm flags =
    let u = unpack f a in to_int_class is_signed intbits u rm flags u.cls

unfoldable pub int_to_fp : Fmt → ℕ → Bool → ℕ → ℕ → ℕ × ℕ
int_to_fp f mag sign rm flags =
    let got = round_mag f sign (mk128 0 mag) (pos 0) false rm flags in
    if mag == 0 then (0, flags) else got
