-- ===== src/Softfloat/Round.antt =====
-- The round-and-pack step of src/softfloat.c. A result goes with the accrued flags.
use quanta.Common.{
  ℕ, ◌+◌, ◌-◌, ◌||◌, ◌&&◌, Bool, not, ◌==◌, ltb, leb, if◌then◌else◌, nonzero, of_bool,
}
use quanta.Common.Int.{ℤ, pos, negsuc, ◌+ℤ◌}
use quanta.Common.Word.{◌|||◌, ◌&&&◌, ◌>>◌, u64, shl64, clear64}
use quanta.Softfloat.Format.{
  Fmt, sf_rne, sf_rmm, sf_rdn, sf_rup, sf_nx, sf_uf, sf_of, ◌-ℤ◌, make_inf, make_zero,
}
use quanta.Softfloat.Wide.{U128, is0_128, msb128, shl128, shr128_jam, srjam64}

-- The bits below the fraction.
unfoldable pub round_width : Fmt → ℕ
round_width f = if f.width == 32 then 7 else 10

unfoldable pub round_increment : Fmt → Bool → ℕ → ℕ
round_increment f sign rm =
    let half = shl64 1 (round_width f - 1) in
    let mask = shl64 1 (round_width f) - 1 in
    if not (rm == sf_rne) && not (rm == sf_rmm)
    then (if rm == (if sign then sf_rdn else sf_rup) then mask else 0)
    else half

-- The end of `roundpack`, with an exponent that is not negative.
unfoldable pub pack_rounded : Fmt → Bool → ℕ → ℕ → ℕ → ℕ → ℕ → ℕ × ℕ
pack_rounded f sign exp0 sigp inc rm flags =
    let r = round_width f in
    let bits = sigp &&& (shl64 1 r - 1) in
    let sig0 = u64 (sigp + inc) >> r in
    let sig = if rm == sf_rne && bits == shl64 1 (r - 1) then clear64 sig0 1 else sig0 in
    let exp = if sig == 0 then 0 else exp0 in
    (
      u64 (shl64 (of_bool sign) (f.width - 1) + shl64 exp f.mantbits + sig),
      if bits == 0 then flags else flags ||| sf_nx,
    )

unfoldable pub roundpack : Fmt → Bool → ℤ → ℕ → ℕ → ℕ → ℕ × ℕ
roundpack f sign (negsuc e) sigp rm flags =
    let inc = round_increment f sign rm in
    let overflow_bit = if f.width == 32 then 0x80000000 else 0x8000000000000000 in
    let is_tiny = ltb 0 e || ltb (u64 (sigp + inc)) overflow_bit in
    let shifted = srjam64 sigp (e + 1) in
    let lost = nonzero (shifted &&& (shl64 1 (round_width f) - 1)) in
    pack_rounded f sign 0 shifted inc rm (if is_tiny && lost then flags ||| sf_uf else flags)
roundpack f sign (pos e) sigp rm flags =
    let inc = round_increment f sign rm in
    let overflow_bit = if f.width == 32 then 0x80000000 else 0x8000000000000000 in
    let inf_exp = shl64 1 f.expbits - 1 in
    let inf = make_inf f sign in
    if leb (inf_exp - 2) e && (ltb (inf_exp - 2) e || leb overflow_bit (u64 (sigp + inc)))
    then (if inc == 0 then inf - 1 else inf, flags ||| (sf_of ||| sf_nx))
    else pack_rounded f sign e sigp inc rm flags

-- The significand with its leading 1 where `roundpack` wants it.
unfoldable pub place : U128 → ℕ → ℕ → Bool → ℕ
place mant leadpos mb sticky =
    let down = shr128_jam mant (mb - leadpos) in
    if leb mb leadpos
    then (shl128 mant (leadpos - mb)).lo ||| of_bool sticky
    else (down.0).lo ||| of_bool (down.1 || sticky)

unfoldable pub round_mag : Fmt → Bool → U128 → ℤ → Bool → ℕ → ℕ → ℕ × ℕ
round_mag f sign mant exp2 sticky rm flags =
    let leadpos = if f.width == 32 then 30 else 62 in
    let mb = msb128 mant in
    let exp = exp2 +ℤ pos mb +ℤ pos f.bias -ℤ pos 1 in
    if is0_128 mant
    then (make_zero f sign, flags)
    else roundpack f sign exp (place mant leadpos mb sticky) rm flags
