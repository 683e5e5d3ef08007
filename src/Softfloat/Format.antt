-- ===== src/Softfloat/Format.antt =====
-- The formats of src/softfloat.c, and the parts of a value.
use quanta.Common.{ℕ, ◌-◌, Bool, false, ◌==◌, if◌then◌else◌, nonzero, of_bool}
use quanta.Common.Int.{ℤ, pos, pos_part, neg_part, sub_ℕ, ◌+ℤ◌}
use quanta.Common.Word.{◌|||◌, ◌&&&◌, ◌>>◌, shl64}
use quanta.Softfloat.Wide.{U128, mk128}

pub record Fmt : Type 0 where
  pub mantbits : ℕ
  pub expbits : ℕ
  pub bias : ℕ
  pub width : ℕ

abbrev pub f32 : Fmt
f32 = record { mantbits = 23; expbits = 8; bias = 127; width = 32 }

abbrev pub f64 : Fmt
f64 = record { mantbits = 52; expbits = 11; bias = 1023; width = 64 }

pub data Class : Type 0 where
  cls_zero : Class
  cls_normal : Class
  cls_inf : Class
  cls_nan : Class

-- The magnitude is `sig * 2 ^ exp2`. `sig` and `exp2` of an infinity or a NaN, which C leaves
-- unset, are 0.
pub record Up : Type 0 where
  pub sign : Bool
  pub cls : Class
  pub snan : Bool
  pub sig : U128
  pub exp2 : ℤ

-- The rounding modes and the exception flags of src/softfloat.h.
abbrev pub sf_rne : ℕ
sf_rne = 0

abbrev pub sf_rtz : ℕ
sf_rtz = 1

abbrev pub sf_rdn : ℕ
sf_rdn = 2

abbrev pub sf_rup : ℕ
sf_rup = 3

abbrev pub sf_rmm : ℕ
sf_rmm = 4

abbrev pub sf_nx : ℕ
sf_nx = 0x01

abbrev pub sf_uf : ℕ
sf_uf = 0x02

abbrev pub sf_of : ℕ
sf_of = 0x04

abbrev pub sf_dz : ℕ
sf_dz = 0x08

abbrev pub sf_nv : ℕ
sf_nv = 0x10

infixl 65 ◌-ℤ◌
abbrev pub ◌-ℤ◌ : ℤ → ℤ → ℤ
a -ℤ b = a +ℤ sub_ℕ (neg_part b) (pos_part b)

unfoldable pub qnan_bits : Fmt → ℕ
qnan_bits f = if f.width == 32 then 0x7fc00000 else 0x7ff8000000000000

unfoldable pub sign_bit : Fmt → ℕ
sign_bit f = shl64 1 (f.width - 1)

unfoldable pub pack_raw : Fmt → Bool → ℕ → ℕ → ℕ
pack_raw f sign expfield frac =
    shl64 (of_bool sign) (f.width - 1) ||| shl64 expfield f.mantbits ||| frac

unfoldable pub make_inf : Fmt → Bool → ℕ
make_inf f sign = pack_raw f sign (shl64 1 f.expbits - 1) 0

unfoldable pub make_zero : Fmt → Bool → ℕ
make_zero f sign = if sign then sign_bit f else 0

unfoldable pub unpack : Fmt → ℕ → Up
unpack f bits =
    let allones = shl64 1 f.expbits - 1 in
    let sign = nonzero (bits >> (f.width - 1) &&& 1) in
    let exp = bits >> f.mantbits &&& allones in
    let frac = bits &&& (shl64 1 f.mantbits - 1) in
    let none_set = mk128 0 0 in
    if exp == 0
    then (if frac == 0
        then record { sign = sign; cls = cls_zero; snan = false; sig = none_set; exp2 = pos 0 }
        else record {
          sign = sign;
          cls = cls_normal;
          snan = false;
          sig = mk128 0 frac;
          exp2 = sub_ℕ 1 f.bias -ℤ pos f.mantbits;
        })
    else if exp == allones
    then (if frac == 0
        then record { sign = sign; cls = cls_inf; snan = false; sig = none_set; exp2 = pos 0 }
        else record {
          sign = sign;
          cls = cls_nan;
          snan = (frac >> (f.mantbits - 1) &&& 1) == 0;
          sig = none_set;
          exp2 = pos 0;
        })
    else record {
      sign = sign;
      cls = cls_normal;
      snan = false;
      sig = mk128 0 (shl64 1 f.mantbits ||| frac);
      exp2 = sub_ℕ exp f.bias -ℤ pos f.mantbits;
    }
