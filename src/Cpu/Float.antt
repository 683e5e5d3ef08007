-- ===== src/Cpu/Float.antt =====
-- The floating-point arithmetic of src/cpu.c on the operations of src/softfloat.c: OP-FP and the
-- fused multiply-adds, which fill the interface of a step.
use quanta.Common.{
  ℕ, ◌-◌, ◌^◌, ◌||◌, ◌&&◌, Bool, true, false, not, ◌==◌, leb, if◌then◌else◌, of_bool, Option, none,
  some,
}
use quanta.Common.Word.{◌|||◌, ◌^^^◌, ◌&&&◌, ◌<<◌, ◌>>◌, u32, not64, sub64, sext32, update}
use quanta.Decode.{rd, funct3, rs1, rs2}
use quanta.Decode.Csr.{fcsr}
use quanta.Cpu.{Hart, reg_read, reg_write}
use quanta.Cpu.Access.{fread_s, fwrite_s, fwrite_d}
use quanta.Cpu.Control.{alu_outcome}
use quanta.Cpu.Step.{Fpu}
use quanta.Machine.{Machine, hart}
use quanta.Softfloat.Format.{Fmt, f32, f64}
use quanta.Softfloat.Arith.{fp_mul, fp_div, fp_sqrt}
use quanta.Softfloat.Compare.{feq, flt, fle, fp_minmax, fp_classify}
use quanta.Softfloat.Convert.{f32_to_f64, f64_to_f32, fp_to_int, int_to_fp}
use quanta.Softfloat.Sum.{fp_add, fp_muladd}

-- The registers in a format: `fread_s`, `fread_d`, `fwrite_s` and `fwrite_d`.
unfoldable pub fread : Fmt → Hart → ℕ → ℕ
fread f cpu i = if f.width == 32 then fread_s cpu i else cpu.fregs i

unfoldable pub fwrite : Fmt → Hart → ℕ → ℕ → Hart
fwrite f cpu i v = if f.width == 32 then fwrite_s cpu i (u32 v) else fwrite_d cpu i v

unfoldable pub faccrue : Hart → ℕ → Hart
faccrue cpu fl = record cpu { csr = update cpu.csr fcsr (cpu.csr fcsr ||| (fl &&& 0x1f)) }

unfoldable pub resolve_rm : Hart → ℕ → ℕ
resolve_rm cpu inst = if funct3 inst == 7 then cpu.csr fcsr >> 5 &&& 0x7 else funct3 inst

-- A result with its flags into a float register, or an integer one.
unfoldable pub put_float : Fmt → Hart → ℕ → ℕ × ℕ → Hart
put_float f cpu inst (v, fl) = faccrue (fwrite f cpu (rd inst) v) fl

unfoldable pub put_int : Hart → ℕ → ℕ × ℕ → Hart
put_int cpu inst (v, fl) = faccrue (reg_write cpu (rd inst) v) fl

-- A legal encoding, or `none`.
abbrev pub legal_if : Bool → Hart → Option Hart
legal_if b cpu = if b then some cpu else none

unfoldable pub fp_arith : Fmt → ℕ → ℕ → ℕ → ℕ → ℕ × ℕ
fp_arith f op a b rm =
    if op == 0x00
    then fp_add f a b false rm 0
    else if op == 0x01
    then fp_add f a b true rm 0
    else if op == 0x02
    then fp_mul f a b rm 0
    else fp_div f a b rm 0

-- FSGNJ, FSGNJN and FSGNJX.
unfoldable pub sign_inject : Fmt → ℕ → ℕ → ℕ → ℕ
sign_inject f f3 a b =
    let top = f.width - 1 in
    let s =
      if f3 == 0 then b >> top else if f3 == 1 then not64 (b >> top) &&& 1 else (a ^^^ b) >> top in
    (a &&& (2 ^ top - 1)) ||| s << top

unfoldable pub compare : Fmt → ℕ → ℕ → ℕ → ℕ × ℕ
compare f f3 a b =
    let got = if f3 == 2 then feq f a b 0 else if f3 == 1 then flt f a b 0 else fle f a b 0 in
    (of_bool got.0, got.1)

-- FCVT to an integer, as `rs2` says.
unfoldable pub to_int : Fmt → ℕ → ℕ → ℕ → ℕ × ℕ
to_int f kind a rm =
    let word = fp_to_int f a (kind == 0) 32 rm 0 in
    if kind == 0 || kind == 1 then (sext32 word.0, word.1) else fp_to_int f a (kind == 2) 64 rm 0

-- FCVT from an integer.
unfoldable pub from_signed : Fmt → ℕ → ℕ → ℕ × ℕ
from_signed f x rm =
    let negative = leb (2 ^ 63) x in int_to_fp f (if negative then sub64 0 x else x) negative rm 0

unfoldable pub from_int : Fmt → ℕ → ℕ → ℕ → ℕ × ℕ
from_int f kind x rm =
    if kind == 0
    then from_signed f (sext32 x) rm
    else if kind == 1
    then int_to_fp f (u32 x) false rm 0
    else if kind == 2
    then from_signed f x rm
    else int_to_fp f x false rm 0

-- FMV to an integer register and FCLASS.
unfoldable pub move_out : Fmt → Hart → ℕ → Option Hart
move_out f cpu inst =
    let raw = cpu.fregs (rs1 inst) in
    if not (funct3 inst == 0)
    then some (reg_write cpu (rd inst) (fp_classify f (fread f cpu (rs1 inst))))
    else if f.width == 32
    then some (reg_write cpu (rd inst) (sext32 raw))
    else legal_if (cpu.xlen == 64) (reg_write cpu (rd inst) raw)

-- The switch of `exec_fp` in a format.
unfoldable pub fp_op : Fmt → Hart → ℕ → Option Hart
fp_op f cpu inst =
    let op = inst >> 27 in
    let rm = resolve_rm cpu inst in
    let good = leb rm 4 in
    let f3 = funct3 inst in
    let kind = rs2 inst in
    let a = fread f cpu (rs1 inst) in
    let b = fread f cpu (rs2 inst) in
    let x = reg_read cpu (rs1 inst) in
    let single = f.width == 32 in
    let wide_ok = not ((kind == 2 || kind == 3) && not (cpu.xlen == 64)) in
    if leb op 0x03
    then legal_if good (put_float f cpu inst (fp_arith f op a b rm))
    else if op == 0x0b
    then legal_if good (put_float f cpu inst (fp_sqrt f a rm 0))
    else if op == 0x04
    then some (fwrite f cpu (rd inst) (sign_inject f f3 a b))
    else if op == 0x05
    then some (put_float f cpu inst (fp_minmax f a b (not (f3 == 0)) 0))
    else if op == 0x08
    then (if single
        then legal_if good (put_float f32 cpu inst (f64_to_f32 (cpu.fregs (rs1 inst)) rm 0))
        else some (put_float f64 cpu inst (f32_to_f64 (fread_s cpu (rs1 inst)) 0)))
    else if op == 0x14
    then some (put_int cpu inst (compare f f3 a b))
    else if op == 0x1c
    then move_out f cpu inst
    else if op == 0x1e
    then legal_if (single || cpu.xlen == 64) (fwrite f cpu (rd inst) x)
    else if op == 0x18
    then legal_if (good && wide_ok) (put_int cpu inst (to_int f kind a rm))
    else if op == 0x1a
    then legal_if (good && wide_ok) (put_float f cpu inst (from_int f kind x rm))
    else none

-- The format of an instruction, `none` for a reserved one.
unfoldable pub format_of : ℕ → Option Fmt
format_of inst =
    let fmt = inst >> 25 &&& 0x3 in
    if fmt == 0 then some f32 else if fmt == 1 then some f64 else none

unfoldable pub exec_fp : Machine → ℕ → Machine
exec_fp m inst =
    alu_outcome m inst (elim (format_of inst) [ none ↦ none | some f ↦ fp_op f (hart m) inst ])

unfoldable pub fmadd_op : Fmt → Hart → ℕ → Bool → Bool → Option Hart
fmadd_op f cpu inst flip_a flip_c =
    let rm = resolve_rm cpu inst in
    let top = 2 ^ (f.width - 1) in
    let a = fread f cpu (rs1 inst) in
    let b = fread f cpu (rs2 inst) in
    let c = fread f cpu (inst >> 27) in
    legal_if (leb rm 4) (
      put_float f cpu inst
        (fp_muladd f (if flip_a then a ^^^ top else a) b (if flip_c then c ^^^ top else c) rm 0))

unfoldable pub exec_fmadd : Machine → ℕ → Bool → Bool → Machine
exec_fmadd m inst flip_a flip_c =
    alu_outcome m inst
      (elim (format_of inst) [ none ↦ none | some f ↦ fmadd_op f (hart m) inst flip_a flip_c ])

-- The implementation that a step of the emulator has.
unfoldable pub soft_fpu : Fpu
soft_fpu = record { exec_fp = exec_fp; exec_fmadd = exec_fmadd }
