-- ===== src/Cpu/Trap/Return.antt =====
-- A return undoes a trap's entry.
use quanta.Common.{
  ℕ, ◌+◌, ◌*◌, ◌/◌, ◌%◌, ◌^◌, ◌<◌, ◌≡◌, arith, false, ltb, if◌then◌else◌, ◌∙◌, ap,
  refl as path_refl, bit_or, ==_refl,
}
use quanta.Common.Fields.{clear_field, put_field, test_field, read_field}
use quanta.Common.Bits.{bit, bit_or-add-bit_and}
use quanta.Common.Word.{clear64, test_bits}
use quanta.Decode.Csr.{mstatus, mepc}
use quanta.Cpu.{Hart, priv_m}
use quanta.Machine.{Machine, hart, set_cpu, hart-set_cpu}
use quanta.Cpu.Trap.{stack_m, unstack_m, leave_m, enter_trap, exec_mret}

-- The value of a bit, of a truth value.
digit_of : (b : ℕ) → b < 2 → (if ltb 0 b then 1 else 0) ≡ b
digit_of b h = ground arith

-- The steps of entry, each a field that is replaced.
copy_bit :
    (k j s t : ℕ)
    → s < 2 ^ 64
    → 2 ^ k < 2 ^ 64
    → bit_or (clear64 s (2 ^ k)) (if test_bits t (2 ^ j) then 2 ^ k else 0) + s / 2 ^ k % 2 * 2 ^ k
      ≡ s + t / 2 ^ j % 2 * 2 ^ k
copy_bit k j s t hs hk =
    ground (
      arith,
      test_field j t,
      put_field k 1 s 0 hs (omega arith),
      put_field k 1 s 1 hs (omega arith),
    )

stack_m-sum :
    (s prev : ℕ)
    → s < 2 ^ 64
    → prev < 4
    → stack_m s prev + s / 2 ^ 7 % 2 * 2 ^ 7 + s / 2 ^ 3 % 2 * 2 ^ 3 + s / 2 ^ 11 % 4 * 2 ^ 11
      ≡ s + s / 2 ^ 3 % 2 * 2 ^ 7 + prev * 2 ^ 11
unfolding stack_m
stack_m-sum s prev hs hp =
    let s1 = bit_or (clear64 s 0x80) (if test_bits s 0x8 then 0x80 else 0) in
    let e1 : s1 + s / 2 ^ 7 % 2 * 2 ^ 7 ≡ s + s / 2 ^ 3 % 2 * 2 ^ 7 =
      copy_bit 7 3 s s hs (omega arith) in
    let h1 : s1 < 2 ^ 64 = omega arith in
    let e2 : clear64 s1 0x8 + s1 / 2 ^ 3 % 2 * 2 ^ 3 ≡ s1 = clear_field 3 1 s1 h1 (omega arith) in
    let e3 : bit_or (clear64 (clear64 s1 0x8) 0x1800) (prev * 2 ^ 11)
          + clear64 s1 0x8 / 2 ^ 11 % 2 ^ 2 * 2 ^ 11
        ≡ clear64 s1 0x8 + prev * 2 ^ 11 =
      put_field 11 2 (clear64 s1 0x8) prev (omega arith) (omega arith) hp in
    omega arith

or_bit : (k s : ℕ) → bit_or s (1 * 2 ^ k) + s / 2 ^ k % 2 * 2 ^ k ≡ s + 2 ^ k
or_bit k s = omega (arith, bit_or-add-bit_and s (1 * 2 ^ k), read_field k 1 s)

-- MRET moves MPIE to MIE; the bits below MPP other than MPIE stay.
unstack_m-bit : (s : ℕ) → s < 2 ^ 64 → bit 3 (unstack_m s) ≡ bit 7 s
unfolding unstack_m
unstack_m-bit s hs =
    let s1 = bit_or (clear64 s 0x8) (if test_bits s 0x80 then 0x8 else 0) in
    let e1 : s1 + s / 2 ^ 3 % 2 * 2 ^ 3 ≡ s + s / 2 ^ 7 % 2 * 2 ^ 3 =
      copy_bit 3 7 s s hs (omega arith) in
    let h1 : s1 < 2 ^ 64 = omega arith in
    let s2 = bit_or s1 0x80 in
    let e2 : s2 + s1 / 2 ^ 7 % 2 * 2 ^ 7 ≡ s1 + 2 ^ 7 = or_bit 7 s1 in
    let h2 : s2 < 2 ^ 64 = omega arith in
    let s3 = clear64 s2 0x1800 in
    let e3 : s3 + s2 / 2 ^ 11 % 2 ^ 2 * 2 ^ 11 ≡ s2 = clear_field 11 2 s2 h2 (omega arith) in
    let e4 : clear64 s3 0x20000 + s3 / 2 ^ 17 % 2 * 2 ^ 17 ≡ s3 =
      clear_field 17 1 s3 (omega arith) (omega arith) in
    let b1 : bit 3 s1 ≡ bit 7 s = omega arith in
    let b2 : bit 3 s2 ≡ bit 3 s1 = omega arith in
    let b3 : bit 3 s3 ≡ bit 3 s2 = omega arith in
    let b4 : bit 3 (clear64 s3 0x20000) ≡ bit 3 s3 = omega arith in ground arith

-- The registers after the entry and the return.
leave_m-enter_trap :
    (cpu : Hart) (cause tval : ℕ)
    → cpu.csr mstatus < 2 ^ 64
    → cpu.priv < 4
    → let back = leave_m (enter_trap cpu cause tval false) in
      (back.priv ≡ cpu.priv) × (bit 3 (back.csr mstatus) ≡ bit 3 (cpu.csr mstatus))
unfolding leave_m enter_trap
leave_m-enter_trap cpu cause tval hs hp =
    let s = cpu.csr mstatus in
    let sum = stack_m-sum s cpu.priv hs hp in
    let fits : stack_m s cpu.priv < 2 ^ 64 = omega arith in
    (
      ap (λ t. t / 2 ^ 11) (read_field 11 2 (stack_m s cpu.priv)) ∙ omega arith,
      unstack_m-bit (stack_m s cpu.priv) fits ∙ omega arith,
    )

-- MRET in M-mode, of a machine whose hart is `h`.
mret_of :
    (m : Machine) (h : Hart)
    → hart m ≡ h
    → h.priv ≡ priv_m
    → (((exec_mret m).0) ≡ h.csr mepc) × (hart (exec_mret m).1 ≡ leave_m h)
unfolding exec_mret
mret_of m h e p = rw e rw p rw (==_refl m.cur) (path_refl, path_refl)

-- A trap into M-mode and the MRET of its handler come back to the interrupted PC and privilege,
-- with the interrupt enable as it was, if the handler leaves mstatus and mepc alone.
pub exec_mret-enter_trap :
    (m : Machine) (cause tval : ℕ)
    → (hart m).csr mstatus < 2 ^ 64
    → (hart m).priv < 4
    → let back = exec_mret (set_cpu m (enter_trap (hart m) cause tval false)) in
      (back.0 ≡ (hart m).pc)
      × ((hart back.1).priv ≡ (hart m).priv)
      × (bit 3 ((hart back.1).csr mstatus) ≡ bit 3 ((hart m).csr mstatus))
exec_mret-enter_trap m cause tval hs hp =
    let trap = enter_trap (hart m) cause tval false in
    let got =
      mret_of (set_cpu m trap) trap (hart-set_cpu m trap) (unfold enter_trap in path_refl) in
    let ok = leave_m-enter_trap (hart m) cause tval hs hp in
    (
      got.0 ∙ (unfold enter_trap in path_refl),
      ap (λ h. h.priv) got.1 ∙ ok.0,
      ap (λ h. bit 3 (h.csr mstatus)) got.1 ∙ ok.1,
    )
