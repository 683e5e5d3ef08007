-- ===== src/Device/Clint/Registers.antt =====
-- What software reads back from the CLINT.
use quanta.Common.{
  false, true, refl, ◌==◌, ltb, if◌then◌else◌, ℕ, ◌+◌, ◌*◌, ◌/◌, ◌%◌, ◌^◌, ◌<◌, ◌≡◌, arith, ◌∙◌, ap,
  ◌-◌, bit_and,
}
use quanta.Common.Bits.{bit_and_mask, bit_and_shifted}
use quanta.Common.Halves.{set_low-eq, set_high-eq}
use quanta.Common.Word.{set_low, set_high, update, test_bits}
use quanta.Device.Clint.{Clint, max_harts, clint_write, in_mtimecmp}

-- Bit 2 of an offset tells the halves apart.
half_bit : (a : ℕ) → bit_and a 4 ≡ a / 4 % 2 * 4
half_bit a = bit_and_shifted 2 a 1 ∙ ap (λ t. t * 4) (bit_and_mask 1 (a / 4))

-- A hart's compare register, written as two halves.
abbrev pub written : Clint → ℕ → ℕ → ℕ → Clint
written c h lo hi = clint_write (clint_write c (0x4000 + 8 * h) lo) (0x4004 + 8 * h) hi

module _ (c : Clint) (h v : ℕ) (hart : h < max_harts) where
  write_low :
      clint_write c (0x4000 + 8 * h) v
      ≡ record c { mtimecmp = update c.mtimecmp h (set_low (c.mtimecmp h) v) }
  unfolding clint_write
  write_low =
      let place : (0x4000 + 8 * h - 0x4000) / 8 ≡ h = omega arith in
      let range1 : ltb (0x4000 + 8 * h) (max_harts * 4) ≡ false = ground arith in
      let range2 : in_mtimecmp (0x4000 + 8 * h) ≡ true = ground arith in
      let low : test_bits (0x4000 + 8 * h - 0x4000) 4 ≡ false =
        ground (arith, half_bit (0x4000 + 8 * h - 0x4000)) in
      rw (range1, range2, low, place) refl

  write_high :
      clint_write c (0x4004 + 8 * h) v
      ≡ record c { mtimecmp = update c.mtimecmp h (set_high (c.mtimecmp h) v) }
  unfolding clint_write
  write_high =
      let place : (0x4004 + 8 * h - 0x4000) / 8 ≡ h = omega arith in
      let range1 : ltb (0x4004 + 8 * h) (max_harts * 4) ≡ false = ground arith in
      let range2 : in_mtimecmp (0x4004 + 8 * h) ≡ true = ground arith in
      let high : test_bits (0x4004 + 8 * h - 0x4000) 4 ≡ true =
        ground (arith, half_bit (0x4004 + 8 * h - 0x4000)) in
      rw (range1, range2, high, place) refl

-- Two 32-bit writes, of the low and then of the high half, leave the 64-bit value that they make
-- up in the hart's compare register, and every other hart's as it was.
pub clint_write_halves :
    (c : Clint) (h lo hi : ℕ)
    → h < max_harts
    → lo < 2 ^ 32
    → hi < 2 ^ 32
    → c.mtimecmp h < 2 ^ 64
    → (j : ℕ) → (written c h lo hi).mtimecmp j ≡ (if j == h then hi * 2 ^ 32 + lo else c.mtimecmp j)
clint_write_halves c h lo hi hart hlo hhi fits j =
    let first = write_low c h lo hart in
    let low : Clint = record c { mtimecmp = update c.mtimecmp h (set_low (c.mtimecmp h) lo) } in
    simp (first, write_high low h hi hart)
      (ground
        (arith, set_low-eq (c.mtimecmp h) lo fits hlo, set_high-eq (set_low (c.mtimecmp h) lo) hi))
