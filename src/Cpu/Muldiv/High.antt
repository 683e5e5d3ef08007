-- ===== src/Cpu/Muldiv/High.antt =====
-- The high half of a product.
use quanta.Common.{ℕ, ◌+◌, ◌-◌, ◌*◌, ◌/◌, ◌%◌, ◌^◌, ◌≤◌, ◌<◌, ◌≡◌, arith, ◌∙◌, ap, sym}
use native.Mathlib.Nat.{mul-le-mul}
use quanta.Common.Word.{u32, u64, ◌>>◌}
use quanta.Cpu.Muldiv.{mulhu64}

abbrev word_square : ℕ
word_square = (2 ^ 32 - 1) * (2 ^ 32 - 1)

-- A partial product fits a register.
partial : (x y : ℕ) → x < 2 ^ 32 → y < 2 ^ 32 → x * y ≤ word_square
partial x y hx hy = mul-le-mul {n₂ = 2 ^ 32 - 1} {m₂ = 2 ^ 32 - 1} (omega arith) (omega arith)

-- The high word of the sum of the four partial products.
carries :
    (p00 p01 p10 p11 : ℕ)
    → p00 ≤ word_square
    → p01 ≤ word_square
    → p10 ≤ word_square
    → p11 ≤ word_square
    → u64 (
        u64 p11
        + u64 p01 >> 32
        + u64 p10 >> 32
        + u64 (u64 p00 >> 32 + u32 (u64 p01) + u32 (u64 p10)) >> 32)
      ≡ (p11 * 2 ^ 64 + (p01 + p10) * 2 ^ 32 + p00) / 2 ^ 64
carries p00 p01 p10 p11 h00 h01 h10 h11 = omega arith

-- The product from the halves.
expand :
    (x1 x0 y1 y0 : ℕ)
    → (x1 * 2 ^ 32 + x0) * (y1 * 2 ^ 32 + y0)
      ≡ x1 * y1 * 2 ^ 64 + (x0 * y1 + x1 * y0) * 2 ^ 32 + x0 * y0
expand x1 x0 y1 y0 = omega arith

halves : (a : ℕ) → a / 2 ^ 32 * 2 ^ 32 + a % 2 ^ 32 ≡ a
halves a = omega arith

-- `mulhu64` is the high word of the 128-bit product.
pub mulhu64_lem : (a b : ℕ) → a < 2 ^ 64 → b < 2 ^ 64 → mulhu64 a b ≡ a * b / 2 ^ 64
unfolding mulhu64
mulhu64_lem a b ha hb =
    let al : a % 2 ^ 32 < 2 ^ 32 = omega arith in
    let ah : a / 2 ^ 32 < 2 ^ 32 = omega arith in
    let bl : b % 2 ^ 32 < 2 ^ 32 = omega arith in
    let bh : b / 2 ^ 32 < 2 ^ 32 = omega arith in
    carries (a % 2 ^ 32 * (b % 2 ^ 32)) (a % 2 ^ 32 * (b / 2 ^ 32)) (a / 2 ^ 32 * (b % 2 ^ 32))
      (a / 2 ^ 32 * (b / 2 ^ 32)) (partial _ _ al bl) (partial _ _ al bh) (partial _ _ ah bl)
      (partial _ _ ah bh)
    ∙ ap (λ n. n / 2 ^ 64)
        (sym (expand (a / 2 ^ 32) (a % 2 ^ 32) (b / 2 ^ 32) (b % 2 ^ 32))
          ∙ (λ i. halves a i * halves b i))
