-- ===== src/Ram/Bytes.antt =====
-- Loads against stores: what was stored is loaded back, and other bytes stay.
use quanta.Common.{ℕ, ◌+◌, ◌*◌, ◌/◌, ◌%◌, ◌^◌, ◌<◌, ◌≡◌, arith, ◌∙◌}
use quanta.Common.Bits.{bit_or_add_low}
use quanta.Common.Word.{◌|||◌, ◌<<◌}
use quanta.Ram.{load16, load32, load64, store8, store16, store32, store64}

abbrev pub IsBytes : (ℕ → ℕ) → Type 0
IsBytes d = (i : ℕ) → d i < 256

-- Bytes side by side.
join16 : (a b : ℕ) → a < 256 → a ||| b << 8 ≡ a + b * 2 ^ 8
join16 a b ha = bit_or_add_low 8 a (b << 8) ha (omega arith)

pub load16-sum : (d : ℕ → ℕ) (i : ℕ) → IsBytes d → load16 d i ≡ d i + d (i + 1) * 2 ^ 8
unfolding load16
load16-sum d i h = join16 (d i) (d (i + 1)) (h i)

pub load32-sum :
    (d : ℕ → ℕ) (i : ℕ)
    → IsBytes d
    → load32 d i ≡ d i + d (i + 1) * 2 ^ 8 + d (i + 2) * 2 ^ 16 + d (i + 3) * 2 ^ 24
unfolding load32
load32-sum d i h = rw (
  join16 (d i) (d (i + 1)) (h i),
  bit_or_add_low 16 (d i + d (i + 1) * 2 ^ 8) (d (i + 2) << 16) (omega (arith, h i, h (i + 1)))
      (omega arith),
  bit_or_add_low 24 (d i + d (i + 1) * 2 ^ 8 + d (i + 2) * 2 ^ 16) (d (i + 3) << 24)
      (omega (arith, h i, h (i + 1), h (i + 2))) (omega arith),
)

pub load64-sum :
    (d : ℕ → ℕ) (i : ℕ)
    → IsBytes d
    → load64 d i
      ≡ d i
        + d (i + 1) * 2 ^ 8
        + d (i + 2) * 2 ^ 16
        + d (i + 3) * 2 ^ 24
        + d (i + 4) * 2 ^ 32
        + d (i + 5) * 2 ^ 40
        + d (i + 6) * 2 ^ 48
        + d (i + 7) * 2 ^ 56
unfolding load64
load64-sum d i h = rw (
  join16 (d i) (d (i + 1)) (h i),
  bit_or_add_low 16 (d i + d (i + 1) * 2 ^ 8) (d (i + 2) << 16) (omega (arith, h i, h (i + 1)))
      (omega arith),
  bit_or_add_low 24 (d i + d (i + 1) * 2 ^ 8 + d (i + 2) * 2 ^ 16) (d (i + 3) << 24)
      (omega (arith, h i, h (i + 1), h (i + 2))) (omega arith),
  bit_or_add_low 32 (d i + d (i + 1) * 2 ^ 8 + d (i + 2) * 2 ^ 16 + d (i + 3) * 2 ^ 24)
      (d (i + 4) << 32) (omega (arith, h i, h (i + 1), h (i + 2), h (i + 3))) (omega arith),
  bit_or_add_low 40
      (d i + d (i + 1) * 2 ^ 8 + d (i + 2) * 2 ^ 16 + d (i + 3) * 2 ^ 24 + d (i + 4) * 2 ^ 32)
      (d (i + 5) << 40) (omega (arith, h i, h (i + 1), h (i + 2), h (i + 3), h (i + 4)))
      (omega arith),
  bit_or_add_low 48
      (d i
        + d (i + 1) * 2 ^ 8
        + d (i + 2) * 2 ^ 16
        + d (i + 3) * 2 ^ 24
        + d (i + 4) * 2 ^ 32
        + d (i + 5) * 2 ^ 40)
      (d (i + 6) << 48) (omega (arith, h i, h (i + 1), h (i + 2), h (i + 3), h (i + 4), h (i + 5)))
      (omega arith),
  bit_or_add_low 56
      (d i
        + d (i + 1) * 2 ^ 8
        + d (i + 2) * 2 ^ 16
        + d (i + 3) * 2 ^ 24
        + d (i + 4) * 2 ^ 32
        + d (i + 5) * 2 ^ 40
        + d (i + 6) * 2 ^ 48)
      (d (i + 7) << 56)
      (omega (arith, h i, h (i + 1), h (i + 2), h (i + 3), h (i + 4), h (i + 5), h (i + 6)))
      (omega arith),
)

pub store32-IsBytes : (d : ℕ → ℕ) (i v : ℕ) → IsBytes d → IsBytes (store32 d i v)
unfolding store32
store32-IsBytes d i v h j = ground (arith, h j)

-- A word that was stored is loaded back.
pub load32-store32 : (d : ℕ → ℕ) (i v : ℕ) → IsBytes d → v < 2 ^ 32 → load32 (store32 d i v) i ≡ v
load32-store32 d i v h fits =
    load32-sum (store32 d i v) i (store32-IsBytes d i v h) ∙ (unfold store32 in ground arith)

pub store16-IsBytes : (d : ℕ → ℕ) (i v : ℕ) → IsBytes d → IsBytes (store16 d i v)
unfolding store16
store16-IsBytes d i v h j = ground (arith, h j)

pub store8-IsBytes : (d : ℕ → ℕ) (i v : ℕ) → IsBytes d → IsBytes (store8 d i v)
unfolding store8
store8-IsBytes d i v h j = ground (arith, h j)

pub store64-IsBytes : (d : ℕ → ℕ) (i v : ℕ) → IsBytes d → IsBytes (store64 d i v)
unfolding store64
store64-IsBytes d i v h j = ground (arith, h j)

pub load16-store16 : (d : ℕ → ℕ) (i v : ℕ) → IsBytes d → v < 2 ^ 16 → load16 (store16 d i v) i ≡ v
load16-store16 d i v h fits =
    load16-sum (store16 d i v) i (store16-IsBytes d i v h) ∙ (unfold store16 in ground arith)

-- Each byte that a doubleword store writes.
store64_bytes :
    (d : ℕ → ℕ) (i v : ℕ)
    → (store64 d i v i ≡ v / 2 ^ 0 % 2 ^ 8)
      × (store64 d i v (i + 1) ≡ v / 2 ^ 8 % 2 ^ 8)
      × (store64 d i v (i + 2) ≡ v / 2 ^ 16 % 2 ^ 8)
      × (store64 d i v (i + 3) ≡ v / 2 ^ 24 % 2 ^ 8)
      × (store64 d i v (i + 4) ≡ v / 2 ^ 32 % 2 ^ 8)
      × (store64 d i v (i + 5) ≡ v / 2 ^ 40 % 2 ^ 8)
      × (store64 d i v (i + 6) ≡ v / 2 ^ 48 % 2 ^ 8)
      × (store64 d i v (i + 7) ≡ v / 2 ^ 56 % 2 ^ 8)
unfolding store64
store64_bytes d i v = (
  ground arith,
  ground arith,
  ground arith,
  ground arith,
  ground arith,
  ground arith,
  ground arith,
  ground arith,
)

-- A doubleword that was stored is loaded back.
pub load64-store64 : (d : ℕ → ℕ) (i v : ℕ) → IsBytes d → v < 2 ^ 64 → load64 (store64 d i v) i ≡ v
load64-store64 d i v h fits =
    load64-sum (store64 d i v) i (store64-IsBytes d i v h) ∙ omega (arith, store64_bytes d i v)

-- Loads are words of their width.
pub load16-lt : (d : ℕ → ℕ) (i : ℕ) → IsBytes d → load16 d i < 2 ^ 16
load16-lt d i h = omega (arith, load16-sum d i h, h i, h (i + 1))

pub load32-lt : (d : ℕ → ℕ) (i : ℕ) → IsBytes d → load32 d i < 2 ^ 32
load32-lt d i h = omega (arith, load32-sum d i h, h i, h (i + 1), h (i + 2), h (i + 3))
