-- ===== src/Dtb/Bounds.antt =====
-- The builder of src/dtb.c stays within its buffer.
use quanta.Common.{ℕ, ◌≤◌, ◌≡◌}
use quanta.Dtb.{Fdt, struct_off}

-- Bytes that are the same from `cap` on.
abbrev pub Keeps : (ℕ → ℕ) → ℕ → (ℕ → ℕ) → Type 0
Keeps buf cap p = (k : ℕ) → cap ≤ k → p k ≡ buf k

pub record Inside (buf : ℕ → ℕ) (cap : ℕ) (f : Fdt) : Type 0 where
  pub cap_eq : f.cap ≡ cap
  pub low : f.spos ≤ cap
  pub high : struct_off ≤ f.spos
  pub kept : Keeps buf cap f.out
