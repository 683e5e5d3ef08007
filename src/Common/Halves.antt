-- ===== src/Common/Halves.antt =====
-- A 64-bit register that is written by halves.
use Prim.Native.Nat.{ℕ, ◌+◌, ◌*◌, ◌/◌, ◌%◌, ◌^◌, ◌<◌}
use mathlib.Core.Path.{◌≡◌, ◌∙◌, ap}
use native.Mathlib.Omega.{arith}
use quanta.Common.Bits.{bit_and_mask, bit_and_shifted, bit_or_add, bit_or_add_low}
use quanta.Common.Word.{set_low, set_high, ◌|||◌, ◌<<◌}

pub set_low-eq : (x v : ℕ) → x < 2 ^ 64 → v < 2 ^ 32 → set_low x v ≡ x / 2 ^ 32 * 2 ^ 32 + v
set_low-eq x v hx hv =
    ap (λ t. t ||| v)
      (bit_and_shifted 32 x 0xffffffff ∙ ap (λ t. t * 2 ^ 32) (bit_and_mask 32 (x / 2 ^ 32)))
    ∙ bit_or_add 32 (x / 2 ^ 32 % 2 ^ 32 * 2 ^ 32) v (omega arith) hv
    ∙ omega arith

pub set_high-eq : (x v : ℕ) → set_high x v ≡ v * 2 ^ 32 + x % 2 ^ 32
set_high-eq x v =
    ap (λ t. t ||| v << 32) (bit_and_mask 32 x)
    ∙ bit_or_add_low 32 (x % 2 ^ 32) (v << 32) (omega arith) (omega arith)
    ∙ omega arith
