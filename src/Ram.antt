-- ===== src/Ram.antt =====
-- Guest RAM as both the memory layer (src/memory.c) and the devices that master the bus
-- (src/device.c) see it: bytes by index, loaded and stored little-endian.
pub mod Bytes
use quanta.Common.{ℕ, ◌+◌}
use quanta.Common.Word.{◌|||◌, ◌<<◌, ◌>>◌, u8, update}

-- `data[0]` stands at the guest address `base`.
pub record Ram : Type 0 where
  pub bytes : ℕ → ℕ
  pub base : ℕ
  pub size : ℕ

unfoldable pub load16 : (ℕ → ℕ) → ℕ → ℕ
load16 d i = d i ||| d (i + 1) << 8

unfoldable pub load32 : (ℕ → ℕ) → ℕ → ℕ
load32 d i = d i ||| d (i + 1) << 8 ||| d (i + 2) << 16 ||| d (i + 3) << 24

unfoldable pub load64 : (ℕ → ℕ) → ℕ → ℕ
load64 d i =
    d i
    ||| d (i + 1) << 8
    ||| d (i + 2) << 16
    ||| d (i + 3) << 24
    ||| d (i + 4) << 32
    ||| d (i + 5) << 40
    ||| d (i + 6) << 48
    ||| d (i + 7) << 56

unfoldable pub store8 : (ℕ → ℕ) → ℕ → ℕ → ℕ → ℕ
store8 d i v = update d i (u8 v)

unfoldable pub store16 : (ℕ → ℕ) → ℕ → ℕ → ℕ → ℕ
store16 d i v = update (update d i (u8 v)) (i + 1) (u8 (v >> 8))

unfoldable pub store32 : (ℕ → ℕ) → ℕ → ℕ → ℕ → ℕ
unfolding store16
store32 d i v = update (update (store16 d i v) (i + 2) (u8 (v >> 16))) (i + 3) (u8 (v >> 24))

unfoldable pub store64 : (ℕ → ℕ) → ℕ → ℕ → ℕ → ℕ
unfolding store32
store64 d i v =
    update
      (update (update (update (store32 d i v) (i + 4) (u8 (v >> 32))) (i + 5) (u8 (v >> 40)))
        (i + 6) (u8 (v >> 48)))
      (i + 7) (u8 (v >> 56))
