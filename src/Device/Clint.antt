-- ===== src/Device/Clint.antt =====
-- The CLINT of src/device.c: the shared timer, and per hart a compare register and an IPI bit.
pub mod Registers
use quanta.Common.{ℕ, ◌+◌, ◌-◌, ◌*◌, ◌/◌, Bool, ◌&&◌, ◌==◌, ltb, leb, if◌then◌else◌}
use quanta.Common.Word.{◌&&&◌, ◌>>◌, u32, u64, test_bits, update, set_low, set_high}

-- `QUANTA_MAX_HARTS`.
abbrev pub max_harts : ℕ
max_harts = 8

pub record Clint : Type 0 where
  pub mtime : ℕ
  pub mtimecmp : ℕ → ℕ
  pub msip : ℕ → ℕ

-- The offset is that of some hart's compare register.
abbrev pub in_mtimecmp : ℕ → Bool
in_mtimecmp off = leb 0x4000 off && ltb off (0x4000 + max_harts * 8)

unfoldable pub clint_read : Clint → ℕ → ℕ
clint_read c off =
    let rel = off - 0x4000 in
    let h = rel / 8 in
    if ltb off (max_harts * 4)
    then c.msip (off / 4) &&& 1
    else if in_mtimecmp off
    then (if test_bits rel 4 then u32 (c.mtimecmp h >> 32) else u32 (c.mtimecmp h))
    else if off == 0xbff8
    then u32 c.mtime
    else if off == 0xbffc
    then u32 (c.mtime >> 32)
    else 0

unfoldable pub clint_write : Clint → ℕ → ℕ → Clint
clint_write c off val =
    let rel = off - 0x4000 in
    let h = rel / 8 in
    if ltb off (max_harts * 4)
    then record c { msip = update c.msip (off / 4) (val &&& 1) }
    else if in_mtimecmp off
    then (if test_bits rel 4
        then record c { mtimecmp = update c.mtimecmp h (set_high (c.mtimecmp h) val) }
        else record c { mtimecmp = update c.mtimecmp h (set_low (c.mtimecmp h) val) })
    else if off == 0xbff8
    then record c { mtime = set_low c.mtime val }
    else if off == 0xbffc
    then record c { mtime = set_high c.mtime val }
    else c

-- `plat_tick`.
unfoldable pub plat_tick : Clint → Clint
plat_tick c = record c { mtime = u64 (c.mtime + 1) }
