-- ===== src/Device.antt =====
-- src/device.c: the devices of the platform, and the interrupts that they assert for a hart.
pub mod Clint
pub mod Plic
pub mod Uart
pub mod Virtqueue
pub mod Block
pub mod Net
pub mod Platform
use quanta.Common.{ℕ, ◌+◌, ◌*◌, ltb, leb, ◌&&◌, not, ◌==◌, if◌then◌else◌}
use quanta.Common.Word.{◌|||◌, test_bits}
use quanta.Device.Clint.{Clint as ClintState, max_harts}
use quanta.Device.Plic.{Plic as PlicState, plic_best}

-- `plat_mip_bits`; `lines` is what `plic_lines` computes.
unfoldable pub plat_mip_bits : ClintState → PlicState → ℕ → ℕ → ℕ
plat_mip_bits clint plic lines hart =
    let timer = if ltb hart max_harts && leb (clint.mtimecmp hart) clint.mtime then 0x80 else 0 in
    let soft = if ltb hart max_harts && test_bits (clint.msip hart) 1 then 0x8 else 0 in
    let m_ext = if not (plic_best plic lines (2 * hart) == 0) then 0x800 else 0 in
    let s_ext = if not (plic_best plic lines (2 * hart + 1) == 0) then 0x200 else 0 in
    if lines == 0 then timer ||| soft else timer ||| soft ||| m_ext ||| s_ext
