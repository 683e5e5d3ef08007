-- ===== src/Mmu/Mode.antt =====
-- Which paging scheme satp selects (src/mmu.c).
use quanta.Common.{ℕ, Bool, true, false, ◌==◌, if◌then◌else◌}
use quanta.Common.Word.{◌&&&◌, ◌>>◌, u32, test_bits}
use quanta.Cpu.{Hart}

-- The paging schemes.
pub data Scheme : Type 0 where
  pt_bare : Scheme
  pt_sv32 : Scheme
  pt_sv39 : Scheme
  pt_unsupported : Scheme

unfoldable pub satp_mode : Hart → ℕ → Scheme
satp_mode cpu value =
    let mode = value >> 60 &&& 0xf in
    if cpu.xlen == 32
    then (if test_bits (u32 value) 0x80000000 then pt_sv32 else pt_bare)
    else if mode == 0
    then pt_bare
    else if mode == 8
    then pt_sv39
    else pt_unsupported

unfoldable pub is_supported : Scheme → Bool
is_supported pt_bare = true
is_supported pt_sv32 = true
is_supported pt_sv39 = true
is_supported pt_unsupported = false

unfoldable pub mmu_satp_supported : Hart → ℕ → Bool
mmu_satp_supported cpu value = is_supported (satp_mode cpu value)
