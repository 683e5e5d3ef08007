-- ===== src/Cpu/Interrupt.antt =====
-- Interrupts of src/cpu.c. `devices` is `plat_mip_bits` of the platform for this hart, `none` where
-- no platform is attached.
pub mod Priority
use quanta.Common.{
  ℕ, ◌==◌, Bool, true, false, ◌&&◌, ◌||◌, ltb, leb, not, if◌then◌else◌, Option, none, some, List,
  [], ◌∷◌,
}
use quanta.Common.Word.{◌|||◌, ◌&&&◌, ◌<<◌, ◌>>◌, u32, clear32, not32, test_bits, update}
use quanta.Decode.Csr.{mip, mie, mideleg, mstatus, menvcfg, stimecmp}
use quanta.Cpu.{Hart, priv_s, priv_m, cause_interrupt}
use quanta.Cpu.Status.{
  mstatus_sie, mstatus_mie, mip_devices, mip_mtip, menvcfg_stce, irq_ssoft, irq_msoft, irq_stimer,
  irq_mtimer, irq_sext, irq_mext,
}
use quanta.Cpu.Trap.{enter_trap}

unfoldable pub live_mip : Option ℕ → Hart → ℕ
live_mip none cpu = u32 (cpu.csr mip)
live_mip (some bits) cpu = clear32 (u32 (cpu.csr mip)) mip_devices ||| bits

-- The first interrupt of `order` in `pending`.
unfoldable pub first_pending : ℕ → List ℕ → Option ℕ
first_pending pending [] = none
first_pending pending (i ∷ order) =
    if test_bits pending (1 << i) then some i else first_pending pending order

abbrev pub aia_order : List ℕ
aia_order = irq_mext ∷ irq_msoft ∷ irq_mtimer ∷ irq_sext ∷ irq_ssoft ∷ irq_stimer ∷ 13 ∷ []

-- The value that mtopi and stopi report.
unfoldable pub topi_encode : Option ℕ → ℕ
topi_encode none = 0
topi_encode (some i) = i << 16 ||| 1

unfoldable pub topi_value : Option ℕ → Hart → Bool → ℕ
topi_value devices cpu to_s =
    let enabled = live_mip devices cpu &&& u32 (cpu.csr mie) in
    let del = u32 (cpu.csr mideleg) in
    topi_encode (first_pending (enabled &&& (if to_s then del else not32 del)) aia_order)

unfoldable pub effective_mip : Option ℕ → Hart → ℕ × Hart
effective_mip none cpu = (u32 (cpu.csr mip), cpu)
effective_mip (some bits) cpu =
    let value = live_mip (some bits) cpu in (value, record cpu { csr = update cpu.csr mip value })

-- The two gates of `take_interrupt`.
unfoldable pub m_on : Hart → Bool
m_on cpu =
    ltb cpu.priv priv_m || cpu.priv == priv_m && test_bits (u32 (cpu.csr mstatus)) mstatus_mie

unfoldable pub s_on : Hart → Bool
s_on cpu =
    ltb cpu.priv priv_s || cpu.priv == priv_s && test_bits (u32 (cpu.csr mstatus)) mstatus_sie

-- `to_s` for interrupt `i`.
unfoldable pub to_supervisor : Hart → ℕ → Bool
to_supervisor cpu i = test_bits (u32 (cpu.csr mideleg) >> i) 1

unfoldable pub gate_open : Hart → ℕ → Bool
gate_open cpu i = if to_supervisor cpu i then s_on cpu else m_on cpu

-- The loop's choice: the first interrupt that pends and whose gate is open.
unfoldable pub deliverable : Hart → ℕ → List ℕ → Option ℕ
deliverable cpu pending [] = none
deliverable cpu pending (i ∷ order) =
    if test_bits pending (1 << i) && gate_open cpu i then some i else deliverable cpu pending order

abbrev pub irq_order : List ℕ
irq_order = irq_mext ∷ irq_msoft ∷ irq_mtimer ∷ irq_sext ∷ irq_ssoft ∷ irq_stimer ∷ []

unfoldable pub deliver : Hart → Option ℕ → Bool × Hart
deliver cpu none = (false, cpu)
deliver cpu (some i) = (true, enter_trap cpu (cause_interrupt cpu ||| i) 0 (to_supervisor cpu i))

unfoldable pub take_interrupt : Option ℕ → Hart → Bool × Hart
take_interrupt devices cpu0 =
    let (value, cpu) = effective_mip devices cpu0 in
    let pending = u32 (value &&& cpu.csr mie) in
    if pending == 0 then (false, cpu) else deliver cpu (deliverable cpu pending irq_order)

-- `firmware_timer_tick`, of the machine timer's line, and `sstc_tick`.
unfoldable pub firmware_timer_tick : ℕ → Hart → Hart
firmware_timer_tick bits cpu =
    if cpu.sbi_timer_armed && test_bits bits mip_mtip
    then record cpu {
      csr = update cpu.csr mip (cpu.csr mip ||| 1 << irq_stimer);
      sbi_timer_armed = false;
    }
    else cpu

unfoldable pub sstc_tick : Hart → Hart
sstc_tick cpu =
    let pending = cpu.csr mip in
    if test_bits (cpu.csr menvcfg) menvcfg_stce
    then record cpu {
      csr = update cpu.csr mip (
          if leb (cpu.csr stimecmp) cpu.instret
          then pending ||| 1 << irq_stimer
          else pending &&& not32 (1 << irq_stimer));
    }
    else cpu
