-- ===== src/Sbi.antt =====
-- src/sbi.c: the firmware below a supervisor, with the state machine of the harts. Output goes to
-- stream 1 of the machine's console.
pub mod Lifecycle
use quanta.Common.{
  ℕ, ◌+◌, ◌-◌, ◌^◌, ◌||◌, Bool, true, false, ◌==◌, leb, ltb, not, if◌then◌else◌, Option, none, some,
}
use quanta.Common.Word.{◌|||◌, ◌&&&◌, ◌<<◌, u32, u64, clear64, not32, sext32, update}
use quanta.Decode.Csr.{mip, mstatus, satp}
use quanta.Cpu.{Hart, reg_read, reg_write, mmu_flush, exit, none_yet, priv_s}
use quanta.Cpu.Status.{irq_stimer}
use quanta.Device.Platform.{Platform}
use quanta.Machine.{Machine, hart, set_hart, set_cpu, put_console}
use quanta.Memory.{Memory}

-- The states of a hart, of src/cpu.h.
abbrev pub hsm_started : ℕ
hsm_started = 0

abbrev pub hsm_stopped : ℕ
hsm_stopped = 1

-- The error codes, as the 32-bit patterns that they are.
abbrev pub sbi_success : ℕ
sbi_success = 0

abbrev pub sbi_err_failed : ℕ
sbi_err_failed = 2 ^ 32 - 1

abbrev pub sbi_err_not_supported : ℕ
sbi_err_not_supported = 2 ^ 32 - 2

abbrev pub sbi_err_invalid_param : ℕ
sbi_err_invalid_param = 2 ^ 32 - 3

abbrev pub sbi_err_already_available : ℕ
sbi_err_already_available = 2 ^ 32 - 6

unfoldable pub sbi_return : Machine → ℕ → ℕ → Machine
sbi_return m error value = set_cpu m (reg_write (reg_write (hart m) 10 (sext32 error)) 11 value)

unfoldable pub sbi_halt : Machine → Machine
sbi_halt m =
    let cpu = hart m in set_cpu m (record cpu { exit_code = 0; halt_reason = exit; halted = true })

-- The compare register of a hart, where there is a platform.
unfoldable pub set_mtimecmp : Option Platform → ℕ → ℕ → Option Platform
set_mtimecmp none h deadline = none
set_mtimecmp (some p) h deadline =
    let c = p.clint in
    some record p { clint = record c { mtimecmp = update c.mtimecmp h deadline } }

-- `cpu_arm_supervisor_timer` of src/cpu.c.
unfoldable pub cpu_arm_supervisor_timer : Machine → ℕ → Machine
cpu_arm_supervisor_timer m deadline =
    let cpu = hart m in
    let mem = m.mem in
    let armed = record cpu {
      csr = update cpu.csr mip (cpu.csr mip &&& not32 (1 << irq_stimer));
      sbi_timer_armed = true;
    } in
    record m {
      harts = update m.harts m.cur armed;
      mem = record mem { plat = set_mtimecmp mem.plat cpu.hartid deadline };
    }

unfoldable pub sbi_set_timer : Machine → ℕ → ℕ → Machine
sbi_set_timer m lo hi = cpu_arm_supervisor_timer m (hi << 32 ||| lo)

-- The extension ids.
abbrev pub ext_time : ℕ
ext_time = 0x54494D45

abbrev pub ext_srst : ℕ
ext_srst = 0x53525354

abbrev pub ext_hsm : ℕ
ext_hsm = 0x48534D

unfoldable pub sbi_probe : ℕ → ℕ
sbi_probe eid =
    if eid == 0x00
      || eid == 0x01
      || eid == 0x02
      || eid == 0x08
      || eid == 0x10
      || eid == ext_time
      || eid == ext_srst
      || eid == ext_hsm
    then 1
    else 0

-- The version that src/quanta.h gives.
abbrev pub impl_version : ℕ
impl_version = 0 << 16 ||| 2 << 8 ||| 0

unfoldable pub sbi_base : Machine → ℕ → ℕ → Machine
sbi_base m fid arg0 =
    if fid == 0
    then sbi_return m sbi_success (1 << 24)
    else if fid == 1
    then sbi_return m sbi_success 0x9
    else if fid == 2
    then sbi_return m sbi_success impl_version
    else if fid == 3
    then sbi_return m sbi_success (sbi_probe arg0)
    else if fid == 4 || fid == 5 || fid == 6
    then sbi_return m sbi_success 0
    else sbi_return m sbi_err_not_supported 0

-- The index of a hart, `none` for NULL.
unfoldable pub hsm_lookup : Option Platform → ℕ → ℕ → ℕ → Option ℕ
hsm_lookup none cur own hartid = if hartid == own then some cur else none
hsm_lookup (some p) cur own hartid =
    if not p.has_harts
    then (if hartid == own then some cur else none)
    else if leb p.nharts hartid
    then none
    else some hartid

unfoldable pub hsm_hart : Machine → ℕ → Option ℕ
hsm_hart m hartid = hsm_lookup m.mem.plat m.cur (hart m).hartid hartid

unfoldable pub hsm_enter : Hart → ℕ → ℕ → Hart
hsm_enter t0 pc opaque =
    let t1 = record t0 { pc = pc; priv = priv_s } in
    let t = reg_write (reg_write t1 10 t1.hartid) 11 opaque in
    mmu_flush record t {
      csr = update (update t.csr satp 0) mstatus (clear64 (t.csr mstatus) 0x2);
      reserve_valid = false;
      hsm_state = hsm_started;
      halt_reason = none_yet;
      halted = false;
    }

-- hart_start, of the hart at an index.
unfoldable pub hart_start : Machine → ℕ → ℕ → Option ℕ → Machine
hart_start m start opaque none = sbi_return m sbi_err_invalid_param 0
hart_start m start opaque (some t) =
    let target = m.harts t in
    if target.hsm_state == hsm_started
    then sbi_return m sbi_err_already_available 0
    else if not (target.hsm_state == hsm_stopped)
    then sbi_return m sbi_err_failed 0
    else sbi_return (set_hart m t (hsm_enter target start opaque)) sbi_success 0

unfoldable pub hart_stop : Machine → Machine
hart_stop m =
    let cpu = hart m in
    set_cpu m (record cpu { hsm_state = hsm_stopped; halt_reason = exit; halted = true })

unfoldable pub hart_get_status : Machine → Option ℕ → Machine
hart_get_status m none = sbi_return m sbi_err_invalid_param 0
hart_get_status m (some t) = sbi_return m sbi_success (u32 (m.harts t).hsm_state)

unfoldable pub hart_suspend : Machine → ℕ → Machine
hart_suspend m type =
    let cpu = hart m in
    if type == 0
    then sbi_return m sbi_success 0
    else if type == 0x80000000
    then set_cpu m (hsm_enter cpu (reg_read cpu 11) (reg_read cpu 12))
    else sbi_return m sbi_err_invalid_param 0

unfoldable pub sbi_hsm : Machine → ℕ → Machine
sbi_hsm m fid =
    let cpu = hart m in
    let a0 = u32 (reg_read cpu 10) in
    if fid == 0
    then hart_start m (reg_read cpu 11) (reg_read cpu 12) (hsm_hart m a0)
    else if fid == 1
    then hart_stop m
    else if fid == 2
    then hart_get_status m (hsm_hart m a0)
    else if fid == 3
    then hart_suspend m a0
    else sbi_return m sbi_err_not_supported 0

-- A legacy call returns in a0 alone.
abbrev pub legacy_return : Machine → ℕ → Machine
legacy_return m value = set_cpu m (reg_write (hart m) 10 value)

unfoldable pub sbi_call : Machine → Machine
sbi_call m =
    let cpu = hart m in
    let eid = u32 (reg_read cpu 17) in
    let fid = u32 (reg_read cpu 16) in
    let a0 = u32 (reg_read cpu 10) in
    let a1 = u32 (reg_read cpu 11) in
    if eid == 0x01
    then legacy_return (put_console m 1 (a0 &&& 0xff)) 0
    else if eid == 0x02
    then legacy_return m (2 ^ 32 - 1)
    else if eid == 0x00
    then legacy_return (sbi_set_timer m a0 a1) 0
    else if eid == 0x08
    then sbi_halt m
    else if eid == 0x10
    then sbi_base m fid a0
    else if eid == ext_time
    then (if fid == 0
        then sbi_return (sbi_set_timer m a0 a1) sbi_success 0
        else sbi_return m sbi_err_not_supported 0)
    else if eid == ext_srst
    then (if fid == 0
        then (if leb a0 2 then sbi_halt m else sbi_return m sbi_err_invalid_param 0)
        else sbi_return m sbi_err_not_supported 0)
    else if eid == ext_hsm
    then sbi_hsm m fid
    else sbi_return m sbi_err_not_supported 0
