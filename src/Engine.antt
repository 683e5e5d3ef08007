-- ===== src/Engine.antt =====
-- The scheduler of src/quanta.c: one step of the machine, and when the whole machine stops. The JIT
-- is not attached, so `quanta_run` takes its interpreter path.
pub mod Halting
use quanta.Common.{
  ℕ, zero, suc, ◌+◌, ◌-◌, Bool, true, false, not, ◌&&◌, ◌==◌, ltb, leb, if◌then◌else◌, Option, none,
  some,
}
use quanta.Common.Word.{u64}
use quanta.Cpu.{
  Hart, HaltReason, none_yet, exit, ebreak, illegal_insn, unimp_system, unknown_syscall, mem_fault,
}
use quanta.Cpu.Step.{Fpu, cpu_step}
use quanta.Device.Clint.{plat_tick}
use quanta.Device.Platform.{Platform}
use quanta.Machine.{Machine, hart, set_mem}

-- `Quanta` of src/quanta.c, as far as a step reaches.
pub record Handle : Type 0 where
  pub machine : Machine
  pub nharts : ℕ
  pub sched : ℕ
  pub m_halted : Bool
  pub m_reason : HaltReason
  pub m_exit : ℕ
  pub loaded : Bool

pub data QuantaHalt : Type 0 where
  running halt_exit halt_ebreak halt_illegal_insn halt_unimp_system : QuantaHalt
  halt_unknown_syscall halt_mem_fault halt_step_limit : QuantaHalt

unfoldable pub map_halt : HaltReason → QuantaHalt
map_halt none_yet = running
map_halt exit = halt_exit
map_halt ebreak = halt_ebreak
map_halt illegal_insn = halt_illegal_insn
map_halt unimp_system = halt_unimp_system
map_halt unknown_syscall = halt_unknown_syscall
map_halt mem_fault = halt_mem_fault

-- `halt_reason == HALT_EXIT`.
unfoldable pub is_exit : HaltReason → Bool
is_exit exit = true
is_exit none_yet = false
is_exit ebreak = false
is_exit illegal_insn = false
is_exit unimp_system = false
is_exit unknown_syscall = false
is_exit mem_fault = false

-- `plat_poweroff_requested`, of the platform that is attached.
unfoldable pub poweroff_code : Option Platform → Option ℕ
poweroff_code none = none
poweroff_code (some p) = if p.poweroff then some p.poweroff_code else none

-- The first hart that stopped for another reason than an exit, and the hart that runs if one does.
unfoldable pub first_abnormal : ℕ → Option ℕ → Option ℕ
first_abnormal i none = some i
first_abnormal i (some a) = some a

-- The harts from `i` on, with those left: `none` if one of them runs.
unfoldable pub scan_harts : (ℕ → Hart) → ℕ → ℕ → Option ℕ → Option (Option ℕ)
scan_harts harts zero i abnormal = some abnormal
scan_harts harts (suc left) i abnormal =
    let clean = scan_harts harts left (i + 1) abnormal in
    let faulty = scan_harts harts left (i + 1) (first_abnormal i abnormal) in
    if not (harts i).halted then none else if is_exit (harts i).halt_reason then clean else faulty

unfoldable pub who_of : Option ℕ → ℕ
who_of none = 0
who_of (some i) = i

unfoldable pub stop_with : Handle → HaltReason → ℕ → Handle
stop_with q reason code = record q { m_halted = true; m_reason = reason; m_exit = code }

unfoldable pub stop_if_all : Handle → Option (Option ℕ) → Handle
stop_if_all q none = q
stop_if_all q (some abnormal) =
    let h = q.machine.harts (who_of abnormal) in stop_with q h.halt_reason h.exit_code

unfoldable pub poll_after : Handle → Option ℕ → Handle
poll_after q (some code) = stop_with q exit code
poll_after q none = stop_if_all q (scan_harts q.machine.harts q.nharts 0 none)

unfoldable pub machine_poll_halt : Handle → Handle
machine_poll_halt q = poll_after q (poweroff_code q.machine.mem.plat)

unfoldable pub tick_platform : Option Platform → Option Platform
tick_platform none = none
tick_platform (some p) = some (record p { clint = plat_tick p.clint })

unfoldable pub tick : Machine → Machine
tick m = set_mem m (record m.mem { plat = tick_platform m.mem.plat })

-- The hart at the cursor, unless it is halted.
unfoldable pub step_hart : Fpu → Machine → ℕ → Machine
step_hart fpu m i =
    let now : Machine = record m { cur = i } in if (hart now).halted then now else cpu_step fpu now

-- The body that `quanta_step` and the loop of `quanta_run` share.
unfoldable pub one_step : Fpu → Handle → Handle
one_step fpu q =
    let ticked = if q.sched == 0 then tick q.machine else q.machine in
    machine_poll_halt (record q {
      machine = step_hart fpu ticked q.sched;
      sched = if leb q.nharts (q.sched + 1) then 0 else q.sched + 1;
    })

-- Why the machine is stopped.
unfoldable pub reason_of : Handle → QuantaHalt → QuantaHalt
reason_of q otherwise = if q.m_halted then map_halt q.m_reason else otherwise

unfoldable pub quanta_step : Fpu → Handle → QuantaHalt × Handle
quanta_step fpu q =
    let next = one_step fpu q in
    if not q.loaded
    then (running, q)
    else if q.m_halted
    then (map_halt q.m_reason, q)
    else (reason_of next running, next)

-- The loop of `quanta_run` with the rounds left; a round counts if its hart is not halted.
unfoldable pub run_rounds : Fpu → ℕ → ℕ → ℕ → Handle → ℕ × Handle
run_rounds fpu cap zero steps q = (steps, q)
run_rounds fpu cap (suc left) steps q =
    let counted = if (q.machine.harts q.sched).halted then steps else steps + 1 in
    let further = run_rounds fpu cap left counted (one_step fpu q) in
    if not q.m_halted && ltb steps cap then further else (steps, q)
