-- ===== src/Tests/Engine.antt =====
-- The theorems on the scheduler, at concrete inputs.
use quanta.Common.{refl, true, false, ◌==◌, if◌then◌else◌}
use quanta.Cpu.{none_yet, exit, mem_fault}
use quanta.Engine.{Handle, machine_poll_halt, poweroff_code}
use quanta.Engine.Halting.{Explained, machine_poll_halt-Explained}
use quanta.Tests.{user_hart, user_machine}

-- Two harts: the first exited, the second took a fault.
abbrev stopped : Handle
stopped = record {
  machine = record user_machine {
    harts =
        λ i. record user_hart { halted = true; halt_reason = if i == 0 then exit else mem_fault };
  };
  nharts = 2;
  sched = 1;
  m_halted = false;
  m_reason = none_yet;
  m_exit = 0;
  loaded = true;
}

machine_poll_halt-Explained_example : Explained (machine_poll_halt stopped)
unfolding machine_poll_halt poweroff_code quanta.Engine.poll_after quanta.Engine.scan_harts
    quanta.Engine.stop_if_all quanta.Engine.stop_with quanta.Engine.first_abnormal
    quanta.Engine.is_exit
machine_poll_halt-Explained_example = machine_poll_halt-Explained stopped refl refl refl
