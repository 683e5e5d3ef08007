-- ===== src/Pipeline/Hazards.antt =====
-- The counters of the timing model against the hazards of the whole run.
use quanta.Common.{ℕ, ◌+◌, ◌^◌, ◌<◌, ◌≡◌, ltb, if◌then◌else◌}
use quanta.Common.Word.{u64}
use quanta.Pipeline.{Pipeline}
use quanta.Pipeline.Trace.{Trace, load_uses, redirects, penalties, count}

-- The counters stay words.
record IsWords (p : Pipeline) : Type 0 where
  instrs : p.instrs < 2 ^ 64
  stalls : p.load_use_stalls < 2 ^ 64
  events : p.control_events < 2 ^ 64
  cycles : p.control_cycles < 2 ^ 64

-- What the counters hold after a run from any state.
record Counts (p q : Pipeline) (t : Trace) : Type 0 where
  instrs : q.instrs ≡ u64 (p.instrs + count t)
  stalls : q.load_use_stalls ≡ u64 (p.load_use_stalls + load_uses p.prev_load_rd t)
  events : q.control_events ≡ u64 (p.control_events + redirects t)
  cycles : q.control_cycles ≡ u64 (p.control_cycles + penalties t)

-- The pipeline's fill: four cycles, if anything ran.
abbrev pub fill : ℕ → ℕ
fill n = if ltb 0 n then 4 else 0
