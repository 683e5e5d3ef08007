-- ===== src/Gdb/Reverse.antt =====
-- Reverse execution in src/gdbstub.c: steps that are counted, checkpoints, and replay.
use quanta.Common.{
  ℕ, zero, suc, ◌+◌, ◌-◌, Bool, true, false, ◌&&◌, ltb, leb, if◌then◌else◌, List, [], ◌∷◌, ◌++◌,
  Option, none, some,
}
use quanta.Common.Word.{u64, sub64}
use quanta.Gdb.{
  Engine, Stub, Halt, Checkpoint, running, exited, ebreak, illegal_insn, unimp_system,
  unknown_syscall, mem_fault, step_limit, max_cp, cp_interval,
}
use quanta.Gdb.Break.{bp_match}

-- `h == QUANTA_RUN`.
unfoldable pub is_running : Halt → Bool
is_running running = true
is_running exited = false
is_running ebreak = false
is_running illegal_insn = false
is_running unimp_system = false
is_running unknown_syscall = false
is_running mem_fault = false
is_running step_limit = false

unfoldable pub count : {A : Type 0} → List A → ℕ
count [] = 0
count (a ∷ rest) = suc (count rest)

-- The oldest of the checkpoints from `i` on, where `best` stands at `slot`.
unfoldable pub oldest : {S : Type 0} → ℕ → ℕ → ℕ → List (Checkpoint S) → ℕ
oldest slot best i [] = slot
oldest slot best i (c ∷ cs) =
    let keep = oldest slot best (i + 1) cs in
    let take = oldest i c.at (i + 1) cs in if ltb c.at best then take else keep

-- The slot to evict: never the first.
unfoldable pub evicted : {S : Type 0} → List (Checkpoint S) → ℕ
evicted [] = 1
evicted (c ∷ []) = 1
evicted (c ∷ d ∷ cs) = oldest 1 d.at 2 cs

unfoldable pub put_at : {A : Type 0} → List A → ℕ → A → List A
put_at [] i a = []
put_at (b ∷ bs) zero a = a ∷ bs
put_at (b ∷ bs) (suc i) a = b ∷ put_at bs i a

-- A snapshot in the next slot, or in place of the oldest.
unfoldable pub keep_snap : {M S : Type 0} → Stub M S → ℕ → Option S → Stub M S
keep_snap s step none = s
keep_snap {S = S} s step (some snap) =
    let c : Checkpoint S = record { at = step; snap = snap } in
    record s {
      cp = if ltb (count s.cp) max_cp then s.cp ++ c ∷ [] else put_at s.cp (evicted s.cp) c;
      last_cp_step = step;
    }

-- The latest checkpoint at or before a step.
unfoldable pub best_at :
    {S : Type 0} → ℕ → Option (Checkpoint S) → List (Checkpoint S) → Option (Checkpoint S)
best_at target best [] = best
best_at target none (c ∷ cs) =
    let keep = best_at target none cs in
    let take = best_at target (some c) cs in if leb c.at target then take else keep
best_at target (some b) (c ∷ cs) =
    let keep = best_at target (some b) cs in
    let take = best_at target (some c) cs in if leb c.at target && ltb b.at c.at then take else keep

module _ {M S : Type 0} (engine : Engine M S) where
  unfoldable pub raw_step : Stub M S → Stub M S
  raw_step s =
      if is_running (engine.halt_reason s.machine)
      then record s { machine = engine.step s.machine; nsteps = u64 (s.nsteps + 1) }
      else s

  unfoldable pub cp_add : Stub M S → ℕ → Stub M S
  cp_add s step = keep_snap s step (engine.snapshot s.machine)

  unfoldable pub stub_step : Stub M S → Stub M S
  stub_step s =
      let t = raw_step s in
      if t.reverse_used
        && is_running (engine.halt_reason t.machine)
        && leb cp_interval (sub64 t.nsteps t.last_cp_step)
      then cp_add t t.nsteps
      else t

  -- The replay, with the rounds left.
  unfoldable pub replay : ℕ → Stub M S → Stub M S
  replay zero s = s
  replay (suc left) s =
      let t = raw_step s in
      let further = replay left t in
      if is_running (engine.halt_reason t.machine) then further else t

  unfoldable pub replay_from : Stub M S → ℕ → ℕ → Option M → Stub M S
  replay_from s target at none = s
  replay_from s target at (some m) = replay (target - at) (record s { machine = m; nsteps = at })

  unfoldable pub goto_best : Stub M S → ℕ → Option (Checkpoint S) → Stub M S
  goto_best s target none = s
  goto_best s target (some c) = replay_from s target c.at (engine.restore s.machine c.snap)

  unfoldable pub goto_step : Stub M S → ℕ → Stub M S
  goto_step s target = goto_best s target (best_at target none s.cp)

  -- `bs`, up to its reply.
  unfoldable pub reverse_step : Stub M S → Stub M S
  reverse_step s =
      let used = record s { reverse_used = true } in
      if ltb 0 s.nsteps then goto_step used (s.nsteps - 1) else used

  -- The last breakpoint on the way to a step, with the rounds left.
  unfoldable pub last_break : ℕ → Stub M S → Option ℕ → Stub M S × Option ℕ
  last_break zero s hit = (s, hit)
  last_break (suc left) s hit =
      let t = raw_step s in
      let found = if bp_match s (engine.pc s.machine) then some s.nsteps else hit in
      let further = last_break left t found in
      if is_running (engine.halt_reason t.machine) then further else (t, found)

  unfoldable pub return_to : Stub M S × Option ℕ → Stub M S
  return_to (s, none) = goto_step s 0
  return_to (s, some hit) = goto_step s hit

  -- `bc`, up to its reply.
  unfoldable pub reverse_continue : Stub M S → Stub M S
  reverse_continue s =
      let used = record s { reverse_used = true } in
      let start = goto_step used 0 in
      if ltb 0 s.nsteps then return_to (last_break (s.nsteps - start.nsteps) start none) else used
