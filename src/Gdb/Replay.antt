-- ===== src/Gdb/Replay.antt =====
-- Steps, checkpoints and replay of src/gdbstub.c, over a machine whose snapshots give it back.
use quanta.Common.{
  ℕ, zero, suc, ◌+◌, ◌-◌, ◌^◌, ◌≤◌, ◌<◌, ◌≡◌, arith, refl, sym, ap, ◌∙◌, Bool, true, false, ltb,
  leb, ◌&&◌, if◌then◌else◌, inl, inr, Bool-cases, List, [], ◌∷◌, ◌++◌, Option, none, some,
}
pub mod Session
use mathlib.Core.Bool.{false≢true}
use quanta.Common.Word.{u64}
use quanta.Gdb.{Engine, Stub, Checkpoint}
use quanta.Gdb.Reverse.{
  is_running, raw_step, replay, replay_from, best_at, goto_best, goto_step, reverse_step,
}

module _ {M S : Type 0} (engine : Engine M S) where
  -- The machine some steps on.
  unfoldable pub later : ℕ → M → M
  later zero m = m
  later (suc n) m = later n (engine.step m)

  -- The machine does not halt before a step.
  abbrev pub RunsTo : ℕ → M → Type 0
  RunsTo n m = (k : ℕ) → k < n → is_running (engine.halt_reason (later k m)) ≡ true

  pub later_add : (a b : ℕ) (m : M) → later b (later a m) ≡ later (a + b) m
  unfolding later
  later_add zero b m = let same : 0 + b ≡ b = omega arith in rw same refl
  later_add (suc a) b m =
      let more : suc a + b ≡ suc (a + b) = omega arith in rw more (later_add a b (engine.step m))

  last_round :
      (left : ℕ) (m : M)
      → RunsTo (suc left) m
      → is_running (engine.halt_reason (engine.step m)) ≡ false
      → left ≡ 0
  unfolding later
  last_round zero m r e = refl
  last_round (suc left) m r e = absurd (false≢true (sym e ∙ r 1 (omega arith)))

  -- A replay of a machine that does not halt before it ends.
  replay-later :
      (left : ℕ) (s : Stub M S)
      → s.nsteps + left < 2 ^ 64
      → RunsTo left s.machine
      → ((replay engine left s).machine ≡ later left s.machine)
        × ((replay engine left s).nsteps ≡ s.nsteps + left)
  unfolding replay raw_step later
  replay-later zero s h r = (refl, omega arith)
  replay-later (suc left) s h r =
      let now : is_running (engine.halt_reason s.machine) ≡ true = r 0 (omega arith) in
      let small : u64 (s.nsteps + 1) ≡ s.nsteps + 1 = omega arith in
      let t : Stub M S = record s {
        machine = engine.step s.machine;
        nsteps = u64 (s.nsteps + 1);
      } in
      let (machine_eq, nsteps_eq) =
        replay-later left t (omega arith) λ k hk. r (suc k) (omega arith) in
      elim (Bool-cases (is_running (engine.halt_reason (engine.step s.machine)))) [
        | inl e ↦ rw (now, e) (machine_eq, nsteps_eq ∙ omega arith)
        | inr e ↦
            let last : left ≡ 0 = last_round left s.machine r e in
            rw (now, e, last) (refl, omega arith)
      ]

  -- A checkpoint that was taken of the machine at its step.
  unfoldable pub Recorded : M → Checkpoint S → Type 0
  Recorded m c = engine.snapshot (later c.at m) ≡ some c.snap

  unfoldable pub AllRecorded : M → List (Checkpoint S) → Type 0
  AllRecorded m [] = Unit
  AllRecorded m (c ∷ cs) = Recorded m c × AllRecorded m cs

  -- The first checkpoint is the attach point.
  unfoldable pub StartsAtZero : List (Checkpoint S) → Type 0
  StartsAtZero [] = ⊥
  StartsAtZero (c ∷ cs) = c.at ≡ 0

  -- A snapshot gives back the machine that it was taken of, as quanta.h says of `quanta_restore`.
  abbrev pub Restores : Type 0
  Restores =
      (now then_ : M) (snap : S)
      → engine.snapshot then_ ≡ some snap
      → engine.restore now snap ≡ some then_

  -- A session that began with the machine `m`: it is where its count of steps says, no step on the
  -- way halted it, and its checkpoints are of machines on the way.
  pub record IsSession (m : M) (s : Stub M S) : Type 0 where
    pub here : s.machine ≡ later s.nsteps m
    pub runs : RunsTo s.nsteps m
    pub small : s.nsteps < 2 ^ 64
    pub recorded : AllRecorded m s.cp
    pub starts : StartsAtZero s.cp

  abbrev Found : M → ℕ → Option (Checkpoint S) → Type 0
  Found m target o = (c : Checkpoint S) × ((o ≡ some c) × (Recorded m c × (c.at ≤ target)))

  best_at-Found :
      (m : M) (target : ℕ) (b : Checkpoint S) (cs : List (Checkpoint S))
      → Recorded m b
      → b.at ≤ target
      → AllRecorded m cs
      → Found m target (best_at target (some b) cs)
  unfolding best_at AllRecorded
  best_at-Found m target b [] r h a = (b, (refl, (r, h)))
  best_at-Found m target b (c ∷ cs) r h (rc, a) =
      let keep = best_at-Found m target b cs r h a in
      elim (Bool-cases (leb c.at target && ltb b.at c.at)) [
        | inl e ↦
            let low : c.at ≤ target = ground (arith, e) in
            rw e (best_at-Found m target c cs rc low a)
        | inr e ↦ rw e keep
      ]

  first-Found :
      (m : M) (target : ℕ) (cs : List (Checkpoint S))
      → AllRecorded m cs
      → StartsAtZero cs
      → Found m target (best_at target none cs)
  unfolding best_at AllRecorded StartsAtZero
  first-Found m target [] a z = absurd z
  first-Found m target (c ∷ cs) (rc, a) z =
      let low : leb c.at target ≡ true = ground arith in
      rw low (best_at-Found m target c cs rc (omega arith) a)

  -- Moving to a step that was reached gives the machine of that step.
  pub goto_step-later :
      (m : M) (s : Stub M S) (target : ℕ)
      → Restores
      → IsSession m s
      → target ≤ s.nsteps
      → ((goto_step engine s target).machine ≡ later target m)
        × ((goto_step engine s target).nsteps ≡ target)
  unfolding goto_step goto_best replay_from Recorded
  goto_step-later m s target back v h =
      let (c, (found, (rc, low))) = first-Found m target s.cp v.recorded v.starts in
      let restored = back s.machine (later c.at m) c.snap rc in
      let start : Stub M S = record s { machine = later c.at m; nsteps = c.at } in
      let small = v.small in
      let runs : RunsTo (target - c.at) (later c.at m) = λ k hk.
        ap (λ t. is_running (engine.halt_reason t)) (later_add c.at k m)
        ∙ v.runs (c.at + k) (omega arith) in
      let (machine_eq, nsteps_eq) = replay-later (target - c.at) start (omega arith) runs in
      let whole : c.at + (target - c.at) ≡ target = omega arith in
      rw (found, restored)
        (
          machine_eq ∙ later_add c.at (target - c.at) m ∙ ap (λ t. later t m) whole,
          nsteps_eq ∙ whole,
        )
