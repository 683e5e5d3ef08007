-- ===== src/Gdb/Replay/Session.antt =====
-- The sessions that the steps of src/gdbstub.c lead through, over a machine whose snapshots give it
-- back.
use quanta.Common.{
  ℕ, zero, suc, ◌+◌, ◌-◌, ◌^◌, ◌≤◌, ◌<◌, ◌≡◌, arith, refl, sym, ap, ◌∙◌, true, ltb, leb, ◌==◌, ◌&&◌,
  inl, inr, Bool-cases, Option-cases, List, [], ◌∷◌, ◌++◌, Option, none, some,
}
use quanta.Common.Word.{u64, sub64}
use quanta.Gdb.{Engine, Stub, Checkpoint, max_cp, cp_interval}
use quanta.Gdb.Reverse.{
  is_running, raw_step, count, oldest, evicted, put_at, keep_snap, cp_add, stub_step, reverse_step,
}
use quanta.Gdb.Replay.{
  later, later_add, Recorded, AllRecorded, StartsAtZero, Restores, IsSession, goto_step-later,
}

-- The slot to evict is not the first.
oldest-pos :
    {S : Type 0} (slot best i : ℕ) (cs : List (Checkpoint S))
    → 1 ≤ slot
    → 1 ≤ i
    → 1 ≤ oldest slot best i cs
unfolding oldest
oldest-pos slot best i [] h k = h
oldest-pos slot best i (c ∷ cs) h k =
    let keep = oldest-pos slot best (i + 1) cs h (omega arith) in
    let take = oldest-pos i c.at (i + 1) cs k (omega arith) in
    elim (Bool-cases (ltb c.at best)) [ inl e ↦ rw e take | inr e ↦ rw e keep ]

evicted-pos : {S : Type 0} (cs : List (Checkpoint S)) → 1 ≤ evicted cs
unfolding evicted
evicted-pos [] = omega arith
evicted-pos (c ∷ []) = omega arith
evicted-pos (c ∷ d ∷ cs) = oldest-pos 1 d.at 2 cs (omega arith) (omega arith)

module _ {M S : Type 0} (engine : Engine M S) (m : M) where
  append-AllRecorded :
      (cs : List (Checkpoint S)) (c : Checkpoint S)
      → AllRecorded engine m cs
      → Recorded engine m c
      → AllRecorded engine m (cs ++ c ∷ [])
  unfolding AllRecorded
  append-AllRecorded [] c a r = (r, tt)
  append-AllRecorded (d ∷ cs) c (rd, a) r = (rd, append-AllRecorded cs c a r)

  put_at-AllRecorded :
      (cs : List (Checkpoint S)) (i : ℕ) (c : Checkpoint S)
      → AllRecorded engine m cs
      → Recorded engine m c
      → AllRecorded engine m (put_at cs i c)
  unfolding AllRecorded put_at
  put_at-AllRecorded [] i c a r = tt
  put_at-AllRecorded (d ∷ cs) zero c (rd, a) r = (r, a)
  put_at-AllRecorded (d ∷ cs) (suc i) c (rd, a) r = (rd, put_at-AllRecorded cs i c a r)

  append-StartsAtZero :
      (cs : List (Checkpoint S)) (c : Checkpoint S)
      → StartsAtZero engine cs
      → StartsAtZero engine (cs ++ c ∷ [])
  unfolding StartsAtZero
  append-StartsAtZero [] c z = absurd z
  append-StartsAtZero (d ∷ cs) c z = z

  put_at-StartsAtZero :
      (cs : List (Checkpoint S)) (i : ℕ) (c : Checkpoint S)
      → 1 ≤ i
      → StartsAtZero engine cs
      → StartsAtZero engine (put_at cs i c)
  unfolding StartsAtZero put_at
  put_at-StartsAtZero [] i c h z = absurd z
  put_at-StartsAtZero (d ∷ cs) zero c h z = absurd (omega arith)
  put_at-StartsAtZero (d ∷ cs) (suc i) c h z = z

  raw_step-IsSession :
      (s : Stub M S)
      → IsSession engine m s
      → s.nsteps + 1 < 2 ^ 64
      → IsSession engine m (raw_step engine s)
  unfolding raw_step later
  raw_step-IsSession s v h = elim (Bool-cases (is_running (engine.halt_reason s.machine))) [
    | inr e ↦ rw e v
    | inl e ↦
        let next : u64 (s.nsteps + 1) ≡ s.nsteps + 1 = omega arith in
        rw (e, next)
          (record {
            here = ap engine.step v.here ∙ later_add engine s.nsteps 1 m;
            runs = λ k hk. elim (Bool-cases (k == s.nsteps)) [
              | inl f ↦ let same : k ≡ s.nsteps = ground (arith, f) in rw same rw (sym v.here) e
              | inr f ↦ v.runs k (ground (arith, f))
            ];
            small = h;
            recorded = v.recorded;
            starts = v.starts;
          })
  ]

  cp_add-IsSession :
      (s : Stub M S) → IsSession engine m s → IsSession engine m (cp_add engine s s.nsteps)
  unfolding cp_add keep_snap Recorded
  cp_add-IsSession s v = elim (Option-cases (engine.snapshot s.machine)) [
    | inl e ↦ rw e v
    | inr (snap, e) ↦
        let c : Checkpoint S = record { at = s.nsteps; snap = snap } in
        let rc : Recorded engine m c = ap engine.snapshot (sym v.here) ∙ e in
        elim (Bool-cases (ltb (count s.cp) max_cp)) [
          | inl f ↦
              rw (e, f)
                (record {
                  here = v.here;
                  runs = v.runs;
                  small = v.small;
                  recorded = append-AllRecorded s.cp c v.recorded rc;
                  starts = append-StartsAtZero s.cp c v.starts;
                })
          | inr f ↦
              rw (e, f)
                (record {
                  here = v.here;
                  runs = v.runs;
                  small = v.small;
                  recorded = put_at-AllRecorded s.cp (evicted s.cp) c v.recorded rc;
                  starts = put_at-StartsAtZero s.cp (evicted s.cp) c (evicted-pos s.cp) v.starts;
                })
        ]
  ]

  pub stub_step-IsSession :
      (s : Stub M S)
      → IsSession engine m s
      → s.nsteps + 1 < 2 ^ 64
      → IsSession engine m (stub_step engine s)
  unfolding stub_step
  stub_step-IsSession s v h =
      let t = raw_step engine s in
      let w = raw_step-IsSession s v h in
      elim (Bool-cases (
        t.reverse_used
        && is_running (engine.halt_reason t.machine)
        && leb cp_interval (sub64 t.nsteps t.last_cp_step))) [
          | inl e ↦ rw e (cp_add-IsSession t w)
          | inr e ↦ rw e w
        ]

  keep_snap-nsteps :
      (s : Stub M S) (step : ℕ) (o : Option S) → (keep_snap s step o).nsteps ≡ s.nsteps
  unfolding keep_snap
  keep_snap-nsteps s step none = refl
  keep_snap-nsteps s step (some snap) = refl

  raw_step-nsteps :
      (s : Stub M S)
      → is_running (engine.halt_reason s.machine) ≡ true
      → s.nsteps + 1 < 2 ^ 64
      → (raw_step engine s).nsteps ≡ s.nsteps + 1
  unfolding raw_step
  raw_step-nsteps s e h = rw e (omega arith)

  stub_step-nsteps :
      (s : Stub M S)
      → is_running (engine.halt_reason s.machine) ≡ true
      → s.nsteps + 1 < 2 ^ 64
      → (stub_step engine s).nsteps ≡ s.nsteps + 1
  unfolding stub_step cp_add
  stub_step-nsteps s e h =
      let t = raw_step engine s in
      let moved = raw_step-nsteps s e h in
      elim (Bool-cases (
        t.reverse_used
        && is_running (engine.halt_reason t.machine)
        && leb cp_interval (sub64 t.nsteps t.last_cp_step))) [
          | inl f ↦ rw f (keep_snap-nsteps t t.nsteps (engine.snapshot t.machine) ∙ moved)
          | inr f ↦ rw f moved
        ]

  -- In a session, a step of a machine that runs and then `bs` give back the machine, wherever the
  -- checkpoints are.
  reverse_step-stub_step :
      (s : Stub M S)
      → Restores engine
      → IsSession engine m s
      → is_running (engine.halt_reason s.machine) ≡ true
      → s.nsteps + 1 < 2 ^ 64
      → (reverse_step engine (stub_step engine s)).machine ≡ s.machine
  unfolding reverse_step
  reverse_step-stub_step s back v e h =
      let t = stub_step engine s in
      let w = stub_step-IsSession s v h in
      let count_eq = stub_step-nsteps s e h in
      let moved : ltb 0 t.nsteps ≡ true = ground (arith, count_eq) in
      let before : t.nsteps - 1 ≡ s.nsteps = omega arith in
      let used : Stub M S = record t { reverse_used = true } in
      let kept : IsSession engine m used = record {
        here = w.here;
        runs = w.runs;
        small = w.small;
        recorded = w.recorded;
        starts = w.starts;
      } in
      rw moved (
        (goto_step-later engine m used (t.nsteps - 1) back kept (omega arith)).0
        ∙ ap (λ k. later engine k m) before
        ∙ sym v.here)
