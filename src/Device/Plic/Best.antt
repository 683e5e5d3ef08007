-- ===== src/Device/Plic/Best.antt =====
-- The source that `plic_best` picks.
use quanta.Common.{
  ℕ, zero, suc, ◌+◌, ◌≤◌, ◌<◌, ◌≡◌, ◌⊎◌, arith, true, false, ◌&&◌, ltb, Bool-cases, inl, inr, refl,
  ap, sym, ◌∙◌,
}
use mathlib.Core.Path.{subst}
use native.Mathlib.Decide.{ℕ_discrete}
use quanta.Device.Plic.{Plic, presents, best_from, plic_best, nsources}

module _ (pl : Plic) (lines ctx : ℕ) where
  -- The pick of a scan of the sources from 1 to below `n`: no presented source outranks it, nor
  -- equals it at a lower number; 0 stands for none.
  pub record IsBest (n best prio : ℕ) : Type 0 where
    pub highest :
        (s : ℕ)
        → 1 ≤ s
        → s < n
        → presents pl lines ctx s ≡ true
        → (pl.priority s < prio) ⊎ ((pl.priority s ≡ prio) × (best ≤ s))
    pub pick :
        ((best ≡ 0) × (prio ≡ 0))
        ⊎ (((1 ≤ best) × (best < n))
            × ((presents pl lines ctx best ≡ true) × (prio ≡ pl.priority best)))

  -- A source that is presented has a priority above 0.
  presents-pos : (s : ℕ) → presents pl lines ctx s ≡ true → 0 < pl.priority s
  unfolding presents
  presents-pos s h = ground arith

  -- One round of the scan, with a source that takes the lead and with one that does not.
  lead_highest :
      (s best prio : ℕ)
      → IsBest s best prio
      → prio < pl.priority s
      → (t : ℕ) → 1 ≤ t
      → t < s + 1
      → presents pl lines ctx t ≡ true
      → (pl.priority t < pl.priority s) ⊎ ((pl.priority t ≡ pl.priority s) × (s ≤ t))
  lead_highest s best prio h above t one below other = elim (ℕ_discrete t s) [
    | yes same ↦ inr (ap pl.priority same, omega arith)
    | no differs ↦ (let earlier = h.highest t one (omega arith) other in inl (ground arith))
  ]

  keep_highest :
      (s best prio : ℕ)
      → 1 ≤ s
      → IsBest s best prio
      → (presents pl lines ctx s && ltb prio (pl.priority s)) ≡ false
      → (t : ℕ) → 1 ≤ t
      → t < s + 1
      → presents pl lines ctx t ≡ true
      → (pl.priority t < prio) ⊎ ((pl.priority t ≡ prio) × (best ≤ t))
  keep_highest s best prio pos h stays t one below other = elim (ℕ_discrete t s) [
    | yes same ↦
        (let shown : presents pl lines ctx s ≡ true =
            ap (presents pl lines ctx) (sym same) ∙ other in
          let equal : pl.priority t ≡ pl.priority s = ap pl.priority same in
          let low : pl.priority s ≤ prio = ground arith in
          let pick = h.pick in let lower : best ≤ t = ground arith in ground arith)
    | no differs ↦ h.highest t one (omega arith) other
  ]

  IsBest-lead :
      (s best prio : ℕ)
      → 1 ≤ s
      → IsBest s best prio
      → presents pl lines ctx s ≡ true
      → prio < pl.priority s
      → IsBest (s + 1) s (pl.priority s)
  IsBest-lead s best prio pos h shown above = record {
    highest = lead_highest s best prio h above;
    pick = inr ((pos, omega arith), (shown, refl));
  }

  IsBest-keep :
      (s best prio : ℕ)
      → 1 ≤ s
      → IsBest s best prio
      → (presents pl lines ctx s && ltb prio (pl.priority s)) ≡ false
      → IsBest (s + 1) best prio
  IsBest-keep s best prio pos h stays = record {
    highest = keep_highest s best prio pos h stays;
    pick = (let pick = h.pick in ground arith);
  }

  scan :
      (left s best prio : ℕ)
      → 1 ≤ s
      → IsBest s best prio
      → (p : ℕ) × IsBest (s + left) (best_from pl lines ctx left s best prio) p
  unfolding best_from
  scan zero s best prio pos h = (prio, subst (λ n. IsBest n best prio) (omega arith) h)
  scan (suc left) s best prio pos h =
      elim (Bool-cases (presents pl lines ctx s && ltb prio (pl.priority s))) [
        | inl leads ↦ rw leads (
            let rest =
              scan left (s + 1) s (pl.priority s) (omega arith)
                (IsBest-lead s best prio pos h (ground arith) (ground arith)) in
            (
              rest.0,
              subst (λ n. IsBest n (best_from pl lines ctx left (s + 1) s (pl.priority s)) rest.0)
                  (omega arith) rest.1,
            ))
        | inr stays ↦ rw stays (
            let rest =
              scan left (s + 1) best prio (omega arith) (IsBest-keep s best prio pos h stays) in
            (
              rest.0,
              subst (λ n. IsBest n (best_from pl lines ctx left (s + 1) best prio) rest.0)
                  (omega arith) rest.1,
            ))
      ]

-- `plic_best` is 0 only when no source from 1 to 31 is presented to the context, and otherwise
-- a presented source whose priority no presented one exceeds, the lowest of those that share it.
pub plic_best_highest :
    (pl : Plic) (lines ctx : ℕ) → (p : ℕ) × IsBest pl lines ctx nsources (plic_best pl lines ctx) p
unfolding plic_best
plic_best_highest pl lines ctx =
    scan pl lines ctx 31 1 0 0 (omega arith)
      record { highest = λ t one below. absurd (omega arith); pick = inl (refl, refl) }
