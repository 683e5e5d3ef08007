-- ===== src/Device/Plic/Claim.antt =====
-- What a claim does to the next pick.
use quanta.Common.{ℕ, ◌≡◌, ◌≢◌, arith, true, false, ◌==◌, inl, inr, Bool-cases, refl, sym, ap, ◌∙◌}
use mathlib.Core.Bool.{false≢true}
use quanta.Common.Word.{update}
use quanta.Device.Plic.{Plic, presents, plic_best, plic_claim}
use quanta.Device.Plic.Best.{plic_best_highest}

-- A source that a context has claimed is not presented to it.
claimed-hidden :
    (pl : Plic) (lines ctx s : ℕ)
    → presents record pl { claimed = update pl.claimed ctx s } lines ctx s ≡ false
unfolding presents
claimed-hidden pl lines ctx s = ground arith

-- A pick other than 0 is presented.
best_presented :
    (pl : Plic) (lines ctx : ℕ)
    → plic_best pl lines ctx ≢ 0
    → presents pl lines ctx (plic_best pl lines ctx) ≡ true
best_presented pl lines ctx ne = elim ((plic_best_highest pl lines ctx).1.pick) [
  | inl nothing ↦ absurd (ne nothing.0)
  | inr found ↦ found.1.0
]

-- The state after a claim that hands out a source.
plic_claim-eq :
    (pl : Plic) (lines ctx : ℕ)
    → plic_best pl lines ctx ≢ 0
    → plic_claim pl lines ctx ≡ (
      plic_best pl lines ctx,
      record pl { claimed = update pl.claimed ctx (plic_best pl lines ctx) },
    )
unfolding plic_claim
plic_claim-eq pl lines ctx ne = elim (Bool-cases (plic_best pl lines ctx == 0)) [
  | inl none_found ↦ absurd (ne (ground arith))
  | inr found ↦ rw found refl
]

-- A source that a claim hands out is not the context's next pick, whatever its priority.
pub plic_claim_hides :
    (pl : Plic) (lines ctx : ℕ)
    → plic_best pl lines ctx ≢ 0
    → plic_best (plic_claim pl lines ctx).1 lines ctx ≢ (plic_claim pl lines ctx).0
plic_claim_hides pl lines ctx ne = simp (plic_claim-eq pl lines ctx ne) (λ again.
    let s = plic_best pl lines ctx in
    let after : Plic = record pl { claimed = update pl.claimed ctx s } in
    let same : plic_best after lines ctx ≡ s = again in
    let shown : presents after lines ctx (plic_best after lines ctx) ≡ true =
      best_presented after lines ctx (λ z. ne (sym same ∙ z)) in
    let hidden : presents after lines ctx s ≡ false = claimed-hidden pl lines ctx s in
    false≢true (sym hidden ∙ ap (presents after lines ctx) (sym same) ∙ shown))
