-- ===== src/Sbi/Lifecycle.antt =====
-- The state machine of a hart in src/sbi.c: which calls start and stop it, and how it comes up.
use quanta.Common.{
  ℕ, ◌≡◌, ◌≢◌, false, ◌==◌, Bool-cases, if◌then◌else◌, some, refl, ==_refl, inl, inr, arith,
}
use quanta.Decode.Csr.{satp}
use quanta.Cpu.{Hart, priv_s, reg_read, reg_write, sext_xlen}
use quanta.Machine.{Machine}
use quanta.Sbi.{hsm_started, hsm_stopped, hsm_enter, hart_start, sbi_return}

-- What a started hart has: the PC and the argument that the caller named, its own number in a0,
-- S-mode with translation off, and no reservation.
pub record IsFresh (t : Hart) (hartid start opaque : ℕ) : Type 0 where
  pub at_start : t.pc ≡ start
  pub in_s : t.priv ≡ priv_s
  pub bare : t.csr satp ≡ 0
  pub a0 : reg_read t 10 ≡ sext_xlen t hartid
  pub a1 : reg_read t 11 ≡ sext_xlen t opaque
  pub unreserved : t.reserve_valid ≡ false
  pub runs : t.halted ≡ false
  pub started : t.hsm_state ≡ hsm_started

hsm_enter-IsFresh :
    (t : Hart) (start opaque : ℕ) → IsFresh (hsm_enter t start opaque) t.hartid start opaque
unfolding hsm_enter quanta.Cpu.mmu_flush reg_read reg_write sext_xlen
hsm_enter-IsFresh t start opaque = record {
  at_start = refl;
  in_s = refl;
  bare = refl;
  a0 = refl;
  a1 = refl;
  unreserved = refl;
  runs = refl;
  started = refl;
}

-- hart_start of another hart: a stopped one comes up fresh at the address, and one in any other
-- state is left as it is.
pub hart_start-IsFresh :
    (m : Machine) (start opaque t : ℕ)
    → t ≢ m.cur
    → let target = m.harts t in
      let fresh = hsm_enter target start opaque in
      IsFresh fresh target.hartid start opaque
      × ((hart_start m start opaque (some t)).harts t
          ≡ (if target.hsm_state == hsm_stopped then fresh else target))
unfolding hart_start sbi_return
hart_start-IsFresh m start opaque t other =
    let apart : (t == m.cur) ≡ false = ground arith in
    let state = (m.harts t).hsm_state in
    (
      hsm_enter-IsFresh (m.harts t) start opaque,
      elim (Bool-cases (state == hsm_started)) [
        | inl up ↦
            let no : (state == hsm_stopped) ≡ false = ground arith in rw up (rw no (rw apart refl))
        | inr down ↦ rw down elim (Bool-cases (state == hsm_stopped)) [
          | inl stopped ↦ rw stopped (rw apart (rw (==_refl t) refl))
          | inr busy ↦ rw busy (rw apart refl)
        ]
      ],
    )
