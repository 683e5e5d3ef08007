-- ===== src/Engine/Halting.antt =====
-- When the machine of src/quanta.c stops, and why.
use quanta.Common.{
  ℕ, zero, suc, ◌+◌, ◌<◌, ◌≡◌, arith, refl, sym, ◌∙◌, Bool, true, false, ◌==◌, inl, inr, Bool-cases,
  Option, none, some,
}
use mathlib.Core.Bool.{false≢true}
use mathlib.Core.Option.{some-injective, none-ne-some}
use quanta.Cpu.{Hart}
use quanta.Engine.{
  Handle, is_exit, first_abnormal, scan_harts, who_of, stop_with, stop_if_all, poll_after,
  poweroff_code, machine_poll_halt,
}

-- What a finished scan of the harts below `n` tells: all are halted, and it names one that stopped
-- for another reason than an exit if there is one.
pub record Scanned (harts : ℕ → Hart) (n : ℕ) (abnormal : Option ℕ) : Type 0 where
  pub all_halted : (i : ℕ) → i < n → (harts i).halted ≡ true
  pub named : (a : ℕ) → abnormal ≡ some a → is_exit (harts a).halt_reason ≡ false
  pub clean : abnormal ≡ none → (i : ℕ) → i < n → is_exit (harts i).halt_reason ≡ true

-- A property of the first `n` places, and of the next.
extend :
    (P : ℕ → Bool) (n : ℕ)
    → ((i : ℕ) → i < n → P i ≡ true)
    → P n ≡ true
    → (i : ℕ) → i < n + 1
    → P i ≡ true
extend P n below here i h = elim (Bool-cases (i == n)) [
  | inl e ↦ let same : i ≡ n = ground (arith, e) in rw same here
  | inr e ↦ below i (ground (arith, e))
]

next_clean :
    (harts : ℕ → Hart) (i : ℕ) (abnormal : Option ℕ)
    → (harts i).halted ≡ true
    → is_exit (harts i).halt_reason ≡ true
    → Scanned harts i abnormal
    → Scanned harts (i + 1) abnormal
next_clean harts i abnormal h x v = record {
  all_halted = extend (λ k. (harts k).halted) i v.all_halted h;
  named = v.named;
  clean = λ e. extend (λ k. is_exit (harts k).halt_reason) i (v.clean e) x;
}

next_faulty :
    (harts : ℕ → Hart) (i : ℕ) (abnormal : Option ℕ)
    → (harts i).halted ≡ true
    → is_exit (harts i).halt_reason ≡ false
    → Scanned harts i abnormal
    → Scanned harts (i + 1) (first_abnormal i abnormal)
unfolding first_abnormal
next_faulty harts i none h x v = record {
  all_halted = extend (λ k. (harts k).halted) i v.all_halted h;
  named = λ a e. rw (sym (some-injective i a e)) x;
  clean = λ e. absurd (none-ne-some i (sym e));
}
next_faulty harts i (some a) h x v = record {
  all_halted = extend (λ k. (harts k).halted) i v.all_halted h;
  named = v.named;
  clean = λ e. absurd (none-ne-some a (sym e));
}

scan_harts-Scanned :
    (harts : ℕ → Hart) (left i : ℕ) (abnormal result : Option ℕ)
    → Scanned harts i abnormal
    → scan_harts harts left i abnormal ≡ some result
    → Scanned harts (i + left) result
unfolding scan_harts
scan_harts-Scanned harts zero i abnormal result v e =
    let same : abnormal ≡ result = some-injective abnormal result e in
    let place : i + 0 ≡ i = omega arith in rw (place, sym same) v
scan_harts-Scanned harts (suc left) i abnormal result v e =
    let place : i + suc left ≡ i + 1 + left = omega arith in
    let clean = scan_harts-Scanned harts left (i + 1) abnormal result in
    let faulty = scan_harts-Scanned harts left (i + 1) (first_abnormal i abnormal) result in
    elim (Bool-cases (harts i).halted) [
      | inr h ↦ absurd (none-ne-some result (simp h at e))
      | inl h ↦ elim (Bool-cases (is_exit (harts i).halt_reason)) [
        | inl x ↦ rw place (clean (next_clean harts i abnormal h x v) (simp (h, x) at e))
        | inr x ↦ rw place (faulty (next_faulty harts i abnormal h x v) (simp (h, x) at e))
      ]
    ]

-- What a machine that has just stopped without a power-off says of its harts: all of them halted,
-- and the reason that it gives is an exit only if every one of them exited.
pub record Explained (q : Handle) : Type 0 where
  pub everyone : (i : ℕ) → i < q.nharts → (q.machine.harts i).halted ≡ true
  pub unmasked :
      is_exit q.m_reason ≡ true
      → (i : ℕ) → i < q.nharts
      → is_exit (q.machine.harts i).halt_reason ≡ true

unmasked_by :
    (q : Handle) (abnormal : Option ℕ)
    → Scanned q.machine.harts (0 + q.nharts) abnormal
    → is_exit (q.machine.harts (who_of abnormal)).halt_reason ≡ true
    → (i : ℕ) → i < q.nharts
    → is_exit (q.machine.harts i).halt_reason ≡ true
unfolding who_of
unmasked_by q none v x i h = v.clean refl i (omega arith)
unmasked_by q (some a) v x i h = absurd (false≢true (sym (v.named a refl) ∙ x))

stop_if_all-Explained :
    (q : Handle) (o : Option (Option ℕ))
    → q.m_halted ≡ false
    → scan_harts q.machine.harts q.nharts 0 none ≡ o
    → (stop_if_all q o).m_halted ≡ true
    → Explained (stop_if_all q o)
unfolding stop_if_all stop_with
stop_if_all-Explained q none running e stopped = absurd (false≢true (sym running ∙ stopped))
stop_if_all-Explained q (some abnormal) running e stopped =
    let start : Scanned q.machine.harts 0 none = record {
      all_halted = λ i h. absurd (omega arith);
      named = λ a h. absurd (none-ne-some a h);
      clean = λ h i k. absurd (omega arith);
    } in
    let v = scan_harts-Scanned q.machine.harts q.nharts 0 none abnormal start e in
    let whole : 0 + q.nharts ≡ q.nharts = omega arith in
    record {
      everyone = λ i h. v.all_halted i (rw whole h);
      unmasked = λ x i h. unmasked_by q abnormal v x i h;
    }

-- Without a power-off, the poll stops a machine only when every hart has halted, and it reports a
-- clean exit only when every hart exited, so that no fault is masked.
pub machine_poll_halt-Explained :
    (q : Handle)
    → q.m_halted ≡ false
    → poweroff_code q.machine.mem.plat ≡ none
    → (machine_poll_halt q).m_halted ≡ true
    → Explained (machine_poll_halt q)
unfolding machine_poll_halt poll_after
machine_poll_halt-Explained q running on =
    rw on (stop_if_all-Explained q (scan_harts q.machine.harts q.nharts 0 none) running refl)
