-- ===== src/Cpu/Step/Commit.antt =====
-- What ends a step of src/cpu.c: the instruction retires, or it does not and leaves the counter.
use quanta.Common.{
  ℕ, ◌+◌, ◌<◌, ◌≡◌, inl, inr, Bool, true, false, ◌==◌, leb, ltb, ◌||◌, ◌&&◌, if◌then◌else◌,
  Bool-cases, refl, ==_refl, arith,
}
use quanta.Common.Word.{test_bits, u64, clear64}
use quanta.Cpu.{Hart, sext_xlen}
use quanta.Decode.Csr.{stvec, mtvec}
use quanta.Cpu.Trap.{raise_trap, legacy_trap, enter_trap, delegated}
use quanta.Machine.{Machine, hart}
use quanta.Cpu.Step.{commit, access_cause}

-- A hart that trapped or halted and retired nothing.
abbrev pub Stopped : Hart → Hart → Type 0
Stopped before after = (after.instret ≡ before.instret) × ((after.trapped || after.halted) ≡ true)

or_true : (b : Bool) → (b || true) ≡ true
or_true true = refl
or_true false = refl

legacy_trap-Stopped :
    (m : Machine) (cause : ℕ) → cause < 8 → Stopped (hart m) (hart (legacy_trap m cause))
unfolding legacy_trap
legacy_trap-Stopped m cause small =
    let no_call : (cause == 9) ≡ false = ground arith in
    let no_user : (cause == 8) ≡ false = ground arith in
    let no_machine : (cause == 11) ≡ false = ground arith in
    let itself = ==_refl m.cur in
    let left = or_true (hart m).trapped in
    rw no_call rw no_user rw no_machine elim (Bool-cases (cause == 3)) [
      | inl e ↦ rw e (rw itself (refl, left))
      | inr n3 ↦ rw n3 elim (Bool-cases (ltb cause 2)) [
        | inl e ↦ rw e (rw itself (refl, left))
        | inr n2 ↦ rw n2 elim (Bool-cases (leb 4 cause && ltb cause 8)) [
          | inl e ↦ rw e (rw itself (refl, left))
          | inr e ↦ rw e (rw itself (refl, left))
        ]
      ]
    ]

enter_trap-Stopped :
    (cpu : Hart) (cause tval : ℕ) (to_s : Bool) → Stopped cpu (enter_trap cpu cause tval to_s)
unfolding enter_trap
enter_trap-Stopped cpu cause tval true = (refl, refl)
enter_trap-Stopped cpu cause tval false = (refl, refl)

-- The traps below the environment calls.
raise_trap-Stopped :
    (m : Machine) (cause tval : ℕ) → cause < 8 → Stopped (hart m) (hart (raise_trap m cause tval))
unfolding raise_trap
raise_trap-Stopped m cause tval small =
    let to_s = delegated (hart m) cause in
    let tvec = if to_s then (hart m).csr stvec else (hart m).csr mtvec in
    elim (Bool-cases (clear64 tvec 3 == 0)) [
      | inl none_set ↦ rw none_set (legacy_trap-Stopped m cause small)
      | inr set ↦ rw set (rw (==_refl m.cur) (enter_trap-Stopped (hart m) cause tval to_s))
    ]

access_cause_small : (inst : ℕ) → access_cause inst < 8
unfolding access_cause
access_cause_small inst = ground arith

-- The end of a step retires the instruction exactly if its accesses stayed in the memory, it neither
-- trapped nor halted the hart, and its next PC is even: it then counts once and moves the PC there.
-- Otherwise the hart has trapped or halted, and the counter stays.
pub commit-instret :
    (inst next_pc : ℕ) (m : Machine)
    → let stops = m.mem.fault || (hart m).trapped || (hart m).halted || test_bits next_pc 1 in
      let after = hart (commit inst (next_pc, m)) in
      (after.instret ≡ (if stops then (hart m).instret else u64 ((hart m).instret + 1)))
      × ((after.trapped || after.halted) ≡ stops)
      × ((if stops then next_pc else after.pc)
          ≡ (if stops then next_pc else sext_xlen (hart m) next_pc))
unfolding commit
commit-instret inst next_pc m =
    let itself = ==_refl m.cur in
    elim (Bool-cases m.mem.fault) [
      | inl f ↦
          let s =
            raise_trap-Stopped m (access_cause inst) m.mem.fault_addr (access_cause_small inst) in
          simp f (s.0, s.1, refl)
      | inr f ↦ elim (Bool-cases (hart m).trapped) [
        | inl t ↦ simp (f, t) (refl, refl, refl)
        | inr t ↦ elim (Bool-cases (hart m).halted) [
          | inl h ↦ simp (f, t, h) (refl, refl, refl)
          | inr h ↦ elim (Bool-cases (test_bits next_pc 1)) [
            | inl odd ↦
                let s = raise_trap-Stopped m 0 next_pc (omega arith) in
                simp (f, t, h, odd) (s.0, s.1, refl)
            | inr even ↦ simp (f, t, h, even, itself) (refl, refl, refl)
          ]
        ]
      ]
    ]
