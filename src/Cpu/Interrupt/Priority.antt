-- ===== src/Cpu/Interrupt/Priority.antt =====
-- Which interrupt is taken, and where it is handled.
use quanta.Common.{
  ℕ, ◌≡◌, ◌≤◌, Bool, true, false, ◌&&◌, Option, none, some, List, [], ◌∷◌, ◌++◌, refl, arith,
  Bool-cases, inl, inr, ap, ◌==◌,
}
use quanta.Common.Word.{test_bits, ◌<<◌, ◌&&&◌, u32}
use quanta.Cpu.{Hart}
use quanta.Cpu.Interrupt.{
  deliverable, gate_open, s_on, m_on, to_supervisor, take_interrupt, deliver, effective_mip,
  irq_order,
}
use quanta.Decode.Csr.{mie}
use quanta.Cpu.Trap.{enter_trap}

-- An interrupt that pends and that its gate lets through.
abbrev pub ready : Hart → ℕ → ℕ → Bool
ready cpu pending i = test_bits pending (1 << i) && gate_open cpu i

-- No interrupt of a list is ready.
unfoldable pub NoneReady : Hart → ℕ → List ℕ → Type 0
NoneReady cpu pending [] = Unit
NoneReady cpu pending (j ∷ order) = (ready cpu pending j ≡ false) × NoneReady cpu pending order

-- The loop takes the first ready interrupt of the order: it pends and its gate is open, and each
-- one before it does not pend or has a closed gate.
pub deliverable_first :
    (cpu : Hart) (pending i : ℕ) (order : List ℕ)
    → deliverable cpu pending order ≡ some i
    → (ready cpu pending i ≡ true)
      × ((before : List ℕ) × ((after : List ℕ) × ((order ≡ before ++ i ∷ after)
              × NoneReady cpu pending before)))
unfolding deliverable NoneReady
deliverable_first cpu pending i [] e = absurd (ground arith)
deliverable_first cpu pending i (j ∷ order) e = elim (Bool-cases (ready cpu pending j)) [
  | inl now ↦
      (let same : j ≡ i = ground arith in
        (ground arith, ([], (order, (ap (λ t. t ∷ order) same, tt)))))
  | inr later ↦
      (let rest = deliverable_first cpu pending i order (ground arith) in
        let before = rest.1.0 in
        let after = rest.1.1.0 in
        (rest.0, (j ∷ before, (after, (ap (λ t. j ∷ t) rest.1.1.1.0, (later, rest.1.1.1.1))))))
]

-- The destination that a gate lets through is no lower than the hart.
gate-priv :
    (cpu : Hart) (cause i : ℕ)
    → gate_open cpu i ≡ true
    → cpu.priv ≤ 3
    → cpu.priv ≤ (enter_trap cpu cause 0 (to_supervisor cpu i)).priv
unfolding gate_open s_on m_on enter_trap
gate-priv cpu cause i through h = elim (Bool-cases (to_supervisor cpu i)) [
  | inl down ↦ rw down (ground arith)
  | inr up ↦ rw up h
]

deliver-priv :
    (cpu : Hart) (pending : ℕ) (found : Option ℕ)
    → deliverable cpu pending irq_order ≡ found
    → (deliver cpu found).0 ≡ true
    → cpu.priv ≤ 3
    → cpu.priv ≤ (deliver cpu found).1.priv
unfolding deliver
deliver-priv cpu pending none e took h = absurd (ground arith)
deliver-priv cpu pending (some i) e took h =
    let is_ready = (deliverable_first cpu pending i irq_order e).0 in
    gate-priv cpu _ i (ground arith) h

effective_mip-priv :
    (devices : Option ℕ) (cpu : Hart) → (effective_mip devices cpu).1.priv ≡ cpu.priv
unfolding effective_mip
effective_mip-priv none cpu = refl
effective_mip-priv (some bits) cpu = refl

-- An interrupt that is taken never lowers the privilege: below M-mode it is handled at the hart's
-- level or above, and in M-mode it is handled in M-mode.
pub take_interrupt-priv :
    (devices : Option ℕ) (cpu : Hart)
    → cpu.priv ≤ 3
    → (take_interrupt devices cpu).0 ≡ true
    → cpu.priv ≤ (take_interrupt devices cpu).1.priv
unfolding take_interrupt
take_interrupt-priv devices cpu h took =
    let here = (effective_mip devices cpu).1 in
    let pending = u32 ((effective_mip devices cpu).0 &&& here.csr mie) in
    let same : here.priv ≡ cpu.priv = effective_mip-priv devices cpu in
    elim (Bool-cases (pending == 0)) [
      | inl quiet ↦ absurd (ground arith)
      | inr active ↦
          let main =
            deliver-priv here pending (deliverable here pending irq_order) refl (ground arith)
              (omega (arith, same)) in
          rw active (omega (arith, same, main))
    ]
