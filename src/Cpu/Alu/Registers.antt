-- ===== src/Cpu/Alu/Registers.antt =====
-- What an ALU instruction changes, and the form of the registers.
use quanta.Common.{
  ℕ, ◌≡◌, arith, ◌==◌, Option, none, some, refl, Bool-cases, inl, inr, ap, sym, ◌∙◌,
}
use mathlib.Core.Path.{subst}
use quanta.Common.Word.{sext32}
use quanta.Decode.{opcode, rd, funct7}
use quanta.Decode.Op.{imm, imm_32, reg, reg_32}
use quanta.Cpu.{Hart, reg_write, sext_xlen}
use quanta.Cpu.Bitmanip.{
  write_back, exec_bitmanip_op, exec_bitmanip_imm, exec_bitmanip_op32, exec_bitmanip_imm32,
  bitmanip_op, bitmanip_imm, bitmanip_op32, bitmanip_imm32,
}
use quanta.Cpu.Muldiv.{exec_muldiv, exec_muldiv64}
use quanta.Cpu.Alu.{
  or_else, or_try, write_word, exec_op_imm, exec_op, exec_op_imm32, exec_op32, exec_muldivw,
}
use quanta.Cpu.Control.{alu}

-- The step writes one register, the instruction's rd, and nothing else.
abbrev pub WritesRd : Hart → ℕ → Hart → Type 0
WritesRd cpu inst after = (v : ℕ) × (after ≡ reg_write cpu (rd inst) v)

-- An optional step that does.
abbrev MayWriteRd : Hart → ℕ → Option Hart → Type 0
MayWriteRd cpu inst o = (after : Hart) → o ≡ some after → WritesRd cpu inst after

module _ (cpu : Hart) (inst : ℕ) where
  write_back_may : (o : Option ℕ) → MayWriteRd cpu inst (write_back cpu inst o)
  unfolding write_back
  write_back_may none after e = absurd (ground arith)
  write_back_may (some r) after e = (r, cc)

  write_word_may : (o : Option ℕ) → MayWriteRd cpu inst (write_word cpu inst o)
  unfolding write_word
  write_word_may none after e = absurd (ground arith)
  write_word_may (some r) after e = (sext32 r, cc)

  or_else_writes :
      (o : Option Hart) (v : ℕ)
      → MayWriteRd cpu inst o
      → WritesRd cpu inst (or_else o (reg_write cpu (rd inst) v))
  unfolding or_else
  or_else_writes none v may = (v, refl)
  or_else_writes (some after) v may = may after refl

  or_try_may :
      (o p : Option Hart)
      → MayWriteRd cpu inst o
      → MayWriteRd cpu inst p
      → MayWriteRd cpu inst (or_try o p)
  unfolding or_try
  or_try_may none p first second = second
  or_try_may (some after) p first second = first

  exec_op_imm_writes : WritesRd cpu inst (exec_op_imm cpu inst)
  unfolding exec_op_imm exec_bitmanip_imm
  exec_op_imm_writes = or_else_writes _ _ (write_back_may (bitmanip_imm cpu inst))

  exec_muldiv_writes : WritesRd cpu inst (exec_muldiv cpu inst)
  unfolding exec_muldiv exec_muldiv64
  exec_muldiv_writes = elim (Bool-cases (cpu.xlen == 64)) [
    | inl wide ↦ rw wide (_, refl)
    | inr narrow ↦ rw narrow (_, refl)
  ]

  exec_op_writes : WritesRd cpu inst (exec_op cpu inst)
  unfolding exec_op exec_bitmanip_op
  exec_op_writes = elim (Bool-cases (funct7 inst == 0x01)) [
    | inl m ↦ rw m exec_muldiv_writes
    | inr base ↦ rw base (or_else_writes _ _ (write_back_may (bitmanip_op cpu inst)))
  ]

  exec_op_imm32_may : MayWriteRd cpu inst (exec_op_imm32 cpu inst)
  unfolding exec_op_imm32 exec_bitmanip_imm32
  exec_op_imm32_may = elim (Bool-cases (cpu.xlen == 64)) [
    | inl wide ↦
        rw wide (or_try_may _ _ (write_back_may (bitmanip_imm32 cpu inst)) (write_word_may _))
    | inr narrow ↦ rw narrow (λ after e. absurd (ground arith))
  ]

  exec_op32_may : MayWriteRd cpu inst (exec_op32 cpu inst)
  unfolding exec_op32 exec_bitmanip_op32 exec_muldivw
  exec_op32_may = elim (Bool-cases (cpu.xlen == 64)) [
    | inl wide ↦ elim (Bool-cases (funct7 inst == 0x01)) [
      | inl m ↦ rw (wide, m) (write_word_may _)
      | inr base ↦
          rw (wide, base)
            (or_try_may _ _ (write_back_may (bitmanip_op32 cpu inst)) (write_word_may _))
    ]
    | inr narrow ↦ rw narrow (λ after e. absurd (ground arith))
  ]

  always : (h : Hart) → WritesRd cpu inst h → MayWriteRd cpu inst (some h)
  always h writes after e = (let same : after ≡ h = cc in (writes.0, same ∙ writes.1))

  -- An ALU instruction that is legal, of any of the four opcodes with their multiply, divide and
  -- bit-manipulation groups, writes its rd and changes nothing else of the hart.
  pub alu-WritesRd : (after : Hart) → alu cpu inst ≡ some after → WritesRd cpu inst after
  unfolding alu
  alu-WritesRd = elim (Bool-cases (opcode inst == imm)) [
    | inl a ↦ rw a (always _ exec_op_imm_writes)
    | inr na ↦ elim (Bool-cases (opcode inst == imm_32)) [
      | inl b ↦ rw (na, b) exec_op_imm32_may
      | inr nb ↦ elim (Bool-cases (opcode inst == reg)) [
        | inl c ↦ rw (na, nb, c) (always _ exec_op_writes)
        | inr nc ↦ elim (Bool-cases (opcode inst == reg_32)) [
          | inl d ↦ rw (na, nb, nc, d) exec_op32_may
          | inr nd ↦ rw (na, nb, nc, nd) (λ after e. absurd (ground arith))
        ]
      ]
    ]
  ]

-- On RV32 a register holds a sign-extended word, and x0 holds 0 on both.
abbrev pub IsSext : Hart → Type 0
IsSext cpu = (cpu.regs 0 ≡ 0) × ((i : ℕ) → cpu.xlen ≡ 32 → cpu.regs i ≡ sext32 (cpu.regs i))

sext32-twice : (v : ℕ) → sext32 (sext32 v) ≡ sext32 v
sext32-twice v = ground arith

reg_write-IsSext : (cpu : Hart) (i v : ℕ) → IsSext cpu → IsSext (reg_write cpu i v)
unfolding reg_write sext_xlen
reg_write-IsSext cpu i v h = elim (Bool-cases (i == 0)) [
  | inl zero_reg ↦ rw zero_reg h
  | inr other ↦ rw other (
    ground (arith, h.0),
    λ j narrow. elim (Bool-cases (j == i)) [
      | inl here ↦ rw (here, ap (λ w. w == 32) narrow) (sym (sext32-twice v))
      | inr there ↦ rw there (h.1 j narrow)
    ],
  )
]

-- A legal ALU instruction keeps x0 at 0 and, on RV32, every register a sign-extended word.
pub alu-IsSext :
    (cpu after : Hart) (inst : ℕ) → IsSext cpu → alu cpu inst ≡ some after → IsSext after
alu-IsSext cpu after inst h e =
    let step = alu-WritesRd cpu inst after e in
    subst IsSext (sym step.1) (reg_write-IsSext cpu (rd inst) step.0 h)
