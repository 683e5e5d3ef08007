-- ===== src/Rvc/Legal.antt =====
-- What an expansion can be: the sentinel, or a word that the decoder takes for a 32-bit
-- instruction.
use quanta.Common.{
  ℕ, ◌/◌, ◌%◌, ◌^◌, ◌<◌, ◌≡◌, refl, arith, ◌⊎◌, inl, inr, Bool, true, false, if◌then◌else◌, bit_or,
  ltb, ◌&&◌, ◌==◌,
}
use quanta.Common.Digits.{bit_or_low}
use quanta.Common.Bits.{bit_or-lt}
use quanta.Common.Word.{shl32}
use quanta.Rvc.Build.{r_type, i_type, s_type, b_type, u_type, j_type}
use quanta.Rvc.{illegal, expand_q0, expand_alu, expand_q1, expand_q2, rvc_expand}

-- A 32-bit word whose low bits are 11.
record IsWide (w : ℕ) : Type 0 where
  pub fits : w < 2 ^ 32
  pub low_bits : w % 4 ≡ 3

-- The major opcodes of 32-bit instructions.
abbrev major : ℕ → Bool
major op = ltb op 128 && op % 4 == 3

bit_or-IsWide : (a op : ℕ) → a < 2 ^ 32 → major op ≡ true → IsWide (bit_or a op)
bit_or-IsWide a op h low = record {
  fits = bit_or-lt 32 a op h (ground arith);
  low_bits = ground (arith, bit_or_low a op, bit_or_low (a / 2) (op / 2));
}

shl32-lt : (a k : ℕ) → shl32 a k < 2 ^ 32
shl32-lt a k = omega arith

bit_or32-lt : {a b : ℕ} → a < 2 ^ 32 → b < 2 ^ 32 → bit_or a b < 2 ^ 32
bit_or32-lt {a} {b} h j = bit_or-lt 32 a b h j

-- `illegal`, or a 32-bit instruction.
abbrev IsExpansion : ℕ → Type 0
IsExpansion w = (w ≡ illegal) ⊎ IsWide w

if-IsExpansion :
    (b : Bool) {x y : ℕ} → IsExpansion x → IsExpansion y → IsExpansion (if b then x else y)
if-IsExpansion true h j = h
if-IsExpansion false h j = j

illegal-IsExpansion : IsExpansion illegal
illegal-IsExpansion = inl refl

r_type-IsExpansion :
    (f7 rs2 rs1 f3 rd op : ℕ) → major op ≡ true → IsExpansion (r_type f7 rs2 rs1 f3 rd op)
unfolding r_type
r_type-IsExpansion f7 rs2 rs1 f3 rd op low =
    inr (bit_or-IsWide _ op (search (bit_or32-lt, shl32-lt)) low)

i_type-IsExpansion :
    (imm rs1 f3 rd op : ℕ) → major op ≡ true → IsExpansion (i_type imm rs1 f3 rd op)
unfolding i_type
i_type-IsExpansion imm rs1 f3 rd op low =
    inr (bit_or-IsWide _ op (search (bit_or32-lt, shl32-lt)) low)

s_type-IsExpansion :
    (imm rs2 rs1 f3 op : ℕ) → major op ≡ true → IsExpansion (s_type imm rs2 rs1 f3 op)
unfolding s_type
s_type-IsExpansion imm rs2 rs1 f3 op low =
    inr (bit_or-IsWide _ op (search (bit_or32-lt, shl32-lt)) low)

b_type-IsExpansion :
    (imm rs2 rs1 f3 op : ℕ) → major op ≡ true → IsExpansion (b_type imm rs2 rs1 f3 op)
unfolding b_type
b_type-IsExpansion imm rs2 rs1 f3 op low =
    inr (bit_or-IsWide _ op (search (bit_or32-lt, shl32-lt) depth 9) low)

u_type-IsExpansion : (imm rd op : ℕ) → major op ≡ true → IsExpansion (u_type imm rd op)
unfolding u_type
u_type-IsExpansion imm rd op low = inr (bit_or-IsWide _ op (search (bit_or32-lt, shl32-lt)) low)

j_type-IsExpansion : (imm rd op : ℕ) → major op ≡ true → IsExpansion (j_type imm rd op)
unfolding j_type
j_type-IsExpansion imm rd op low = inr (bit_or-IsWide _ op (search (bit_or32-lt, shl32-lt)) low)

ruleset formats = (
  if-IsExpansion, illegal-IsExpansion, r_type-IsExpansion, i_type-IsExpansion, s_type-IsExpansion,
  b_type-IsExpansion, u_type-IsExpansion, j_type-IsExpansion,
)

module _ (c : ℕ) (rv64 : Bool) where
  expand_q0-IsExpansion : IsExpansion (expand_q0 c rv64)
  unfolding expand_q0
  expand_q0-IsExpansion = search formats depth 14

  expand_alu-IsExpansion : IsExpansion (expand_alu c rv64)
  unfolding expand_alu
  expand_alu-IsExpansion = search formats depth 14

  expand_q1-IsExpansion : IsExpansion (expand_q1 c rv64)
  unfolding expand_q1
  expand_q1-IsExpansion = search (formats, expand_alu-IsExpansion) depth 14

  expand_q2-IsExpansion : IsExpansion (expand_q2 c rv64)
  unfolding expand_q2
  expand_q2-IsExpansion = search formats depth 16

  -- A halfword expands to `RVC_ILLEGAL`, or to a word of 32 bits whose low bits are 11, which
  -- `RVC_ILLEGAL` is not.
  rvc_expand-IsExpansion : IsExpansion (rvc_expand c rv64)
  unfolding rvc_expand
  rvc_expand-IsExpansion =
      search (formats, expand_q0-IsExpansion, expand_q1-IsExpansion, expand_q2-IsExpansion)
