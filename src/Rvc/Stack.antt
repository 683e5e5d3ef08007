-- ===== src/Rvc/Stack.antt =====
-- The loads from the stack of src/rvc.c against the decoder of src/decode.h.
use quanta.Common.{
  ℕ, ◌+◌, ◌*◌, ◌/◌, ◌%◌, ◌^◌, ◌<◌, ◌≡◌, arith, refl, Bool, ◌==◌, inl, inr, Bool-cases, ◌∙◌, ◌⊎◌,
}
use quanta.Common.Bits.{bit_or_add, bit_or_add_low, bit_and_mask}
use quanta.Common.Word.{shl32, ◌|||◌, ◌&&&◌}
use quanta.Decode.{opcode, rd, funct3, rs1, imm_i}
use quanta.Rvc.Build.{i_type}
use quanta.Rvc.Encode.{i_type_decode}
use quanta.Rvc.{bit, bits, illegal, expand_q2, rvc_expand}

-- An expansion that the decoder takes for a load from a distance above the stack pointer, x2.
pub record LoadsFromStack (w op width target offset : ℕ) : Type 0 where
  pub opcode_eq : opcode w ≡ op
  pub rd_eq : rd w ≡ target
  pub funct3_eq : funct3 w ≡ width
  pub rs1_eq : rs1 w ≡ 2
  pub imm_eq : imm_i w ≡ offset

load :
    (op width target offset : ℕ)
    → op < 2 ^ 7
    → width < 2 ^ 3
    → target < 2 ^ 5
    → offset < 2 ^ 11
    → LoadsFromStack (i_type offset 2 width target op) op width target offset
load op width target offset ho hw ht h =
    let (a, b, c, d, e) = i_type_decode offset 2 width target op (omega arith) hw ht ho in
    record { opcode_eq = a; rd_eq = b; funct3_eq = c; rs1_eq = d; imm_eq = e ∙ ground arith }

-- The distance of C.LWSP: uimm[5] in bit 12, uimm[4:2] in bits 6 to 4, uimm[7:6] in bits 3 and 2.
unfoldable pub distance_w : ℕ → ℕ
distance_w c = (c / 2 ^ 12 % 2) * 32 + (c / 2 ^ 4 % 8) * 4 + (c / 2 ^ 2 % 4) * 64

distance_w-bits :
    (c : ℕ) → (shl32 (bit c 12) 5 ||| shl32 (bits c 6 4) 2 ||| shl32 (bits c 3 2) 6) ≡ distance_w c
unfolding distance_w
distance_w-bits c =
    let x = c / 2 ^ 12 % 2 in
    let y = c / 2 ^ 4 % 8 in
    let z = c / 2 ^ 2 % 4 in
    rw
      (
        bit_and_mask 1 (c / 2 ^ 12),
        bit_and_mask 3 (c / 2 ^ 4),
        bit_and_mask 2 (c / 2 ^ 2),
        bit_or_add 5 (shl32 x 5) (shl32 y 2) (omega arith) (omega arith),
        bit_or_add_low 6 (shl32 x 5 + shl32 y 2) (shl32 z 6) (omega arith) (omega arith),
      )
      (omega arith)

-- C.LWSP, the halfwords with 10 in the low bits and 010 in the high ones, is refused exactly if its
-- destination is x0; else it expands to the LW of that register from x2 and its distance.
pub rvc_expand-LoadsFromStack :
    (c : ℕ) (rv64 : Bool)
    → c % 4 ≡ 2
    → c / 2 ^ 13 ≡ 2
    → ((c / 2 ^ 7 % 32 ≡ 0) × (rvc_expand c rv64 ≡ illegal))
      ⊎ ((0 < c / 2 ^ 7 % 32)
          × LoadsFromStack (rvc_expand c rv64) 0x03 2 (c / 2 ^ 7 % 32) (distance_w c))
unfolding rvc_expand expand_q2
rvc_expand-LoadsFromStack c rv64 low high =
    let target = c / 2 ^ 7 % 32 in
    let quadrant : c &&& 3 ≡ 2 = bit_and_mask 2 c ∙ low in
    let sel : bits c 15 13 ≡ 2 = bit_and_mask 3 (c / 2 ^ 13) ∙ omega arith in
    let dest : bits c 11 7 ≡ target = bit_and_mask 5 (c / 2 ^ 7) in
    let small : distance_w c < 2 ^ 11 = unfold distance_w in omega arith in
    rw (quadrant, sel, dest)
      elim (Bool-cases (target == 0)) [
        | inl e ↦ rw e (inl (ground (arith, e), refl))
        | inr e ↦
            rw (e, distance_w-bits c)
              (inr (
                ground (arith, e),
                load 0x03 2 target (distance_w c) (omega arith) (omega arith) (omega arith) small,
              ))
      ]
