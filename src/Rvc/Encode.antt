-- ===== src/Rvc/Encode.antt =====
-- The builders of src/rvc.c against the decoders of src/decode.h: a word built from fields
-- decodes to those fields.
use quanta.Common.{ℕ, ◌+◌, ◌*◌, ◌/◌, ◌%◌, ◌^◌, ◌<◌, ◌≡◌, arith, ap, ◌∙◌}
use quanta.Common.Bits.{bit_or_add, bit_and_mask}
use quanta.Common.Word.{shl32}
use quanta.Decode.{opcode, rd, funct3, rs1, rs2, funct7, imm_i, imm_s, imm_b, imm_u, imm_j}
use quanta.Decode.Fields.{
  opcode-eq-mod, rd-eq-mod, funct3-eq-mod, rs1-eq-mod, rs2-eq-mod, funct7-eq-mod, sign_fill,
  imm_i-eq-sign_fill, imm_s-eq-sign_fill, imm_b-eq-sign_fill, imm_j-eq-sign_fill, imm_u-eq,
  pieces_s, pieces_b, pieces_j,
}
use quanta.Rvc.Build.{r_type, i_type, s_type, b_type, u_type, j_type}

-- Two numbers that are equal have equal extensions.
sign_fill_cong : (k : ℕ) {v w : ℕ} → v ≡ w → sign_fill k v ≡ sign_fill k w
sign_fill_cong k e = ap (λ t. sign_fill k t) e

module _ (a b f3 r op : ℕ) (hb : b < 2 ^ 5) (h3 : f3 < 2 ^ 3) (hr : r < 2 ^ 5)
    (ho : op < 2 ^ 7) where
  i_type_sum :
      i_type a b f3 r op ≡ (a % 2 ^ 12) * 2 ^ 20 + b * 2 ^ 15 + f3 * 2 ^ 12 + r * 2 ^ 7 + op
  unfolding i_type
  i_type_sum =
      rw
        (
          bit_and_mask 12 a,
          bit_or_add 20 (shl32 (a % 2 ^ 12) 20) (shl32 b 15) (omega arith) (omega arith),
          bit_or_add 15 (shl32 (a % 2 ^ 12) 20 + shl32 b 15) (shl32 f3 12) (omega arith)
              (omega arith),
          bit_or_add 12 (shl32 (a % 2 ^ 12) 20 + shl32 b 15 + shl32 f3 12) (shl32 r 7) (omega arith)
              (omega arith),
          bit_or_add 7 (shl32 (a % 2 ^ 12) 20 + shl32 b 15 + shl32 f3 12 + shl32 r 7) op
              (omega arith) (omega arith),
        )
        (omega arith)

  -- An I-type word decodes to the fields that it was built from, and its immediate to the low
  -- 12 bits of the given one, sign-extended.
  pub i_type_decode :
      let w = i_type a b f3 r op in
      (opcode w ≡ op)
      × (rd w ≡ r)
      × (funct3 w ≡ f3)
      × (rs1 w ≡ b)
      × (imm_i w ≡ sign_fill 11 (a % 2 ^ 12))
  i_type_decode =
      let w = i_type a b f3 r op in
      let top : w / 2 ^ 20 ≡ a % 2 ^ 12 = omega (arith, i_type_sum) in
      (
        opcode-eq-mod w ∙ omega (arith, i_type_sum),
        rd-eq-mod w ∙ omega (arith, i_type_sum),
        funct3-eq-mod w ∙ omega (arith, i_type_sum),
        rs1-eq-mod w ∙ omega (arith, i_type_sum),
        imm_i-eq-sign_fill w (omega (arith, i_type_sum)) ∙ sign_fill_cong 11 top,
      )

module _ (f7 q b f3 r op : ℕ) (h7 : f7 < 2 ^ 7) (hq : q < 2 ^ 5) (hb : b < 2 ^ 5) (h3 : f3 < 2 ^ 3)
    (hr : r < 2 ^ 5) (ho : op < 2 ^ 7) where
  r_type_sum :
      r_type f7 q b f3 r op ≡ f7 * 2 ^ 25 + q * 2 ^ 20 + b * 2 ^ 15 + f3 * 2 ^ 12 + r * 2 ^ 7 + op
  unfolding r_type
  r_type_sum =
      rw
        (
          bit_or_add 25 (shl32 f7 25) (shl32 q 20) (omega arith) (omega arith),
          bit_or_add 20 (shl32 f7 25 + shl32 q 20) (shl32 b 15) (omega arith) (omega arith),
          bit_or_add 15 (shl32 f7 25 + shl32 q 20 + shl32 b 15) (shl32 f3 12) (omega arith)
              (omega arith),
          bit_or_add 12 (shl32 f7 25 + shl32 q 20 + shl32 b 15 + shl32 f3 12) (shl32 r 7)
              (omega arith) (omega arith),
          bit_or_add 7 (shl32 f7 25 + shl32 q 20 + shl32 b 15 + shl32 f3 12 + shl32 r 7) op
              (omega arith) (omega arith),
        )
        (omega arith)

  -- An R-type word decodes to the fields that it was built from.
  pub r_type_decode :
      let w = r_type f7 q b f3 r op in
      (opcode w ≡ op) × (rd w ≡ r) × (funct3 w ≡ f3) × (rs1 w ≡ b) × (rs2 w ≡ q) × (funct7 w ≡ f7)
  r_type_decode =
      let w = r_type f7 q b f3 r op in
      (
        opcode-eq-mod w ∙ omega (arith, r_type_sum),
        rd-eq-mod w ∙ omega (arith, r_type_sum),
        funct3-eq-mod w ∙ omega (arith, r_type_sum),
        rs1-eq-mod w ∙ omega (arith, r_type_sum),
        rs2-eq-mod w ∙ omega (arith, r_type_sum),
        funct7-eq-mod w ∙ omega (arith, r_type_sum),
      )

module _ (a q b f3 op : ℕ) (hq : q < 2 ^ 5) (hb : b < 2 ^ 5) (h3 : f3 < 2 ^ 3)
    (ho : op < 2 ^ 7) where
  s_type_sum :
      s_type a q b f3 op
      ≡ (a / 2 ^ 5 % 2 ^ 7) * 2 ^ 25
        + q * 2 ^ 20
        + b * 2 ^ 15
        + f3 * 2 ^ 12
        + (a % 2 ^ 5) * 2 ^ 7
        + op
  unfolding s_type
  s_type_sum =
      rw
        (
          bit_and_mask 7 (a / 2 ^ 5),
          bit_and_mask 5 a,
          bit_or_add 25 (shl32 (a / 2 ^ 5 % 2 ^ 7) 25) (shl32 q 20) (omega arith) (omega arith),
          bit_or_add 20 (shl32 (a / 2 ^ 5 % 2 ^ 7) 25 + shl32 q 20) (shl32 b 15) (omega arith)
              (omega arith),
          bit_or_add 15 (shl32 (a / 2 ^ 5 % 2 ^ 7) 25 + shl32 q 20 + shl32 b 15) (shl32 f3 12)
              (omega arith) (omega arith),
          bit_or_add 12 (shl32 (a / 2 ^ 5 % 2 ^ 7) 25 + shl32 q 20 + shl32 b 15 + shl32 f3 12)
              (shl32 (a % 2 ^ 5) 7) (omega arith) (omega arith),
          bit_or_add 7
              (shl32 (a / 2 ^ 5 % 2 ^ 7) 25
                + shl32 q 20
                + shl32 b 15
                + shl32 f3 12
                + shl32 (a % 2 ^ 5) 7)
              op (omega arith) (omega arith),
        )
        (omega arith)

  -- An S-type word decodes to the fields that it was built from, and its immediate to the low
  -- 12 bits of the given one, sign-extended.
  pub s_type_decode :
      let w = s_type a q b f3 op in
      (opcode w ≡ op)
      × (funct3 w ≡ f3)
      × (rs1 w ≡ b)
      × (rs2 w ≡ q)
      × (imm_s w ≡ sign_fill 11 (a % 2 ^ 12))
  unfolding pieces_s
  s_type_decode =
      let w = s_type a q b f3 op in
      let pieces : pieces_s w ≡ a % 2 ^ 12 = omega (arith, s_type_sum) in
      (
        opcode-eq-mod w ∙ omega (arith, s_type_sum),
        funct3-eq-mod w ∙ omega (arith, s_type_sum),
        rs1-eq-mod w ∙ omega (arith, s_type_sum),
        rs2-eq-mod w ∙ omega (arith, s_type_sum),
        imm_s-eq-sign_fill w ∙ sign_fill_cong 11 pieces,
      )

  b_type_sum :
      b_type a q b f3 op
      ≡ (a / 2 ^ 12 % 2) * 2 ^ 31
        + (a / 2 ^ 5 % 2 ^ 6) * 2 ^ 25
        + q * 2 ^ 20
        + b * 2 ^ 15
        + f3 * 2 ^ 12
        + (a / 2 % 2 ^ 4) * 2 ^ 8
        + (a / 2 ^ 11 % 2) * 2 ^ 7
        + op
  unfolding b_type
  b_type_sum =
      rw
        (
          bit_and_mask 1 (a / 2 ^ 12),
          bit_and_mask 6 (a / 2 ^ 5),
          bit_and_mask 4 (a / 2),
          bit_and_mask 1 (a / 2 ^ 11),
          bit_or_add 31 (shl32 (a / 2 ^ 12 % 2) 31) (shl32 (a / 2 ^ 5 % 2 ^ 6) 25) (omega arith)
              (omega arith),
          bit_or_add 25 (shl32 (a / 2 ^ 12 % 2) 31 + shl32 (a / 2 ^ 5 % 2 ^ 6) 25) (shl32 q 20)
              (omega arith) (omega arith),
          bit_or_add 20 (shl32 (a / 2 ^ 12 % 2) 31 + shl32 (a / 2 ^ 5 % 2 ^ 6) 25 + shl32 q 20)
              (shl32 b 15) (omega arith) (omega arith),
          bit_or_add 15
              (shl32 (a / 2 ^ 12 % 2) 31 + shl32 (a / 2 ^ 5 % 2 ^ 6) 25 + shl32 q 20 + shl32 b 15)
              (shl32 f3 12) (omega arith) (omega arith),
          bit_or_add 12
              (shl32 (a / 2 ^ 12 % 2) 31
                + shl32 (a / 2 ^ 5 % 2 ^ 6) 25
                + shl32 q 20
                + shl32 b 15
                + shl32 f3 12)
              (shl32 (a / 2 % 2 ^ 4) 8) (omega arith) (omega arith),
          bit_or_add 8
              (shl32 (a / 2 ^ 12 % 2) 31
                + shl32 (a / 2 ^ 5 % 2 ^ 6) 25
                + shl32 q 20
                + shl32 b 15
                + shl32 f3 12
                + shl32 (a / 2 % 2 ^ 4) 8)
              (shl32 (a / 2 ^ 11 % 2) 7) (omega arith) (omega arith),
          bit_or_add 7
              (shl32 (a / 2 ^ 12 % 2) 31
                + shl32 (a / 2 ^ 5 % 2 ^ 6) 25
                + shl32 q 20
                + shl32 b 15
                + shl32 f3 12
                + shl32 (a / 2 % 2 ^ 4) 8
                + shl32 (a / 2 ^ 11 % 2) 7)
              op (omega arith) (omega arith),
        )
        (omega arith)

  -- A B-type word decodes to the fields that it was built from, and its offset to bits 12 to 1
  -- of the given one, sign-extended.
  pub b_type_decode :
      let w = b_type a q b f3 op in
      (opcode w ≡ op)
      × (funct3 w ≡ f3)
      × (rs1 w ≡ b)
      × (rs2 w ≡ q)
      × (imm_b w ≡ sign_fill 12 (a / 2 % 2 ^ 12 * 2))
  unfolding pieces_b
  b_type_decode =
      let w = b_type a q b f3 op in
      let pieces : pieces_b w ≡ a / 2 % 2 ^ 12 * 2 = omega (arith, b_type_sum) in
      (
        opcode-eq-mod w ∙ omega (arith, b_type_sum),
        funct3-eq-mod w ∙ omega (arith, b_type_sum),
        rs1-eq-mod w ∙ omega (arith, b_type_sum),
        rs2-eq-mod w ∙ omega (arith, b_type_sum),
        imm_b-eq-sign_fill w ∙ sign_fill_cong 12 pieces,
      )

module _ (a r op : ℕ) (hr : r < 2 ^ 5) (ho : op < 2 ^ 7) where
  u_type_sum : u_type a r op ≡ (a % 2 ^ 20) * 2 ^ 12 + r * 2 ^ 7 + op
  unfolding u_type
  u_type_sum =
      rw
        (
          bit_and_mask 20 a,
          bit_or_add 12 (shl32 (a % 2 ^ 20) 12) (shl32 r 7) (omega arith) (omega arith),
          bit_or_add 7 (shl32 (a % 2 ^ 20) 12 + shl32 r 7) op (omega arith) (omega arith),
        )
        (omega arith)

  -- A U-type word decodes to its opcode and register, and to the low 20 bits of the given
  -- immediate, placed at the top.
  pub u_type_decode :
      let w = u_type a r op in (opcode w ≡ op) × (rd w ≡ r) × (imm_u w ≡ a % 2 ^ 20 * 2 ^ 12)
  u_type_decode =
      let w = u_type a r op in
      (
        opcode-eq-mod w ∙ omega (arith, u_type_sum),
        rd-eq-mod w ∙ omega (arith, u_type_sum),
        imm_u-eq w (omega (arith, u_type_sum)) ∙ omega (arith, u_type_sum),
      )

  j_type_sum :
      j_type a r op
      ≡ (a / 2 ^ 20 % 2) * 2 ^ 31
        + (a / 2 % 2 ^ 10) * 2 ^ 21
        + (a / 2 ^ 11 % 2) * 2 ^ 20
        + (a / 2 ^ 12 % 2 ^ 8) * 2 ^ 12
        + r * 2 ^ 7
        + op
  unfolding j_type
  j_type_sum =
      rw
        (
          bit_and_mask 1 (a / 2 ^ 20),
          bit_and_mask 10 (a / 2),
          bit_and_mask 1 (a / 2 ^ 11),
          bit_and_mask 8 (a / 2 ^ 12),
          bit_or_add 31 (shl32 (a / 2 ^ 20 % 2) 31) (shl32 (a / 2 % 2 ^ 10) 21) (omega arith)
              (omega arith),
          bit_or_add 21 (shl32 (a / 2 ^ 20 % 2) 31 + shl32 (a / 2 % 2 ^ 10) 21)
              (shl32 (a / 2 ^ 11 % 2) 20) (omega arith) (omega arith),
          bit_or_add 20
              (shl32 (a / 2 ^ 20 % 2) 31 + shl32 (a / 2 % 2 ^ 10) 21 + shl32 (a / 2 ^ 11 % 2) 20)
              (shl32 (a / 2 ^ 12 % 2 ^ 8) 12) (omega arith) (omega arith),
          bit_or_add 12
              (shl32 (a / 2 ^ 20 % 2) 31
                + shl32 (a / 2 % 2 ^ 10) 21
                + shl32 (a / 2 ^ 11 % 2) 20
                + shl32 (a / 2 ^ 12 % 2 ^ 8) 12)
              (shl32 r 7) (omega arith) (omega arith),
          bit_or_add 7
              (shl32 (a / 2 ^ 20 % 2) 31
                + shl32 (a / 2 % 2 ^ 10) 21
                + shl32 (a / 2 ^ 11 % 2) 20
                + shl32 (a / 2 ^ 12 % 2 ^ 8) 12
                + shl32 r 7)
              op (omega arith) (omega arith),
        )
        (omega arith)

  -- A J-type word decodes to its opcode and register, and its offset to bits 20 to 1 of the
  -- given one, sign-extended.
  pub j_type_decode :
      let w = j_type a r op in
      (opcode w ≡ op) × (rd w ≡ r) × (imm_j w ≡ sign_fill 20 (a / 2 % 2 ^ 20 * 2))
  unfolding pieces_j
  j_type_decode =
      let w = j_type a r op in
      let pieces : pieces_j w ≡ a / 2 % 2 ^ 20 * 2 = omega (arith, j_type_sum) in
      (
        opcode-eq-mod w ∙ omega (arith, j_type_sum),
        rd-eq-mod w ∙ omega (arith, j_type_sum),
        imm_j-eq-sign_fill w ∙ sign_fill_cong 20 pieces,
      )
