-- ===== src/Decode/Fields.antt =====
-- The fields as quotients and remainders, and the immediates as sums of their scattered pieces.
use native.Mathlib.Nat.{div-eq_of_lt, div-eq_of_lt-le}
use native.Mathlib.Decide.{dec_lt}
use quanta.Common.{
  ℕ, suc, ◌+◌, ◌-◌, ◌*◌, ◌/◌, ◌%◌, ◌^◌, ◌<◌, ◌≡◌, arith, ltb, if◌then◌else◌, ap, ◌∙◌, refl, bit_and,
}
use quanta.Common.Power.{two-pow-suc, two_pow_pos}
use quanta.Common.Bits.{bit_and_mask, bit_and_shifted, bit_or_add, bit_or_comm}
use quanta.Common.Word.{◌|||◌, ◌&&&◌, ◌>>◌, shl32, test_bits}
use quanta.Decode.{opcode, rd, funct3, rs1, rs2, funct7, imm_i, imm_s, imm_b, imm_u, imm_j}

module _ (inst : ℕ) where
  pub opcode-eq-mod : opcode inst ≡ inst % 2 ^ 7
  unfolding opcode
  opcode-eq-mod = bit_and_mask 7 inst

  pub rd-eq-mod : rd inst ≡ inst / 2 ^ 7 % 2 ^ 5
  unfolding rd
  rd-eq-mod = bit_and_mask 5 (inst / 2 ^ 7)

  pub funct3-eq-mod : funct3 inst ≡ inst / 2 ^ 12 % 2 ^ 3
  unfolding funct3
  funct3-eq-mod = bit_and_mask 3 (inst / 2 ^ 12)

  pub rs1-eq-mod : rs1 inst ≡ inst / 2 ^ 15 % 2 ^ 5
  unfolding rs1
  rs1-eq-mod = bit_and_mask 5 (inst / 2 ^ 15)

  pub rs2-eq-mod : rs2 inst ≡ inst / 2 ^ 20 % 2 ^ 5
  unfolding rs2
  rs2-eq-mod = bit_and_mask 5 (inst / 2 ^ 20)

  pub funct7-eq-mod : funct7 inst ≡ inst / 2 ^ 25 % 2 ^ 7
  unfolding funct7
  funct7-eq-mod = bit_and_mask 7 (inst / 2 ^ 25)

-- A number below `2 ^ (k + 1)`, sign-extended to 32 bits from bit `k`.
abbrev pub sign_fill : ℕ → ℕ → ℕ
sign_fill k w = if ltb w (2 ^ k) then w else w + (2 ^ 32 - 2 ^ suc k)

-- The test and the `|=` of the immediate decoders fill in the sign.
sign_fill_lem :
    (k w high : ℕ)
    → w < 2 ^ suc k
    → high ≡ 2 ^ 32 - 2 ^ suc k
    → high % 2 ^ suc k ≡ 0
    → (if test_bits w (1 * 2 ^ k) then w ||| high else w) ≡ sign_fill k w
sign_fill_lem k w high fits e zeros = elim (dec_lt w (2 ^ k)) [
  | yes small ↦ ground (arith, masked, div-eq_of_lt small)
  | no big ↦ ground (
    arith,
    masked,
    div-eq_of_lt-le {k = 1} (2 ^ k) {m = w} (omega arith) (omega (arith, two-pow-suc k)),
    two_pow_pos k,
    bit_or_comm w high ∙ bit_or_add (suc k) high w zeros fits,
  )
]
  where
    masked : bit_and w (1 * 2 ^ k) ≡ w / 2 ^ k % 2 * 2 ^ k
    masked = bit_and_shifted k w 1 ∙ ap (λ t. t * 2 ^ k) (bit_and_mask 1 (w / 2 ^ k))

-- The pieces of the S-, B- and J-type immediates, each at its place.
unfoldable pub pieces_s : ℕ → ℕ
pieces_s inst = inst / 2 ^ 25 % 2 ^ 7 * 2 ^ 5 + inst / 2 ^ 7 % 2 ^ 5

unfoldable pub pieces_b : ℕ → ℕ
pieces_b inst =
    inst / 2 ^ 31 % 2 * 2 ^ 12
    + inst / 2 ^ 7 % 2 * 2 ^ 11
    + inst / 2 ^ 25 % 2 ^ 6 * 2 ^ 5
    + inst / 2 ^ 8 % 2 ^ 4 * 2

unfoldable pub pieces_j : ℕ → ℕ
pieces_j inst =
    inst / 2 ^ 31 % 2 * 2 ^ 20
    + inst / 2 ^ 12 % 2 ^ 8 * 2 ^ 12
    + inst / 2 ^ 20 % 2 * 2 ^ 11
    + inst / 2 ^ 21 % 2 ^ 10 * 2

module _ (inst : ℕ) where
  gather_s : shl32 (inst >> 25 &&& 0x7f) 5 ||| (inst >> 7 &&& 0x1f) ≡ pieces_s inst
  unfolding pieces_s
  gather_s =
      rw (bit_and_mask 7 (inst / 2 ^ 25), bit_and_mask 5 (inst / 2 ^ 7))
        (bit_or_add 5 (shl32 (inst / 2 ^ 25 % 2 ^ 7) 5) (inst / 2 ^ 7 % 2 ^ 5) (omega arith)
            (omega arith)
          ∙ omega arith)

  pub imm_s-eq-sign_fill : imm_s inst ≡ sign_fill 11 (pieces_s inst)
  unfolding imm_s
  imm_s-eq-sign_fill =
      rw gather_s
        (sign_fill_lem 11 (pieces_s inst) 0xfffff000 (unfold pieces_s in omega arith) refl refl)

  gather_b :
      shl32 (inst >> 31 &&& 0x1) 12
        ||| shl32 (inst >> 7 &&& 0x1) 11
        ||| shl32 (inst >> 25 &&& 0x3f) 5
        ||| shl32 (inst >> 8 &&& 0xf) 1
      ≡ pieces_b inst
  unfolding pieces_b
  gather_b =
      rw
        (
          bit_and_mask 1 (inst / 2 ^ 31),
          bit_and_mask 1 (inst / 2 ^ 7),
          bit_and_mask 6 (inst / 2 ^ 25),
          bit_and_mask 4 (inst / 2 ^ 8),
          bit_or_add 12 (shl32 (inst / 2 ^ 31 % 2) 12) (shl32 (inst / 2 ^ 7 % 2) 11) (omega arith)
              (omega arith),
          bit_or_add 11 (shl32 (inst / 2 ^ 31 % 2) 12 + shl32 (inst / 2 ^ 7 % 2) 11)
              (shl32 (inst / 2 ^ 25 % 2 ^ 6) 5) (omega arith) (omega arith),
          bit_or_add 5
              (shl32 (inst / 2 ^ 31 % 2) 12
                + shl32 (inst / 2 ^ 7 % 2) 11
                + shl32 (inst / 2 ^ 25 % 2 ^ 6) 5)
              (shl32 (inst / 2 ^ 8 % 2 ^ 4) 1) (omega arith) (omega arith),
        )
        (omega arith)

  pub imm_b-eq-sign_fill : imm_b inst ≡ sign_fill 12 (pieces_b inst)
  unfolding imm_b
  imm_b-eq-sign_fill =
      rw gather_b
        (sign_fill_lem 12 (pieces_b inst) 0xffffe000 (unfold pieces_b in omega arith) refl refl)

  gather_j :
      shl32 (inst >> 31 &&& 0x1) 20
        ||| shl32 (inst >> 12 &&& 0xff) 12
        ||| shl32 (inst >> 20 &&& 0x1) 11
        ||| shl32 (inst >> 21 &&& 0x3ff) 1
      ≡ pieces_j inst
  unfolding pieces_j
  gather_j =
      rw
        (
          bit_and_mask 1 (inst / 2 ^ 31),
          bit_and_mask 8 (inst / 2 ^ 12),
          bit_and_mask 1 (inst / 2 ^ 20),
          bit_and_mask 10 (inst / 2 ^ 21),
          bit_or_add 20 (shl32 (inst / 2 ^ 31 % 2) 20) (shl32 (inst / 2 ^ 12 % 2 ^ 8) 12)
              (omega arith) (omega arith),
          bit_or_add 12 (shl32 (inst / 2 ^ 31 % 2) 20 + shl32 (inst / 2 ^ 12 % 2 ^ 8) 12)
              (shl32 (inst / 2 ^ 20 % 2) 11) (omega arith) (omega arith),
          bit_or_add 11
              (shl32 (inst / 2 ^ 31 % 2) 20
                + shl32 (inst / 2 ^ 12 % 2 ^ 8) 12
                + shl32 (inst / 2 ^ 20 % 2) 11)
              (shl32 (inst / 2 ^ 21 % 2 ^ 10) 1) (omega arith) (omega arith),
        )
        (omega arith)

  pub imm_j-eq-sign_fill : imm_j inst ≡ sign_fill 20 (pieces_j inst)
  unfolding imm_j
  imm_j-eq-sign_fill =
      rw gather_j
        (sign_fill_lem 20 (pieces_j inst) 0xffe00000 (unfold pieces_j in omega arith) refl refl)

  -- The arithmetic shift of an I-type word is the sign-extended top field.
  pub imm_i-eq-sign_fill : inst < 2 ^ 32 → imm_i inst ≡ sign_fill 11 (inst / 2 ^ 20)
  unfolding imm_i
  imm_i-eq-sign_fill h = ground arith

  -- An upper immediate keeps the top 20 bits in place.
  pub imm_u-eq : inst < 2 ^ 32 → imm_u inst ≡ inst / 2 ^ 12 * 2 ^ 12
  unfolding imm_u
  imm_u-eq h = bit_and_shifted 12 inst 0xfffff ∙ rw (bit_and_mask 20 (inst / 2 ^ 12)) (omega arith)
