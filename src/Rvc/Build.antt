-- ===== src/Rvc/Build.antt =====
-- The builders of the 32-bit instruction formats in src/rvc.c.
use quanta.Common.{ℕ}
use quanta.Common.Word.{◌|||◌, ◌&&&◌, ◌>>◌, shl32}

unfoldable pub r_type : ℕ → ℕ → ℕ → ℕ → ℕ → ℕ → ℕ
r_type f7 rs2 rs1 f3 rd op =
    shl32 f7 25 ||| shl32 rs2 20 ||| shl32 rs1 15 ||| shl32 f3 12 ||| shl32 rd 7 ||| op

unfoldable pub i_type : ℕ → ℕ → ℕ → ℕ → ℕ → ℕ
i_type imm rs1 f3 rd op =
    shl32 (imm &&& 0xfff) 20 ||| shl32 rs1 15 ||| shl32 f3 12 ||| shl32 rd 7 ||| op

unfoldable pub s_type : ℕ → ℕ → ℕ → ℕ → ℕ → ℕ
s_type imm rs2 rs1 f3 op =
    shl32 (imm >> 5 &&& 0x7f) 25
    ||| shl32 rs2 20
    ||| shl32 rs1 15
    ||| shl32 f3 12
    ||| shl32 (imm &&& 0x1f) 7
    ||| op

unfoldable pub b_type : ℕ → ℕ → ℕ → ℕ → ℕ → ℕ
b_type imm rs2 rs1 f3 op =
    shl32 (imm >> 12 &&& 1) 31
    ||| shl32 (imm >> 5 &&& 0x3f) 25
    ||| shl32 rs2 20
    ||| shl32 rs1 15
    ||| shl32 f3 12
    ||| shl32 (imm >> 1 &&& 0xf) 8
    ||| shl32 (imm >> 11 &&& 1) 7
    ||| op

unfoldable pub u_type : ℕ → ℕ → ℕ → ℕ
u_type imm20 rd op = shl32 (imm20 &&& 0xfffff) 12 ||| shl32 rd 7 ||| op

unfoldable pub j_type : ℕ → ℕ → ℕ → ℕ
j_type imm rd op =
    shl32 (imm >> 20 &&& 1) 31
    ||| shl32 (imm >> 1 &&& 0x3ff) 21
    ||| shl32 (imm >> 11 &&& 1) 20
    ||| shl32 (imm >> 12 &&& 0xff) 12
    ||| shl32 rd 7
    ||| op
