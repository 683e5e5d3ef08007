-- ===== src/Decode.antt =====
-- src/decode.h: instruction fields and immediates, which the executor and the pipeline model
-- share. An `int32_t` immediate is its 32-bit pattern. The opcode map and the CSR addresses are
-- the constants of the children `Op` and `Csr`.
pub mod Op
pub mod Csr
pub mod Fields
use quanta.Common.{ℕ, if◌then◌else◌}
use quanta.Common.Word.{◌|||◌, ◌&&&◌, ◌>>◌, shl32, asr32, test_bits}

unfoldable pub opcode : ℕ → ℕ
opcode inst = inst &&& 0x7f

unfoldable pub rd : ℕ → ℕ
rd inst = inst >> 7 &&& 0x1f

unfoldable pub funct3 : ℕ → ℕ
funct3 inst = inst >> 12 &&& 0x07

unfoldable pub rs1 : ℕ → ℕ
rs1 inst = inst >> 15 &&& 0x1f

unfoldable pub rs2 : ℕ → ℕ
rs2 inst = inst >> 20 &&& 0x1f

unfoldable pub funct7 : ℕ → ℕ
funct7 inst = inst >> 25 &&& 0x7f

unfoldable pub imm_i : ℕ → ℕ
imm_i inst = asr32 inst 20

unfoldable pub imm_s : ℕ → ℕ
imm_s inst =
    let imm = shl32 (inst >> 25 &&& 0x7f) 5 ||| (inst >> 7 &&& 0x1f) in
    if test_bits imm 0x800 then imm ||| 0xfffff000 else imm

unfoldable pub imm_b : ℕ → ℕ
imm_b inst =
    let imm =
      shl32 (inst >> 31 &&& 0x1) 12
      ||| shl32 (inst >> 7 &&& 0x1) 11
      ||| shl32 (inst >> 25 &&& 0x3f) 5
      ||| shl32 (inst >> 8 &&& 0xf) 1 in
    if test_bits imm 0x1000 then imm ||| 0xffffe000 else imm

unfoldable pub imm_u : ℕ → ℕ
imm_u inst = inst &&& 0xfffff000

unfoldable pub imm_j : ℕ → ℕ
imm_j inst =
    let imm =
      shl32 (inst >> 31 &&& 0x1) 20
      ||| shl32 (inst >> 12 &&& 0xff) 12
      ||| shl32 (inst >> 20 &&& 0x1) 11
      ||| shl32 (inst >> 21 &&& 0x3ff) 1 in
    if test_bits imm 0x100000 then imm ||| 0xffe00000 else imm
