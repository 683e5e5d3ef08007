-- ===== src/Cpu/Bitmanip.antt =====
-- The instructions of Zba, Zbb, Zbs and Zbc (src/cpu.c, `exec_bitmanip_*`): `none` is the C's 0,
-- an instruction that is not recognised.
use quanta.Common.{ℕ, ◌+◌, ◌-◌, ◌==◌, ltb, ◌&&◌, ◌||◌, not, if◌then◌else◌, Option, none, some}
use quanta.Common.Word.{
  ◌|||◌, ◌^^^◌, ◌&&&◌, ◌>>◌, u32, u64, shl64, not64, clear64, slt64, sext8, sext16, sext32,
}
use quanta.Decode.{rd, funct3, funct7, rs1, rs2}
use quanta.Cpu.{Hart, reg_read, reg_write}
use quanta.Cpu.Scan.{
  bm_clz, bm_ctz, bm_cpop, bm_rol, bm_ror, bm_orcb, bm_rev8, bm_clmul128, bm_bits128,
}

-- The result of an instruction, to its destination.
unfoldable pub write_back : Hart → ℕ → Option ℕ → Option Hart
write_back cpu inst none = none
write_back cpu inst (some r) = some (reg_write cpu (rd inst) r)

-- `r` in `exec_bitmanip_op`, `none` where it returns 0.
unfoldable pub bitmanip_op : Hart → ℕ → Option ℕ
bitmanip_op cpu inst =
    let f7 = funct7 inst in
    let f3 = funct3 inst in
    let bits = cpu.xlen in
    let a = reg_read cpu (rs1 inst) in
    let b = reg_read cpu (rs2 inst) in
    let idx = u32 b &&& (bits - 1) in
    if f7 == 0x10
    then (if f3 == 0x2
        then some (u64 (shl64 a 1 + b))
        else if f3 == 0x4
        then some (u64 (shl64 a 2 + b))
        else if f3 == 0x6
        then some (u64 (shl64 a 3 + b))
        else none)
    else if f7 == 0x20
    then (if f3 == 0x7
        then some (a &&& not64 b)
        else if f3 == 0x6
        then some (a ||| not64 b)
        else if f3 == 0x4
        then some (not64 (a ^^^ b))
        else none)
    else if f7 == 0x30
    then (if f3 == 0x1
        then some (bm_rol a (u32 b) bits)
        else if f3 == 0x5
        then some (bm_ror a (u32 b) bits)
        else none)
    else if f7 == 0x05
    then (if f3 == 0x1
        then some (bm_bits128 (bm_clmul128 a b bits) 0 bits)
        else if f3 == 0x2
        then some (bm_bits128 (bm_clmul128 a b bits) (bits - 1) bits)
        else if f3 == 0x3
        then some (bm_bits128 (bm_clmul128 a b bits) bits bits)
        else if f3 == 0x4
        then some (if slt64 a b then a else b)
        else if f3 == 0x5
        then some (if ltb a b then a else b)
        else if f3 == 0x6
        then some (if slt64 a b then b else a)
        else if f3 == 0x7
        then some (if ltb a b then b else a)
        else none)
    else if f7 == 0x24
    then (if f3 == 0x1
        then some (clear64 a (shl64 1 idx))
        else if f3 == 0x5
        then some (a >> idx &&& 1)
        else none)
    else if f7 == 0x14
    then (if f3 == 0x1 then some (a ||| shl64 1 idx) else none)
    else if f7 == 0x34
    then (if f3 == 0x1 then some (a ^^^ shl64 1 idx) else none)
    else if f7 == 0x04
    then (if not (cpu.xlen == 32) || not (f3 == 0x4) || not (rs2 inst == 0)
        then none
        else some (a &&& 0xffff))
    else none

unfoldable pub exec_bitmanip_op : Hart → ℕ → Option Hart
exec_bitmanip_op cpu inst = write_back cpu inst (bitmanip_op cpu inst)

-- `r` in `exec_bitmanip_imm`.
unfoldable pub bitmanip_imm : Hart → ℕ → Option ℕ
bitmanip_imm cpu inst =
    let f3 = funct3 inst in
    let f7 = funct7 inst in
    let f6 = inst >> 26 &&& 0x3f in
    let rs2f = rs2 inst in
    let bits = cpu.xlen in
    let a = reg_read cpu (rs1 inst) in
    let shamt = inst >> 20 &&& (if bits == 64 then 0x3f else 0x1f) in
    if f3 == 0x1
    then (if f7 == 0x30
        then (if rs2f == 0x00
            then some (bm_clz a bits)
            else if rs2f == 0x01
            then some (bm_ctz a bits)
            else if rs2f == 0x02
            then some (bm_cpop a bits)
            else if rs2f == 0x04
            then some (sext8 a)
            else if rs2f == 0x05
            then some (sext16 a)
            else none)
        else if f6 == 0x12
        then some (clear64 a (shl64 1 shamt))
        else if f6 == 0x1a
        then some (a ^^^ shl64 1 shamt)
        else if f6 == 0x0a
        then some (a ||| shl64 1 shamt)
        else none)
    else if f3 == 0x5
    then (if f6 == 0x18
        then some (bm_ror a shamt bits)
        else if f6 == 0x12
        then some (a >> shamt &&& 1)
        else if f7 == 0x14 && rs2f == 0x07
        then some (bm_orcb a bits)
        else if (f7 == 0x34 || f7 == 0x35) && rs2f == 0x18
        then some (bm_rev8 a bits)
        else none)
    else none

unfoldable pub exec_bitmanip_imm : Hart → ℕ → Option Hart
exec_bitmanip_imm cpu inst = write_back cpu inst (bitmanip_imm cpu inst)

-- `r` in `exec_bitmanip_op32`.
unfoldable pub bitmanip_op32 : Hart → ℕ → Option ℕ
bitmanip_op32 cpu inst =
    let f7 = funct7 inst in
    let f3 = funct3 inst in
    let a = reg_read cpu (rs1 inst) in
    let b = reg_read cpu (rs2 inst) in
    let auw = a &&& 0xffffffff in
    if f7 == 0x04
    then (if f3 == 0x0
        then some (u64 (auw + b))
        else if f3 == 0x4 && rs2 inst == 0
        then some (a &&& 0xffff)
        else none)
    else if f7 == 0x10
    then (if f3 == 0x2
        then some (u64 (shl64 auw 1 + b))
        else if f3 == 0x4
        then some (u64 (shl64 auw 2 + b))
        else if f3 == 0x6
        then some (u64 (shl64 auw 3 + b))
        else none)
    else if f7 == 0x30
    then (if f3 == 0x1
        then some (sext32 (bm_rol a (u32 b) 32))
        else if f3 == 0x5
        then some (sext32 (bm_ror a (u32 b) 32))
        else none)
    else none

unfoldable pub exec_bitmanip_op32 : Hart → ℕ → Option Hart
exec_bitmanip_op32 cpu inst = write_back cpu inst (bitmanip_op32 cpu inst)

-- `r` in `exec_bitmanip_imm32`.
unfoldable pub bitmanip_imm32 : Hart → ℕ → Option ℕ
bitmanip_imm32 cpu inst =
    let f3 = funct3 inst in
    let f7 = funct7 inst in
    let f6 = inst >> 26 &&& 0x3f in
    let rs2f = rs2 inst in
    let a = reg_read cpu (rs1 inst) in
    let w = u32 a in
    if f3 == 0x1
    then (if f6 == 0x02
        then some (shl64 (a &&& 0xffffffff) (inst >> 20 &&& 0x3f))
        else if f7 == 0x30
        then (if rs2f == 0x00
            then some (bm_clz w 32)
            else if rs2f == 0x01
            then some (bm_ctz w 32)
            else if rs2f == 0x02
            then some (bm_cpop w 32)
            else none)
        else none)
    else if f3 == 0x5 && f7 == 0x30
    then some (sext32 (bm_ror a (inst >> 20 &&& 0x1f) 32))
    else none

unfoldable pub exec_bitmanip_imm32 : Hart → ℕ → Option Hart
exec_bitmanip_imm32 cpu inst = write_back cpu inst (bitmanip_imm32 cpu inst)
