-- ===== src/Cpu/Access.antt =====
-- The instructions of src/cpu.c that reach memory: LOAD, STORE, the floating-point loads and stores,
-- and the atomics, on a machine.
pub mod Reservation
use quanta.Common.{
  ℕ, ◌+◌, ◌-◌, ◌*◌, ◌^◌, ◌||◌, ◌&&◌, Bool, true, false, not, ◌==◌, ltb, if◌then◌else◌, Option, none,
  some,
}
use quanta.Common.Word.{
  ◌|||◌, ◌^^^◌, ◌&&&◌, ◌>>◌, u8, u16, u32, u64, shl64, clear64, sext8, sext16, sext32, slt32, slt64,
  test_bits, update,
}
use quanta.Cache.{cache_access}
use quanta.Decode.{rd, funct3, rs1, rs2, imm_i, imm_s}
use quanta.Decode.Csr.{mstatus}
use quanta.Cpu.{Hart, reg_read, reg_write}
use quanta.Cpu.Status.{mstatus_fs, cause_illegal_insn}
use quanta.Cpu.Trap.{raise_trap}
use quanta.Device.Platform.{Platform}
use quanta.Machine.{Machine, hart, set_cpu, set_mem}
use quanta.Memory.{
  Memory, mem_read8, mem_read16, mem_read32, mem_read64, mem_write8, mem_write16, mem_write32,
  mem_write64,
}
use quanta.Mmu.{
  AccessType, acc_load, acc_store, Outcome, Translation, page_fault, physical, mmu_translate,
}

-- A hart without its reservation of a word.
unfoldable pub unreserve : ℕ → Hart → Hart
unreserve word h =
    if h.reserve_valid && h.reserve_addr == word then record h { reserve_valid = false } else h

-- The sweep covers the siblings where the platform has more than one hart.
unfoldable pub siblings : Option Platform → ℕ
siblings none = 0
siblings (some p) = if p.has_harts && ltb 1 p.nharts then p.nharts else 0

unfoldable pub break_reservation : Machine → ℕ → Machine
break_reservation m addr =
    let word = clear64 addr 3 in
    let n = siblings m.mem.plat in
    if n == 0
    then set_cpu m (unreserve word (hart m))
    else record m { harts = λ i. if ltb i n then unreserve word (m.harts i) else m.harts i }

-- The state that a translation leaves.
abbrev pub translated : Machine → Outcome → Machine
translated m o = set_mem (set_cpu m o.cpu) o.mem

-- `if (cpu->cache) cache_access(...)`, whose address has 32 bits.
unfoldable pub observe : Machine → ℕ → Bool → Machine
observe m pa is_store = record m {
  cache = elim m.cache [ none ↦ none | some c ↦ some (cache_access c (u32 pa) is_store) ];
}

-- An access goes on at its physical address, or raises the page fault.
unfoldable pub at_physical : Machine → ℕ → Translation → (ℕ → Machine) → Machine
at_physical m va (page_fault cause) go = raise_trap m cause va
at_physical m va (physical pa) go = go pa

-- A read's value through a function.
abbrev pub cast_read : (ℕ → ℕ) → ℕ × Memory → ℕ × Memory
cast_read f got = (f got.0, got.1)

-- `result` in `exec_load`.
unfoldable pub load_value : ℕ → ℕ → Memory → ℕ → ℕ × Memory
load_value xlen f3 mem pa =
    if f3 == 0x0
    then cast_read sext8 (mem_read8 mem pa)
    else if f3 == 0x1
    then cast_read sext16 (mem_read16 mem pa)
    else if f3 == 0x2
    then cast_read sext32 (mem_read32 mem pa)
    else if f3 == 0x3
    then (if xlen == 64 then mem_read64 mem pa else (0, mem))
    else if f3 == 0x4
    then mem_read8 mem pa
    else if f3 == 0x5
    then mem_read16 mem pa
    else if f3 == 0x6
    then (if xlen == 64 then mem_read32 mem pa else (0, mem))
    else (0, mem)

unfoldable pub load_at : Machine → ℕ → ℕ → Machine
load_at m0 inst pa =
    let m = observe m0 pa false in
    let got = load_value (hart m).xlen (funct3 inst) m.mem pa in
    set_cpu (set_mem m got.1) (reg_write (hart m) (rd inst) got.0)

unfoldable pub exec_load : Machine → ℕ → Machine
exec_load m inst =
    let va = u64 (reg_read (hart m) (rs1 inst) + sext32 (imm_i inst)) in
    let o = mmu_translate (hart m) m.mem va acc_load in
    at_physical (translated m o) va o.result (load_at (translated m o) inst)

-- The switch of `exec_store`.
unfoldable pub store_value : ℕ → ℕ → Memory → ℕ → ℕ → Memory
store_value xlen f3 mem pa value =
    if f3 == 0x0
    then mem_write8 mem pa (u8 value)
    else if f3 == 0x1
    then mem_write16 mem pa (u16 value)
    else if f3 == 0x2
    then mem_write32 mem pa (u32 value)
    else if f3 == 0x3 && xlen == 64
    then mem_write64 mem pa value
    else mem

unfoldable pub store_at : Machine → ℕ → ℕ → ℕ → Machine
store_at m0 inst value pa =
    let m = observe (break_reservation m0 pa) pa true in
    set_mem m (store_value (hart m).xlen (funct3 inst) m.mem pa value)

unfoldable pub exec_store : Machine → ℕ → Machine
exec_store m inst =
    let va = u64 (reg_read (hart m) (rs1 inst) + sext32 (imm_s inst)) in
    let value = reg_read (hart m) (rs2 inst) in
    let o = mmu_translate (hart m) m.mem va acc_store in
    at_physical (translated m o) va o.result (store_at (translated m o) inst value)

-- `res` and `r` in `exec_amo`, `none` for an illegal operation.
unfoldable pub amo64 : ℕ → ℕ → ℕ → Option ℕ
amo64 op old b =
    if op == 0x01
    then some b
    else if op == 0x00
    then some (u64 (old + b))
    else if op == 0x04
    then some (old ^^^ b)
    else if op == 0x0c
    then some (old &&& b)
    else if op == 0x08
    then some (old ||| b)
    else if op == 0x10
    then some (if slt64 old b then old else b)
    else if op == 0x14
    then some (if slt64 b old then old else b)
    else if op == 0x18
    then some (if ltb old b then old else b)
    else if op == 0x1c
    then some (if ltb b old then old else b)
    else none

unfoldable pub amo32 : ℕ → ℕ → ℕ → Option ℕ
amo32 op old b =
    if op == 0x01
    then some b
    else if op == 0x00
    then some (u32 (old + b))
    else if op == 0x04
    then some (old ^^^ b)
    else if op == 0x0c
    then some (old &&& b)
    else if op == 0x08
    then some (old ||| b)
    else if op == 0x10
    then some (if slt32 old b then old else b)
    else if op == 0x14
    then some (if slt32 b old then old else b)
    else if op == 0x18
    then some (if ltb old b then old else b)
    else if op == 0x1c
    then some (if ltb b old then old else b)
    else none

-- The read and the write of a width.
unfoldable pub amo_read : Bool → Memory → ℕ → ℕ × Memory
amo_read is_d mem addr = if is_d then mem_read64 mem addr else mem_read32 mem addr

unfoldable pub amo_write : Bool → Memory → ℕ → ℕ → Memory
amo_write is_d mem addr value =
    if is_d then mem_write64 mem addr value else mem_write32 mem addr (u32 value)

-- The old value as `rd` gets it.
abbrev pub amo_result : Bool → ℕ → ℕ
amo_result is_d old = if is_d then old else sext32 old

-- LR.
unfoldable pub load_reserved : Machine → ℕ → Bool → ℕ → Machine
load_reserved m inst is_d addr =
    let got = amo_read is_d m.mem addr in
    let cpu = hart m in
    let reserved = record cpu { reserve_valid = true; reserve_addr = addr } in
    if got.1.fault
    then set_mem m got.1
    else set_cpu (set_mem m got.1) (reg_write reserved (rd inst) (amo_result is_d got.0))

-- The end of SC: the hart's own reservation goes, and `rd` tells whether the store failed.
unfoldable pub sc_done : Machine → ℕ → Bool → Machine
sc_done m inst fail =
    let cpu = hart m in
    set_cpu m (reg_write record cpu { reserve_valid = false } (rd inst) (if fail then 1 else 0))

-- SC.
unfoldable pub store_conditional : Machine → ℕ → Bool → ℕ → Machine
store_conditional m inst is_d addr =
    let cpu = hart m in
    let stored = set_mem m (amo_write is_d m.mem addr (reg_read cpu (rs2 inst))) in
    if not (cpu.reserve_valid && cpu.reserve_addr == addr)
    then sc_done m inst true
    else if stored.mem.fault
    then stored
    else sc_done (break_reservation stored addr) inst false

-- The write back of an atomic operation.
unfoldable pub amo_commit : Machine → ℕ → Bool → ℕ → ℕ → Option ℕ → Machine
amo_commit m inst is_d addr old none = raise_trap m cause_illegal_insn inst
amo_commit m inst is_d addr old (some value) =
    let stored = set_mem m (amo_write is_d m.mem addr value) in
    let broken = break_reservation stored addr in
    if stored.mem.fault
    then stored
    else set_cpu broken (reg_write (hart broken) (rd inst) (amo_result is_d old))

unfoldable pub amo_operate : Machine → ℕ → Bool → ℕ → Machine
amo_operate m inst is_d addr =
    let b = reg_read (hart m) (rs2 inst) in
    let got = amo_read is_d m.mem addr in
    let op = inst >> 27 in
    if got.1.fault
    then set_mem m got.1
    else amo_commit (set_mem m got.1) inst is_d addr got.0
        (if is_d then amo64 op got.0 b else amo32 op got.0 (u32 b))

unfoldable pub amo_at : Machine → ℕ → Bool → ℕ → Machine
amo_at m0 inst is_d addr =
    let m = observe m0 addr true in
    let op = inst >> 27 in
    if op == 0x02
    then load_reserved m inst is_d addr
    else if op == 0x03
    then store_conditional m inst is_d addr
    else amo_operate m inst is_d addr

unfoldable pub exec_amo : Machine → ℕ → Machine
exec_amo m inst =
    let f3 = funct3 inst in
    let is_d = f3 == 0x3 in
    let op = inst >> 27 in
    let va = reg_read (hart m) (rs1 inst) in
    let o = mmu_translate (hart m) m.mem va (if op == 0x02 then acc_load else acc_store) in
    if not (f3 == 0x2) && not (is_d && (hart m).xlen == 64)
    then raise_trap m cause_illegal_insn inst
    else if test_bits va (if is_d then 0x7 else 0x3)
    then raise_trap m (if op == 0x02 then 4 else 6) va
    else at_physical (translated m o) va o.result (amo_at (translated m o) inst is_d)

-- The float registers.
unfoldable pub mark_fs_dirty : Hart → Hart
mark_fs_dirty cpu = record cpu {
  csr = update cpu.csr mstatus (cpu.csr mstatus ||| mstatus_fs ||| shl64 1 (cpu.xlen - 1));
}

-- The NaN that an unboxed single reads as, of src/softfloat.h.
abbrev pub f32_qnan : ℕ
f32_qnan = 0x7fc00000

unfoldable pub fread_s : Hart → ℕ → ℕ
fread_s cpu i = let v = cpu.fregs i in if v >> 32 == 0xffffffff then u32 v else f32_qnan

unfoldable pub fwrite_d : Hart → ℕ → ℕ → Hart
fwrite_d cpu i v = mark_fs_dirty record cpu { fregs = update cpu.fregs i v }

unfoldable pub fwrite_s : Hart → ℕ → ℕ → Hart
fwrite_s cpu i v = fwrite_d cpu i (0xffffffff00000000 ||| v)

-- A float register gets a read's value.
abbrev pub load_float : Machine → (Hart → ℕ → ℕ → Hart) → ℕ → ℕ × Memory → Machine
load_float m write inst got = set_cpu (set_mem m got.1) (write (hart m) (rd inst) got.0)

unfoldable pub load_fp_at : Machine → ℕ → ℕ → Machine
load_fp_at m0 inst pa =
    let m = observe m0 pa false in
    let f3 = funct3 inst in
    if f3 == 0x2
    then load_float m fwrite_s inst (mem_read32 m.mem pa)
    else if f3 == 0x3
    then load_float m fwrite_d inst (mem_read64 m.mem pa)
    else raise_trap m cause_illegal_insn inst

unfoldable pub exec_load_fp : Machine → ℕ → Machine
exec_load_fp m inst =
    let va = u64 (reg_read (hart m) (rs1 inst) + sext32 (imm_i inst)) in
    let o = mmu_translate (hart m) m.mem va acc_load in
    at_physical (translated m o) va o.result (load_fp_at (translated m o) inst)

unfoldable pub store_fp_at : Machine → ℕ → ℕ → Machine
store_fp_at m0 inst pa =
    let m = observe (break_reservation m0 pa) pa true in
    let f3 = funct3 inst in
    let value = (hart m).fregs (rs2 inst) in
    if f3 == 0x2
    then set_mem m (mem_write32 m.mem pa (u32 value))
    else if f3 == 0x3
    then set_mem m (mem_write64 m.mem pa value)
    else raise_trap m cause_illegal_insn inst

unfoldable pub exec_store_fp : Machine → ℕ → Machine
exec_store_fp m inst =
    let va = u64 (reg_read (hart m) (rs1 inst) + sext32 (imm_s inst)) in
    let o = mmu_translate (hart m) m.mem va acc_store in
    at_physical (translated m o) va o.result (store_fp_at (translated m o) inst)
