-- ===== src/Cpu/Step.antt =====
-- One step of src/cpu.c: the prologue, the fetch through the decode cache, the dispatch on the
-- opcode, and the end that commits the PC. OP-FP and the fused multiply-adds are the operations of
-- the interface `Fpu`.
pub mod Commit
use quanta.Common.{
  ℕ, ◌+◌, ◌-◌, ◌*◌, ◌^◌, ◌||◌, ◌&&◌, Bool, true, false, not, ◌==◌, ltb, if◌then◌else◌, Option, none,
  some,
}
use quanta.Common.Word.{◌|||◌, ◌&&&◌, ◌<<◌, ◌>>◌, u32, u64, clear64, sext32, test_bits, update}
use quanta.Decode.{opcode, rd, funct3, rs1, imm_i, imm_u, imm_j}
use quanta.Decode.Op
use quanta.Cpu.{Hart, exit, reg_read, reg_write, sext_xlen}
use quanta.Cpu.Alu.{exec_op_imm, exec_op, exec_op_imm32, exec_op32, exec_branch}
use quanta.Cpu.Access.{exec_load, exec_store, exec_amo, exec_load_fp, exec_store_fp, translated}
use quanta.Cpu.Control.{exec_system, alu_outcome}
use quanta.Cpu.Interrupt.{firmware_timer_tick, sstc_tick, take_interrupt}
use quanta.Cpu.Status.{cause_illegal_insn}
use quanta.Cpu.Trap.{raise_trap}
use quanta.Device.Platform.{Platform, mip_bits, plat_contains}
use quanta.Machine.{Machine, DecodeCache, DecodedInsn, hart, set_cpu, set_mem}
use quanta.Memory.{Memory, mem_read16}
use quanta.Mmu.{Translation, page_fault, physical, acc_fetch, mmu_translate}
use quanta.Rvc.{illegal, rvc_expand}

pub record Fpu : Type 0 where
  pub exec_fp : Machine → ℕ → Machine
  -- With the two sign flips.
  pub exec_fmadd : Machine → ℕ → Bool → Bool → Machine

-- The interrupt lines of the running hart, `none` without a platform.
unfoldable pub devices : Option Platform → ℕ → Option ℕ
devices none hartid = none
devices (some p) hartid = some (mip_bits p hartid)

-- The prologue on a platform.
unfoldable pub pre_step_on : Machine → Platform → Bool × Machine
pre_step_on m p =
    let cpu = hart m in
    let bits = mip_bits p cpu.hartid in
    let taken = take_interrupt (some bits) (sstc_tick (firmware_timer_tick bits cpu)) in
    if p.poweroff
    then (
      true,
      set_cpu m (record cpu { exit_code = p.poweroff_code; halt_reason = exit; halted = true }),
    )
    else (taken.0, set_cpu m taken.1)

unfoldable pub pre_step : Machine → Option Platform → Bool × Machine
pre_step m none = (false, m)
pre_step m (some p) = pre_step_on m p

unfoldable pub cpu_pre_step : Machine → Bool × Machine
cpu_pre_step m = pre_step m m.mem.plat

-- `DC_INDEX`.
abbrev pub dc_index : ℕ → ℕ
dc_index pa = pa >> 1 &&& 0xffff

-- The slot that a physical address hits.
unfoldable pub dcache_hit : Option DecodeCache → ℕ → Option DecodedInsn
dcache_hit none pa = none
dcache_hit (some dc) pa =
    let slot = dc.slots (dc_index pa) in
    if slot.gen == dc.gen && slot.pa == pa then some slot else none

unfoldable pub dcache_flush : Option DecodeCache → Option DecodeCache
dcache_flush none = none
dcache_flush (some dc) = some (record dc { gen = u64 (dc.gen + 1) })

unfoldable pub dcache_fill : Option DecodeCache → ℕ → ℕ → ℕ → Option DecodeCache
dcache_fill none pa inst ilen = none
dcache_fill (some dc) pa inst ilen = some record dc {
  slots = update dc.slots (dc_index pa) record { gen = dc.gen; pa = pa; inst = inst; ilen = ilen };
}

-- A fetch: an instruction and its length, or a trap that it raised.
pub data Fetched : Type 0 where
  fetched : ℕ → ℕ → Machine → Fetched
  faulted : Machine → Fetched

-- A device window is not cached.
unfoldable pub on_device : Machine → ℕ → Bool
on_device m pa = elim m.mem.plat [ none ↦ false | some p ↦ plat_contains pa ]

unfoldable pub remember : Machine → ℕ → ℕ → ℕ → Bool → Fetched
remember m pa inst ilen cacheable = fetched inst ilen (
    if cacheable && not (on_device m pa)
    then record m { dcaches = update m.dcaches m.cur (dcache_fill (m.dcaches m.cur) pa inst ilen) }
    else m)

-- The upper half of a 32-bit instruction.
unfoldable pub fetch_high : Machine → ℕ → ℕ → Translation → Fetched
fetch_high m lo_pa lo (page_fault cause) = faulted (raise_trap m cause (u64 ((hart m).pc + 2)))
fetch_high m lo_pa lo (physical hi_pa) =
    let got = mem_read16 m.mem hi_pa in
    let after = set_mem m got.1 in
    if got.1.fault
    then faulted (raise_trap after 1 (u64 ((hart m).pc + 2)))
    else remember after lo_pa (lo ||| got.0 << 16) 4 (not (on_device after hi_pa))

-- A miss.
unfoldable pub fetch_miss : Machine → ℕ → Fetched
fetch_miss m0 lo_pa =
    let got = mem_read16 m0.mem lo_pa in
    let m = set_mem m0 got.1 in
    let cpu = hart m in
    let lo = got.0 in
    let inst = rvc_expand lo (cpu.xlen == 64) in
    let o = mmu_translate cpu m.mem (u64 (cpu.pc + 2)) acc_fetch in
    if m.mem.fault
    then faulted (raise_trap m 1 cpu.pc)
    else if not (lo &&& 3 == 3)
    then (if inst == illegal
        then faulted (raise_trap m cause_illegal_insn lo)
        else remember m lo_pa inst 2 true)
    else fetch_high (translated m o) lo_pa lo o.result

unfoldable pub fetch_slot : Machine → ℕ → Option DecodedInsn → Fetched
fetch_slot m pa none = fetch_miss m pa
fetch_slot m pa (some slot) = fetched slot.inst slot.ilen m

unfoldable pub fetch_at : Machine → Translation → Fetched
fetch_at m (page_fault cause) = faulted (raise_trap m cause (hart m).pc)
fetch_at m (physical pa) = fetch_slot m pa (dcache_hit (m.dcaches m.cur) pa)

unfoldable pub fetch : Machine → Fetched
fetch m =
    let o = mmu_translate (hart m) m.mem (hart m).pc acc_fetch in fetch_at (translated m o) o.result

-- The cases of the dispatch that fall through to the next instruction.
abbrev pub fall : Machine → ℕ → Machine → ℕ × Machine
fall m ilen after = (u64 ((hart m).pc + ilen), after)

-- The running hart's `rd` gets a value.
abbrev pub put_rd : Machine → ℕ → ℕ → Machine
put_rd m inst value = set_cpu m (reg_write (hart m) (rd inst) value)

-- FENCE.I flushes the decode cache.
unfoldable pub exec_fence : Machine → ℕ → Machine
exec_fence m inst =
    if funct3 inst == 0x1
    then record m { dcaches = update m.dcaches m.cur (dcache_flush (m.dcaches m.cur)) }
    else m

-- The dispatch, with the next PC.
unfoldable pub dispatch : Fpu → Machine → ℕ → ℕ → ℕ × Machine
dispatch fpu m inst ilen =
    let op = opcode inst in
    let cpu = hart m in
    let link = u64 (cpu.pc + ilen) in
    if op == Op.imm
    then fall m ilen (set_cpu m (exec_op_imm cpu inst))
    else if op == Op.imm_32
    then fall m ilen (alu_outcome m inst (exec_op_imm32 cpu inst))
    else if op == Op.reg
    then fall m ilen (set_cpu m (exec_op cpu inst))
    else if op == Op.reg_32
    then fall m ilen (alu_outcome m inst (exec_op32 cpu inst))
    else if op == Op.lui
    then fall m ilen (put_rd m inst (sext32 (imm_u inst)))
    else if op == Op.auipc
    then fall m ilen (put_rd m inst (u64 (cpu.pc + sext32 (imm_u inst))))
    else if op == Op.jal
    then (u64 (cpu.pc + sext32 (imm_j inst)), put_rd m inst link)
    else if op == Op.jalr
    then (clear64 (u64 (reg_read cpu (rs1 inst) + sext32 (imm_i inst))) 1, put_rd m inst link)
    else if op == Op.branch
    then (exec_branch cpu inst ilen, m)
    else if op == Op.load
    then fall m ilen (exec_load m inst)
    else if op == Op.store
    then fall m ilen (exec_store m inst)
    else if op == Op.amo
    then fall m ilen (exec_amo m inst)
    else if op == Op.load_fp
    then fall m ilen (exec_load_fp m inst)
    else if op == Op.store_fp
    then fall m ilen (exec_store_fp m inst)
    else if op == Op.fp
    then fall m ilen (fpu.exec_fp m inst)
    else if op == Op.madd
    then fall m ilen (fpu.exec_fmadd m inst false false)
    else if op == Op.msub
    then fall m ilen (fpu.exec_fmadd m inst false true)
    else if op == Op.nmsub
    then fall m ilen (fpu.exec_fmadd m inst true false)
    else if op == Op.nmadd
    then fall m ilen (fpu.exec_fmadd m inst true true)
    else if op == Op.fence
    then fall m ilen (exec_fence m inst)
    else if op == Op.system
    then exec_system (devices m.mem.plat cpu.hartid) m inst
    else fall m ilen (raise_trap m cause_illegal_insn inst)

-- The cause of an access outside the memory.
unfoldable pub access_cause : ℕ → ℕ
access_cause inst =
    let op = opcode inst in if op == Op.store || op == Op.amo || op == Op.store_fp then 7 else 5

-- The end of a step.
unfoldable pub commit : ℕ → ℕ × Machine → Machine
commit inst (next_pc, m) =
    let cpu = hart m in
    if m.mem.fault
    then raise_trap m (access_cause inst) m.mem.fault_addr
    else if cpu.trapped
    then m
    else if cpu.halted
    then m
    else if test_bits next_pc 1
    then raise_trap m 0 next_pc
    else set_cpu m (record cpu { instret = u64 (cpu.instret + 1); pc = sext_xlen cpu next_pc })

unfoldable pub execute : Fpu → Fetched → Machine
execute fpu (faulted m) = m
execute fpu (fetched inst ilen m) = commit inst (dispatch fpu m inst ilen)

-- The flags that a step clears.
unfoldable pub begin_step : Machine → Machine
begin_step m =
    let mem = m.mem in
    let cpu = hart m in
    set_mem (set_cpu m (record cpu { trapped = false })) (record mem { fault = false })

unfoldable pub cpu_step : Fpu → Machine → Machine
cpu_step fpu m =
    let pre = cpu_pre_step (begin_step m) in if pre.0 then pre.1 else execute fpu (fetch pre.1)
