-- ===== src/Pipeline.antt =====
-- src/pipeline.c: the 5-stage timing overlay, which watches the retired instructions and charges
-- stall cycles. The counters are `uint64_t` and wrap.
pub mod Trace
pub mod Hazards
use quanta.Common.{ℕ, ◌+◌, Bool, true, false, ◌&&◌, ◌||◌, ◌==◌, if◌then◌else◌, ltb, nonzero}
use quanta.Common.Word.{u64}
use quanta.Decode.{opcode, rd, rs1, rs2}
use quanta.Decode.Op

pub record Pipeline : Type 0 where
  pub instrs : ℕ
  pub load_use_stalls : ℕ
  pub control_events : ℕ
  pub control_cycles : ℕ
  pub prev_load_rd : ℕ

-- Does the instruction read the register `r`?
unfoldable pub reads_reg : ℕ → ℕ → Bool
reads_reg inst r =
    let op = opcode inst in
    let uses_rs1 =
      op == Op.imm
      || op == Op.reg
      || op == Op.load
      || op == Op.store
      || op == Op.branch
      || op == Op.jalr in
    let uses_rs2 = op == Op.reg || op == Op.store || op == Op.branch in
    if r == 0
    then false
    else if uses_rs1 && rs1 inst == r
    then true
    else if uses_rs2 && rs2 inst == r
    then true
    else false

unfoldable pub pipeline_init : Pipeline
pipeline_init = record {
  instrs = 0;
  load_use_stalls = 0;
  control_events = 0;
  control_cycles = 0;
  prev_load_rd = 0;
}

unfoldable pub pipeline_observe : Pipeline → ℕ → Bool → Pipeline
pipeline_observe p inst redirected =
    let stalled = nonzero p.prev_load_rd && reads_reg inst p.prev_load_rd in
    let pen = if opcode inst == Op.jal then 1 else 2 in
    record {
      instrs = u64 (p.instrs + 1);
      load_use_stalls = if stalled then u64 (p.load_use_stalls + 1) else p.load_use_stalls;
      control_events = if redirected then u64 (p.control_events + 1) else p.control_events;
      control_cycles = if redirected then u64 (p.control_cycles + pen) else p.control_cycles;
      prev_load_rd = if opcode inst == Op.load then rd inst else 0;
    }

-- The cycle count that `pipeline_report` prints; the fill is `PIPELINE_DEPTH - 1`.
unfoldable pub pipeline_cycles : Pipeline → ℕ
pipeline_cycles p =
    let fill = if ltb 0 p.instrs then 4 else 0 in
    u64 (p.instrs + fill + p.load_use_stalls + p.control_cycles)
