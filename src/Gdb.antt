-- ===== src/Gdb.antt =====
-- The GDB stub of src/gdbstub.c: its state, and the machine that it drives as an interface.
pub mod Hex
pub mod Packet
pub mod Break
pub mod Reverse
pub mod Reply
pub mod RoundTrip
pub mod Framing
pub mod Replay
use quanta.Common.{ℕ, Bool, List, Option, none, some}

infixl 5 ◌>>=◌
abbrev pub ◌>>=◌ {ℓ κ} : {A : Type ℓ} {B : Type κ} → Option A → (A → Option B) → Option B
none >>= f = none
some a >>= f = f a

pub data Halt : Type 0 where
  running exited ebreak illegal_insn unimp_system unknown_syscall mem_fault step_limit : Halt

-- What src/quanta.h offers the stub: the machine's state is `M` and a snapshot is an `S`.
pub record Engine (M S : Type 0) : Type 0 where
  pub halt_reason : M → Halt
  pub step : M → M
  pub pc : M → ℕ
  pub set_pc : M → ℕ → M
  pub xlen : M → ℕ
  pub reg : M → ℕ → ℕ
  pub set_reg : M → ℕ → ℕ → M
  pub exit_code : M → ℕ
  pub snapshot : M → Option S
  pub restore : M → S → Option M

-- The debugger's socket: the bytes that will come until it closes, those that were written, and how
-- many writes it still takes.
pub record Link : Type 0 where
  pub input : List ℕ
  pub output : List ℕ
  pub writes : ℕ

pub record Checkpoint (S : Type 0) : Type 0 where
  pub at : ℕ
  pub snap : S

-- The first `ncp` checkpoints of the array are a list.
pub record Stub (M S : Type 0) : Type 0 where
  pub link : Link
  pub machine : M
  pub feat_swbreak : Bool
  pub dead : Bool
  pub want_quit : Bool
  pub bp : ℕ → ℕ
  pub bp_used : ℕ → Bool
  pub nsteps : ℕ
  pub reverse_used : Bool
  pub last_cp_step : ℕ
  pub cp : List (Checkpoint S)

abbrev pub max_bp : ℕ
max_bp = 128

abbrev pub max_cp : ℕ
max_cp = 33

abbrev pub cp_interval : ℕ
cp_interval = 4096

abbrev pub gdb_bufsz : ℕ
gdb_bufsz = 8192
