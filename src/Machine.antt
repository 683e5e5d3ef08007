-- ===== src/Machine.antt =====
-- The harts with what they share: the guest memory, the cache model, and the host's console. The
-- `CPU *` of the C code is the index `cur` of the running hart, and a sibling is another index.
use quanta.Common.{ℕ, ◌≡◌, refl, ==_refl, Option, List, ◌∷◌}
use quanta.Common.Word.{update}
use quanta.Cache.{Cache}
use quanta.Cpu.{Hart}
use quanta.Memory.{Memory}

-- A slot of src/decodecache.h, and the table.
pub record DecodedInsn : Type 0 where
  pub gen : ℕ
  pub pa : ℕ
  pub inst : ℕ
  pub ilen : ℕ

pub record DecodeCache : Type 0 where
  pub gen : ℕ
  pub slots : ℕ → DecodedInsn

-- `dcaches` are the decode caches of the harts, `none` for a NULL pointer. `console` are the bytes
-- that the host's streams got, with the stream's number, the latest first.
pub record Machine : Type 0 where
  pub harts : ℕ → Hart
  pub cur : ℕ
  pub mem : Memory
  pub cache : Option Cache
  pub dcaches : ℕ → Option DecodeCache
  pub console : List (ℕ × ℕ)

-- The running hart.
abbrev pub hart : Machine → Hart
hart m = m.harts m.cur

abbrev pub set_hart : Machine → ℕ → Hart → Machine
set_hart m i h = record m { harts = update m.harts i h }

abbrev pub set_cpu : Machine → Hart → Machine
set_cpu m h = set_hart m m.cur h

abbrev pub set_mem : Machine → Memory → Machine
set_mem m mem = record m { mem = mem }

abbrev pub put_console : Machine → ℕ → ℕ → Machine
put_console m stream byte = record m { console = (stream, byte) ∷ m.console }

-- The running hart after it was replaced.
pub hart-set_cpu : (m : Machine) (h : Hart) → hart (set_cpu m h) ≡ h
hart-set_cpu m h = rw (==_refl m.cur) refl
