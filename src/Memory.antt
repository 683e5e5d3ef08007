-- ===== src/Memory.antt =====
-- src/memory.c: the guest memory, with its fault flag and the devices mapped into it.
pub mod Range
use quanta.Common.{
  ℕ, zero, ◌+◌, ◌-◌, ◌<◌, ◌||◌, Bool, true, false, ltb, leb, ◌&&◌, if◌then◌else◌, Option, none,
  some,
}
use quanta.Common.Word.{◌|||◌, ◌<<◌, ◌>>◌, u8, u16, u32, u64}
use quanta.Ram.{Ram, load16, load32, load64, store8, store16, store32, store64}
use quanta.Device.Platform.{Platform, plat_contains, plat_read, plat_write}

pub record Memory : Type 0 where
  pub ram : Ram
  pub fault : Bool
  pub fault_addr : ℕ
  pub plat : Option Platform

-- The index of an access, `none` where it is out of range.
unfoldable pub index_of : Ram → ℕ → ℕ → Option ℕ
index_of ram addr width =
    if ltb addr ram.base || ltb ram.size width
    then none
    else if ltb (ram.size - width) (addr - ram.base)
    then none
    else some (addr - ram.base)

-- `translate`, with the flag that a failure sets.
abbrev pub flag : Memory → ℕ → Memory
flag mem addr = record mem { fault = true; fault_addr = addr }

-- `mem_init`; `allocated` says whether `calloc` gave the bytes.
unfoldable pub mem_init : ℕ → ℕ → Bool → Option Memory
mem_init base size allocated =
    if allocated
    then some record {
      ram = record { bytes = λ _. 0; base = base; size = size };
      fault = false;
      fault_addr = 0;
      plat = none;
    }
    else none

-- The device that an access reaches, if there is a platform and the address lies in a window.
unfoldable pub device_at : Memory → ℕ → Option Platform
device_at mem addr = if plat_contains addr then mem.plat else none

abbrev pub with_plat : Memory → Platform → Memory
with_plat mem p = record mem { plat = some p }

-- An access to RAM of some width: `load` reads at an index.
unfoldable pub ram_read : Memory → ℕ → ((ℕ → ℕ) → ℕ → ℕ) → Option ℕ → ℕ × Memory
ram_read mem addr load none = (0, flag mem addr)
ram_read mem addr load (some i) = (load mem.ram.bytes i, mem)

-- An access of up to a word: `size` bytes of the device, or of the RAM.
unfoldable pub read_at : Memory → ℕ → ℕ → ((ℕ → ℕ) → ℕ → ℕ) → (ℕ → ℕ) → Option Platform → ℕ × Memory
read_at mem addr size load cast none = ram_read mem addr load (index_of mem.ram addr size)
read_at mem addr size load cast (some p) =
    let got = plat_read p addr size in (cast got.0, with_plat mem got.1)

unfoldable pub mem_read32 : Memory → ℕ → ℕ × Memory
mem_read32 mem addr = read_at mem addr 4 load32 (λ v. v) (device_at mem addr)

unfoldable pub mem_read16 : Memory → ℕ → ℕ × Memory
mem_read16 mem addr = read_at mem addr 2 load16 u16 (device_at mem addr)

unfoldable pub mem_read8 : Memory → ℕ → ℕ × Memory
mem_read8 mem addr = read_at mem addr 1 (λ d i. d i) u8 (device_at mem addr)

-- A doubleword is two reads of the device, the low one first.
unfoldable pub read64_at : Memory → ℕ → Option Platform → ℕ × Memory
read64_at mem addr none = ram_read mem addr load64 (index_of mem.ram addr 8)
read64_at mem addr (some p) =
    let low = plat_read p addr 4 in
    let high = plat_read low.1 (u64 (addr + 4)) 4 in (low.0 ||| high.0 << 32, with_plat mem high.1)

unfoldable pub mem_read64 : Memory → ℕ → ℕ × Memory
mem_read64 mem addr = read64_at mem addr (device_at mem addr)

abbrev pub with_bytes : Memory → (ℕ → ℕ) → Memory
with_bytes mem bytes = record mem { ram = record (mem.ram) { bytes = bytes } }

unfoldable pub ram_write : Memory → ℕ → ((ℕ → ℕ) → ℕ → ℕ → ℕ → ℕ) → ℕ → Option ℕ → Memory
ram_write mem addr store value none = flag mem addr
ram_write mem addr store value (some i) = with_bytes mem (store mem.ram.bytes i value)

-- A write to a device, with its effect on the RAM.
abbrev pub device_write : Memory → Platform → ℕ → ℕ → Memory
device_write mem p addr value =
    let after = plat_write mem.ram p addr value in with_plat (with_bytes mem after.0) after.1

unfoldable pub write_at : Memory → ℕ → ℕ → ((ℕ → ℕ) → ℕ → ℕ → ℕ → ℕ) → ℕ → Option Platform → Memory
write_at mem addr size store value none =
    ram_write mem addr store value (index_of mem.ram addr size)
write_at mem addr size store value (some p) = device_write mem p addr value

unfoldable pub mem_write32 : Memory → ℕ → ℕ → Memory
mem_write32 mem addr value = write_at mem addr 4 store32 value (device_at mem addr)

unfoldable pub mem_write16 : Memory → ℕ → ℕ → Memory
mem_write16 mem addr value = write_at mem addr 2 store16 value (device_at mem addr)

unfoldable pub mem_write8 : Memory → ℕ → ℕ → Memory
mem_write8 mem addr value = write_at mem addr 1 store8 value (device_at mem addr)

-- The high word of a doubleword goes to the platform that the low one leaves.
unfoldable pub write_high : Memory → ℕ → ℕ → Option Platform → Memory
write_high mem addr value none = mem
write_high mem addr value (some p) = device_write mem p addr value

unfoldable pub write64_at : Memory → ℕ → ℕ → Option Platform → Memory
write64_at mem addr value none = ram_write mem addr store64 value (index_of mem.ram addr 8)
write64_at mem addr value (some p) =
    let low = device_write mem p addr (u32 value) in
    write_high low (u64 (addr + 4)) (u32 (value >> 32)) low.plat

unfoldable pub mem_write64 : Memory → ℕ → ℕ → Memory
mem_write64 mem addr value = write64_at mem addr value (device_at mem addr)

-- `mem_load`: the image's bytes, or -1, which is `false`.
unfoldable pub load_at : Memory → ℕ → (ℕ → ℕ) → ℕ → Option ℕ → Bool × Memory
load_at mem addr source len none = (false, flag mem addr)
load_at mem addr source len (some i) = (
  true,
  with_bytes mem (λ k. if leb i k && ltb k (i + len) then source (k - i) else mem.ram.bytes k),
)

unfoldable pub mem_load : Memory → ℕ → (ℕ → ℕ) → ℕ → Bool × Memory
mem_load mem addr source len = load_at mem addr source len (index_of mem.ram addr len)
