-- ===== src/Elf.antt =====
-- src/elf.c: the loader of an ELF executable. The file, which the host reads, is an argument.
pub mod Fit
use quanta.Common.{
  ℕ, zero, suc, ◌+◌, ◌-◌, ◌*◌, ◌^◌, ◌||◌, ◌&&◌, Bool, true, false, not, ◌==◌, ltb, leb,
  if◌then◌else◌, Option, none, some,
}
use quanta.Common.Word.{◌|||◌, ◌<<◌, u64, sub64}
use quanta.Ram.{load16, load32}
use quanta.Memory.{Memory, mem_init, mem_load}

-- The buffer with a file. A byte at an index past `len` is what the host has there.
pub record File : Type 0 where
  pub bytes : ℕ → ℕ
  pub len : ℕ

unfoldable pub rd_u64 : (ℕ → ℕ) → ℕ → ℕ
rd_u64 bytes p = load32 bytes p ||| load32 bytes (p + 4) << 32

-- `check_header`: whether the file is ELF64, `none` for one that cannot run.
unfoldable pub check_header : File → Option Bool
check_header f =
    let b = f.bytes in
    let is64 = b 4 == 2 in
    if ltb f.len 52
    then none
    else if not (b 0 == 0x7f) || not (b 1 == 0x45) || not (b 2 == 0x4c) || not (b 3 == 0x46)
    then none
    else if not (b 4 == 1) && not is64
    then none
    else if is64 && ltb f.len 64
    then none
    else if not (b 5 == 1)
    then none
    else if not (load16 b 16 == 2)
    then none
    else if not (load16 b 18 == 243)
    then none
    else some is64

-- The bounds on the guest memory and the stack's headroom.
abbrev pub elf_mem_max : ℕ
elf_mem_max = 256 * 1024 * 1024

abbrev pub guest_stack_size : ℕ
guest_stack_size = 64 * 1024

pub record Phdr : Type 0 where
  pub offset : ℕ
  pub vaddr : ℕ
  pub filesz : ℕ
  pub memsz : ℕ

unfoldable pub read_phdr : (ℕ → ℕ) → ℕ → Bool → Phdr
read_phdr b p is64 =
    if is64
    then record {
      offset = rd_u64 b (p + 8);
      vaddr = rd_u64 b (p + 16);
      filesz = rd_u64 b (p + 32);
      memsz = rd_u64 b (p + 40);
    }
    else record {
      offset = load32 b (p + 4);
      vaddr = load32 b (p + 8);
      filesz = load32 b (p + 16);
      memsz = load32 b (p + 20);
    }

-- The shape of the program-header table.
pub record Table : Type 0 where
  pub phoff : ℕ
  pub phentsize : ℕ
  pub phnum : ℕ
  pub phsize_min : ℕ

unfoldable pub table_of : File → Bool → Table
table_of f is64 =
    let b = f.bytes in
    if is64
    then record {
      phoff = rd_u64 b 32;
      phentsize = load16 b 54;
      phnum = load16 b 56;
      phsize_min = 56;
    }
    else record {
      phoff = load32 b 28;
      phentsize = load16 b 42;
      phnum = load16 b 44;
      phsize_min = 32;
    }

-- The addresses that the segments cover.
pub record Extent : Type 0 where
  pub lo : ℕ
  pub hi : ℕ
  pub loaded : ℕ

abbrev pub entry_at : Table → ℕ → ℕ
entry_at t i = u64 (t.phoff + i * t.phentsize)

-- One segment of pass 1.
unfoldable pub measure_segment : File → Phdr → Extent → Option Extent
measure_segment f h e =
    let top = u64 (h.vaddr + h.memsz) in
    if ltb f.len h.offset || ltb (sub64 f.len h.offset) h.filesz
    then none
    else if ltb h.memsz h.filesz
    then none
    else some record {
      lo = if ltb h.vaddr e.lo then h.vaddr else e.lo;
      hi = if ltb e.hi top then top else e.hi;
      loaded = e.loaded + 1;
    }

unfoldable pub measure_entry : File → Bool → Table → ℕ → Extent → Option Extent
measure_entry f is64 t ph e =
    if ltb f.len (u64 (ph + t.phsize_min))
    then none
    else if not (load32 f.bytes ph == 1)
    then some e
    else measure_segment f (read_phdr f.bytes ph is64) e

-- A step on a result that there is.
unfoldable pub and_then {ℓ} : {A B : Type ℓ} → Option A → (A → Option B) → Option B
and_then none go = none
and_then (some a) go = go a

-- Pass 1 from an entry on, with the entries left.
unfoldable pub measure : File → Bool → Table → ℕ → ℕ → Extent → Option Extent
measure f is64 t zero i e = some e
measure f is64 t (suc left) i e =
    and_then (measure_entry f is64 t (entry_at t i) e) (λ next. measure f is64 t left (i + 1) next)

-- The size of the guest memory, `none` where the image does not fit.
unfoldable pub region : Extent → ℕ → Option ℕ
region e min_size =
    let image = sub64 e.hi e.lo in
    let least = image + guest_stack_size in
    let span = if ltb least min_size then min_size else least in
    if e.loaded == 0
    then none
    else if ltb 0x100000000 e.hi
    then none
    else if image == 0 || ltb elf_mem_max image
    then none
    else if ltb elf_mem_max span || ltb 0x100000000 (u64 (e.lo + span))
    then none
    else some span

-- The copy of a segment: `none` where it does not fit.
unfoldable pub copied : Bool × Memory → Option Memory
copied (true, mem) = some mem
copied (false, mem) = none

unfoldable pub load_segment : File → Phdr → Memory → Option Memory
load_segment f h mem =
    if ltb 0 h.filesz
    then copied (mem_load mem h.vaddr (λ k. f.bytes (h.offset + k)) h.filesz)
    else some mem

-- Pass 2 from an entry on, with the entries left.
unfoldable pub load_segments : File → Bool → Table → ℕ → ℕ → Memory → Option Memory
load_segments f is64 t zero i mem = some mem
load_segments f is64 t (suc left) i mem =
    let ph = entry_at t i in
    let here =
      if load32 f.bytes ph == 1 then load_segment f (read_phdr f.bytes ph is64) mem else some mem in
    and_then here (λ next. load_segments f is64 t left (i + 1) next)

-- What a load gives.
pub record Loaded : Type 0 where
  pub mem : Memory
  pub entry : ℕ
  pub xlen : ℕ

unfoldable pub at_entry : File → Bool → Memory → Option Loaded
at_entry f is64 mem =
    let entry = if is64 then rd_u64 f.bytes 24 else load32 f.bytes 24 in
    if ltb entry mem.ram.base || leb (u64 (mem.ram.base + mem.ram.size)) entry
    then none
    else some record { mem = mem; entry = entry; xlen = if is64 then 64 else 32 }

-- The load of a file with a header that was checked; `allocated` says whether `calloc` gives memory.
unfoldable pub load_image : Bool → ℕ → File → Bool → Option Loaded
load_image allocated min_size f is64 =
    let t = table_of f is64 in
    if ltb t.phentsize t.phsize_min
    then none
    else and_then (measure f is64 t t.phnum 0 record { lo = 2 ^ 64 - 1; hi = 0; loaded = 0 }) (λ e.
      and_then (region e min_size) (λ span.
        and_then (mem_init e.lo span allocated)
          (λ mem. and_then (load_segments f is64 t t.phnum 0 mem) (at_entry f is64))))

-- `elf_load`; no file is one that the host cannot read.
unfoldable pub elf_load : Bool → ℕ → Option File → Option Loaded
elf_load allocated min_size file =
    and_then file (λ f. and_then (check_header f) (load_image allocated min_size f))
