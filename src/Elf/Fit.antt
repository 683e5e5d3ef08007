-- ===== src/Elf/Fit.antt =====
-- Where src/elf.c puts an image that it accepts.
use quanta.Common.{
  ℕ, zero, suc, ◌+◌, ◌^◌, ◌≤◌, ◌<◌, ◌≡◌, inl, inr, arith, Bool, true, false, ltb, leb, ◌==◌, ◌||◌,
  if◌then◌else◌, Bool-cases, Option, none, some, refl, ap, sym, ◌∙◌,
}
use mathlib.Core.Option.{some-injective, none-ne-some}
use quanta.Common.Word.{u64}
use quanta.Ram.{load32}
use quanta.Memory.{Memory, mem_init, mem_load, load_at, index_of}
use quanta.Elf.{
  check_header, table_of, File, Phdr, Table, Extent, Loaded, elf_load, load_image, and_then, region,
  load_segments, load_segment, copied, at_entry, entry_at, read_phdr, elf_mem_max, guest_stack_size,
}

-- A result of two steps comes from a result of the first.
and_then-some :
    {A B : Type 0} (o : Option A) (go : A → Option B) (b : B)
    → and_then o go ≡ some b
    → (a : A) × ((o ≡ some a) × (go a ≡ some b))
unfolding and_then
and_then-some none go b e = ground (arith, e)
and_then-some (some a) go b e = (a, (refl, e))

-- The RAM stays where it is.
abbrev Same : Memory → Memory → Type 0
Same a b = (b.ram.base ≡ a.ram.base) × (b.ram.size ≡ a.ram.size)

copied-Same :
    (before : Memory) (got : Bool × Memory) (after : Memory)
    → Same before got.1
    → copied got ≡ some after
    → Same before after
unfolding copied
copied-Same before (true, mem) after s e = ground (arith, s, e)
copied-Same before (false, mem) after s e = ground (arith, e)

load_at-Same :
    (mem : Memory) (addr : ℕ) (source : ℕ → ℕ) (len : ℕ) (i : Option ℕ)
    → Same mem (load_at mem addr source len i).1
unfolding load_at
load_at-Same mem addr source len none = (refl, refl)
load_at-Same mem addr source len (some i) = (refl, refl)

-- Equal results have the same RAM.
equal-Same : (a b : Memory) → Path (Option Memory) (some a) (some b) → Same a b
equal-Same a b e =
    let m = some-injective a b e in (ap (λ x. x.ram.base) (sym m), ap (λ x. x.ram.size) (sym m))

load_segment-Same :
    (f : File) (h : Phdr) (before after : Memory)
    → load_segment f h before ≡ some after
    → Same before after
unfolding load_segment mem_load
load_segment-Same f h before after e = elim (Bool-cases (ltb 0 h.filesz)) [
  | inl filled ↦
      let source = λ (k : ℕ). f.bytes (h.offset + k) in
      let i = index_of before.ram h.vaddr h.filesz in
      copied-Same before (load_at before h.vaddr source h.filesz i) after
        (load_at-Same before h.vaddr source h.filesz i) (simp filled at e)
  | inr empty ↦ equal-Same before after (simp empty at e)
]

load_segments-Same :
    (f : File) (is64 : Bool) (t : Table) (left i : ℕ) (before after : Memory)
    → load_segments f is64 t left i before ≡ some after
    → Same before after
unfolding load_segments
load_segments-Same f is64 t zero i before after e = equal-Same before after e
load_segments-Same f is64 t (suc left) i before after e =
    let ph = entry_at t i in
    let here =
      if load32 f.bytes ph == 1
      then load_segment f (read_phdr f.bytes ph is64) before
      else some before in
    let step = and_then-some here (λ next. load_segments f is64 t left (i + 1) next) after e in
    let rest = load_segments-Same f is64 t left (i + 1) step.0 after step.1.1 in
    let first : Same before step.0 = elim (Bool-cases (load32 f.bytes ph == 1)) [
      | inl load ↦
          load_segment-Same f (read_phdr f.bytes ph is64) before step.0 (simp load at step.1.0)
      | inr skip ↦ equal-Same before step.0 (simp skip at step.1.0)
    ] in
    (rest.0 ∙ first.0, rest.1 ∙ first.1)

-- A region that is accepted.
region-bounds :
    (e : Extent) (min_size span : ℕ)
    → region e min_size ≡ some span
    → (guest_stack_size < span) × (span ≤ elf_mem_max) × (u64 (e.lo + span) ≤ 2 ^ 32)
unfolding region
region-bounds e min_size span h = ground (arith, h)

mem_init-base :
    (base size : ℕ) (allocated : Bool) (mem : Memory)
    → mem_init base size allocated ≡ some mem
    → (mem.ram.base ≡ base) × (mem.ram.size ≡ size)
unfolding mem_init
mem_init-base base size true mem e =
    let m = some-injective _ mem e in (ap (λ x. x.ram.base) (sym m), ap (λ x. x.ram.size) (sym m))
mem_init-base base size false mem e = ground (arith, e)

-- An entry point that is accepted.
at_entry-inside :
    (f : File) (is64 : Bool) (mem : Memory) (l : Loaded)
    → at_entry f is64 mem ≡ some l
    → Same mem l.mem × ((mem.ram.base ≤ l.entry) × (l.entry < u64 (mem.ram.base + mem.ram.size)))
unfolding at_entry
at_entry-inside f is64 mem l e =
    let entry = if is64 then quanta.Elf.rd_u64 f.bytes 24 else load32 f.bytes 24 in
    let outside = ltb entry mem.ram.base || leb (u64 (mem.ram.base + mem.ram.size)) entry in
    elim (Bool-cases outside) [
      | inl refused ↦ absurd (none-ne-some l (simp refused at e))
      | inr inside ↦
          let m = some-injective _ l (simp inside at e) in
          let at = ap (λ x. x.entry) m in
          (
            (ap (λ x. x.mem.ram.base) (sym m), ap (λ x. x.mem.ram.size) (sym m)),
            (ground (arith, at, inside), ground (arith, at, inside)),
          )
    ]

load_image-bounds :
    (allocated : Bool) (min_size : ℕ) (f : File) (is64 : Bool) (l : Loaded)
    → load_image allocated min_size f is64 ≡ some l
    → let ram = l.mem.ram in
      (ram.base + ram.size ≤ 2 ^ 32)
      × ((ram.base ≤ l.entry) × (l.entry < ram.base + ram.size))
      × ((guest_stack_size < ram.size) × (ram.size ≤ elf_mem_max))
unfolding load_image
load_image-bounds allocated min_size f is64 l e =
    let t = table_of f is64 in
    elim (Bool-cases (ltb t.phentsize t.phsize_min)) [
      | inl short ↦ absurd (none-ne-some l (simp short at e))
      | inr enough ↦
          let measured = and_then-some _ _ l (simp enough at e) in
          let sized = and_then-some (region measured.0 min_size) _ l measured.1.1 in
          let made = and_then-some (mem_init measured.0.lo sized.0 allocated) _ l sized.1.1 in
          let filled = and_then-some (load_segments f is64 t t.phnum 0 made.0) _ l made.1.1 in
          let bounds = region-bounds measured.0 min_size sized.0 sized.1.0 in
          let fresh = mem_init-base measured.0.lo sized.0 allocated made.0 made.1.0 in
          let kept = load_segments-Same f is64 t t.phnum 0 made.0 filled.0 filled.1.0 in
          let inside = at_entry-inside f is64 filled.0 l filled.1.1 in
          (omega arith, (omega arith, omega arith), (omega arith, omega arith))
    ]

-- Whatever the file says, an image that is loaded lies below 4 GiB, in 64 KiB to 256 MiB of guest
-- memory, and its entry point lies in that memory.
pub elf_load-bounds :
    (allocated : Bool) (min_size : ℕ) (file : Option File) (l : Loaded)
    → elf_load allocated min_size file ≡ some l
    → let ram = l.mem.ram in
      (ram.base + ram.size ≤ 2 ^ 32)
      × ((ram.base ≤ l.entry) × (l.entry < ram.base + ram.size))
      × ((guest_stack_size < ram.size) × (ram.size ≤ elf_mem_max))
unfolding elf_load
elf_load-bounds allocated min_size file l e =
    let opened = and_then-some file _ l e in
    let f = opened.0 in
    let checked = and_then-some (check_header f) _ l opened.1.1 in
    load_image-bounds allocated min_size f checked.0 l checked.1.1
