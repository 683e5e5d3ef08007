-- ===== src/Mmu.antt =====
-- src/mmu.c: the translation of a virtual address, with the TLB, the page-table walk and the
-- maintenance of the accessed and dirty bits.
pub mod Mode
pub mod Lookup
use quanta.Common.{
  ℕ, zero, suc, ◌+◌, ◌-◌, ◌*◌, ◌^◌, ◌||◌, ◌&&◌, Bool, true, false, not, ◌==◌, ltb, if◌then◌else◌,
  Option, none, some,
}
use quanta.Common.Word.{
  ◌|||◌, ◌&&&◌, ◌<<◌, ◌>>◌, u32, u64, shl64, asr64, clear64, test_bits, update,
}
use quanta.Decode.Csr.{mstatus, satp}
use quanta.Cpu.{Hart, TlbEntry, priv_u, priv_m}
use quanta.Cpu.Status.{mstatus_mpp, mstatus_mprv, mstatus_sum, mstatus_mxr}
use quanta.Memory.{Memory, mem_read32, mem_read64, mem_write32, mem_write64}
use Mode.{Scheme, pt_bare, pt_sv32, pt_sv39, pt_unsupported, satp_mode}

pub data AccessType : Type 0 where
  acc_fetch : AccessType
  acc_load : AccessType
  acc_store : AccessType

unfoldable pub is_fetch : AccessType → Bool
is_fetch acc_fetch = true
is_fetch acc_load = false
is_fetch acc_store = false

unfoldable pub is_store : AccessType → Bool
is_store acc_fetch = false
is_store acc_load = false
is_store acc_store = true

unfoldable pub pf_cause : AccessType → ℕ
pf_cause acc_fetch = 12
pf_cause acc_load = 13
pf_cause acc_store = 15

-- The bits of a page-table entry.
abbrev pub pte_v : ℕ
pte_v = 0x01

abbrev pub pte_r : ℕ
pte_r = 0x02

abbrev pub pte_w : ℕ
pte_w = 0x04

abbrev pub pte_x : ℕ
pte_x = 0x08

abbrev pub pte_u : ℕ
pte_u = 0x10

abbrev pub pte_a : ℕ
pte_a = 0x40

abbrev pub pte_d : ℕ
pte_d = 0x80

unfoldable pub eff_priv : Hart → AccessType → ℕ
eff_priv cpu acc =
    let s = u32 (cpu.csr mstatus) in
    if not (is_fetch acc) && test_bits s mstatus_mprv then (s &&& mstatus_mpp) >> 11 else cpu.priv

-- The switch of `perm_ok`.
unfoldable pub kind_ok : ℕ → ℕ → AccessType → Bool
kind_ok s pte acc_fetch = test_bits pte pte_x
kind_ok s pte acc_load = test_bits pte pte_r || test_bits s mstatus_mxr && test_bits pte pte_x
kind_ok s pte acc_store = test_bits pte pte_w

unfoldable pub perm_ok : Hart → ℕ → AccessType → ℕ → Bool
perm_ok cpu pte acc priv =
    let s = u32 (cpu.csr mstatus) in
    if priv == priv_u
    then (if test_bits pte pte_u then kind_ok s pte acc else false)
    else if test_bits pte pte_u && (is_fetch acc || not (test_bits s mstatus_sum))
    then false
    else kind_ok s pte acc

-- What differs between the two walks.
pub record Walk : Type 0 where
  pub top_level : ℕ
  pub ptesize : ℕ
  pub vpnbits : ℕ
  pub ppnmask : ℕ
  pub asid : ℕ

unfoldable pub sv32 : ℕ → Walk
sv32 root = record {
  top_level = 1;
  ptesize = 4;
  vpnbits = 10;
  ppnmask = 0x3fffff;
  asid = root >> 22 &&& 0x1ff;
}

unfoldable pub sv39 : ℕ → Walk
sv39 root = record {
  top_level = 2;
  ptesize = 8;
  vpnbits = 9;
  ppnmask = 0xfffffffffff;
  asid = root >> 44 &&& 0xffff;
}

-- How the loop goes on at an entry.
pub data Entry : Type 0 where
  broken : Entry
  leaf : Entry
  pointer : Entry

unfoldable pub classify : ℕ → Entry
classify pte =
    if not (test_bits pte pte_v) || not (test_bits pte pte_r) && test_bits pte pte_w
    then broken
    else if test_bits pte (pte_r ||| pte_x)
    then leaf
    else pointer

-- The leaf that a walk finds: the entry, where it stands, and its level.
pub record Leaf : Type 0 where
  pub pte : ℕ
  pub pte_addr : ℕ
  pub level : ℕ

unfoldable pub read_pte : Walk → Memory → ℕ → ℕ × Memory
read_pte w mem addr = if w.ptesize == 4 then mem_read32 mem addr else mem_read64 mem addr

unfoldable pub at_entry :
    ℕ → ℕ → ℕ → Memory → (Memory → Option Leaf × Memory) → Entry → Option Leaf × Memory
at_entry pte pte_addr level mem descend broken = (none, mem)
at_entry pte pte_addr level mem descend leaf =
    (some record { pte = pte; pte_addr = pte_addr; level = level }, mem)
at_entry pte pte_addr level mem descend pointer = descend mem

-- One level of the walk, in the table at `a`; `descend` goes on in the next table.
unfoldable pub walk_level :
    Walk → ℕ → ℕ → ℕ → Memory → (ℕ → Memory → Option Leaf × Memory) → Option Leaf × Memory
walk_level w va level a mem descend =
    let idx = va >> (12 + level * w.vpnbits) &&& (2 ^ w.vpnbits - 1) in
    let pte_addr = u64 (a + idx * w.ptesize) in
    let got = read_pte w mem pte_addr in
    if got.1.fault
    then (none, record (got.1) { fault = false })
    else at_entry got.0 pte_addr level got.1 (descend (shl64 (got.0 >> 10 &&& w.ppnmask) 12))
        (classify got.0)

-- The walk down from a level; below level 0 there is no table.
unfoldable pub walk_from : Walk → ℕ → ℕ → ℕ → Memory → Option Leaf × Memory
walk_from w va zero a mem = walk_level w va zero a mem (λ _ m. (none, m))
walk_from w va (suc level) a mem =
    walk_level w va (suc level) a mem (λ next m. walk_from w va level next m)

-- A translation: the cause of a page fault, or a physical address.
pub data Translation : Type 0 where
  page_fault : ℕ → Translation
  physical : ℕ → Translation

-- A translation with the state that it leaves.
pub record Outcome : Type 0 where
  pub result : Translation
  pub cpu : Hart
  pub mem : Memory

abbrev pub done : Translation → Hart → Memory → Outcome
done t cpu mem = record { result = t; cpu = cpu; mem = mem }

-- The page number of a leaf, `none` for a misaligned superpage.
unfoldable pub leaf_ppn : Walk → ℕ → Leaf → Option ℕ
leaf_ppn w va l =
    let ppn = l.pte >> 10 &&& w.ppnmask in
    let low = shl64 1 (l.level * w.vpnbits) - 1 in
    if ltb 0 l.level
    then (if test_bits ppn low then none else some (clear64 ppn low ||| (va >> 12 &&& low)))
    else some ppn

-- The entry with its accessed and, for a store, dirty bit.
unfoldable pub used_pte : ℕ → AccessType → ℕ
used_pte pte acc = pte ||| pte_a ||| (if is_store acc then pte_d else 0)

unfoldable pub write_pte : Walk → Memory → ℕ → ℕ → ℕ → Memory
write_pte w mem addr pte newpte =
    if newpte == pte
    then mem
    else if w.ptesize == 4
    then mem_write32 mem addr (u32 newpte)
    else mem_write64 mem addr newpte

-- The slot of a page, and its address with an offset.
abbrev pub slot_of : ℕ → ℕ
slot_of vpn = vpn &&& 15

abbrev pub at_page : ℕ → ℕ → ℕ
at_page ppn va = shl64 ppn 12 ||| (va &&& 0xfff)

unfoldable pub fill_tlb : Hart → ℕ → ℕ → ℕ → ℕ → Hart
fill_tlb cpu vpn asid ppn newpte = record cpu {
  tlb =
      update cpu.tlb (slot_of vpn)
        record { valid = true; vpn = vpn; asid = u32 asid; ppn = ppn; pte_flags = newpte &&& 0xff };
}

-- The end of a walk at a leaf that is permitted.
unfoldable pub finish : Walk → Hart → Memory → ℕ → AccessType → Leaf → Option ℕ → Outcome
finish w cpu mem va acc l none = done (page_fault (pf_cause acc)) cpu mem
finish w cpu mem va acc l (some ppn) =
    let newpte = used_pte l.pte acc in
    done (physical (at_page ppn va)) (fill_tlb cpu (va >> 12) w.asid ppn newpte)
      (write_pte w mem l.pte_addr l.pte newpte)

unfoldable pub after_walk : Walk → Hart → ℕ → AccessType → ℕ → Option Leaf × Memory → Outcome
after_walk w cpu va acc priv (none, mem) = done (page_fault (pf_cause acc)) cpu mem
after_walk w cpu va acc priv (some l, mem) =
    if perm_ok cpu (u32 l.pte) acc priv
    then finish w cpu mem va acc l (leaf_ppn w va l)
    else done (page_fault (pf_cause acc)) cpu mem

-- The TLB serves an access.
unfoldable pub tlb_hit : TlbEntry → ℕ → ℕ → AccessType → Bool
tlb_hit e vpn asid acc =
    e.valid && e.vpn == vpn && e.asid == asid && (not (is_store acc) || test_bits e.pte_flags pte_d)

-- The lookup, and the walk behind it.
unfoldable pub translate_page : Walk → Hart → Memory → ℕ → AccessType → ℕ → Outcome
translate_page w cpu mem va acc priv =
    let e = cpu.tlb (slot_of (va >> 12)) in
    let root = shl64 (cpu.csr satp &&& w.ppnmask) 12 in
    if tlb_hit e (va >> 12) w.asid acc
    then (if perm_ok cpu e.pte_flags acc priv
        then done (physical (at_page e.ppn va)) cpu mem
        else done (page_fault (pf_cause acc)) cpu mem)
    else after_walk w cpu va acc priv (walk_from w va w.top_level root mem)

-- An Sv39 address is sign-extended from bit 38.
unfoldable pub canonical : ℕ → Bool
canonical va = asr64 (shl64 va 25) 25 == va

unfoldable pub translate_scheme : Scheme → Hart → Memory → ℕ → AccessType → ℕ → Outcome
translate_scheme pt_bare cpu mem va acc priv = done (physical va) cpu mem
translate_scheme pt_unsupported cpu mem va acc priv = done (physical va) cpu mem
translate_scheme pt_sv32 cpu mem va acc priv =
    translate_page (sv32 (cpu.csr satp)) cpu mem va acc priv
translate_scheme pt_sv39 cpu mem va acc priv =
    if canonical va
    then translate_page (sv39 (cpu.csr satp)) cpu mem va acc priv
    else done (page_fault (pf_cause acc)) cpu mem

unfoldable pub mmu_translate : Hart → Memory → ℕ → AccessType → Outcome
mmu_translate cpu mem va0 acc =
    let va = if cpu.xlen == 32 then va0 &&& 0xffffffff else va0 in
    let priv = eff_priv cpu acc in
    if priv == priv_m
    then done (physical va) cpu mem
    else translate_scheme (satp_mode cpu (cpu.csr satp)) cpu mem va acc priv
