-- ===== src/Mmu/Lookup.antt =====
-- The TLB of src/mmu.c against the walk that fills it.
use quanta.Common.{
  ℕ, ◌*◌, ◌^◌, ◌<◌, ◌≡◌, arith, Bool, true, false, not, ◌||◌, if◌then◌else◌, Bool-cases,
  Option-cases, inl, inr, Option, none, some, refl, ==_refl, ap, ◌∙◌, sym, ltb,
}
use mathlib.Core.Bool.{false≢true}
use mathlib.Core.Path.{subst}
use quanta.Decode.Csr.{satp}
use quanta.Common.Bits.{bit, bit-bit_or, bit-bit_and}
use quanta.Common.Fields.{test_field}
use quanta.Common.Word.{◌&&&◌, ◌|||◌, ◌>>◌, u32, shl64, test_bits}
use quanta.Cpu.{Hart, TlbEntry}
use quanta.Memory.{Memory}
use quanta.Mmu.{
  AccessType, acc_fetch, acc_load, acc_store, Translation, page_fault, physical, Walk, Leaf,
  used_pte, is_store, perm_ok, kind_ok, pte_u, pte_r, pte_w, pte_x, pte_d, translate_page,
  after_walk, finish, walk_from, leaf_ppn, tlb_hit, slot_of, fill_tlb, at_page, done,
}

-- The permission bits do not change when the accessed and dirty bits are set.
flag_bit :
    (k pte : ℕ) (acc : AccessType)
    → bit k 0x40 ≡ 0
    → bit k 0x80 ≡ 0
    → bit k 0xff ≡ 1
    → bit k (u32 pte) ≡ bit k pte
    → test_bits (used_pte pte acc &&& 0xff) (1 * 2 ^ k) ≡ test_bits (u32 pte) (1 * 2 ^ k)
unfolding used_pte
flag_bit k pte acc h40 h80 hff low =
    let dirty = if is_store acc then 0x80 else 0 in
    let clean : bit k dirty ≡ 0 = ground arith in
    let outer = bit-bit_or k (pte ||| 0x40) dirty in
    let inner = bit-bit_or k pte 0x40 in
    let masked = bit-bit_and k (pte ||| 0x40 ||| dirty) 0xff in
    let same : bit k ((pte ||| 0x40 ||| dirty) &&& 0xff) ≡ bit k (u32 pte) = omega arith in
    test_field k _ ∙ ap (ltb 0) same ∙ sym (test_field k (u32 pte))

perm_ok_same :
    (cpu : Hart) (a b priv : ℕ) (acc : AccessType)
    → test_bits a pte_u ≡ test_bits b pte_u
    → test_bits a pte_r ≡ test_bits b pte_r
    → test_bits a pte_w ≡ test_bits b pte_w
    → test_bits a pte_x ≡ test_bits b pte_x
    → perm_ok cpu a acc priv ≡ perm_ok cpu b acc priv
unfolding perm_ok kind_ok
perm_ok_same cpu a b priv acc_fetch u r w x = rw (u, x) refl
perm_ok_same cpu a b priv acc_load u r w x = rw (u, r, x) refl
perm_ok_same cpu a b priv acc_store u r w x = rw (u, w) refl

-- The rights depend on the status register alone.
perm_ok-csr :
    (a b : Hart) (flags : ℕ) (acc : AccessType) (priv : ℕ)
    → a.csr ≡ b.csr
    → perm_ok a flags acc priv ≡ perm_ok b flags acc priv
unfolding perm_ok
perm_ok-csr a b flags acc priv e = rw e refl

perm_ok-used_pte :
    (cpu : Hart) (pte priv : ℕ) (acc : AccessType)
    → perm_ok cpu (used_pte pte acc &&& 0xff) acc priv ≡ perm_ok cpu (u32 pte) acc priv
perm_ok-used_pte cpu pte priv acc =
    perm_ok_same cpu (used_pte pte acc &&& 0xff) (u32 pte) priv acc
      (flag_bit 4 pte acc refl refl refl (omega arith))
      (flag_bit 1 pte acc refl refl refl (omega arith))
      (flag_bit 2 pte acc refl refl refl (omega arith))
      (flag_bit 3 pte acc refl refl refl (omega arith))

-- A store's entry is dirty.
dirty_enough :
    (pte : ℕ) (acc : AccessType)
    → (not (is_store acc) || test_bits (used_pte pte acc &&& 0xff) pte_d) ≡ true
unfolding is_store used_pte
dirty_enough pte acc_fetch = refl
dirty_enough pte acc_load = refl
dirty_enough pte acc_store =
    let outer = bit-bit_or 7 (pte ||| 0x40) 0x80 in
    let masked = bit-bit_and 7 (pte ||| 0x40 ||| 0x80) 0xff in
    test_field 7 ((pte ||| 0x40 ||| 0x80) &&& 0xff) ∙ ground (arith, outer, masked)

-- A hit.
lookup :
    (w : Walk) (cpu : Hart) (mem : Memory) (va : ℕ) (acc : AccessType) (priv : ℕ) (e : TlbEntry)
    → cpu.tlb (slot_of (va >> 12)) ≡ e
    → tlb_hit e (va >> 12) w.asid acc ≡ true
    → perm_ok cpu e.pte_flags acc priv ≡ true
    → translate_page w cpu mem va acc priv ≡ done (physical (at_page e.ppn va)) cpu mem
unfolding translate_page
lookup w cpu mem va acc priv e slot hit ok = simp (slot, hit, ok) refl

-- What the TLB gets serves the same access.
finish_again :
    (w : Walk) (cpu : Hart) (mem : Memory) (va : ℕ) (acc : AccessType) (priv : ℕ) (l : Leaf)
    (ppn : ℕ)
    → w.asid < 2 ^ 32
    → perm_ok cpu (u32 l.pte) acc priv ≡ true
    → let o = finish w cpu mem va acc l (some ppn) in translate_page w o.cpu o.mem va acc priv ≡ o
unfolding finish fill_tlb
finish_again w cpu mem va acc priv l ppn small ok =
    let o = finish w cpu mem va acc l (some ppn) in
    let fits : u32 w.asid ≡ w.asid = omega arith in
    let entry : TlbEntry = record {
      valid = true;
      vpn = va >> 12;
      asid = u32 w.asid;
      ppn = ppn;
      pte_flags = used_pte l.pte acc &&& 0xff;
    } in
    lookup w o.cpu o.mem va acc priv entry (rw (==_refl (slot_of (va >> 12))) refl)
      (unfold tlb_hit in
        rw fits (rw (==_refl (va >> 12)) (rw (==_refl w.asid) (dirty_enough l.pte acc))))
      (perm_ok-csr o.cpu cpu _ acc priv refl ∙ perm_ok-used_pte cpu l.pte priv acc ∙ ok)

-- Whether a translation came to an address.
unfoldable pub is_physical : Translation → Bool
is_physical (page_fault cause) = false
is_physical (physical pa) = true

after_walk_again :
    (w : Walk) (cpu : Hart) (va : ℕ) (acc : AccessType) (priv : ℕ) (got : Option Leaf × Memory)
    → w.asid < 2 ^ 32
    → is_physical (after_walk w cpu va acc priv got).result ≡ true
    → let o = after_walk w cpu va acc priv got in translate_page w o.cpu o.mem va acc priv ≡ o
unfolding after_walk is_physical finish
after_walk_again w cpu va acc priv (none, mem) small served = absurd (false≢true served)
after_walk_again w cpu va acc priv (some l, mem) small served =
    elim (Bool-cases (perm_ok cpu (u32 l.pte) acc priv)) [
      | inr refused ↦ absurd (false≢true (simp refused at served))
      | inl ok ↦ elim (Option-cases (leaf_ppn w va l)) [
        | inl misaligned ↦ absurd (false≢true (simp (ok, misaligned) at served))
        | inr (ppn, e) ↦ simp (ok, e) (finish_again w cpu mem va acc priv l ppn small ok)
      ]
    ]

-- A translation that succeeds leaves what serves the same access again, without a walk: at the same
-- physical address, and with the TLB and the memory as they are.
pub translate_page-again :
    (w : Walk) (cpu : Hart) (mem : Memory) (va : ℕ) (acc : AccessType) (priv : ℕ)
    → w.asid < 2 ^ 32
    → is_physical (translate_page w cpu mem va acc priv).result ≡ true
    → let o = translate_page w cpu mem va acc priv in translate_page w o.cpu o.mem va acc priv ≡ o
unfolding translate_page
translate_page-again w cpu mem va acc priv small served =
    let e = cpu.tlb (slot_of (va >> 12)) in
    elim (Bool-cases (tlb_hit e (va >> 12) w.asid acc)) [
      | inl hit ↦ elim (Bool-cases (perm_ok cpu e.pte_flags acc priv)) [
        | inl ok ↦ simp (hit, ok) refl
        | inr refused ↦ simp (hit, refused) refl
      ]
      | inr miss ↦
          let root = shl64 (cpu.csr satp &&& w.ppnmask) 12 in
          let got = walk_from w va w.top_level root mem in
          let walked : translate_page w cpu mem va acc priv ≡ after_walk w cpu va acc priv got =
            simp miss refl in
          subst (λ o. translate_page w o.cpu o.mem va acc priv ≡ o) (sym walked)
            (after_walk_again w cpu va acc priv got small
              (ap (λ o. is_physical o.result) (sym walked) ∙ served))
    ]
