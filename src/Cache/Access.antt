-- ===== src/Cache/Access.antt =====
-- `cache_access` as a whole: the statistics, the block that it leaves resident, and the invariant
-- that no block is held twice.
use native.Mathlib.Nat.{mul-add-div_right, div-eq_of_lt}
use quanta.Common.{
  ℕ, ◌+◌, ◌*◌, ◌/◌, ◌<◌, ◌≡◌, refl, arith, Bool, true, Option, none, some, ap, ◌∙◌, sym,
  Option-cases, inl, inr, ◌⊎◌,
}
use mathlib.Core.Bool.{false≢true}
use mathlib.Core.Path.{subst}
use quanta.Common.Word.{u64, update}
use quanta.Cache.{
  Cache, CacheLine, set_index, tag_of, find_way, find_victim, count_access, touch, install,
  cache_access,
}
use quanta.Cache.Lookup.{holds, find_way-found, find_way-none, find_way_hits}
use quanta.Cache.Victim.{find_victim_lem}

abbrev base_of : Cache → ℕ → ℕ
base_of c addr = set_index c addr * c.assoc

-- Where the block of an address is looked for.
abbrev lookup : Cache → ℕ → Option ℕ
lookup c addr = find_way c.lines (base_of c addr) (tag_of c addr) c.assoc 0

abbrev victim : Cache → ℕ → ℕ
victim c addr = find_victim c.lines (base_of c addr) c.assoc 0 0

module _ (c : Cache) (addr : ℕ) (is_store : Bool) where
  access_hit :
      (w : ℕ)
      → lookup c addr ≡ some w
      → cache_access c addr is_store ≡ touch (count_access c is_store) (base_of c addr + w)
  unfolding cache_access
  access_hit w e = rw (e, cache_access)

  access_miss :
      lookup c addr ≡ none
      → cache_access c addr is_store
        ≡ install (count_access c is_store) (base_of c addr + victim c addr) (tag_of c addr)
  unfolding cache_access
  access_miss e = rw (e, cache_access)

-- Every access is a hit or a miss, and a load or a store.
pub cache_access_counts :
    (c : Cache) (addr : ℕ) (is_store : Bool)
    → u64 (c.hits + c.misses) ≡ u64 (c.loads + c.stores)
    → let c' = cache_access c addr is_store in
      u64 (c'.hits + c'.misses) ≡ u64 (c'.loads + c'.stores)
unfolding touch install count_access
cache_access_counts c addr is_store h = elim (Option-cases (lookup c addr)) [
  | inl missed ↦ rw (access_miss c addr is_store missed) (ground arith)
  | inr (w, found) ↦ rw (access_hit c addr is_store w found) (ground arith)
]

-- What an access does to the lines: one way of the set is given the block; the shape stays.
record IsFilled (c c' : Cache) (addr : ℕ) : Type 0 where
  way : ℕ
  line : CacheLine
  in_set : way < c.assoc
  lines : (i : ℕ) → c'.lines i ≡ update c.lines (base_of c addr + way) line i
  valid : line.valid ≡ true
  tag : line.tag ≡ tag_of c addr
  chosen : (lookup c addr ≡ none) ⊎ (holds (c.lines (base_of c addr + way)) (tag_of c addr) ≡ true)
  same_assoc : c'.assoc ≡ c.assoc
  same_index : (a : ℕ) → set_index c' a ≡ set_index c a
  same_tag : (a : ℕ) → tag_of c' a ≡ tag_of c a

cache_access-IsFilled :
    (c : Cache) (addr : ℕ) (is_store : Bool)
    → 0 < c.assoc
    → IsFilled c (cache_access c addr is_store) addr
unfolding touch install count_access set_index tag_of
cache_access-IsFilled c addr is_store pos = elim (Option-cases (lookup c addr)) [
  | inl missed ↦ rw (access_miss c addr is_store missed) (record {
    way = victim c addr;
    line = record { valid = true; tag = tag_of c addr; used = u64 (c.tick + 1) };
    in_set = (find_victim_lem c.lines (base_of c addr) c.assoc pos).0;
    lines = λ i. refl;
    valid = refl;
    tag = refl;
    chosen = inl missed;
    same_assoc = refl;
    same_index = λ a. refl;
    same_tag = λ a. refl;
  })
  | inr (w, found) ↦
      let held = find_way-found c.lines (base_of c addr) (tag_of c addr) c.assoc 0 w found in
      rw (access_hit c addr is_store w found) (record {
        way = w;
        line = record (c.lines (base_of c addr + w)) { used = u64 (c.tick + 1) };
        in_set = omega (arith, held.1);
        lines = λ i. refl;
        valid = ground (arith, held.2);
        tag = ground (arith, held.2);
        chosen = inr held.2;
        same_assoc = refl;
        same_index = λ a. refl;
        same_tag = λ a. refl;
      })
]

hit_counts :
    (c : Cache) (addr w : ℕ) (is_store : Bool)
    → lookup c addr ≡ some w
    → let c' = cache_access c addr is_store in (c'.hits ≡ u64 (c.hits + 1)) × (c'.misses ≡ c.misses)
unfolding touch count_access
hit_counts c addr w is_store e = rw (access_hit c addr is_store w e) (refl, refl)

IsFilled-lookup :
    {c c' : Cache} {addr : ℕ} → IsFilled c c' addr → (w : ℕ) × (lookup c' addr ≡ some w)
IsFilled-lookup {c} {c'} {addr} f =
    find_way_hits c'.lines (base_of c' addr) (tag_of c' addr) c'.assoc f.way
      (rw f.same_assoc f.in_set) held
  where
    place : base_of c' addr + f.way ≡ base_of c addr + f.way
    place = rw (f.same_index addr, f.same_assoc)

    held : holds (c'.lines (base_of c' addr + f.way)) (tag_of c' addr) ≡ true
    held =
        rw (place, f.same_tag addr, f.lines (base_of c addr + f.way))
          (ground (arith, f.valid, f.tag))

-- Right after an access its block is resident: the same address hits.
pub cache_access_again :
    (c : Cache) (addr : ℕ) (is_store is_store' : Bool)
    → 0 < c.assoc
    → let c' = cache_access c addr is_store in
      let c'' = cache_access c' addr is_store' in
      (c''.hits ≡ u64 (c'.hits + 1)) × (c''.misses ≡ c'.misses)
cache_access_again c addr is_store is_store' pos =
    let (w, found) = IsFilled-lookup (cache_access-IsFilled c addr is_store pos) in
    hit_counts (cache_access c addr is_store) addr w is_store' found

-- No block is in two ways of a set.
pub record IsDistinct (ways : ℕ) (lines : ℕ → CacheLine) : Type 0 where
  pub once :
      (s v w t : ℕ)
      → v < ways
      → w < ways
      → holds (lines (s * ways + v)) t ≡ true
      → holds (lines (s * ways + w)) t ≡ true
      → v ≡ w

-- Lines of different sets have different places.
row_major : (n s s' v w : ℕ) → v < n → w < n → s * n + v ≡ s' * n + w → (s ≡ s') × (v ≡ w)
row_major n s s' v w hv hw e =
    let same : s ≡ s' = omega (
      arith,
      mul-add-div_right {m = n} (omega arith) s v,
      mul-add-div_right {m = n} (omega arith) s' w,
      div-eq_of_lt hv,
      div-eq_of_lt hw,
      ap (λ t. t / n) e,
    ) in
    (same, ground (arith, ap (λ t. t * n) same))

module _ {c c' : Cache} {addr : ℕ} (f : IsFilled c c' addr) (d : IsDistinct c.assoc c.lines) where
  -- Before the access, only the chosen way of the set may hold the block.
  chosen_only :
      (w : ℕ)
      → w < c.assoc
      → holds (c.lines (base_of c addr + w)) (tag_of c addr) ≡ true
      → f.way ≡ w
  chosen_only w h held = elim f.chosen [
    | inl missed ↦ absurd (
        false≢true (
          sym (
            find_way-none c.lines (base_of c addr) (tag_of c addr) c.assoc 0 w missed (omega arith)
              (omega arith))
          ∙ held))
    | inr there ↦ d.once (set_index c addr) f.way w (tag_of c addr) f.in_set h there held
  ]

  IsFilled-once :
      (s v w t : ℕ)
      → v < c.assoc
      → w < c.assoc
      → holds (c'.lines (s * c.assoc + v)) t ≡ true
      → holds (c'.lines (s * c.assoc + w)) t ≡ true
      → v ≡ w
  IsFilled-once s v w t hv hw h j = ground (
    arith,
    f.lines (s * c.assoc + v),
    f.lines (s * c.assoc + w),
    f.tag,
    row_major c.assoc s (set_index c addr) v f.way hv f.in_set,
    row_major c.assoc s (set_index c addr) w f.way hw f.in_set,
    chosen_only v hv,
    chosen_only w hw,
    d.once s v w t hv hw,
  )

-- An access keeps blocks in one way at most.
pub cache_access-IsDistinct :
    (c : Cache) (addr : ℕ) (is_store : Bool)
    → 0 < c.assoc
    → IsDistinct c.assoc c.lines
    → let c' = cache_access c addr is_store in IsDistinct c'.assoc c'.lines
cache_access-IsDistinct c addr is_store pos d =
    let c' = cache_access c addr is_store in
    let f = cache_access-IsFilled c addr is_store pos in
    subst (λ n. IsDistinct n c'.lines) (sym f.same_assoc) (record { once = IsFilled-once f d })
