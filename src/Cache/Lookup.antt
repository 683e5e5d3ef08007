-- ===== src/Cache/Lookup.antt =====
-- The scan for a hit, and the set that an address selects.
use native.Mathlib.Nat.{mod-lt}
use quanta.Common.{
  ℕ, zero, suc, ◌+◌, ◌/◌, ◌%◌, ◌^◌, ◌≤◌, ◌<◌, ◌≡◌, arith, Bool, true, false, ◌&&◌, ◌==◌, none, some,
  Option-cases, inl, inr,
}
use quanta.Common.Power.{two_pow_pos}
use quanta.Common.Bits.{bit_and_mask}
use quanta.Cache.{Cache, CacheLine, set_index, find_way}
use quanta.Cache.Geometry.{IsGeometry}

-- A way holds a tag.
abbrev pub holds : CacheLine → ℕ → Bool
holds line tag = line.valid && line.tag == tag

module _ (lines : ℕ → CacheLine) (base tag : ℕ) where
  -- A way that the scan finds lies in the range and holds the tag.
  pub find_way-found :
      (left w v : ℕ)
      → find_way lines base tag left w ≡ some v
      → (w ≤ v) × (v < w + left) × (holds (lines (base + v)) tag ≡ true)
  unfolding find_way
  find_way-found zero w v e = absurd (ground arith)
  find_way-found (suc left) w v e = ground (arith, find_way-found left (w + 1) v)

  -- A scan that finds none has seen no way that holds the tag.
  pub find_way-none :
      (left w v : ℕ)
      → find_way lines base tag left w ≡ none
      → w ≤ v
      → v < w + left
      → holds (lines (base + v)) tag ≡ false
  unfolding find_way
  find_way-none zero w v e h j = absurd (omega arith)
  find_way-none (suc left) w v e h j = ground (arith, find_way-none left (w + 1) v)

  -- A way that holds the tag is enough for a hit.
  pub find_way_hits :
      (n v : ℕ)
      → v < n
      → holds (lines (base + v)) tag ≡ true
      → (u : ℕ) × (find_way lines base tag n 0 ≡ some u)
  find_way_hits n v h held = elim (Option-cases (find_way lines base tag n 0)) [
    | inl missed ↦ absurd (ground (arith, find_way-none n 0 v missed))
    | inr found ↦ found
  ]

module _ {c : Cache} (g : IsGeometry c) where
  set_index-eq-mod : (addr : ℕ) → set_index c addr ≡ addr / 2 ^ c.offset_bits % c.num_sets
  unfolding set_index
  set_index-eq-mod addr = rw g.sets (bit_and_mask c.index_bits (addr / 2 ^ c.offset_bits))

  -- The set that an address selects exists.
  pub set_index-lt : (addr : ℕ) → set_index c addr < c.num_sets
  set_index-lt addr = rw (set_index-eq-mod addr) (mod-lt _ (rw g.sets (two_pow_pos c.index_bits)))
