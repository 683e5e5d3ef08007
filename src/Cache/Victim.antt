-- ===== src/Cache/Victim.antt =====
-- The way that a miss fills.
use quanta.Common.{
  ℕ, zero, suc, ◌+◌, ◌≤◌, ◌<◌, ◌≡◌, arith, Bool, true, false, ◌⊎◌, inl, inr, ltb, Bool-cases,
  if◌then◌else◌,
}
use native.Mathlib.Decide.{ℕ_discrete}
use quanta.Cache.{CacheLine, find_victim}

module _ (lines : ℕ → CacheLine) (base : ℕ) where
  abbrev pub valid_at : ℕ → Bool
  valid_at w = (lines (base + w)).valid

  abbrev pub used_at : ℕ → ℕ
  used_at w = (lines (base + w)).used

  -- The least recently used of the ways below `n`, all of which are valid.
  abbrev pub IsOldest : ℕ → ℕ → Type 0
  IsOldest n v = (w : ℕ) → w < n → (valid_at w ≡ true) × (used_at v ≤ used_at w)

  -- The scan with the ways below `w` seen: they are valid, and `v` is the oldest of them.
  find_victim_from :
      (left w v n : ℕ)
      → w + left ≡ n
      → v < n
      → IsOldest w v
      → let r = find_victim lines base left w v in (r < n) × ((valid_at r ≡ false) ⊎ IsOldest n r)
  unfolding find_victim
  find_victim_from zero w v n e h seen = (h, inr (λ u below. seen u (omega arith)))
  find_victim_from (suc left) w v n e h seen = elim (Bool-cases (valid_at w)) [
    | inl full ↦ rw full (
        find_victim_from left (w + 1) (if ltb (used_at w) (used_at v) then w else v) n (omega arith)
          (ground arith) (λ u below. older u below full))
    | inr empty ↦ rw empty (omega arith, inl empty)
  ]
    where
      older :
          (u : ℕ)
          → u < w + 1
          → valid_at w ≡ true
          → (valid_at u ≡ true)
            × (used_at (if ltb (used_at w) (used_at v) then w else v) ≤ used_at u)
      older u below full = elim (ℕ_discrete u w) [
        | yes same ↦ rw same (ground arith)
        | no other ↦ ground (arith, seen u)
      ]

  -- The way that a miss fills is one of the set's; it is empty, or every way is valid and none was
  -- used longer ago.
  pub find_victim_lem :
      (n : ℕ)
      → 0 < n
      → let r = find_victim lines base n 0 0 in (r < n) × ((valid_at r ≡ false) ⊎ IsOldest n r)
  find_victim_lem n pos =
      find_victim_from n 0 0 n (omega arith) pos (λ u below. absurd (omega arith))
