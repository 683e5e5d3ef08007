-- ===== src/Gdb/Break.antt =====
-- The breakpoint table of src/gdbstub.c.
use quanta.Common.{
  ℕ, zero, suc, ◌+◌, Bool, true, false, ◌&&◌, ◌==◌, if◌then◌else◌, Option, none, some,
}
use quanta.Common.Word.{update}
use quanta.Gdb.{Stub, max_bp}

-- The slots from `i` on, with those left.
unfoldable pub match_from : (ℕ → Bool) → (ℕ → ℕ) → ℕ → ℕ → ℕ → Bool
match_from used bp addr zero i = false
match_from used bp addr (suc left) i =
    let rest = match_from used bp addr left (i + 1) in if used i && bp i == addr then true else rest

unfoldable pub bp_match : {M S : Type 0} → Stub M S → ℕ → Bool
bp_match s addr = match_from s.bp_used s.bp addr max_bp 0

-- The first slot that is not used.
unfoldable pub free_from : (ℕ → Bool) → ℕ → ℕ → Option ℕ
free_from used zero i = none
free_from used (suc left) i =
    let rest = free_from used left (i + 1) in if used i then rest else some i

unfoldable pub fill_slot : {M S : Type 0} → Stub M S → ℕ → Option ℕ → Bool × Stub M S
fill_slot s addr none = (false, s)
fill_slot s addr (some i) =
    (true, record s { bp_used = update s.bp_used i true; bp = update s.bp i addr })

unfoldable pub bp_add : {M S : Type 0} → Stub M S → ℕ → Bool × Stub M S
bp_add s addr =
    if bp_match s addr then (true, s) else fill_slot s addr (free_from s.bp_used max_bp 0)

unfoldable pub remove_from : (ℕ → ℕ) → ℕ → ℕ → ℕ → (ℕ → Bool) → ℕ → Bool
remove_from bp addr zero i used = used
remove_from bp addr (suc left) i used =
    remove_from bp addr left (i + 1) (if used i && bp i == addr then update used i false else used)

unfoldable pub bp_remove : {M S : Type 0} → Stub M S → ℕ → Stub M S
bp_remove s addr = record s { bp_used = remove_from s.bp addr max_bp 0 s.bp_used }
