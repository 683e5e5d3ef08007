-- ===== src/Device/Plic.antt =====
-- The PLIC of src/device.c. `lines` is the bitmap of the sources that assert, which `plic_lines`
-- makes up from the devices.
pub mod Best
pub mod Claim
use quanta.Common.{
  ℕ, zero, suc, ◌+◌, ◌-◌, ◌*◌, ◌/◌, ◌%◌, ◌^◌, Bool, ◌&&◌, not, ◌==◌, ltb, leb, if◌then◌else◌,
}
use quanta.Common.Word.{test_bits, update}

pub record Plic : Type 0 where
  pub priority : ℕ → ℕ
  pub enable : ℕ → ℕ
  pub threshold : ℕ → ℕ
  pub claimed : ℕ → ℕ

abbrev pub nsources : ℕ
nsources = 32

-- Two contexts for each of the eight harts.
abbrev pub ncontexts : ℕ
ncontexts = 16

-- The four `continue` tests of `plic_best`.
unfoldable pub presents : Plic → ℕ → ℕ → ℕ → Bool
presents pl lines ctx s =
    test_bits lines (2 ^ s)
    && test_bits (pl.enable ctx) (2 ^ s)
    && not (s == pl.claimed ctx)
    && not (leb (pl.priority s) (pl.threshold ctx))

-- The scan of the sources, with the rounds left.
unfoldable pub best_from : Plic → ℕ → ℕ → ℕ → ℕ → ℕ → ℕ → ℕ
best_from pl lines ctx zero s best best_prio = best
best_from pl lines ctx (suc left) s best best_prio =
    let better = presents pl lines ctx s && ltb best_prio (pl.priority s) in
    best_from pl lines ctx left (s + 1) (if better then s else best)
      (if better then pl.priority s else best_prio)

unfoldable pub plic_best : Plic → ℕ → ℕ → ℕ
plic_best pl lines ctx = best_from pl lines ctx (nsources - 1) 1 0 0

unfoldable pub plic_claim : Plic → ℕ → ℕ → ℕ × Plic
plic_claim pl lines ctx =
    let s = plic_best pl lines ctx in
    if s == 0 then (s, pl) else (s, record pl { claimed = update pl.claimed ctx s })

abbrev pub in_enable : ℕ → Bool
in_enable off = leb 0x2000 off && ltb off (0x2000 + ncontexts * 0x80)

abbrev pub in_context : ℕ → Bool
in_context off = leb 0x200000 off && ltb off (0x200000 + ncontexts * 0x1000)

unfoldable pub plic_read : Plic → ℕ → ℕ → ℕ × Plic
plic_read pl lines off =
    let rel = off - 0x2000 in
    let crel = off - 0x200000 in
    let ctx = crel / 0x1000 in
    let reg = crel % 0x1000 in
    if ltb off 0x1000
    then ((if ltb (off / 4) nsources then pl.priority (off / 4) else 0), pl)
    else if off == 0x1000
    then (lines, pl)
    else if in_enable off
    then ((if rel % 0x80 == 0 then pl.enable (rel / 0x80) else 0), pl)
    else if in_context off && reg == 0
    then (pl.threshold ctx, pl)
    else if in_context off && reg == 4
    then plic_claim pl lines ctx
    else (0, pl)

unfoldable pub plic_write : Plic → ℕ → ℕ → Plic
plic_write pl off val =
    let s = off / 4 in
    let rel = off - 0x2000 in
    let crel = off - 0x200000 in
    let ctx = crel / 0x1000 in
    let reg = crel % 0x1000 in
    if ltb off 0x1000
    then (if leb 1 s && ltb s nsources
        then record pl { priority = update pl.priority s val }
        else pl)
    else if in_enable off
    then (if rel % 0x80 == 0 then record pl { enable = update pl.enable (rel / 0x80) val } else pl)
    else if in_context off
    then (if reg == 0
        then record pl { threshold = update pl.threshold ctx val }
        else if reg == 4 && val == pl.claimed ctx
        then record pl { claimed = update pl.claimed ctx 0 }
        else pl)
    else pl
