-- ===== src/Cpu/Access/Reservation.antt =====
-- Which LR reservations a store ends, of src/cpu.c.
use quanta.Common.{
  ℕ, ◌≡◌, arith, refl, Bool, true, false, ◌==◌, ltb, ◌&&◌, not, Option, none, some, inl, inr,
  Bool-cases, if◌then◌else◌,
}
use quanta.Device.Platform.{Platform}
use quanta.Common.Word.{clear64}
use quanta.Cpu.{Hart}
use quanta.Machine.{Machine, hart, set_cpu}
use quanta.Cpu.Access.{unreserve, siblings, break_reservation}

-- Whether a hart has a reservation at an address.
abbrev pub holds : Hart → ℕ → Bool
holds h addr = h.reserve_valid && h.reserve_addr == addr

unreserve-holds :
    (word addr : ℕ) (h : Hart)
    → holds (unreserve word h) addr ≡ (holds h addr && not (word == addr))
unfolding unreserve
unreserve-holds word addr h = ground arith

-- The harts that a store is to reach: all of a platform with more than one, else the running hart.
unfoldable pub reaches : Option Platform → ℕ → ℕ → Bool
reaches none cur i = i == cur
reaches (some p) cur i = if p.has_harts && ltb 1 p.nharts then ltb i p.nharts else i == cur

spared : (b : Bool) → b ≡ (b && not false)
spared true = refl
spared false = refl

own :
    (m : Machine) (addr i at : ℕ)
    → holds ((set_cpu m (unreserve (clear64 addr 3) (hart m))).harts i) at
      ≡ (holds (m.harts i) at && not (i == m.cur && clear64 addr 3 == at))
own m addr i at =
    let word = clear64 addr 3 in
    elim (Bool-cases (i == m.cur)) [
      | inl f ↦
          let same : i ≡ m.cur = ground (arith, f) in
          rw (f, same) (unreserve-holds word at (m.harts m.cur))
      | inr f ↦ rw f (spared (holds (m.harts i) at))
    ]

swept :
    (m : Machine) (addr i at : ℕ) (o : Option Platform)
    → m.mem.plat ≡ o
    → holds ((break_reservation m addr).harts i) at
      ≡ (holds (m.harts i) at && not (reaches o m.cur i && clear64 addr 3 == at))
unfolding break_reservation siblings reaches
swept m addr i at none e = rw e (own m addr i at)
swept m addr i at (some p) e = elim (Bool-cases (p.has_harts && ltb 1 p.nharts)) [
  | inr f ↦ rw (e, f) (own m addr i at)
  | inl f ↦
      let some_harts : (p.nharts == 0) ≡ false = ground (arith, f) in
      let word = clear64 addr 3 in
      elim (Bool-cases (ltb i p.nharts)) [
        | inl g ↦ rw (e, f, some_harts, g) (unreserve-holds word at (m.harts i))
        | inr g ↦ rw (e, f, some_harts, g) (spared (holds (m.harts i) at))
      ]
]

-- A store ends the reservations at the word that it starts in, and no others: of every hart of a
-- platform with more than one, and of the running hart otherwise. A hart is reserved at an address
-- afterwards exactly if it was before, unless the store reaches the hart and that word is the address.
pub break_reservation-holds :
    (m : Machine) (addr i at : ℕ)
    → holds ((break_reservation m addr).harts i) at
      ≡ (holds (m.harts i) at && not (reaches m.mem.plat m.cur i && clear64 addr 3 == at))
break_reservation-holds m addr i at = swept m addr i at m.mem.plat refl
