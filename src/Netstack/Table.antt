-- ===== src/Netstack/Table.antt =====
-- The NAT table of src/netstack.c as its operations leave it: no two flows for the same endpoints,
-- and no buffer longer than its allocation.
pub mod Guest
pub mod Steps
use quanta.Common.{
  ℕ, zero, suc, ◌+◌, ◌≤◌, ◌<◌, ◌≡◌, ◌⊎◌, arith, refl, sym, ap, ◌∙◌, Bool, true, false, not, ◌&&◌,
  ◌==◌, inl, inr, Bool-cases, Option-cases, Option, none, some, ==_refl,
}
use quanta.Common.Word.{update}
use quanta.Netstack.{NatFlow, NetStack, ts_free, nat_max, tcp_buf, same_ip, with_flow}
use quanta.Netstack.Flow.{
  live, matches, find_from, flow_find, flow_alloc, take_slot, new_flow, flow_free, empty_flow,
}

pub record IsBounded (f : NatFlow) : Type 0 where
  pub to_host : f.g2h_len ≤ tcp_buf
  pub to_guest : f.h2g_len ≤ tcp_buf

-- Two flows that are in use for the same endpoints.
pub record Clash (f g : NatFlow) : Type 0 where
  pub first_live : live f ≡ true
  pub second_live : live g ≡ true
  pub proto_eq : f.proto ≡ g.proto
  pub guest_eq : f.guest_port ≡ g.guest_port
  pub face_eq : f.face_port ≡ g.face_port
  pub ip_eq : same_ip f.face_ip g.face_ip ≡ true

pub record IsTable (flows : ℕ → NatFlow) : Type 0 where
  pub bounded : (i : ℕ) → IsBounded (flows i)
  pub unique : (i j : ℕ) → i < nat_max → j < nat_max → Clash (flows i) (flows j) → i ≡ j

-- A flow that stands where another stood: free, or for the same endpoints.
pub record SameEnds (g f : NatFlow) : Type 0 where
  pub was_live : live f ≡ true
  pub same_proto : g.proto ≡ f.proto
  pub same_guest : g.guest_port ≡ f.guest_port
  pub same_face : g.face_port ≡ f.face_port
  pub same_address : g.face_ip ≡ f.face_ip

pub record Inherits (g f : NatFlow) : Type 0 where
  pub ends : live g ≡ true → SameEnds g f
  pub bounds : IsBounded f → IsBounded g

-- Each slot holds what it held, or nothing.
abbrev pub Evolves : (ℕ → NatFlow) → (ℕ → NatFlow) → Type 0
Evolves a b = (i : ℕ) → Inherits (b i) (a i)

pub Inherits-refl : (f : NatFlow) → Inherits f f
Inherits-refl f = record {
  ends = λ h. record {
    was_live = h;
    same_proto = refl;
    same_guest = refl;
    same_face = refl;
    same_address = refl;
  };
  bounds = λ b. b;
}

pub Inherits-trans : (h g f : NatFlow) → Inherits h g → Inherits g f → Inherits h f
Inherits-trans h g f p q = record {
  ends = λ l.
      let x = p.ends l in
      let y = q.ends x.was_live in
      record {
        was_live = y.was_live;
        same_proto = x.same_proto ∙ y.same_proto;
        same_guest = x.same_guest ∙ y.same_guest;
        same_face = x.same_face ∙ y.same_face;
        same_address = x.same_address ∙ y.same_address;
      };
  bounds = λ b. p.bounds (q.bounds b);
}

pub Evolves-refl : (a : ℕ → NatFlow) → Evolves a a
Evolves-refl a i = Inherits-refl (a i)

pub Evolves-trans : (a b c : ℕ → NatFlow) → Evolves a b → Evolves b c → Evolves a c
Evolves-trans a b c p q i = Inherits-trans (c i) (b i) (a i) (q i) (p i)

pub update-Evolves :
    (a : ℕ → NatFlow) (id : ℕ) (g : NatFlow) → Inherits g (a id) → Evolves a (update a id g)
update-Evolves a id g p i = elim (Bool-cases (i == id)) [
  | inl e ↦ let same : i ≡ id = ground arith in rw same rw (==_refl id) p
  | inr e ↦ rw e (Inherits-refl (a i))
]

empty-Inherits : (f : NatFlow) → Inherits empty_flow f
unfolding live
empty-Inherits f = record {
  ends = λ h. absurd (ground (arith, h));
  bounds = λ b. record { to_host = omega arith; to_guest = omega arith };
}

pub flow_free-Evolves : (ns : NetStack) (id : ℕ) → Evolves ns.flows (flow_free ns id).flows
unfolding flow_free with_flow quanta.Netstack.Flow.ask
flow_free-Evolves ns id = elim (Bool-cases (live (ns.flows id))) [
  | inl e ↦ elim (Bool-cases ns.attached) [
    | inl a ↦ rw e rw a (update-Evolves ns.flows id empty_flow (empty-Inherits (ns.flows id)))
    | inr a ↦ rw e rw a (update-Evolves ns.flows id empty_flow (empty-Inherits (ns.flows id)))
  ]
  | inr e ↦ rw e (Evolves-refl ns.flows)
]

Clash-before : (f g f' g' : NatFlow) → SameEnds f' f → SameEnds g' g → Clash f' g' → Clash f g
Clash-before f g f' g' p q c = record {
  first_live = p.was_live;
  second_live = q.was_live;
  proto_eq = sym p.same_proto ∙ c.proto_eq ∙ q.same_proto;
  guest_eq = sym p.same_guest ∙ c.guest_eq ∙ q.same_guest;
  face_eq = sym p.same_face ∙ c.face_eq ∙ q.same_face;
  ip_eq =
      sym (
        ap (λ t. same_ip t g'.face_ip) p.same_address
        ∙ ap (λ t. same_ip f.face_ip t) q.same_address)
      ∙ c.ip_eq;
}

-- What evolves from a table is a table.
pub Evolves-IsTable : (a b : ℕ → NatFlow) → Evolves a b → IsTable a → IsTable b
Evolves-IsTable a b p t = record {
  bounded = λ i. (p i).bounds (t.bounded i);
  unique = λ i j hi hj c.
      t.unique i j hi hj (
        Clash-before (a i) (a j) (b i) (b j) ((p i).ends c.first_live) ((p j).ends c.second_live)
          c);
}

find_from-none :
    (flows : ℕ → NatFlow) (wanted : NatFlow → Bool) (left i j : ℕ)
    → find_from flows wanted left i ≡ none
    → i ≤ j
    → j < i + left
    → wanted (flows j) ≡ false
unfolding find_from
find_from-none flows wanted zero i j e low high = absurd (omega arith)
find_from-none flows wanted (suc left) i j e low high =
    let rest = find_from-none flows wanted left (i + 1) j in
    elim (Bool-cases (wanted (flows i))) [
      | inl w ↦ absurd (ground (arith, e, w))
      | inr w ↦ elim (Bool-cases (i == j)) [
        | inl s ↦ let same : i ≡ j = ground arith in rw (sym same) w
        | inr s ↦
            let further : find_from flows wanted left (i + 1) ≡ none = ground (arith, e, w) in
            rest further (ground arith) (omega arith)
      ]
    ]

find_from-some :
    (flows : ℕ → NatFlow) (wanted : NatFlow → Bool) (left i j : ℕ)
    → find_from flows wanted left i ≡ some j
    → (wanted (flows j) ≡ true) × ((i ≤ j) × (j < i + left))
unfolding find_from
find_from-some flows wanted zero i j e = absurd (ground (arith, e))
find_from-some flows wanted (suc left) i j e =
    let rest = find_from-some flows wanted left (i + 1) j in
    elim (Bool-cases (wanted (flows i))) [
      | inl w ↦
          let same : i ≡ j = ground (arith, e, w) in rw (sym same) (w, (omega arith, omega arith))
      | inr w ↦
          let further : find_from flows wanted left (i + 1) ≡ some j = ground (arith, e, w) in
          let (found, (low, high)) = rest further in (found, (omega arith, omega arith))
    ]

same_ip_sym : (a b : ℕ → ℕ) → same_ip a b ≡ true → same_ip b a ≡ true
unfolding same_ip
same_ip_sym a b h = ground arith

-- A flow that clashes with another matches a search for the other's endpoints.
Clash-matches :
    (f g : NatFlow) → Clash f g → matches f g.proto g.guest_port g.face_ip g.face_port ≡ true
unfolding matches
Clash-matches f g c = ground (arith, c.first_live, c.proto_eq, c.guest_eq, c.face_eq, c.ip_eq)

Clash-sym : (f g : NatFlow) → Clash f g → Clash g f
Clash-sym f g c = record {
  first_live = c.second_live;
  second_live = c.first_live;
  proto_eq = sym c.proto_eq;
  guest_eq = sym c.guest_eq;
  face_eq = sym c.face_eq;
  ip_eq = same_ip_sym f.face_ip g.face_ip c.ip_eq;
}

-- A flow for new endpoints, in any slot.
pub insert-IsTable :
    (flows : ℕ → NatFlow) (id : ℕ) (f : NatFlow)
    → IsTable flows
    → IsBounded f
    → ((j : ℕ) → j < nat_max → matches (flows j) f.proto f.guest_port f.face_ip f.face_port ≡ false)
    → IsTable (update flows id f)
insert-IsTable flows id f t b fresh = record {
  bounded = λ i. elim (Bool-cases (i == id)) [ inl e ↦ rw e b | inr e ↦ rw e (t.bounded i) ];
  unique = λ i j hi hj. elim (Bool-cases (i == id)) [
    | inl e ↦ elim (Bool-cases (j == id)) [
      | inl e' ↦ λ c. ground (arith, e, e')
      | inr e' ↦ rw e rw e' λ (c : Clash f (flows j)).
          absurd (ground (arith, Clash-matches (flows j) f (Clash-sym f (flows j) c), fresh j hj))
    ]
    | inr e ↦ elim (Bool-cases (j == id)) [
      | inl e' ↦ rw e rw e' λ (c : Clash (flows i) f).
          absurd (ground (arith, Clash-matches (flows i) f c, fresh i hi))
      | inr e' ↦ rw e rw e' (t.unique i j hi hj)
    ]
  ];
}

-- An allocation gives nothing, or the first free slot, in range.
pub flow_alloc_cases :
    (ns : NetStack) (proto gport : ℕ) (rip : ℕ → ℕ) (rport : ℕ)
    → (flow_alloc ns proto gport rip rport ≡ none)
      ⊎ ((id : ℕ) × ((flow_alloc ns proto gport rip rport
              ≡ some (id, with_flow ns id (new_flow ns proto gport rip rport)))
            × ((live (ns.flows id) ≡ false) × (id < nat_max))))
unfolding flow_alloc take_slot live
flow_alloc_cases ns proto gport rip rport = elim (Bool-cases ns.attached) [
  | inr a ↦ rw a (inl refl)
  | inl a ↦
      let free : NatFlow → Bool = λ f. f.state == ts_free in
      rw a elim (Option-cases (find_from ns.flows free nat_max 0)) [
        | inl e ↦ rw e (inl refl)
        | inr (id, e) ↦
            let (unused, (low, high)) = find_from-some ns.flows free nat_max 0 id e in
            rw e (inr (id, (refl, (ap not unused, high))))
      ]
]

-- The table with a new flow, where the search for its endpoints found none.
pub new_flow-IsTable :
    (ns : NetStack) (proto gport : ℕ) (rip : ℕ → ℕ) (rport id : ℕ)
    → IsTable ns.flows
    → flow_find ns proto gport rip rport ≡ none
    → IsTable (with_flow ns id (new_flow ns proto gport rip rport)).flows
unfolding flow_find with_flow new_flow
new_flow-IsTable ns proto gport rip rport id t missing =
    insert-IsTable ns.flows id (new_flow ns proto gport rip rport) t
      (record { to_host = omega arith; to_guest = omega arith })
      λ j h.
        find_from-none ns.flows (λ f. matches f proto gport rip rport) nat_max 0 j missing
          (omega arith) (omega arith)
