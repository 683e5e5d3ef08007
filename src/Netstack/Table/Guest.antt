-- ===== src/Netstack/Table/Guest.antt =====
-- The table of src/netstack.c under the guest's segments and datagrams.
use quanta.Common.{
  ℕ, ◌+◌, ◌≡◌, refl, Bool, true, false, inl, inr, Bool-cases, if◌then◌else◌, Option, none, some,
}
use quanta.Common.Word.{test_bits, u32}
use quanta.Netstack.{NetStack, Host, Takes, with_flow, emit, opens, proto_udp, proto_tcp}
use quanta.Netstack.Flow.{
  ask, live, flow_free, flow_find, flow_alloc, new_flow, udp_nat, udp_open, udp_flow, udp_send,
}
use quanta.Netstack.Tcp.{tcp_out, tcp_signal}
use quanta.Netstack.Segment.{Segment, handshake, tcp_connect, route, handle_tcp}
use quanta.Netstack.Table.{
  IsTable, flow_free-Evolves, Evolves-IsTable, flow_alloc_cases, new_flow-IsTable,
}
use quanta.Netstack.Keep.{edit, inherits}
use quanta.Netstack.Keep.Segments.{on_segment-Evolves}

-- What stays a table.
abbrev pub HasTable : NetStack → Type 0
HasTable ns = IsTable ns.flows

pub both {ℓ} :
    {A : Type ℓ} (P : A → Type 0) (b : Bool) (x y : A) → P x → P y → P (if b then x else y)
both P true x y p q = p
both P false x y p q = q

tcp_connect-IsTable :
    (host : Host) (ns : NetStack) (sport : ℕ) (rip : ℕ → ℕ) (dport : ℕ) (s : Segment)
    → IsTable ns.flows
    → flow_find ns proto_tcp sport rip dport ≡ none
    → IsTable (tcp_connect host ns dport s (flow_alloc ns proto_tcp sport rip dport)).flows
unfolding tcp_connect ask tcp_out emit handshake live
tcp_connect-IsTable host ns sport rip dport s t missing =
    elim (flow_alloc_cases ns proto_tcp sport rip dport) [
      | inl e ↦ rw e t
      | inr (id, (e, free)) ↦
          let opened = with_flow ns id (new_flow ns proto_tcp sport rip dport) in
          let isn = u32 (opened.tcp_isn + 0x1000) in
          let f = handshake (opened.flows id) isn s in
          let asked =
            ask (record (with_flow opened id f) { tcp_isn = isn })
              (opens id proto_tcp f.real_ip dport) in
          let begun : IsTable asked.flows =
            Evolves-IsTable opened.flows (with_flow opened id f).flows
              (edit opened id f
                (inherits f (opened.flows id) (λ l. l) refl refl refl refl (λ h. h) λ h. h))
              (new_flow-IsTable ns proto_tcp sport rip dport id t missing) in
          rw e (
            both HasTable (host.grants asked.log) asked (flow_free (tcp_signal asked f 0x14) id)
              begun
              (Evolves-IsTable asked.flows _ (flow_free-Evolves (tcp_signal asked f 0x14) id)
                begun))
    ]

route-IsTable :
    (host : Host) (takes : Takes host) (ns : NetStack) (sport : ℕ) (rip : ℕ → ℕ) (dport : ℕ)
    (s : Segment) (o : Option ℕ)
    → IsTable ns.flows
    → flow_find ns proto_tcp sport rip dport ≡ o
    → IsTable (route host ns sport rip dport s o).flows
unfolding route
route-IsTable host takes ns sport rip dport s (some id) t e =
    Evolves-IsTable ns.flows _ (on_segment-Evolves host takes ns id s) t
route-IsTable host takes ns sport rip dport s none t e =
    both HasTable (test_bits s.flags 0x02)
      (tcp_connect host ns dport s (flow_alloc ns proto_tcp sport rip dport)) ns
      (tcp_connect-IsTable host ns sport rip dport s t e) t

pub handle_tcp-IsTable :
    (host : Host) (takes : Takes host) (ns : NetStack) (frame : ℕ → ℕ) (ipoff ihl iptotal : ℕ)
    → IsTable ns.flows
    → IsTable (handle_tcp host ns frame ipoff ihl iptotal).flows
unfolding handle_tcp
handle_tcp-IsTable host takes ns frame ipoff ihl iptotal t = search (both HasTable, route-IsTable)

udp_flow-IsTable :
    (host : Host) (ns : NetStack) (sport : ℕ) (rip : ℕ → ℕ) (dport : ℕ) (payload : ℕ → ℕ) (plen : ℕ)
    (o : Option ℕ)
    → IsTable ns.flows
    → flow_find ns proto_udp sport rip dport ≡ o
    → IsTable (udp_send ns payload plen (udp_flow host ns sport rip dport o)).flows
unfolding udp_flow udp_send ask udp_open
udp_flow-IsTable host ns sport rip dport payload plen (some id) t e = t
udp_flow-IsTable host ns sport rip dport payload plen none t e =
    elim (flow_alloc_cases ns proto_udp sport rip dport) [
      | inl a ↦ rw a t
      | inr (id, (a, free)) ↦
          let opened = with_flow ns id (new_flow ns proto_udp sport rip dport) in
          let asked = ask opened (opens id proto_udp (opened.flows id).real_ip dport) in
          let begun = new_flow-IsTable ns proto_udp sport rip dport id t e in
          rw a elim (Bool-cases (host.grants asked.log)) [
            | inl g ↦ rw g begun
            | inr g ↦ rw g (Evolves-IsTable asked.flows _ (flow_free-Evolves asked id) begun)
          ]
    ]

pub udp_nat-IsTable :
    (host : Host) (ns : NetStack) (frame : ℕ → ℕ) (ipoff ihl iptotal : ℕ)
    → IsTable ns.flows
    → IsTable (udp_nat host ns frame ipoff ihl iptotal).flows
unfolding udp_nat
udp_nat-IsTable host ns frame ipoff ihl iptotal t = search (both HasTable, udp_flow-IsTable)
