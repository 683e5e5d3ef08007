-- ===== src/Netstack/Keep/Segments.antt =====
-- What a segment of the guest does to the flow table of src/netstack.c.
use quanta.Common.{
  ℕ, ◌+◌, ◌≡◌, arith, refl, Bool, true, false, inl, inr, Bool-cases, if◌then◌else◌, not, ◌&&◌, ltb,
  leb, ◌==◌, ==_refl,
}
use quanta.Common.Word.{update, test_bits, sub32, u32}
use quanta.Netstack.{NatFlow, NetStack, Host, Takes, with_flow, emit, ts_estab, ts_synrcvd}
use quanta.Netstack.Flow.{live, flow_free}
use quanta.Netstack.Tcp.{tcp_out, tcp_signal, tcp_flush_h2g, tcp_drain_g2h}
use quanta.Netstack.Segment.{
  Segment, advance_una, establish, fin_seen, acknowledge, buffer_guest, acked, take_payload,
  take_fin, finish_segment, on_segment,
}
use quanta.Netstack.Table.{
  Inherits, Evolves, Inherits-refl, Inherits-trans, Evolves-refl, Evolves-trans, flow_free-Evolves,
}
use quanta.Netstack.Keep.{
  either, stack_flows, pair_flows, edit, inherits, tcp_flush_h2g-Evolves, tcp_maybe_close-Evolves,
  tcp_drain_g2h-Evolves,
}

advance_una-Inherits : (f : NatFlow) (s : Segment) → Inherits (advance_una f s) f
unfolding advance_una live
advance_una-Inherits f s =
    elim (Bool-cases
      (test_bits s.flags 0x10 && leb (sub32 s.ack f.snd_una) (sub32 f.snd_nxt f.snd_una))) [
        | inl e ↦ rw e (inherits _ f (λ l. l) refl refl refl refl (λ h. h) λ h. h)
        | inr e ↦ rw e (inherits _ f (λ l. l) refl refl refl refl (λ h. h) λ h. h)
      ]

establish-Inherits : (f : NatFlow) (s : Segment) → Inherits (establish f s) f
unfolding establish live
establish-Inherits f s =
    elim (Bool-cases (f.state == ts_synrcvd && test_bits s.flags 0x10 && f.snd_una == f.snd_nxt)) [
      | inl e ↦
          let begun : live f ≡ true = ground arith in
          rw e (inherits _ f (λ l. begun) refl refl refl refl (λ h. h) λ h. h)
      | inr e ↦ rw e (Inherits-refl f)
    ]

acknowledge-Inherits : (f : NatFlow) (s : Segment) → Inherits (acknowledge f s) f
unfolding acknowledge
acknowledge-Inherits f s =
    Inherits-trans (acknowledge f s) (advance_una f s) f (establish-Inherits (advance_una f s) s)
      (advance_una-Inherits f s)

buffer_guest-Evolves :
    (host : Host) (ns : NetStack) (id : ℕ) (s : Segment)
    → Evolves ns.flows (buffer_guest host ns id s).flows
unfolding buffer_guest live
buffer_guest-Evolves host ns id s =
    let f = ns.flows id in
    either ns.flows stack_flows _ _ ns
      (edit ns id _ (inherits _ f (λ l. l) refl refl refl refl (λ h. omega arith) λ h. h))
      (Evolves-refl ns.flows)

acked-Evolves :
    (flows : ℕ → NatFlow) (id : ℕ) (o : Bool × NetStack)
    → Evolves flows o.1.flows
    → Evolves flows (acked id o).1.flows
unfolding acked tcp_out emit
acked-Evolves flows id (true, ns) p = p
acked-Evolves flows id (false, ns) p = p

take_payload-Evolves :
    (host : Host) (takes : Takes host) (ns : NetStack) (id : ℕ) (s : Segment)
    → Evolves ns.flows (take_payload host ns id s).1.flows
unfolding take_payload tcp_out emit
take_payload-Evolves host takes ns id s =
    let kept = buffer_guest host ns id s in
    let f = ns.flows id in
    let again : Bool × NetStack =
      if ltb 0 s.plen && not (s.seq == f.rcv_nxt)
      then (true, tcp_signal ns f 0x10)
      else (true, ns) in
    either ns.flows pair_flows
      (ltb 0 s.plen && f.state == ts_estab && s.seq == f.rcv_nxt && not f.guest_fin)
      (acked id (tcp_drain_g2h host kept id)) again
      (acked-Evolves ns.flows id (tcp_drain_g2h host kept id) (
        Evolves-trans ns.flows kept.flows _ (buffer_guest-Evolves host ns id s)
          (tcp_drain_g2h-Evolves host takes kept id)))
      (either ns.flows pair_flows (ltb 0 s.plen && not (s.seq == f.rcv_nxt))
        (true, tcp_signal ns f 0x10) (true, ns) (Evolves-refl ns.flows) (Evolves-refl ns.flows))

take_fin-Evolves :
    (host : Host) (takes : Takes host) (id : ℕ) (s : Segment) (o : Bool × NetStack)
    → Evolves o.1.flows (take_fin host id s o).1.flows
unfolding take_fin tcp_out emit live with_flow fin_seen
take_fin-Evolves host takes id s (false, ns) = Evolves-refl ns.flows
take_fin-Evolves host takes id s (true, ns) =
    let f = ns.flows id in
    let g : NatFlow = record (fin_seen f) { shutdown_pending = true } in
    let told = tcp_signal (with_flow ns id (fin_seen f)) (fin_seen f) 0x10 in
    let marked = with_flow told id g in
    let here : Inherits g (update ns.flows id (fin_seen f) id) =
      rw (==_refl id) (inherits g (fin_seen f) (λ l. l) refl refl refl refl (λ h. h) λ h. h) in
    either ns.flows pair_flows
      (test_bits s.flags 0x01 && not f.guest_fin && u32 (s.seq + s.plen) == f.rcv_nxt)
      (tcp_drain_g2h host marked id) (true, ns)
      (Evolves-trans ns.flows told.flows _
        (edit ns id (fin_seen f)
          (inherits (fin_seen f) f (λ l. l) refl refl refl refl (λ h. h) λ h. h))
        (Evolves-trans told.flows marked.flows _ (edit told id g here)
          (tcp_drain_g2h-Evolves host takes marked id)))
      (Evolves-refl ns.flows)

finish_segment-Evolves :
    (id : ℕ) (o : Bool × NetStack) → Evolves o.1.flows (finish_segment id o).flows
unfolding finish_segment
finish_segment-Evolves id (false, ns) = Evolves-refl ns.flows
finish_segment-Evolves id (true, ns) =
    Evolves-trans ns.flows (tcp_flush_h2g ns id).flows _ (tcp_flush_h2g-Evolves ns id)
      (tcp_maybe_close-Evolves (tcp_flush_h2g ns id) id)

pub on_segment-Evolves :
    (host : Host) (takes : Takes host) (ns : NetStack) (id : ℕ) (s : Segment)
    → Evolves ns.flows (on_segment host ns id s).flows
unfolding on_segment
on_segment-Evolves host takes ns id s =
    let seen = with_flow ns id (acknowledge (ns.flows id) s) in
    let taken = take_payload host seen id s in
    let closed = take_fin host id s taken in
    either ns.flows stack_flows _ (flow_free ns id) (finish_segment id closed)
      (flow_free-Evolves ns id)
      (Evolves-trans ns.flows seen.flows _
        (edit ns id (acknowledge (ns.flows id) s) (acknowledge-Inherits (ns.flows id) s))
        (Evolves-trans seen.flows taken.1.flows _ (take_payload-Evolves host takes seen id s) (
          Evolves-trans taken.1.flows closed.1.flows _ (take_fin-Evolves host takes id s taken)
            (finish_segment-Evolves id closed))))
