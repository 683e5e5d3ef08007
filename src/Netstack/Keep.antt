-- ===== src/Netstack/Keep.antt =====
-- What the TCP operations of src/netstack.c do to the flow table.
pub mod Segments
use quanta.Common.{
  ℕ, zero, suc, ◌+◌, ◌-◌, ◌≤◌, ◌<◌, ◌≡◌, arith, refl, Bool, true, false, inl, inr, Bool-cases,
  if◌then◌else◌, Option-cases, not, ◌&&◌, Option, none, some, ltb, leb, min, ◌==◌, ==_refl,
}
use quanta.Common.Word.{update, test_bits, sub32, u32}
use quanta.Netstack.{
  NatFlow, NetStack, Host, Takes, offered, with_flow, emit, ts_estab, ts_synrcvd, tcp_buf, opens,
  sends, proto_udp, proto_tcp,
}
use quanta.Netstack.Flow.{
  ask, live, flow_free, flow_find, flow_alloc, new_flow, udp_nat, udp_open, udp_flow, udp_send,
}
use quanta.Netstack.Tcp.{
  tcp_out, tcp_signal, flush_one, flush_rounds, flush_fin, tcp_flush_h2g, drained, honour_shutdown,
  tcp_drain_g2h, tcp_maybe_close, can_flush, chunk_sent, flush_chunk,
}
use quanta.Netstack.Segment.{
  Segment, advance_una, establish, fin_seen, handshake, tcp_connect, acknowledge, buffer_guest,
  acked, take_payload, take_fin, finish_segment, on_segment, route, handle_tcp,
}
use quanta.Netstack.Table.{
  IsBounded, IsTable, SameEnds, Inherits, Evolves, Inherits-refl, Inherits-trans, Evolves-refl,
  Evolves-trans, update-Evolves, flow_free-Evolves, Evolves-IsTable, flow_alloc_cases,
  new_flow-IsTable,
}

-- Both branches of a test.
pub either {ℓ} :
    {A : Type ℓ} (flows : ℕ → NatFlow) (see : A → ℕ → NatFlow) (b : Bool) (x y : A)
    → Evolves flows (see x)
    → Evolves flows (see y)
    → Evolves flows (see (if b then x else y))
either flows see true x y p q = p
either flows see false x y p q = q

abbrev pub stack_flows : NetStack → ℕ → NatFlow
stack_flows ns = ns.flows

abbrev pub pair_flows : Bool × NetStack → ℕ → NatFlow
pair_flows (alive, ns) = ns.flows

-- An edit that leaves a flow's endpoints and brings no flow to life.
pub edit :
    (ns : NetStack) (id : ℕ) (g : NatFlow)
    → Inherits g (ns.flows id)
    → Evolves ns.flows (with_flow ns id g).flows
unfolding with_flow
edit ns id g p = update-Evolves ns.flows id g p

pub inherits :
    (g f : NatFlow)
    → (live g ≡ true → live f ≡ true)
    → g.proto ≡ f.proto
    → g.guest_port ≡ f.guest_port
    → g.face_port ≡ f.face_port
    → g.face_ip ≡ f.face_ip
    → (f.g2h_len ≤ tcp_buf → g.g2h_len ≤ tcp_buf)
    → (f.h2g_len ≤ tcp_buf → g.h2g_len ≤ tcp_buf)
    → Inherits g f
inherits g f l p gp fp ip a b = record {
  ends = λ h. record {
    was_live = l h;
    same_proto = p;
    same_guest = gp;
    same_face = fp;
    same_address = ip;
  };
  bounds = λ k. record { to_host = a k.to_host; to_guest = b k.to_guest };
}

flush_one-Evolves : (ns : NetStack) (id : ℕ) → Evolves ns.flows (flush_one ns id).flows
unfolding flush_one tcp_out emit with_flow live chunk_sent
flush_one-Evolves ns id =
    let f = ns.flows id in
    edit ns id (chunk_sent f (flush_chunk f)) (
      inherits (chunk_sent f (flush_chunk f)) f (λ l. l) refl refl refl refl (λ h. h)
        λ h. omega arith)

flush_rounds-Evolves :
    (id left : ℕ) (ns : NetStack) → Evolves ns.flows (flush_rounds id left ns).flows
unfolding flush_rounds
flush_rounds-Evolves id zero ns = Evolves-refl ns.flows
flush_rounds-Evolves id (suc left) ns =
    let rest = flush_rounds-Evolves id left (flush_one ns id) in
    either ns.flows stack_flows (can_flush (ns.flows id)) _ ns
      (Evolves-trans ns.flows (flush_one ns id).flows _ (flush_one-Evolves ns id) rest)
      (Evolves-refl ns.flows)

flush_fin-Evolves : (ns : NetStack) (id : ℕ) → Evolves ns.flows (flush_fin ns id).flows
unfolding flush_fin tcp_out emit with_flow live
flush_fin-Evolves ns id =
    let f = ns.flows id in
    either ns.flows stack_flows (f.host_eof && f.h2g_len == 0 && not f.fin_sent) _ ns
      (edit ns id _ (inherits _ f (λ l. l) refl refl refl refl (λ h. h) λ h. h))
      (Evolves-refl ns.flows)

pub tcp_flush_h2g-Evolves : (ns : NetStack) (id : ℕ) → Evolves ns.flows (tcp_flush_h2g ns id).flows
unfolding tcp_flush_h2g
tcp_flush_h2g-Evolves ns id =
    let f = ns.flows id in
    let sent = flush_rounds id f.h2g_len ns in
    either ns.flows stack_flows (f.state == ts_estab) (flush_fin sent id) ns
      (Evolves-trans ns.flows sent.flows (flush_fin sent id).flows
        (flush_rounds-Evolves id f.h2g_len ns) (flush_fin-Evolves sent id))
      (Evolves-refl ns.flows)

pub tcp_maybe_close-Evolves :
    (ns : NetStack) (id : ℕ) → Evolves ns.flows (tcp_maybe_close ns id).flows
unfolding tcp_maybe_close
tcp_maybe_close-Evolves ns id =
    either ns.flows stack_flows _ (flow_free ns id) ns (flow_free-Evolves ns id)
      (Evolves-refl ns.flows)

drained-Evolves :
    (ns : NetStack) (id : ℕ) (o : Option ℕ)
    → ((n : ℕ) → o ≡ some n → n ≤ (ns.flows id).g2h_len)
    → Evolves ns.flows (drained ns id o).1.flows
unfolding drained tcp_out emit live
drained-Evolves ns id none h = flow_free-Evolves (tcp_signal ns (ns.flows id) 0x04) id
drained-Evolves ns id (some n) h =
    let few = h n refl in
    edit ns id _ (inherits _ (ns.flows id) (λ l. l) refl refl refl refl (λ h. omega arith) λ h. h)

honour_shutdown-Evolves : (ns : NetStack) (id : ℕ) → Evolves ns.flows (honour_shutdown ns id).flows
unfolding honour_shutdown ask with_flow live
honour_shutdown-Evolves ns id =
    either ns.flows stack_flows _ _ ns
      (edit ns id _ (inherits _ (ns.flows id) (λ l. l) refl refl refl refl (λ h. h) λ h. h))
      (Evolves-refl ns.flows)

pub tcp_drain_g2h-Evolves :
    (host : Host) (takes : Takes host) (ns : NetStack) (id : ℕ)
    → Evolves ns.flows (tcp_drain_g2h host ns id).1.flows
unfolding tcp_drain_g2h ask offered
tcp_drain_g2h-Evolves host takes ns id =
    let f = ns.flows id in
    let asked = ask ns (sends id f.g2h f.g2h_len) in
    let sent : Bool × NetStack =
      if f.has_g2h && ltb 0 f.g2h_len
      then drained asked id (host.accepts asked.log)
      else (true, ns) in
    let first : Evolves ns.flows sent.1.flows =
      either ns.flows pair_flows (f.has_g2h && ltb 0 f.g2h_len)
        (drained asked id (host.accepts asked.log)) (true, ns)
        (drained-Evolves asked id (host.accepts asked.log) λ n e. takes asked.log n e)
        (Evolves-refl ns.flows) in
    either ns.flows pair_flows sent.0 (true, honour_shutdown sent.1 id) (false, sent.1)
      (Evolves-trans ns.flows sent.1.flows (honour_shutdown sent.1 id).flows first
        (honour_shutdown-Evolves sent.1 id))
      first
