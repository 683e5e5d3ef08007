-- ===== src/Netstack/Table/Steps.antt =====
-- Histories of src/netstack.c: the guest's frames and the host's events in any order.
use quanta.Common.{
  ℕ, ◌+◌, ◌≡◌, arith, refl, Bool, true, false, inl, inr, Bool-cases, List, [], ◌∷◌, Option, none,
  some, ltb, ◌==◌, if◌then◌else◌, ◌&&◌, not, min, ◌-◌,
}
use quanta.Common.Word.{u32}
use quanta.Netstack.{
  ts_synrcvd, NatFlow, NetStack, Host, Takes, with_flow, emit, from, tcp_buf, put_bytes, proto_tcp,
  ts_connecting,
}
use quanta.Netstack.Gateway.{handle_arp, handle_icmp, handle_dhcp, dhcp_reply}
use quanta.Netstack.Flow.{live, udp_to_guest, flow_free}
use quanta.Netstack.Tcp.{
  tcp_out, tcp_synack, tcp_signal, tcp_flush_h2g, tcp_drain_g2h, tcp_maybe_close,
}
use quanta.Netstack.Input.{
  handle_udp, handle_ip, netstack_input, flow_by_id, host_connected, buffer_host, host_recv,
  host_closed, host_reset, reopen, host_writable, set_io,
}
use quanta.Netstack.Table.{
  IsTable, Evolves, Evolves-refl, Evolves-trans, Evolves-IsTable, flow_free-Evolves,
}
use quanta.Netstack.Table.Guest.{HasTable, both, handle_tcp-IsTable, udp_nat-IsTable}
use quanta.Netstack.Keep.{
  either, stack_flows, edit, inherits, tcp_flush_h2g-Evolves, tcp_maybe_close-Evolves,
  tcp_drain_g2h-Evolves,
}

-- What reaches the stack from outside.
pub data Stimulus : Type 0 where
  frame_in : (ℕ → ℕ) → ℕ → Stimulus
  connected closed reset writable : ℕ → Stimulus
  received : ℕ → (ℕ → ℕ) → ℕ → Stimulus
  attach : Bool → Option (ℕ → ℕ) → Stimulus

unfoldable pub step : Host → NetStack → Stimulus → NetStack
step host ns (frame_in frame len) = netstack_input host ns frame len
step host ns (connected id) = host_connected ns id
step host ns (closed id) = host_closed ns id
step host ns (reset id) = host_reset ns id
step host ns (writable id) = host_writable host ns id
step host ns (received id bytes len) = host_recv host ns id bytes len
step host ns (attach there dns) = set_io ns there dns

unfoldable pub run : Host → NetStack → List Stimulus → NetStack
run host ns [] = ns
run host ns (s ∷ rest) = run host (step host ns s) rest

handle_arp-IsTable :
    (ns : NetStack) (frame : ℕ → ℕ) (len : ℕ)
    → IsTable ns.flows
    → IsTable (handle_arp ns frame len).flows
unfolding handle_arp emit
handle_arp-IsTable ns frame len t = search (both HasTable) depth 7

handle_icmp-IsTable :
    (ns : NetStack) (frame : ℕ → ℕ) (ipoff ihl iptotal : ℕ)
    → IsTable ns.flows
    → IsTable (handle_icmp ns frame ipoff ihl iptotal).flows
unfolding handle_icmp emit
handle_icmp-IsTable ns frame ipoff ihl iptotal t = search (both HasTable) depth 7

dhcp_reply-IsTable :
    (ns : NetStack) (dhcp : ℕ → ℕ) (o : Option ℕ)
    → IsTable ns.flows
    → IsTable (dhcp_reply ns dhcp o).flows
unfolding dhcp_reply emit
dhcp_reply-IsTable ns dhcp none t = t
dhcp_reply-IsTable ns dhcp (some kind) t = t

handle_dhcp-IsTable :
    (ns : NetStack) (frame : ℕ → ℕ) (udpoff total : ℕ)
    → IsTable ns.flows
    → IsTable (handle_dhcp ns frame udpoff total).flows
unfolding handle_dhcp
handle_dhcp-IsTable ns frame udpoff total t = search (both HasTable, dhcp_reply-IsTable)

handle_udp-IsTable :
    (host : Host) (ns : NetStack) (frame : ℕ → ℕ) (ipoff ihl iptotal : ℕ)
    → IsTable ns.flows
    → IsTable (handle_udp host ns frame ipoff ihl iptotal).flows
unfolding handle_udp
handle_udp-IsTable host ns frame ipoff ihl iptotal t =
    search (both HasTable, handle_dhcp-IsTable, udp_nat-IsTable)

handle_ip-IsTable :
    (host : Host) (takes : Takes host) (ns : NetStack) (frame : ℕ → ℕ) (len : ℕ)
    → IsTable ns.flows
    → IsTable (handle_ip host ns frame len).flows
unfolding handle_ip
handle_ip-IsTable host takes ns frame len t =
    search (both HasTable, handle_icmp-IsTable, handle_udp-IsTable, handle_tcp-IsTable) depth 9

netstack_input-IsTable :
    (host : Host) (takes : Takes host) (ns : NetStack) (frame : ℕ → ℕ) (len : ℕ)
    → IsTable ns.flows
    → IsTable (netstack_input host ns frame len).flows
unfolding netstack_input
netstack_input-IsTable host takes ns frame len t =
    let learned : NetStack = record ns { guest_mac = from frame 6; have_guest_mac = true } in
    let arp = handle_arp-IsTable learned frame len t in
    let ip = handle_ip-IsTable host takes learned frame len t in search (both HasTable)

host_connected-Evolves : (ns : NetStack) (id : ℕ) → Evolves ns.flows (host_connected ns id).flows
unfolding host_connected tcp_synack emit live with_flow flow_by_id
host_connected-Evolves ns id =
    let f = ns.flows id in
    let g : NatFlow = record f { snd_nxt = u32 (f.snd_nxt + 1); state = ts_synrcvd } in
    elim (Bool-cases (flow_by_id ns id && f.proto == proto_tcp && f.state == ts_connecting)) [
      | inl e ↦
          let begun : live f ≡ true = ground arith in
          rw e (edit ns id g (inherits g f (λ l. begun) refl refl refl refl (λ h. h) λ h. h))
      | inr e ↦ rw e (Evolves-refl ns.flows)
    ]

host_recv-Evolves :
    (host : Host) (ns : NetStack) (id : ℕ) (bytes : ℕ → ℕ) (len : ℕ)
    → Evolves ns.flows (host_recv host ns id bytes len).flows
unfolding host_recv udp_to_guest emit buffer_host live
host_recv-Evolves host ns id bytes len =
    let f = ns.flows id in
    let fits = min len (tcp_buf - f.h2g_len) in
    let g : NatFlow = record f {
      has_h2g = true;
      h2g = put_bytes f.h2g f.h2g_len bytes fits;
      h2g_len = f.h2g_len + fits;
    } in
    let filled = with_flow ns id g in
    let flushed =
      Evolves-trans ns.flows filled.flows _
        (edit ns id g (inherits g f (λ l. l) refl refl refl refl (λ h. h) λ h. omega arith))
        (tcp_flush_h2g-Evolves filled id) in
    search (either ns.flows stack_flows, flushed, Evolves-refl)

host_closed-Evolves : (ns : NetStack) (id : ℕ) → Evolves ns.flows (host_closed ns id).flows
unfolding host_closed live
host_closed-Evolves ns id =
    let f = ns.flows id in
    let g : NatFlow = record f { host_eof = true } in
    let ended = with_flow ns id g in
    let flushed =
      Evolves-trans ns.flows ended.flows _
        (edit ns id g (inherits g f (λ l. l) refl refl refl refl (λ h. h) λ h. h))
        (Evolves-trans ended.flows (tcp_flush_h2g ended id).flows _ (tcp_flush_h2g-Evolves ended id)
          (tcp_maybe_close-Evolves (tcp_flush_h2g ended id) id)) in
    search (either ns.flows stack_flows, flushed, Evolves-refl, flow_free-Evolves)

host_reset-Evolves : (ns : NetStack) (id : ℕ) → Evolves ns.flows (host_reset ns id).flows
unfolding host_reset tcp_out emit
host_reset-Evolves ns id =
    let f = ns.flows id in
    let told = if f.proto == proto_tcp && not f.fin_sent then tcp_signal ns f 0x14 else ns in
    let quiet : Evolves ns.flows told.flows =
      either ns.flows stack_flows (f.proto == proto_tcp && not f.fin_sent) (tcp_signal ns f 0x14) ns
        (Evolves-refl ns.flows) (Evolves-refl ns.flows) in
    let ended =
      Evolves-trans ns.flows told.flows (flow_free told id).flows quiet
        (flow_free-Evolves told id) in
    search (either ns.flows stack_flows, ended, Evolves-refl)

reopen-Evolves :
    (id before : ℕ) (o : Bool × NetStack) → Evolves o.1.flows (reopen id before o).flows
unfolding reopen tcp_out emit
reopen-Evolves id before (false, ns) = Evolves-refl ns.flows
reopen-Evolves id before (true, ns) =
    let f = ns.flows id in
    let told = if ltb f.g2h_len before then tcp_signal ns f 0x10 else ns in
    let quiet : Evolves ns.flows told.flows =
      either ns.flows stack_flows (ltb f.g2h_len before) (tcp_signal ns f 0x10) ns
        (Evolves-refl ns.flows) (Evolves-refl ns.flows) in
    Evolves-trans ns.flows told.flows (tcp_maybe_close told id).flows quiet
      (tcp_maybe_close-Evolves told id)

host_writable-Evolves :
    (host : Host) (takes : Takes host) (ns : NetStack) (id : ℕ)
    → Evolves ns.flows (host_writable host ns id).flows
unfolding host_writable
host_writable-Evolves host takes ns id =
    let f = ns.flows id in
    let out = tcp_drain_g2h host ns id in
    let ended =
      Evolves-trans ns.flows out.1.flows (reopen id f.g2h_len out).flows
        (tcp_drain_g2h-Evolves host takes ns id) (reopen-Evolves id f.g2h_len out) in
    search (either ns.flows stack_flows, ended, Evolves-refl)

pub step-IsTable :
    (host : Host) (takes : Takes host) (ns : NetStack) (s : Stimulus)
    → IsTable ns.flows
    → IsTable (step host ns s).flows
unfolding step set_io
step-IsTable host takes ns (frame_in frame len) t = netstack_input-IsTable host takes ns frame len t
step-IsTable host takes ns (connected id) t =
    Evolves-IsTable ns.flows _ (host_connected-Evolves ns id) t
step-IsTable host takes ns (closed id) t = Evolves-IsTable ns.flows _ (host_closed-Evolves ns id) t
step-IsTable host takes ns (reset id) t = Evolves-IsTable ns.flows _ (host_reset-Evolves ns id) t
step-IsTable host takes ns (writable id) t =
    Evolves-IsTable ns.flows _ (host_writable-Evolves host takes ns id) t
step-IsTable host takes ns (received id bytes len) t =
    Evolves-IsTable ns.flows _ (host_recv-Evolves host ns id bytes len) t
step-IsTable host takes ns (attach there none) t = t
step-IsTable host takes ns (attach there (some dns)) t = t
