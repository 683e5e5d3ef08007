-- ===== src/Netstack/Segment.antt =====
-- `handle_tcp` of src/netstack.c: a segment of the guest, for a new flow or one that is there.
use quanta.Common.{
  ℕ, ◌+◌, ◌-◌, ◌*◌, Bool, true, false, not, ◌&&◌, ◌||◌, ◌==◌, ltb, leb, if◌then◌else◌, min, Option,
  none, some,
}
use quanta.Common.Word.{u32, sub32, test_bits, ◌>>◌}
use quanta.Netstack.{
  NatFlow, NetStack, Host, opens, proto_tcp, ts_synrcvd, ts_estab, tcp_buf, be16, be32, put_bytes,
  from, with_flow,
}
use quanta.Netstack.Flow.{ask, flow_find, flow_alloc, flow_free}
use quanta.Netstack.Tcp.{tcp_signal, tcp_drain_g2h, tcp_flush_h2g, tcp_maybe_close}

-- The fields of a segment that the stack reads.
pub record Segment : Type 0 where
  pub seq : ℕ
  pub ack : ℕ
  pub flags : ℕ
  pub wnd : ℕ
  pub payload : ℕ → ℕ
  pub plen : ℕ

-- A window of 0 counts as 1.
abbrev pub window : ℕ → ℕ
window wnd = if wnd == 0 then 1 else wnd

-- A flow's numbers as its handshake begins.
unfoldable pub handshake : NatFlow → ℕ → Segment → NatFlow
handshake f isn s = record f {
  snd_una = isn;
  snd_nxt = isn;
  rcv_nxt = u32 (s.seq + 1);
  guest_wnd = window s.wnd;
}

-- A new connection; the SYN-ACK waits for the host's.
unfoldable pub tcp_connect : Host → NetStack → ℕ → Segment → Option (ℕ × NetStack) → NetStack
tcp_connect host before dport s none = before
tcp_connect host before dport s (some (id, ns)) =
    let isn = u32 (ns.tcp_isn + 0x1000) in
    let f = handshake (ns.flows id) isn s in
    let begun = record (with_flow ns id f) { tcp_isn = isn } in
    let asked = ask begun (opens id proto_tcp f.real_ip dport) in
    if host.grants asked.log then asked else flow_free (tcp_signal asked f 0x14) id

-- The window, and the unacknowledged boundary if the segment moves it.
unfoldable pub advance_una : NatFlow → Segment → NatFlow
advance_una f s =
    let opened = record f { guest_wnd = window s.wnd } in
    let covers = leb (sub32 s.ack f.snd_una) (sub32 f.snd_nxt f.snd_una) in
    if test_bits s.flags 0x10 && covers then record opened { snd_una = s.ack } else opened

-- The handshake's end.
unfoldable pub establish : NatFlow → Segment → NatFlow
establish f s =
    if f.state == ts_synrcvd && test_bits s.flags 0x10 && f.snd_una == f.snd_nxt
    then record f { state = ts_estab }
    else f

unfoldable pub acknowledge : NatFlow → Segment → NatFlow
acknowledge f s = establish (advance_una f s) s

-- The bytes of the payload that fit, behind those that wait for the host.
unfoldable pub buffer_guest : Host → NetStack → ℕ → Segment → NetStack
buffer_guest host ns id s =
    let f = ns.flows id in
    let take = min s.plen (tcp_buf - f.g2h_len) in
    if ltb 0 take && (f.has_g2h || host.allocates ns.log)
    then with_flow ns id (record f {
      has_g2h = true;
      g2h = put_bytes f.g2h f.g2h_len s.payload take;
      g2h_len = f.g2h_len + take;
      rcv_nxt = u32 (f.rcv_nxt + take);
    })
    else ns

-- An acknowledgement, unless the flow is gone.
unfoldable pub acked : ℕ → Bool × NetStack → Bool × NetStack
acked id (alive, ns) = (alive, if alive then tcp_signal ns (ns.flows id) 0x10 else ns)

unfoldable pub take_payload : Host → NetStack → ℕ → Segment → Bool × NetStack
take_payload host ns id s =
    let f = ns.flows id in
    if ltb 0 s.plen && f.state == ts_estab && s.seq == f.rcv_nxt && not f.guest_fin
    then acked id (tcp_drain_g2h host (buffer_guest host ns id s) id)
    else if ltb 0 s.plen && not (s.seq == f.rcv_nxt)
    then (true, tcp_signal ns f 0x10)
    else (true, ns)

-- The guest's FIN, which takes a sequence number.
unfoldable pub fin_seen : NatFlow → NatFlow
fin_seen f = record f { guest_fin = true; rcv_nxt = u32 (f.rcv_nxt + 1) }

unfoldable pub take_fin : Host → ℕ → Segment → Bool × NetStack → Bool × NetStack
take_fin host id s (false, ns) = (false, ns)
take_fin host id s (true, ns) =
    let f = ns.flows id in
    let told = tcp_signal (with_flow ns id (fin_seen f)) (fin_seen f) 0x10 in
    if test_bits s.flags 0x01 && not f.guest_fin && u32 (s.seq + s.plen) == f.rcv_nxt
    then tcp_drain_g2h host (with_flow told id (record (fin_seen f) { shutdown_pending = true })) id
    else (true, ns)

unfoldable pub finish_segment : ℕ → Bool × NetStack → NetStack
finish_segment id (false, ns) = ns
finish_segment id (true, ns) = tcp_maybe_close (tcp_flush_h2g ns id) id

-- A segment of a flow that is there.
unfoldable pub on_segment : Host → NetStack → ℕ → Segment → NetStack
on_segment host ns id s =
    if test_bits s.flags 0x04
    then flow_free ns id
    else finish_segment id (
        take_fin host id s (take_payload host (with_flow ns id (acknowledge (ns.flows id) s)) id s))

-- A segment without a flow opens one if it has SYN, and is dropped if not.
unfoldable pub route : Host → NetStack → ℕ → (ℕ → ℕ) → ℕ → Segment → Option ℕ → NetStack
route host ns sport rip dport s none =
    if test_bits s.flags 0x02
    then tcp_connect host ns dport s (flow_alloc ns proto_tcp sport rip dport)
    else ns
route host ns sport rip dport s (some id) = on_segment host ns id s

unfoldable pub handle_tcp : Host → NetStack → (ℕ → ℕ) → ℕ → ℕ → ℕ → NetStack
handle_tcp host ns frame ipoff ihl iptotal =
    let rip = from frame (ipoff + 16) in
    let t = from frame (ipoff + ihl) in
    let sport = be16 t 0 in
    let dport = be16 t 2 in
    let doff = (t 12 >> 4) * 4 in
    let s : Segment = record {
      seq = be32 t 4;
      ack = be32 t 8;
      flags = t 13;
      wnd = be16 t 14;
      payload = from t doff;
      plen = iptotal - ihl - doff;
    } in
    if not ns.attached || ltb iptotal (ihl + 20)
    then ns
    else if ltb doff 20 || ltb iptotal (ihl + doff)
    then ns
    else route host ns sport rip dport s (flow_find ns proto_tcp sport rip dport)
