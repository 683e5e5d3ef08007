-- ===== src/Netstack/Tcp.antt =====
-- The TCP side of src/netstack.c: the segments for the guest, and the two buffers of a flow.
use quanta.Common.{
  ℕ, zero, suc, ◌+◌, ◌-◌, ◌*◌, Bool, true, false, not, ◌&&◌, ◌==◌, ltb, if◌then◌else◌, min, Option,
  none, some,
}
use quanta.Common.Word.{u16, u32, sub32, update}
use quanta.Netstack.{
  NatFlow, NetStack, Host, sends, shuts, ts_estab, tcp_buf, tcp_mss, eth_hdr, put_be16, put_be32,
  put_bytes, from, emit, with_flow, guest_ip,
}
use quanta.Netstack.Checksum.{l4_csum}
use quanta.Netstack.Frame.{eth_header, ip_header}
use quanta.Netstack.Flow.{ask, flow_free}

-- The TCP header with its checksum still 0.
unfoldable pub tcp_fields : (ℕ → ℕ) → NatFlow → ℕ → ℕ → ℕ → ℕ → ℕ
tcp_fields p f doff flags wnd =
    let ports = put_be16 (put_be16 p 34 f.face_port) 36 f.guest_port in
    let numbers = put_be32 (put_be32 ports 38 f.snd_nxt) 42 f.rcv_nxt in
    let kind = update (update numbers 46 (doff * 16)) 47 flags in
    put_be16 (put_be16 (put_be16 kind 48 wnd) 50 0) 52 0

-- The segment with its checksum, `len` bytes of it.
unfoldable pub sealed : (ℕ → ℕ) → NatFlow → ℕ → ℕ → ℕ
sealed p f len = put_be16 p 50 (l4_csum f.face_ip guest_ip 6 (from p 34) len)

unfoldable pub tcp_segment : NetStack → NatFlow → ℕ → (ℕ → ℕ) → ℕ → ℕ → ℕ
tcp_segment ns f flags payload plen =
    let header =
      ip_header (eth_header ns.guest_mac 0x0800) (20 + 20 + plen) ns.ip_id 0x4000 6 f.face_ip
        guest_ip in
    let fields = tcp_fields header f 5 flags (u16 (sub32 tcp_buf f.g2h_len)) in
    sealed (put_bytes fields 54 payload plen) f (20 + plen)

unfoldable pub tcp_out : NetStack → NatFlow → ℕ → (ℕ → ℕ) → ℕ → NetStack
tcp_out ns f flags payload plen =
    emit (record ns { ip_id = u16 (ns.ip_id + 1) }) (tcp_segment ns f flags payload plen)
      (eth_hdr + (20 + 20 + plen))

-- A segment without a payload.
abbrev pub tcp_signal : NetStack → NatFlow → ℕ → NetStack
tcp_signal ns f flags = tcp_out ns f flags (λ _. 0) 0

unfoldable pub synack_segment : NetStack → NatFlow → ℕ → ℕ
synack_segment ns f =
    let header =
      ip_header (eth_header ns.guest_mac 0x0800) (20 + 24) ns.ip_id 0x4000 6 f.face_ip guest_ip in
    let options =
      put_be16 (update (update (tcp_fields header f 6 0x12 tcp_buf) 54 2) 55 4) 56 tcp_mss in
    sealed options f 24

unfoldable pub tcp_synack : NetStack → NatFlow → NetStack
tcp_synack ns f =
    emit (record ns { ip_id = u16 (ns.ip_id + 1) }) (synack_segment ns f) (eth_hdr + (20 + 24))

-- `memmove(buf, buf + n, len - n)`.
unfoldable pub drop_bytes : (ℕ → ℕ) → ℕ → ℕ → ℕ → ℕ
drop_bytes buf n len k = if ltb k (len - n) then buf (k + n) else buf k

unfoldable pub inflight : NatFlow → ℕ
inflight f = sub32 f.snd_nxt f.snd_una

unfoldable pub flush_chunk : NatFlow → ℕ
flush_chunk f = min (min f.h2g_len (f.guest_wnd - inflight f)) tcp_mss

-- The flow once a chunk is sent.
unfoldable pub chunk_sent : NatFlow → ℕ → NatFlow
chunk_sent f n = record f {
  snd_nxt = u32 (f.snd_nxt + n);
  h2g = drop_bytes f.h2g n f.h2g_len;
  h2g_len = f.h2g_len - n;
}

unfoldable pub flush_one : NetStack → ℕ → NetStack
flush_one ns id =
    let f = ns.flows id in
    let n = flush_chunk f in with_flow (tcp_out ns f 0x10 f.h2g n) id (chunk_sent f n)

-- The loop goes on: there is something to send and the guest's window has room.
unfoldable pub can_flush : NatFlow → Bool
can_flush f = f.has_h2g && ltb 0 f.h2g_len && ltb (inflight f) f.guest_wnd

-- The loop, with the rounds left.
unfoldable pub flush_rounds : ℕ → ℕ → NetStack → NetStack
flush_rounds id zero ns = ns
flush_rounds id (suc left) ns =
    let go = flush_rounds id left in if can_flush (ns.flows id) then go (flush_one ns id) else ns

-- Our FIN, once the host is done and everything is sent.
unfoldable pub flush_fin : NetStack → ℕ → NetStack
flush_fin ns id =
    let f = ns.flows id in
    if f.host_eof && f.h2g_len == 0 && not f.fin_sent
    then with_flow (tcp_signal ns f 0x11) id
        (record f { snd_nxt = u32 (f.snd_nxt + 1); fin_sent = true })
    else ns

-- Each round sends a byte or more.
unfoldable pub tcp_flush_h2g : NetStack → ℕ → NetStack
tcp_flush_h2g ns id =
    let f = ns.flows id in
    if f.state == ts_estab then flush_fin (flush_rounds id f.h2g_len ns) id else ns

-- What is left once the host took `n` bytes; `none` ends the flow.
unfoldable pub drained : NetStack → ℕ → Option ℕ → Bool × NetStack
drained ns id none = (false, flow_free (tcp_signal ns (ns.flows id) 0x04) id)
drained ns id (some n) =
    let f = ns.flows id in
    (
      true,
      with_flow ns id
          (record f { g2h = drop_bytes f.g2h n f.g2h_len; g2h_len = sub32 f.g2h_len (u32 n) }),
    )

-- The half-close that waits for the buffer to empty.
unfoldable pub honour_shutdown : NetStack → ℕ → NetStack
honour_shutdown ns id =
    let f = ns.flows id in
    if f.shutdown_pending && f.g2h_len == 0
    then with_flow (ask ns (shuts id)) id (record f { shutdown_pending = false })
    else ns

-- `false` once a send error tore the flow down.
unfoldable pub tcp_drain_g2h : Host → NetStack → ℕ → Bool × NetStack
tcp_drain_g2h host ns id =
    let f = ns.flows id in
    let asked = ask ns (sends id f.g2h f.g2h_len) in
    let sent =
      if f.has_g2h && ltb 0 f.g2h_len
      then drained asked id (host.accepts asked.log)
      else (true, ns) in
    if sent.0 then (true, honour_shutdown sent.1 id) else (false, sent.1)

unfoldable pub tcp_maybe_close : NetStack → ℕ → NetStack
tcp_maybe_close ns id =
    let f = ns.flows id in
    if f.guest_fin && f.fin_sent && f.g2h_len == 0 && f.h2g_len == 0 then flow_free ns id else ns
