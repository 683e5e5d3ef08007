-- ===== src/Netstack/Input.antt =====
-- The entry points of src/netstack.c: the guest's frames, the host's events, the queries of the
-- poll loop and the stack's life.
use quanta.Common.{
  ℕ, zero, suc, ◌+◌, ◌-◌, ◌*◌, Bool, true, false, not, ◌&&◌, ◌||◌, ◌==◌, ltb, if◌then◌else◌, min,
  [], Option, none, some,
}
use quanta.Common.Word.{◌&&&◌, ◌>>◌, u32}
use quanta.Netstack.{
  NetStack, Host, proto_udp, proto_tcp, ts_connecting, ts_synrcvd, nat_max, mtu, tcp_buf, eth_hdr,
  be16, put_bytes, from, same_ip, with_flow, gw_ip, dns_ip,
}
use quanta.Netstack.Gateway.{handle_arp, handle_icmp, handle_dhcp}
use quanta.Netstack.Flow.{empty_flow, live, flow_free, udp_to_guest, udp_nat}
use quanta.Netstack.Tcp.{tcp_signal, tcp_synack, tcp_flush_h2g, tcp_drain_g2h, tcp_maybe_close}
use quanta.Netstack.Segment.{handle_tcp}

unfoldable pub handle_udp : Host → NetStack → (ℕ → ℕ) → ℕ → ℕ → ℕ → NetStack
handle_udp host ns frame ipoff ihl iptotal =
    let udp = from frame (ipoff + ihl) in
    if ltb iptotal (ihl + 8)
    then ns
    else if be16 udp 2 == 67 && be16 udp 0 == 68
    then handle_dhcp ns frame (ipoff + ihl) (iptotal - ihl)
    else if same_ip (from frame (ipoff + 16)) gw_ip
    then ns
    else udp_nat host ns frame ipoff ihl iptotal

unfoldable pub handle_ip : Host → NetStack → (ℕ → ℕ) → ℕ → NetStack
handle_ip host ns frame len =
    let ip = from frame eth_hdr in
    let ihl = (ip 0 &&& 0x0f) * 4 in
    let iptotal = min (be16 ip 2) (len - eth_hdr) in
    if ltb len (eth_hdr + 20)
    then ns
    else if not (ip 0 >> 4 == 4)
    then ns
    else if ltb ihl 20 || ltb len (eth_hdr + ihl)
    then ns
    else if ltb iptotal ihl
    then ns
    else if ip 9 == 1
    then handle_icmp ns frame eth_hdr ihl iptotal
    else if ip 9 == 17
    then handle_udp host ns frame eth_hdr ihl iptotal
    else if ip 9 == 6 && not (same_ip (from ip 16) gw_ip)
    then handle_tcp host ns frame eth_hdr ihl iptotal
    else ns

unfoldable pub netstack_input : Host → NetStack → (ℕ → ℕ) → ℕ → NetStack
netstack_input host ns frame len =
    let learned = record ns { guest_mac = from frame 6; have_guest_mac = true } in
    if ltb len eth_hdr
    then ns
    else if be16 frame 12 == 0x0806
    then handle_arp learned frame len
    else if be16 frame 12 == 0x0800
    then handle_ip host learned frame len
    else learned

-- A flow's id that is in range and taken.
unfoldable pub flow_by_id : NetStack → ℕ → Bool
flow_by_id ns id = ltb id nat_max && live (ns.flows id)

unfoldable pub host_connected : NetStack → ℕ → NetStack
host_connected ns id =
    let f = ns.flows id in
    if flow_by_id ns id && f.proto == proto_tcp && f.state == ts_connecting
    then with_flow (tcp_synack ns f) id
        (record f { snd_nxt = u32 (f.snd_nxt + 1); state = ts_synrcvd })
    else ns

-- The bytes of the host that fit, behind those that wait for the guest.
unfoldable pub buffer_host : Host → NetStack → ℕ → (ℕ → ℕ) → ℕ → NetStack
buffer_host host ns id bytes len =
    let f = ns.flows id in
    let fits = min len (tcp_buf - f.h2g_len) in
    if ltb 0 fits && (f.has_h2g || host.allocates ns.log)
    then tcp_flush_h2g
        (with_flow ns id (record f {
          has_h2g = true;
          h2g = put_bytes f.h2g f.h2g_len bytes fits;
          h2g_len = f.h2g_len + fits;
        }))
        id
    else ns

unfoldable pub host_recv : Host → NetStack → ℕ → (ℕ → ℕ) → ℕ → NetStack
host_recv host ns id bytes len =
    if flow_by_id ns id && ltb 0 len
    then (if (ns.flows id).proto == proto_udp
        then udp_to_guest ns id bytes len
        else buffer_host host ns id bytes len)
    else ns

unfoldable pub host_closed : NetStack → ℕ → NetStack
host_closed ns id =
    let f = ns.flows id in
    if not (flow_by_id ns id)
    then ns
    else if f.proto == proto_udp
    then flow_free ns id
    else tcp_maybe_close (tcp_flush_h2g (with_flow ns id (record f { host_eof = true })) id) id

unfoldable pub host_reset : NetStack → ℕ → NetStack
host_reset ns id =
    let f = ns.flows id in
    if flow_by_id ns id
    then flow_free (if f.proto == proto_tcp && not f.fin_sent then tcp_signal ns f 0x14 else ns) id
    else ns

-- The window is reopened if bytes went.
unfoldable pub reopen : ℕ → ℕ → Bool × NetStack → NetStack
reopen id before (false, ns) = ns
reopen id before (true, ns) =
    let f = ns.flows id in
    tcp_maybe_close (if ltb f.g2h_len before then tcp_signal ns f 0x10 else ns) id

unfoldable pub host_writable : Host → NetStack → ℕ → NetStack
host_writable host ns id =
    let f = ns.flows id in
    if flow_by_id ns id && f.proto == proto_tcp
    then reopen id f.g2h_len (tcp_drain_g2h host ns id)
    else ns

unfoldable pub rx_room : NetStack → ℕ → ℕ
rx_room ns id =
    let f = ns.flows id in
    if not (flow_by_id ns id)
    then 0
    else if f.proto == proto_udp
    then mtu
    else if f.host_eof || ltb f.state ts_synrcvd
    then 0
    else tcp_buf - f.h2g_len

unfoldable pub wants_write : NetStack → ℕ → Bool
wants_write ns id =
    flow_by_id ns id && (ns.flows id).proto == proto_tcp && ltb 0 (ns.flows id).g2h_len

-- `attached` is false where the backend is NULL, and the resolver is kept where none is given.
unfoldable pub set_io : NetStack → Bool → Option (ℕ → ℕ) → NetStack
set_io ns attached none = record ns { attached = attached }
set_io ns attached (some dns) = record ns { attached = attached; upstream_dns = dns }

-- A stack as it is set up.
abbrev pub fresh : NetStack
fresh = record {
  guest_mac = λ _. 0;
  have_guest_mac = false;
  ip_id = 1;
  attached = false;
  upstream_dns = dns_ip;
  tcp_isn = 0x8000;
  flows = λ _. empty_flow;
  log = [];
}

-- `none` where no memory is granted.
unfoldable pub netstack_new : Host → Option NetStack
netstack_new host = if host.allocates [] then some fresh else none

-- The flows from `i` on are freed, with the slots left.
unfoldable pub free_flows : NetStack → ℕ → ℕ → NetStack
free_flows ns zero i = ns
free_flows ns (suc left) i = free_flows (flow_free ns i) left (i + 1)

unfoldable pub netstack_free : NetStack → NetStack
netstack_free ns = free_flows ns nat_max 0
