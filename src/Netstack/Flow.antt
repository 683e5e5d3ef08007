-- ===== src/Netstack/Flow.antt =====
-- The NAT flow table of src/netstack.c and the UDP relay.
use quanta.Common.{
  ℕ, zero, suc, ◌+◌, ◌-◌, Bool, false, not, ◌&&◌, ◌||◌, ◌==◌, ltb, if◌then◌else◌, min, ◌∷◌, Option,
  none, some,
}
use quanta.Common.Word.{u16}
use quanta.Netstack.{
  NatFlow, NetStack, Host, Event, opens, sends, closes, ts_free, ts_connecting, ts_estab, proto_udp,
  proto_tcp, nat_max, mtu, eth_hdr, be16, put_be16, put_bytes, from, same_ip, emit, with_flow,
  dns_ip, guest_ip,
}
use quanta.Netstack.Frame.{eth_header, ip_header}

-- A flow after `memset`.
abbrev pub empty_flow : NatFlow
empty_flow = record {
  proto = proto_udp;
  face_ip = λ _. 0;
  real_ip = λ _. 0;
  guest_port = 0;
  face_port = 0;
  state = ts_free;
  guest_fin = false;
  host_eof = false;
  fin_sent = false;
  shutdown_pending = false;
  snd_nxt = 0;
  snd_una = 0;
  rcv_nxt = 0;
  guest_wnd = 0;
  has_g2h = false;
  g2h = λ _. 0;
  g2h_len = 0;
  has_h2g = false;
  h2g = λ _. 0;
  h2g_len = 0;
}

unfoldable pub live : NatFlow → Bool
live f = not (f.state == ts_free)

unfoldable pub matches : NatFlow → ℕ → ℕ → (ℕ → ℕ) → ℕ → Bool
matches f proto gport rip rport =
    live f
    && f.proto == proto
    && f.guest_port == gport
    && f.face_port == rport
    && same_ip f.face_ip rip

-- The search from `i` on, with the slots left.
unfoldable pub find_from : (ℕ → NatFlow) → (NatFlow → Bool) → ℕ → ℕ → Option ℕ
find_from flows wanted zero i = none
find_from flows wanted (suc left) i =
    let rest = find_from flows wanted left (i + 1) in if wanted (flows i) then some i else rest

unfoldable pub flow_find : NetStack → ℕ → ℕ → (ℕ → ℕ) → ℕ → Option ℕ
flow_find ns proto gport rip rport =
    find_from ns.flows (λ f. matches f proto gport rip rport) nat_max 0

-- A flow as it is allocated. DNS traffic goes to the real resolver.
unfoldable pub new_flow : NetStack → ℕ → ℕ → (ℕ → ℕ) → ℕ → NatFlow
new_flow ns proto gport rip rport = record empty_flow {
  proto = proto;
  guest_port = gport;
  face_port = rport;
  face_ip = rip;
  real_ip = if same_ip rip dns_ip then ns.upstream_dns else rip;
  state = if proto == proto_tcp then ts_connecting else ts_estab;
}

-- The first free slot gets the flow.
unfoldable pub take_slot : NetStack → NatFlow → Option ℕ → Option (ℕ × NetStack)
take_slot ns f none = none
take_slot ns f (some id) = some (id, with_flow ns id f)

unfoldable pub flow_alloc : NetStack → ℕ → ℕ → (ℕ → ℕ) → ℕ → Option (ℕ × NetStack)
flow_alloc ns proto gport rip rport =
    if ns.attached
    then take_slot ns (new_flow ns proto gport rip rport)
        (find_from ns.flows (λ f. f.state == ts_free) nat_max 0)
    else none

-- A call of the backend.
unfoldable pub ask : NetStack → Event → NetStack
ask ns e = record ns { log = e ∷ ns.log }

unfoldable pub flow_free : NetStack → ℕ → NetStack
flow_free ns id =
    let closed = if ns.attached then ask ns (closes id) else ns in
    if live (ns.flows id) then with_flow closed id empty_flow else ns

-- A datagram's frame, of at most the payload that fits.
unfoldable pub datagram : NetStack → NatFlow → (ℕ → ℕ) → ℕ → ℕ → ℕ
datagram ns f payload len =
    let header =
      ip_header (eth_header ns.guest_mac 0x0800) (20 + (8 + len)) ns.ip_id 0 17 f.face_ip
        guest_ip in
    let ports = put_be16 (put_be16 header 34 f.face_port) 36 f.guest_port in
    put_bytes (put_be16 (put_be16 ports 38 (8 + len)) 40 0) 42 payload len

unfoldable pub udp_to_guest : NetStack → ℕ → (ℕ → ℕ) → ℕ → NetStack
udp_to_guest ns id payload len =
    let cut = min len (mtu - eth_hdr - 20 - 8) in
    emit (record ns { ip_id = u16 (ns.ip_id + 1) }) (datagram ns (ns.flows id) payload cut)
      (eth_hdr + (20 + (8 + cut)))

-- The flow is opened, or freed again.
unfoldable pub udp_open : Host → ℕ → Option (ℕ × NetStack) → Option (ℕ × NetStack) × Option NetStack
udp_open host dport none = (none, none)
udp_open host dport (some (id, ns)) =
    let asked = ask ns (opens id proto_udp (ns.flows id).real_ip dport) in
    if host.grants asked.log then (some (id, asked), none) else (none, some (flow_free asked id))

-- A flow for a datagram: the one that is there, or a new one.
unfoldable pub udp_flow :
    Host → NetStack → ℕ → (ℕ → ℕ) → ℕ → Option ℕ → Option (ℕ × NetStack) × Option NetStack
udp_flow host ns sport rip dport (some id) = (some (id, ns), none)
udp_flow host ns sport rip dport none =
    udp_open host dport (flow_alloc ns proto_udp sport rip dport)

-- The datagram goes out if there is a flow; a flow that was freed leaves its trace.
unfoldable pub udp_send :
    NetStack → (ℕ → ℕ) → ℕ → Option (ℕ × NetStack) × Option NetStack → NetStack
udp_send ns payload plen (some (id, ready), freed) = ask ready (sends id payload plen)
udp_send ns payload plen (none, some freed) = freed
udp_send ns payload plen (none, none) = ns

unfoldable pub udp_nat : Host → NetStack → (ℕ → ℕ) → ℕ → ℕ → ℕ → NetStack
udp_nat host ns frame ipoff ihl iptotal =
    let rip = from frame (ipoff + 16) in
    let udp = from frame (ipoff + ihl) in
    let sport = be16 udp 0 in
    let dport = be16 udp 2 in
    let said = be16 udp 4 in
    let ulen = if ltb said 8 || ltb (iptotal - ihl) said then iptotal - ihl else said in
    if not ns.attached || ltb iptotal (ihl + 8)
    then ns
    else udp_send ns (from udp 8) (ulen - 8)
        (udp_flow host ns sport rip dport (flow_find ns proto_udp sport rip dport))
