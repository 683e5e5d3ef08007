-- ===== src/Netstack/Gateway.antt =====
-- The virtual gateway of src/netstack.c: its answers to ARP, to ICMP echo requests and to DHCP.
use quanta.Common.{
  ℕ, zero, suc, ◌+◌, ◌-◌, Bool, not, ◌&&◌, ◌||◌, ◌==◌, ltb, leb, if◌then◌else◌, [], ◌∷◌, Option,
  none, some,
}
use quanta.Common.Word.{update, u16}
use quanta.Netstack.{
  NetStack, be16, put_be16, put_be32, put_bytes, bytes_of, from, same_ip, emit, gw_ip, gw_mac,
  dns_ip, guest_ip, netmask, dhcp_magic, eth_hdr, mtu,
}
use quanta.Netstack.Checksum.{inet_csum}
use quanta.Netstack.Frame.{eth_header, ip_header}

unfoldable pub owns_ip : (ℕ → ℕ) → Bool
owns_ip ip = same_ip ip gw_ip || same_ip ip dns_ip

unfoldable pub arp_reply : (ℕ → ℕ) → ℕ → ℕ
arp_reply a =
    let sha = from a 8 in
    let kind = put_be16 (put_be16 (eth_header sha 0x0806) 14 1) 16 0x0800 in
    let sizes = put_be16 (update (update kind 18 6) 19 4) 20 2 in
    let sender = put_bytes (put_bytes sizes 22 gw_mac 6) 28 (from a 24) 4 in
    put_bytes (put_bytes sender 32 sha 6) 38 (from a 14) 4

unfoldable pub handle_arp : NetStack → (ℕ → ℕ) → ℕ → NetStack
handle_arp ns frame len =
    let a = from frame eth_hdr in
    if ltb len (eth_hdr + 28)
    then ns
    else if not (be16 a 0 == 1) || not (be16 a 2 == 0x0800)
    then ns
    else if not (a 4 == 6) || not (a 5 == 4)
    then ns
    else if not (be16 a 6 == 1)
    then ns
    else if owns_ip (from a 24)
    then emit ns (arp_reply a) (eth_hdr + 28)
    else ns

-- The echo's message: the request's with type 0 and a new checksum.
unfoldable pub icmp_reply : (ℕ → ℕ) → (ℕ → ℕ) → ℕ → ℕ → ℕ
icmp_reply p icmp icmp_len =
    let message = put_be16 (update (put_bytes p 34 icmp icmp_len) 34 0) 36 0 in
    put_be16 message 36 (inet_csum (from message 34) icmp_len)

unfoldable pub handle_icmp : NetStack → (ℕ → ℕ) → ℕ → ℕ → ℕ → NetStack
handle_icmp ns frame ipoff ihl iptotal =
    let ip = from frame ipoff in
    let icmp = from frame (ipoff + ihl) in
    let icmp_len = iptotal - ihl in
    let header =
      ip_header (eth_header (from frame 6) 0x0800) (20 + icmp_len) ns.ip_id 0 1 gw_ip
        (from ip 12) in
    if ltb iptotal (ihl + 8)
    then ns
    else if not (icmp 0 == 8) || not (icmp 1 == 0)
    then ns
    else if not (same_ip (from ip 16) gw_ip)
    then ns
    else if ltb (mtu - eth_hdr - 20) icmp_len
    then ns
    else emit (record ns { ip_id = u16 (ns.ip_id + 1) }) (icmp_reply header icmp icmp_len)
        (eth_hdr + (20 + icmp_len))

-- The option loop from `i` on, with the rounds left.
unfoldable pub msgtype_from : (ℕ → ℕ) → ℕ → ℕ → ℕ → ℕ
msgtype_from opt len zero i = 0
msgtype_from opt len (suc left) i =
    let go = msgtype_from opt len left in
    let code = opt i in
    let l = opt (i + 1) in
    if leb len i
    then 0
    else if code == 0
    then go (i + 1)
    else if code == 255
    then 0
    else if leb len (i + 1)
    then 0
    else if ltb len (i + 2 + l)
    then 0
    else if code == 53 && leb 1 l
    then opt (i + 2)
    else go (i + 2 + l)

-- Each round takes a byte or more.
unfoldable pub dhcp_msgtype : (ℕ → ℕ) → ℕ → ℕ
dhcp_msgtype opt len = msgtype_from opt len len 0

unfoldable pub reply_type : ℕ → Option ℕ
reply_type kind = if kind == 1 then some 2 else if kind == 3 then some 5 else none

-- The options of a reply.
unfoldable pub dhcp_options : (ℕ → ℕ) → ℕ → ℕ → ℕ
dhcp_options p kind =
    let who = put_bytes (put_bytes p 282 (bytes_of (53 ∷ 1 ∷ kind ∷ 54 ∷ 4 ∷ [])) 5) 287 gw_ip 4 in
    let lease = put_be32 (put_bytes who 291 (bytes_of (51 ∷ 4 ∷ [])) 2) 293 86400 in
    let mask = put_bytes (put_bytes lease 297 (bytes_of (1 ∷ 4 ∷ [])) 2) 299 netmask 4 in
    let router = put_bytes (put_bytes mask 303 (bytes_of (3 ∷ 4 ∷ [])) 2) 305 gw_ip 4 in
    let server = put_bytes (put_bytes router 309 (bytes_of (6 ∷ 4 ∷ [])) 2) 311 dns_ip 4 in
    update server 315 255

-- The UDP header and the message's fixed fields, which echo the request's.
unfoldable pub dhcp_body : (ℕ → ℕ) → (ℕ → ℕ) → ℕ → ℕ
dhcp_body p dhcp =
    let udp = put_be16 (put_be16 (put_be16 (put_be16 p 34 67) 36 68) 38 308) 40 0 in
    let xid = put_bytes (put_bytes udp 42 (bytes_of (2 ∷ 1 ∷ 6 ∷ [])) 3) 46 (from dhcp 4) 4 in
    let flags = put_bytes xid 52 (from dhcp 10) 2 in
    let client = put_bytes (put_bytes flags 58 guest_ip 4) 62 gw_ip 4 in
    put_bytes (put_bytes client 70 (from dhcp 28) 6) 278 dhcp_magic 4

unfoldable pub dhcp_reply : NetStack → (ℕ → ℕ) → Option ℕ → NetStack
dhcp_reply ns dhcp none = ns
dhcp_reply ns dhcp (some kind) =
    let header = ip_header (eth_header (λ _. 0xff) 0x0800) 328 ns.ip_id 0 17 gw_ip (λ _. 0xff) in
    emit (record ns { ip_id = u16 (ns.ip_id + 1) }) (dhcp_options (dhcp_body header dhcp) kind)
      (eth_hdr + 328)

unfoldable pub handle_dhcp : NetStack → (ℕ → ℕ) → ℕ → ℕ → NetStack
handle_dhcp ns frame udpoff udp_total =
    let dhcp = from frame (udpoff + 8) in
    if ltb udp_total (8 + 240)
    then ns
    else if not (same_ip (from dhcp 236) dhcp_magic)
    then ns
    else dhcp_reply ns dhcp (reply_type (dhcp_msgtype (from dhcp 240) (udp_total - 8 - 240)))
