-- ===== src/Netstack/Emit/Receive.antt =====
-- The frames of src/netstack.c as a receiver checks them, by RFC 1071 and not by the stack's own sums.
use quanta.Common.{ℕ, ◌+◌, ◌≤◌, ◌<◌, ◌^◌, ◌≡◌, arith, refl, sym, true, ◌∙◌}
use mathlib.Core.Path.{subst}
use quanta.Common.Word.{u16, sub32}
use quanta.Netstack.{
  NatFlow, NetStack, put_be16, put_bytes, from, guest_ip, gw_ip, tcp_mss, tcp_buf,
}
use quanta.Netstack.Checksum.{pseudo_header, inet_csum, l4_csum}
use quanta.Netstack.Frame.{eth_header, ip_fields, ip_header}
use quanta.Netstack.Gateway.{icmp_reply}
use quanta.Netstack.Tcp.{sealed, tcp_segment}
use quanta.Netstack.Verify.{
  IsBytes, IsValid, octets, complement-IsValid, be16-add, put_be16-IsBytes,
}
use quanta.Netstack.Emit.{
  Agree, put_bytes-IsBytes, eth_header-IsBytes, ip_header-IsBytes, guest_ip-IsBytes, gw_ip-IsBytes,
  tcp_fields-IsBytes, put_bytes-Agree, tcp_fields-Agree, sealed-Agree, update-IsBytes,
  tcp_segment-sums, icmp_reply-sums,
}

-- What RFC 793 adds before the segment: the addresses and the protocol of the frame's IPv4 header, and
-- the segment's length.
unfoldable pub pseudo : (ℕ → ℕ) → ℕ → ℕ
pseudo frame len = octets true frame 26 4 + octets true frame 30 4 + frame 23 + len

tcp_segment-IsBytes :
    (ns : NetStack) (f : NatFlow) (flags : ℕ) (payload : ℕ → ℕ) (plen : ℕ)
    → IsBytes ns.guest_mac
    → IsBytes f.face_ip
    → IsBytes payload
    → flags < 256
    → IsBytes (tcp_segment ns f flags payload plen)
unfolding tcp_segment sealed
tcp_segment-IsBytes ns f flags payload plen m a c hf =
    let whole = eth_header-IsBytes ns.guest_mac 0x0800 m in
    put_be16-IsBytes _ 50 _ (
      put_bytes-IsBytes _ 54 payload plen
        (tcp_fields-IsBytes _ f 5 flags _
          (ip_header-IsBytes _ _ ns.ip_id 0x4000 6 f.face_ip guest_ip whole (omega arith) a
            guest_ip-IsBytes)
          (omega arith) hf)
        c)

tcp_segment-Agree :
    (ns : NetStack) (f : NatFlow) (flags : ℕ) (payload : ℕ → ℕ) (plen : ℕ)
    → Agree 34 (tcp_segment ns f flags payload plen) (
        ip_header
          (eth_header ns.guest_mac 0x0800)
          (20 + 20 + plen)
          ns.ip_id
          0x4000
          6
          f.face_ip
          guest_ip)
unfolding tcp_segment
tcp_segment-Agree ns f flags payload plen =
    let header =
      ip_header (eth_header ns.guest_mac 0x0800) (20 + 20 + plen) ns.ip_id 0x4000 6 f.face_ip
        guest_ip in
    let wnd = u16 (sub32 tcp_buf f.g2h_len) in
    sealed-Agree _ header f (20 + plen) (
      put_bytes-Agree 34 _ header 54 payload plen (omega arith)
        (tcp_fields-Agree header f 5 flags wnd))

icmp_reply-IsBytes :
    (header icmp : ℕ → ℕ) (icmp_len : ℕ)
    → IsBytes header
    → IsBytes icmp
    → IsBytes (icmp_reply header icmp icmp_len)
unfolding icmp_reply
icmp_reply-IsBytes header icmp icmp_len h b = put_be16-IsBytes _ 36 _ (
    put_be16-IsBytes _ 36 0
      (update-IsBytes _ 34 0 (omega arith) (put_bytes-IsBytes header 34 icmp icmp_len h b)))

-- The addresses and the protocol of a header.
ip_header-pseudo :
    (p : ℕ → ℕ) (iptot ip_id flags proto len : ℕ) (src dst : ℕ → ℕ)
    → pseudo (ip_header p iptot ip_id flags proto src dst) len
      ≡ octets true src 0 4 + octets true dst 0 4 + proto + len
unfolding pseudo octets ip_header ip_fields put_be16 put_bytes
ip_header-pseudo p iptot ip_id flags proto len src dst = refl

pseudo-Agree : (p q : ℕ → ℕ) (len : ℕ) → Agree 34 p q → pseudo p len ≡ pseudo q len
unfolding pseudo octets
pseudo-Agree p q len a =
    rw
      (
        a 23 (omega arith),
        a 26 (omega arith),
        a 27 (omega arith),
        a 28 (omega arith),
        a 29 (omega arith),
        a 30 (omega arith),
        a 31 (omega arith),
        a 32 (omega arith),
        a 33 (omega arith),
      )
      refl

-- The stack's pseudo-header is the sum that it stands for.
pseudo_header-octets :
    (src dst : ℕ → ℕ) (proto len : ℕ)
    → IsBytes src
    → IsBytes dst
    → proto < 256
    → len ≤ 2 ^ 16
    → (pseudo_header src dst proto len ≡ octets true src 0 4 + octets true dst 0 4 + proto + len)
      × (pseudo_header src dst proto len < 2 ^ 20)
unfolding pseudo_header octets
pseudo_header-octets src dst proto len s d hp hl = omega (
  arith,
  be16-add src 0 s,
  be16-add src 2 s,
  be16-add dst 0 d,
  be16-add dst 2 d,
  s 0,
  s 1,
  s 2,
  s 3,
  d 0,
  d 1,
  d 2,
  d 3,
)

-- A receiver takes the IPv4 header of a TCP segment, and the segment with the pseudo-header that it
-- makes from that header: for every flow, flags and payload of at most 1460 bytes the octets that it
-- adds up are a ones' complement zero, as RFC 1071 and RFC 793 have it.
pub tcp_segment-verifies :
    (ns : NetStack) (f : NatFlow) (flags : ℕ) (payload : ℕ → ℕ) (plen : ℕ)
    → IsBytes ns.guest_mac
    → IsBytes f.face_ip
    → IsBytes payload
    → flags < 256
    → plen ≤ tcp_mss
    → let frame = tcp_segment ns f flags payload plen in
      IsValid 0 (from frame 14) 20 × IsValid (pseudo frame (20 + plen)) (from frame 34) (20 + plen)
unfolding inet_csum l4_csum
tcp_segment-verifies ns f flags payload plen m a c hf hp =
    let frame = tcp_segment ns f flags payload plen in
    let bytes = tcp_segment-IsBytes ns f flags payload plen m a c hf in
    let (head, body) = tcp_segment-sums ns f flags payload plen m a c hf hp in
    let (start, small) =
      pseudo_header-octets f.face_ip guest_ip 6 (20 + plen) a guest_ip-IsBytes (omega arith)
        (omega arith) in
    let seen =
      pseudo-Agree frame _ (20 + plen) (tcp_segment-Agree ns f flags payload plen)
      ∙ ip_header-pseudo (eth_header ns.guest_mac 0x0800) (20 + 20 + plen) ns.ip_id 0x4000 6
          (20 + plen) f.face_ip guest_ip
      ∙ sym start in
    (
      complement-IsValid (from frame 14) 20 0 (λ k. bytes (14 + k)) (omega arith) (omega arith)
          head,
      subst (λ t. IsValid t (from frame 34) (20 + plen)) (sym seen)
          (complement-IsValid (from frame 34) (20 + plen) _ (λ k. bytes (34 + k)) (omega arith)
            small body),
    )

-- A receiver takes the IPv4 header of an echo reply and its ICMP message, for every request of 8 bytes
-- or more that fits: the octets of each are a ones' complement zero, as RFC 1071 has it.
pub icmp_reply-verifies :
    (mac icmp target : ℕ → ℕ) (ip_id icmp_len : ℕ)
    → IsBytes mac
    → IsBytes icmp
    → IsBytes target
    → 8 ≤ icmp_len
    → icmp_len ≤ 1566
    → let frame =
        icmp_reply
          (ip_header (eth_header mac 0x0800) (20 + icmp_len) ip_id 0 1 gw_ip target)
          icmp
          icmp_len in
      IsValid 0 (from frame 14) 20 × IsValid 0 (from frame 34) icmp_len
unfolding inet_csum
icmp_reply-verifies mac icmp target ip_id icmp_len m b t low high =
    let header = ip_header (eth_header mac 0x0800) (20 + icmp_len) ip_id 0 1 gw_ip target in
    let frame = icmp_reply header icmp icmp_len in
    let bytes =
      icmp_reply-IsBytes header icmp icmp_len
        (ip_header-IsBytes (eth_header mac 0x0800) (20 + icmp_len) ip_id 0 1 gw_ip target
          (eth_header-IsBytes mac 0x0800 m) (omega arith) gw_ip-IsBytes t)
        b in
    let (head, body) = icmp_reply-sums mac icmp target ip_id icmp_len m b t low high in
    (
      complement-IsValid (from frame 14) 20 0 (λ k. bytes (14 + k)) (omega arith) (omega arith)
          head,
      complement-IsValid (from frame 34) icmp_len 0 (λ k. bytes (34 + k)) (omega arith)
          (omega arith) body,
    )
