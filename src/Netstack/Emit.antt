-- ===== src/Netstack/Emit.antt =====
-- The sums of src/netstack.c over the frames that it sealed: the IPv4 header, and the message.
pub mod Receive
use quanta.Common.{ℕ, zero, suc, ◌+◌, ◌-◌, ◌*◌, ◌≤◌, ◌<◌, ◌^◌, ◌≡◌, arith, refl, ap, ◌∙◌}
use mathlib.Core.Path.{fun_ext}
use quanta.Common.Word.{update, u16, sub32}
use quanta.Netstack.{
  NatFlow, NetStack, put_be16, put_be32, put_bytes, from, be16, bytes_of, gw_mac, gw_ip, guest_ip,
  tcp_mss, tcp_buf,
}
use quanta.Netstack.Checksum.{inet_csum, l4_csum, complement, sum_bytes, sum_words, pseudo_header}
use quanta.Netstack.Frame.{blank, eth_header, ip_fields, ip_header}
use quanta.Netstack.Gateway.{icmp_reply}
use quanta.Netstack.Tcp.{tcp_fields, sealed, tcp_segment}
use quanta.Netstack.Verify.{IsBytes, put_be16-IsBytes, be16-add, complement-sum_bytes}

put_be16_from : (p : ℕ → ℕ) (n i v : ℕ) → from (put_be16 p (n + i) v) n ≡ put_be16 (from p n) i v
unfolding put_be16
put_be16_from p n i v = fun_ext λ k. ground arith

pub update-IsBytes : (p : ℕ → ℕ) (i v : ℕ) → v < 256 → IsBytes p → IsBytes (update p i v)
update-IsBytes p i v h b k = ground (arith, b k)

pub put_bytes-IsBytes :
    (p : ℕ → ℕ) (i : ℕ) (src : ℕ → ℕ) (n : ℕ)
    → IsBytes p
    → IsBytes src
    → IsBytes (put_bytes p i src n)
unfolding put_bytes
put_bytes-IsBytes p i src n b c k = ground (arith, b k, c (k - i))

put_be32-IsBytes : (p : ℕ → ℕ) (i v : ℕ) → IsBytes p → IsBytes (put_be32 p i v)
unfolding put_be32
put_be32-IsBytes p i v b k = ground (arith, b k)

-- Two buffers that agree on the first `n` bytes.
abbrev pub Agree : ℕ → (ℕ → ℕ) → (ℕ → ℕ) → Type 0
Agree n p q = (k : ℕ) → k < n → p k ≡ q k

pub put_be16-Agree :
    (n : ℕ) (p q : ℕ → ℕ) (i v : ℕ) → n ≤ i → Agree n p q → Agree n (put_be16 p i v) q
unfolding put_be16
put_be16-Agree n p q i v h a k hk = ground (arith, a k hk)

pub update-Agree : (n : ℕ) (p q : ℕ → ℕ) (i v : ℕ) → n ≤ i → Agree n p q → Agree n (update p i v) q
update-Agree n p q i v h a k hk = ground (arith, a k hk)

put_be32-Agree : (n : ℕ) (p q : ℕ → ℕ) (i v : ℕ) → n ≤ i → Agree n p q → Agree n (put_be32 p i v) q
unfolding put_be32
put_be32-Agree n p q i v h a k hk = ground (arith, a k hk)

pub put_bytes-Agree :
    (n : ℕ) (p q : ℕ → ℕ) (i : ℕ) (src : ℕ → ℕ) (len : ℕ)
    → n ≤ i
    → Agree n p q
    → Agree n (put_bytes p i src len) q
unfolding put_bytes
put_bytes-Agree n p q i src len h a k hk = ground (arith, a k hk)

sum_words-Agree :
    (p q : ℕ → ℕ) (n i left sum : ℕ)
    → Agree n p q
    → i + 2 * left ≤ n
    → sum_words p i left sum ≡ sum_words q i left sum
unfolding sum_words be16
sum_words-Agree p q n i zero sum a h = refl
sum_words-Agree p q n i (suc left) sum a h =
    rw (a i (omega arith), a (i + 1) (omega arith))
      (sum_words-Agree p q n (i + 2) left _ a (omega arith))

-- The header's sum reads the frame's first 34 bytes.
header-Agree : (p q : ℕ → ℕ) → Agree 34 p q → inet_csum (from p 14) 20 ≡ inet_csum (from q 14) 20
unfolding inet_csum sum_bytes
header-Agree p q a = ap complement (
    sum_words-Agree (from p 14) (from q 14) 20 0 10 0 (λ k h. a (14 + k) (omega arith))
      (omega arith))

gw_mac-IsBytes : IsBytes gw_mac
unfolding bytes_of
gw_mac-IsBytes k = ground arith

pub guest_ip-IsBytes : IsBytes guest_ip
unfolding bytes_of
guest_ip-IsBytes k = ground arith

pub eth_header-IsBytes : (dst : ℕ → ℕ) (etype : ℕ) → IsBytes dst → IsBytes (eth_header dst etype)
unfolding eth_header
eth_header-IsBytes dst etype b = put_be16-IsBytes _ 12 etype (
    put_bytes-IsBytes _ 6 gw_mac 6 (put_bytes-IsBytes blank 0 dst 6 (λ k. omega arith) b)
      gw_mac-IsBytes)

ip_fields-IsBytes :
    (p : ℕ → ℕ) (iptot ip_id flags proto : ℕ) (src dst : ℕ → ℕ)
    → IsBytes p
    → proto < 256
    → IsBytes src
    → IsBytes dst
    → IsBytes (ip_fields p iptot ip_id flags proto src dst)
unfolding ip_fields
ip_fields-IsBytes p iptot ip_id flags proto src dst b hp s d =
    let version : 0x45 < 256 = omega arith in
    let service : 0 < 256 = omega arith in
    let hops : 64 < 256 = omega arith in
    search (update-IsBytes, put_be16-IsBytes, put_bytes-IsBytes) depth 14

pub ip_header-IsBytes :
    (p : ℕ → ℕ) (iptot ip_id flags proto : ℕ) (src dst : ℕ → ℕ)
    → IsBytes p
    → proto < 256
    → IsBytes src
    → IsBytes dst
    → IsBytes (ip_header p iptot ip_id flags proto src dst)
unfolding ip_header
ip_header-IsBytes p iptot ip_id flags proto src dst b hp s d =
    put_be16-IsBytes _ 24 _ (ip_fields-IsBytes p iptot ip_id flags proto src dst b hp s d)

-- The header with its checksum sums to 0.
ip_header-inet_csum :
    (p : ℕ → ℕ) (iptot ip_id flags proto : ℕ) (src dst : ℕ → ℕ)
    → IsBytes p
    → proto < 256
    → IsBytes src
    → IsBytes dst
    → inet_csum (from (ip_header p iptot ip_id flags proto src dst) 14) 20 ≡ 0
unfolding ip_header inet_csum be16 ip_fields put_be16 put_bytes
ip_header-inet_csum p iptot ip_id flags proto src dst b hp s d =
    let fields = ip_fields p iptot ip_id flags proto src dst in
    let whole = ip_fields-IsBytes p iptot ip_id flags proto src dst b hp s d in
    let empty : be16 (from fields 14) (2 * 5) ≡ 0 = refl in
    rw (put_be16_from fields 14 10 (complement (sum_bytes (from fields 14) 20 0))) (
      complement-sum_bytes (from fields 14) 20 5 0 (λ k. whole (14 + k)) (omega arith) (omega arith)
        (omega arith) empty)

-- A segment whose checksum field, at byte 50, held 0 sums to 0 with the pseudo-header.
sealed-l4_csum :
    (p : ℕ → ℕ) (f : NatFlow) (len : ℕ)
    → IsBytes p
    → IsBytes f.face_ip
    → 18 ≤ len
    → len ≤ 2 ^ 16
    → be16 p 50 ≡ 0
    → l4_csum f.face_ip guest_ip 6 (from (sealed p f len) 34) len ≡ 0
unfolding sealed l4_csum pseudo_header be16
sealed-l4_csum p f len b a low high e =
    let start = pseudo_header f.face_ip guest_ip 6 len in
    let small : start < 2 ^ 20 = omega (
      arith,
      be16-add f.face_ip 0 a,
      a 0,
      a 1,
      be16-add f.face_ip 2 a,
      a 2,
      a 3,
      be16-add guest_ip 0 guest_ip-IsBytes,
      guest_ip-IsBytes 0,
      guest_ip-IsBytes 1,
      be16-add guest_ip 2 guest_ip-IsBytes,
      guest_ip-IsBytes 2,
      guest_ip-IsBytes 3,
    ) in
    rw (put_be16_from p 34 16 (complement (sum_bytes (from p 34) len start)))
      (complement-sum_bytes (from p 34) len 8 start (λ k. b (34 + k)) high small low e)

pub tcp_fields-IsBytes :
    (p : ℕ → ℕ) (f : NatFlow) (doff flags wnd : ℕ)
    → IsBytes p
    → doff < 16
    → flags < 256
    → IsBytes (tcp_fields p f doff flags wnd)
unfolding tcp_fields
tcp_fields-IsBytes p f doff flags wnd b h hf =
    let offset : doff * 16 < 256 = omega arith in
    search (update-IsBytes, put_be16-IsBytes, put_be32-IsBytes) depth 14

pub tcp_fields-Agree :
    (p : ℕ → ℕ) (f : NatFlow) (doff flags wnd : ℕ) → Agree 34 (tcp_fields p f doff flags wnd) p
unfolding tcp_fields put_be16 put_be32
tcp_fields-Agree p f doff flags wnd k h = ground arith

pub sealed-Agree :
    (p q : ℕ → ℕ) (f : NatFlow) (len : ℕ) → Agree 34 p q → Agree 34 (sealed p f len) q
unfolding sealed
sealed-Agree p q f len a = put_be16-Agree 34 p q 50 _ (omega arith) a

empty_checksum :
    (p payload : ℕ → ℕ) (f : NatFlow) (flags wnd plen : ℕ)
    → be16 (put_bytes (tcp_fields p f 5 flags wnd) 54 payload plen) 50 ≡ 0
unfolding be16 put_bytes tcp_fields put_be16 put_be32
empty_checksum p payload f flags wnd plen = refl

-- The stack's own sums over the IPv4 header of a TCP segment and over the segment are 0.
pub tcp_segment-sums :
    (ns : NetStack) (f : NatFlow) (flags : ℕ) (payload : ℕ → ℕ) (plen : ℕ)
    → IsBytes ns.guest_mac
    → IsBytes f.face_ip
    → IsBytes payload
    → flags < 256
    → plen ≤ tcp_mss
    → (inet_csum (from (tcp_segment ns f flags payload plen) 14) 20 ≡ 0)
      × (l4_csum f.face_ip guest_ip 6 (from (tcp_segment ns f flags payload plen) 34) (20 + plen)
          ≡ 0)
unfolding tcp_segment
tcp_segment-sums ns f flags payload plen m a c hf hp =
    let eth = eth_header ns.guest_mac 0x0800 in
    let whole = eth_header-IsBytes ns.guest_mac 0x0800 m in
    let iptot = 20 + 20 + plen in
    let header = ip_header eth iptot ns.ip_id 0x4000 6 f.face_ip guest_ip in
    let wnd = u16 (sub32 tcp_buf f.g2h_len) in
    let fields = tcp_fields header f 5 flags wnd in
    let full = put_bytes fields 54 payload plen in
    let bytes : IsBytes full =
      put_bytes-IsBytes fields 54 payload plen
        (tcp_fields-IsBytes header f 5 flags wnd
          (ip_header-IsBytes eth iptot ns.ip_id 0x4000 6 f.face_ip guest_ip whole (omega arith) a
            guest_ip-IsBytes)
          (omega arith) hf)
        c in
    let outside : Agree 34 (sealed full f (20 + plen)) header =
      sealed-Agree full header f (20 + plen) (
        put_bytes-Agree 34 fields header 54 payload plen (omega arith)
          (tcp_fields-Agree header f 5 flags wnd)) in
    (
      header-Agree (sealed full f (20 + plen)) header outside
          ∙ ip_header-inet_csum eth iptot ns.ip_id 0x4000 6 f.face_ip guest_ip whole (omega arith) a
              guest_ip-IsBytes,
      sealed-l4_csum full f (20 + plen) bytes a (omega arith) (omega arith)
          (empty_checksum header payload f flags wnd plen),
    )

pub gw_ip-IsBytes : IsBytes gw_ip
unfolding bytes_of
gw_ip-IsBytes k = ground arith

empty_icmp :
    (p icmp : ℕ → ℕ) (len : ℕ) → be16 (put_be16 (update (put_bytes p 34 icmp len) 34 0) 36 0) 36 ≡ 0
unfolding be16 put_be16
empty_icmp p icmp len = refl

-- A message whose checksum field, at byte 36, held 0.
sealed-inet_csum :
    (p : ℕ → ℕ) (len : ℕ)
    → IsBytes p
    → 8 ≤ len
    → len ≤ 1566
    → be16 p 36 ≡ 0
    → inet_csum (from (put_be16 p 36 (inet_csum (from p 34) len)) 34) len ≡ 0
unfolding inet_csum be16
sealed-inet_csum p len b low high e =
    rw (put_be16_from p 34 2 (complement (sum_bytes (from p 34) len 0))) (
      complement-sum_bytes (from p 34) len 1 0 (λ k. b (34 + k)) (omega arith) (omega arith)
        (omega arith) e)

-- The stack's own sums over the IPv4 header of an echo reply and over its message are 0.
pub icmp_reply-sums :
    (mac icmp target : ℕ → ℕ) (ip_id icmp_len : ℕ)
    → IsBytes mac
    → IsBytes icmp
    → IsBytes target
    → 8 ≤ icmp_len
    → icmp_len ≤ 1566
    → let header = ip_header (eth_header mac 0x0800) (20 + icmp_len) ip_id 0 1 gw_ip target in
      (inet_csum (from (icmp_reply header icmp icmp_len) 14) 20 ≡ 0)
      × (inet_csum (from (icmp_reply header icmp icmp_len) 34) icmp_len ≡ 0)
unfolding icmp_reply
icmp_reply-sums mac icmp target ip_id icmp_len m b t low high =
    let eth = eth_header mac 0x0800 in
    let whole = eth_header-IsBytes mac 0x0800 m in
    let header = ip_header eth (20 + icmp_len) ip_id 0 1 gw_ip target in
    let copied = put_bytes header 34 icmp icmp_len in
    let message = put_be16 (update copied 34 0) 36 0 in
    let bytes : IsBytes message = put_be16-IsBytes _ 36 0 (
      update-IsBytes copied 34 0 (omega arith) (
        put_bytes-IsBytes header 34 icmp icmp_len
          (ip_header-IsBytes eth (20 + icmp_len) ip_id 0 1 gw_ip target whole (omega arith)
            gw_ip-IsBytes t)
          b)) in
    let outside : Agree 34 (icmp_reply header icmp icmp_len) header =
      put_be16-Agree 34 message header 36 _ (omega arith) (
        put_be16-Agree 34 (update copied 34 0) header 36 0 (omega arith) (
          update-Agree 34 copied header 34 0 (omega arith)
            (put_bytes-Agree 34 header header 34 icmp icmp_len (omega arith) λ k h. refl))) in
    (
      header-Agree (icmp_reply header icmp icmp_len) header outside
          ∙ ip_header-inet_csum eth (20 + icmp_len) ip_id 0 1 gw_ip target whole (omega arith)
              gw_ip-IsBytes t,
      sealed-inet_csum message icmp_len bytes low high (empty_icmp header icmp icmp_len),
    )
