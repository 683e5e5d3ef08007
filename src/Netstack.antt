-- ===== src/Netstack.antt =====
-- The user-mode network stack of src/netstack.c: its state, the bytes of its frames and the log of
-- what it does. A frame or a buffer is a function of the byte's index, an address its first bytes.
-- The host's sockets, the heap and the wire are not part of the program: what the stack asks of
-- them is an event of the log, and their answers are the fields of `Host`.
pub mod Checksum
pub mod Frame
pub mod Gateway
pub mod Flow
pub mod Tcp
pub mod Segment
pub mod Input
pub mod Verify
pub mod Emit
pub mod Table
pub mod Keep
pub mod Stream
pub mod Window
use quanta.Common.{
  ℕ, zero, ◌+◌, ◌-◌, ◌&&◌, Bool, false, ◌==◌, ltb, leb, if◌then◌else◌, List, [], ◌∷◌, Option, some,
  ◌≤◌, ◌≡◌,
}
use quanta.Common.Word.{◌|||◌, ◌<<◌, ◌>>◌, u8, update}

pub data Event : Type 0 where
  emits : (ℕ → ℕ) → ℕ → Event
  opens : ℕ → ℕ → (ℕ → ℕ) → ℕ → Event
  sends : ℕ → (ℕ → ℕ) → ℕ → Event
  shuts closes : ℕ → Event

-- The answers to the last call of a log, newest first: whether a socket was opened, how many bytes
-- were accepted (`none` is a negative result), and whether memory was granted.
pub record Host : Type 0 where
  pub grants : List Event → Bool
  pub accepts : List Event → Option ℕ
  pub allocates : List Event → Bool

-- How many bytes the last call of a log offers.
unfoldable pub offered : List Event → ℕ
offered [] = 0
offered (emits frame len ∷ log) = 0
offered (opens id proto ip port ∷ log) = 0
offered (sends id bytes len ∷ log) = len
offered (shuts id ∷ log) = 0
offered (closes id ∷ log) = 0

-- What src/netstack.h says of `NetIo.send`: it takes 0 to all of the bytes that it is offered.
abbrev pub Takes : Host → Type 0
Takes host = (log : List Event) (n : ℕ) → host.accepts log ≡ some n → n ≤ offered log

pub record NatFlow : Type 0 where
  pub proto : ℕ
  pub face_ip : ℕ → ℕ
  pub real_ip : ℕ → ℕ
  pub guest_port : ℕ
  pub face_port : ℕ
  pub state : ℕ
  pub guest_fin : Bool
  pub host_eof : Bool
  pub fin_sent : Bool
  pub shutdown_pending : Bool
  pub snd_nxt : ℕ
  pub snd_una : ℕ
  pub rcv_nxt : ℕ
  pub guest_wnd : ℕ
  -- A buffer is there once it is allocated.
  pub has_g2h : Bool
  pub g2h : ℕ → ℕ
  pub g2h_len : ℕ
  pub has_h2g : Bool
  pub h2g : ℕ → ℕ
  pub h2g_len : ℕ

-- `attached` says that a backend is set. The log has the newest event first.
pub record NetStack : Type 0 where
  pub guest_mac : ℕ → ℕ
  pub have_guest_mac : Bool
  pub ip_id : ℕ
  pub attached : Bool
  pub upstream_dns : ℕ → ℕ
  pub tcp_isn : ℕ
  pub flows : ℕ → NatFlow
  pub log : List Event

abbrev pub proto_udp : ℕ
proto_udp = 0

abbrev pub proto_tcp : ℕ
proto_tcp = 1

abbrev pub ts_free : ℕ
ts_free = 0

abbrev pub ts_connecting : ℕ
ts_connecting = 1

abbrev pub ts_synrcvd : ℕ
ts_synrcvd = 2

abbrev pub ts_estab : ℕ
ts_estab = 3

abbrev pub nat_max : ℕ
nat_max = 64

abbrev pub mtu : ℕ
mtu = 1600

abbrev pub tcp_buf : ℕ
tcp_buf = 32768

abbrev pub tcp_mss : ℕ
tcp_mss = 1460

abbrev pub eth_hdr : ℕ
eth_hdr = 14

-- The bytes of a list, and 0 behind them.
unfoldable pub bytes_of : List ℕ → ℕ → ℕ
bytes_of [] k = 0
bytes_of (b ∷ bs) k = if k == 0 then b else bytes_of bs (k - 1)

abbrev pub gw_mac : ℕ → ℕ
gw_mac = bytes_of (0x52 ∷ 0x55 ∷ 0x0a ∷ 0x00 ∷ 0x02 ∷ 0x02 ∷ [])

abbrev pub gw_ip : ℕ → ℕ
gw_ip = bytes_of (10 ∷ 0 ∷ 2 ∷ 2 ∷ [])

abbrev pub dns_ip : ℕ → ℕ
dns_ip = bytes_of (10 ∷ 0 ∷ 2 ∷ 3 ∷ [])

abbrev pub guest_ip : ℕ → ℕ
guest_ip = bytes_of (10 ∷ 0 ∷ 2 ∷ 15 ∷ [])

abbrev pub netmask : ℕ → ℕ
netmask = bytes_of (255 ∷ 255 ∷ 255 ∷ 0 ∷ [])

abbrev pub dhcp_magic : ℕ → ℕ
dhcp_magic = bytes_of (0x63 ∷ 0x82 ∷ 0x53 ∷ 0x63 ∷ [])

-- What a pointer into a buffer sees.
abbrev pub from : (ℕ → ℕ) → ℕ → ℕ → ℕ
from d i k = d (i + k)

unfoldable pub be16 : (ℕ → ℕ) → ℕ → ℕ
be16 p i = p i << 8 ||| p (i + 1)

unfoldable pub be32 : (ℕ → ℕ) → ℕ → ℕ
be32 p i = p i << 24 ||| p (i + 1) << 16 ||| p (i + 2) << 8 ||| p (i + 3)

unfoldable pub put_be16 : (ℕ → ℕ) → ℕ → ℕ → ℕ → ℕ
put_be16 p i v = update (update p i (u8 (v >> 8))) (i + 1) (u8 v)

unfoldable pub put_be32 : (ℕ → ℕ) → ℕ → ℕ → ℕ → ℕ
put_be32 p i v =
    update
      (update (update (update p i (u8 (v >> 24))) (i + 1) (u8 (v >> 16))) (i + 2) (u8 (v >> 8)))
      (i + 3) (u8 v)

-- `memcpy(p + i, src, n)`.
unfoldable pub put_bytes : (ℕ → ℕ) → ℕ → (ℕ → ℕ) → ℕ → ℕ → ℕ
put_bytes p i src n k = if leb i k && ltb k (i + n) then src (k - i) else p k

-- `memcmp(a, b, 4) == 0`.
unfoldable pub same_ip : (ℕ → ℕ) → (ℕ → ℕ) → Bool
same_ip a b = a 0 == b 0 && a 1 == b 1 && a 2 == b 2 && a 3 == b 3

unfoldable pub emit : NetStack → (ℕ → ℕ) → ℕ → NetStack
emit ns frame len = record ns { log = emits frame len ∷ ns.log }

-- `ns->flows[id]` after a write.
unfoldable pub with_flow : NetStack → ℕ → NatFlow → NetStack
with_flow ns id f = record ns { flows = update ns.flows id f }
