-- ===== src/Netstack/Frame.antt =====
-- The headers that the senders of src/netstack.c write, each the same way.
use quanta.Common.{ℕ}
use quanta.Common.Word.{update}
use quanta.Netstack.{put_be16, put_bytes, gw_mac, from}
use quanta.Netstack.Checksum.{inet_csum}

-- A buffer of which every byte that is sent gets written.
abbrev pub blank : ℕ → ℕ
blank k = 0

unfoldable pub eth_header : (ℕ → ℕ) → ℕ → ℕ → ℕ
eth_header dst etype = put_be16 (put_bytes (put_bytes blank 0 dst 6) 6 gw_mac 6) 12 etype

-- The IPv4 header with its checksum still 0.
unfoldable pub ip_fields : (ℕ → ℕ) → ℕ → ℕ → ℕ → ℕ → (ℕ → ℕ) → (ℕ → ℕ) → ℕ → ℕ
ip_fields p iptot ip_id flags proto src dst =
    let lengths = put_be16 (update (update p 14 0x45) 15 0) 16 iptot in
    let kind = update (update (put_be16 (put_be16 lengths 18 ip_id) 20 flags) 22 64) 23 proto in
    put_bytes (put_bytes (put_be16 kind 24 0) 26 src 4) 30 dst 4

unfoldable pub ip_header : (ℕ → ℕ) → ℕ → ℕ → ℕ → ℕ → (ℕ → ℕ) → (ℕ → ℕ) → ℕ → ℕ
ip_header p iptot ip_id flags proto src dst =
    let fields = ip_fields p iptot ip_id flags proto src dst in
    put_be16 fields 24 (inet_csum (from fields 14) 20)
