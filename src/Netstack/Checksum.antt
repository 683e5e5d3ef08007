-- ===== src/Netstack/Checksum.antt =====
-- The internet checksum of src/netstack.c, with the wrap of its 32-bit sum.
use quanta.Common.{ℕ, zero, suc, ◌+◌, ◌-◌, ◌/◌, ◌%◌, ◌==◌, if◌then◌else◌}
use quanta.Common.Word.{◌<<◌, ◌>>◌, ◌&&&◌, u16, u32, not32}
use quanta.Netstack.{be16}

-- The word loop from byte `i` on, with the words left.
unfoldable pub sum_words : (ℕ → ℕ) → ℕ → ℕ → ℕ → ℕ
sum_words d i zero sum = sum
sum_words d i (suc left) sum = sum_words d (i + 2) left (u32 (sum + be16 d i))

unfoldable pub sum_bytes : (ℕ → ℕ) → ℕ → ℕ → ℕ
sum_bytes d len sum =
    let words = sum_words d 0 (len / 2) sum in
    if len % 2 == 1 then u32 (words + d (len - 1) << 8) else words

-- `while (sum >> 16)`, with the rounds left.
unfoldable pub fold_sum : ℕ → ℕ → ℕ
fold_sum zero sum = sum
fold_sum (suc left) sum =
    let go = fold_sum left in if sum >> 16 == 0 then sum else go ((sum &&& 0xffff) + (sum >> 16))

-- The folded sum's complement. Two rounds fold any 32-bit sum.
unfoldable pub complement : ℕ → ℕ
complement sum = u16 (not32 (fold_sum 2 sum))

unfoldable pub inet_csum : (ℕ → ℕ) → ℕ → ℕ
inet_csum d len = complement (sum_bytes d len 0)

unfoldable pub pseudo_header : (ℕ → ℕ) → (ℕ → ℕ) → ℕ → ℕ → ℕ
pseudo_header src dst proto l4len =
    u32 (be16 src 0 + be16 src 2 + be16 dst 0 + be16 dst 2 + proto + l4len)

unfoldable pub l4_csum : (ℕ → ℕ) → (ℕ → ℕ) → ℕ → (ℕ → ℕ) → ℕ → ℕ
l4_csum src dst proto l4 l4len = complement (sum_bytes l4 l4len (pseudo_header src dst proto l4len))
