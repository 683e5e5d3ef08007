-- ===== src/Gdb/Packet.antt =====
-- The packets of src/gdbstub.c on the debugger's socket.
use quanta.Common.{
  ℕ, zero, suc, ◌+◌, ◌-◌, ◌==◌, Bool, true, false, leb, if◌then◌else◌, List, [], ◌∷◌, ◌++◌, Option,
  none, some,
}
use quanta.Common.Word.{◌&&&◌, ◌>>◌, u32}
use quanta.Gdb.{Link, Stub, ◌>>=◌}
use quanta.Gdb.Hex.{hex_nibble, nibble_hex, byte_of}

-- One `write_all`; `none` where it fails.
unfoldable pub write_all : Link → List ℕ → Option Link
write_all l [] = some l
write_all l (c ∷ cs) = elim l.writes [
  | zero ↦ none
  | suc left ↦ some (record l { output = l.output ++ c ∷ cs; writes = left })
]

-- The sum of a packet's characters.
unfoldable pub sum_chars : List ℕ → ℕ
sum_chars [] = 0
sum_chars (c ∷ cs) = u32 (c + sum_chars cs)

unfoldable pub tail_of : List ℕ → List ℕ
tail_of chars = let sum = sum_chars chars in 35 ∷ nibble_hex (sum >> 4) ∷ nibble_hex sum ∷ []

-- `$`, the characters, and `#` with the checksum.
unfoldable pub write_frame : Link → List ℕ → Option Link
write_frame l chars = do
  started ← write_all l (36 ∷ [])
  sent ← write_all started chars
  write_all sent (tail_of chars)

-- Whether the debugger took the packet: `none` where the socket is closed.
unfoldable pub read_ack : Link → Option (Bool × Link)
read_ack l = elim l.input [ [] ↦ none | c ∷ rest ↦ some (c == 43, record l { input = rest }) ]

-- The tries that are left.
unfoldable pub send_tries : List ℕ → ℕ → Link → Option Link
send_tries chars zero l = none
send_tries chars (suc left) l =
    let go = send_tries chars left in
    do
      sent ← write_frame l chars
      answer ← read_ack sent
      if answer.0 then some answer.1 else go answer.1

unfoldable pub sent_or_dead : {M S : Type 0} → Stub M S → Option Link → Stub M S
sent_or_dead s none = record s { dead = true }
sent_or_dead s (some l) = record s { link = l }

unfoldable pub send_packet : {M S : Type 0} → Stub M S → List ℕ → Stub M S
send_packet s chars = sent_or_dead s (send_tries chars 5 s.link)

-- What a read gives: a packet's characters, or the interrupt byte.
pub data Incoming : Type 0 where
  interrupt : Incoming
  packet : List ℕ → Incoming

-- The bytes up to a `$`, or an interrupt.
unfoldable pub skip_to_start : List ℕ → Option (Bool × List ℕ)
skip_to_start [] = none
skip_to_start (c ∷ rest) =
    let further = skip_to_start rest in
    if c == 3 then some (true, rest) else if c == 36 then some (false, rest) else further

unfoldable pub with_char : ℕ → Option (List ℕ × List ℕ) → Option (List ℕ × List ℕ)
with_char c none = none
with_char c (some (chars, rest)) = some (c ∷ chars, rest)

-- The characters up to a `#`, of which there are less than the buffer's `size`.
unfoldable pub read_body : ℕ → List ℕ → Option (List ℕ × List ℕ)
read_body size [] = none
read_body size (c ∷ rest) =
    let further = read_body (size - 1) rest in
    if c == 35 then some ([], rest) else if leb size 1 then none else with_char c further

-- The two digits of the checksum.
unfoldable pub read_checksum : List ℕ → Option (ℕ × List ℕ)
read_checksum [] = none
read_checksum (h ∷ []) = none
read_checksum (h ∷ l ∷ rest) = do want ← byte_of (hex_nibble h) (hex_nibble l); some (want, rest)

-- One packet from behind its `$` on, whether its checksum is right, and the bytes left.
unfoldable pub read_one : ℕ → List ℕ → Option (Bool × (List ℕ × List ℕ))
read_one size bytes = do
  body ← read_body size bytes
  sum ← read_checksum body.1
  some (sum_chars body.0 &&& 0xff == sum.0, (body.0, sum.1))

-- What a packet gives once it is answered: its characters, or the next try.
unfoldable pub answer :
    Bool → List ℕ → Link → (Link → Option (Incoming × Link)) → Option (Incoming × Link)
answer true chars l go = some (packet chars, l)
answer false chars l go = go l

unfoldable pub read_answered :
    ℕ → Link → List ℕ → (Link → Option (Incoming × Link)) → Option (Incoming × Link)
read_answered size l bytes go = do
  one ← read_one size bytes
  answered ← write_all (record l { input = one.1.1 }) ((if one.0 then 43 else 45) ∷ [])
  answer one.0 one.1.0 answered go

-- What is behind the start of a packet, or behind an interrupt byte.
unfoldable pub read_started :
    ℕ → Link → (Link → Option (Incoming × Link)) → Bool × List ℕ → Option (Incoming × Link)
read_started size l go (true, rest) = some (interrupt, record l { input = rest })
read_started size l go (false, rest) = read_answered size l rest go

-- The loop over packets that are refused, with the rounds left.
unfoldable pub read_packets : ℕ → ℕ → Link → Option (Incoming × Link)
read_packets size zero l = none
read_packets size (suc left) l =
    let go = read_packets size left in skip_to_start l.input >>= read_started size l go

unfoldable pub count : List ℕ → ℕ
count [] = 0
count (b ∷ bs) = suc (count bs)

-- Each round takes a byte or more.
unfoldable pub read_packet : ℕ → Link → Option (Incoming × Link)
read_packet size l = read_packets size (suc (count l.input)) l
