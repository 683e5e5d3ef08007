-- ===== src/Gdb/Framing.antt =====
-- The packets of src/gdbstub.c: what the one end writes, the other reads.
use mathlib.Core.List.{append_assoc, append-nil}
use mathlib.Core.Option.{some-injective, none-ne-some}
use quanta.Common.{
  ℕ, zero, suc, ◌-◌, ◌%◌, ◌<◌, ◌≡◌, ◌≢◌, arith, refl, sym, ap, ◌∙◌, true, false, ◌==◌, leb, ==_refl,
  List, [], ◌∷◌, ◌++◌, Option, none, some,
}
use quanta.Common.Bits.{bit_and_mask}
use quanta.Common.Word.{◌>>◌, ◌&&&◌}
use quanta.Gdb.{Link, ◌>>=◌}
use quanta.Gdb.Hex.{nibble_hex}
use quanta.Gdb.RoundTrip.{byte_of-nibble_hex}
use quanta.Gdb.Packet.{
  packet, write_all, write_frame, tail_of, sum_chars, with_char, read_body, read_checksum, read_one,
  skip_to_start, answer, read_answered, read_started, read_packets, read_packet, count,
}

-- Characters that a packet may hold: no `#`.
unfoldable pub IsPlain : List ℕ → Type 0
IsPlain [] = Unit
IsPlain (c ∷ cs) = (c ≢ 35) × IsPlain cs

read_body-append :
    (size : ℕ) (chars rest : List ℕ)
    → IsPlain chars
    → count chars < size
    → read_body size (chars ++ 35 ∷ rest) ≡ some (chars, rest)
unfolding read_body IsPlain count with_char
read_body-append size [] rest p h = refl
read_body-append size (c ∷ cs) rest (pc, p) h =
    let further = read_body-append (size - 1) cs rest p (omega arith) in
    let plain : (c == 35) ≡ false = ground arith in
    let room : leb size 1 ≡ false = ground arith in rw (plain, room, further) refl

read_checksum-tail :
    (chars rest : List ℕ)
    → read_checksum (nibble_hex (sum_chars chars >> 4) ∷ nibble_hex (sum_chars chars) ∷ rest)
      ≡ some (sum_chars chars % 256, rest)
unfolding read_checksum
read_checksum-tail chars rest = rw (byte_of-nibble_hex (sum_chars chars)) refl

-- The bytes of a packet.
frame : List ℕ → List ℕ
frame chars = 36 ∷ chars ++ tail_of chars

read_one-frame :
    (size : ℕ) (chars rest : List ℕ)
    → IsPlain chars
    → count chars < size
    → read_one size (chars ++ (tail_of chars ++ rest)) ≡ some (true, (chars, rest))
unfolding read_one tail_of
read_one-frame size chars rest p h =
    let sum = sum_chars chars in
    let right : (sum &&& 0xff == sum % 256) ≡ true =
      ap (λ t. t == sum % 256) (bit_and_mask 8 sum) ∙ ==_refl (sum % 256) in
    rw
      (
        read_body-append size chars (nibble_hex (sum >> 4) ∷ nibble_hex sum ∷ rest) p h,
        read_checksum-tail chars rest,
        right,
      )
      refl

read_packet-frame :
    (size : ℕ) (l : Link) (chars rest : List ℕ) (w : ℕ)
    → IsPlain chars
    → count chars < size
    → l.input ≡ frame chars ++ rest
    → l.writes ≡ suc w
    → read_packet size l
      ≡ some (packet chars, record l { input = rest; output = l.output ++ 43 ∷ []; writes = w })
unfolding read_packet read_packets read_started read_answered skip_to_start write_all answer frame
read_packet-frame size l chars rest w p h e room =
    let one = read_one-frame size chars rest p h in
    let grouped = append_assoc chars (tail_of chars) rest in rw (e, grouped, one, room) refl

-- What a chain of results that succeeds came through.
bind-some :
    {A B : Type 0} (o : Option A) (f : A → Option B) (b : B)
    → (o >>= f) ≡ some b
    → (a : A) × ((o ≡ some a) × (f a ≡ some b))
bind-some none f b e = absurd (none-ne-some b e)
bind-some (some a) f b e = (a, (refl, e))

write_all-output :
    (l sent : Link) (bytes : List ℕ) (n : ℕ)
    → l.writes ≡ n
    → write_all l bytes ≡ some sent
    → sent.output ≡ l.output ++ bytes
unfolding write_all
write_all-output l sent [] n e h =
    ap (λ (t : Link). t.output) (sym (some-injective l sent h)) ∙ sym (append-nil l.output)
write_all-output l sent (c ∷ cs) zero e h =
    let broken : write_all l (c ∷ cs) ≡ none = rw e refl in
    absurd (none-ne-some sent (sym broken ∙ h))
write_all-output l sent (c ∷ cs) (suc w) e h =
    let wrote : write_all l (c ∷ cs) ≡ some (record l { output = l.output ++ c ∷ cs; writes = w }) =
      rw e refl in
    ap (λ (t : Link). t.output) (sym (some-injective _ sent (sym wrote ∙ h)))

-- A frame that was written is what was written before and the packet's bytes.
write_frame-output :
    (l sent : Link) (chars : List ℕ)
    → write_frame l chars ≡ some sent
    → sent.output ≡ l.output ++ frame chars
unfolding write_frame frame
write_frame-output l sent chars h =
    let (started, (first, then_)) = bind-some (write_all l (36 ∷ [])) _ sent h in
    let (mid, (second, third)) = bind-some (write_all started chars) _ sent then_ in
    let one = write_all-output l started (36 ∷ []) l.writes refl first in
    let two = write_all-output started mid chars started.writes refl second in
    let last = write_all-output mid sent (tail_of chars) mid.writes refl third in
    last
    ∙ ap (λ t. t ++ tail_of chars) (two ∙ ap (λ t. t ++ chars) one)
    ∙ append_assoc (l.output ++ 36 ∷ []) chars (tail_of chars)
    ∙ append_assoc l.output (36 ∷ []) (chars ++ tail_of chars)

-- A packet without `#` that fits the reader's buffer and that `write_frame` put on a new socket is
-- what `read_packet` gives, with nothing of it left to read, and the reader answers `+`.
pub read_packet-write_frame :
    (size : ℕ) (writer sent l : Link) (chars rest : List ℕ) (w : ℕ)
    → IsPlain chars
    → count chars < size
    → writer.output ≡ []
    → write_frame writer chars ≡ some sent
    → l.input ≡ sent.output ++ rest
    → l.writes ≡ suc w
    → read_packet size l
      ≡ some (packet chars, record l { input = rest; output = l.output ++ 43 ∷ []; writes = w })
read_packet-write_frame size writer sent l chars rest w p h fresh wrote e room =
    let all = write_frame-output writer sent chars wrote in
    read_packet-frame size l chars rest w p h
      (e ∙ ap (λ t. t ++ rest) (all ∙ ap (λ t. t ++ frame chars) fresh)) room
