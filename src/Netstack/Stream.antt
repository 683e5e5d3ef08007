-- ===== src/Netstack/Stream.antt =====
-- The flush of src/netstack.c: what the host's bytes become on the guest's wire.
use quanta.Common.{
  ℕ, zero, suc, ◌+◌, ◌-◌, ◌≤◌, ◌<◌, ◌≡◌, arith, refl, sym, ap, ◌∙◌, true, ◌==◌, ltb, leb, ◌&&◌, not,
  inl, inr, Bool-cases, List, [], ◌∷◌, ◌++◌, ==_refl,
}
use mathlib.Core.List.{append_assoc, append-nil}
use quanta.Netstack.Verify.{put_be16-apart}
use quanta.Device.Net.Fifo.{bytes_from}
use quanta.Netstack.{
  NatFlow, NetStack, Event, emits, opens, sends, shuts, closes, ts_estab, put_bytes, from, emit,
  with_flow,
}
use quanta.Netstack.Tcp.{
  tcp_segment, tcp_out, sealed, drop_bytes, flush_chunk, chunk_sent, flush_one, can_flush,
  flush_rounds, flush_fin, tcp_flush_h2g,
}

-- The bytes behind the headers of a TCP frame.
unfoldable pub payload : Event → List ℕ
payload (emits frame len) = bytes_from (from frame 54) 0 (len - 54)
payload (opens id proto ip port) = []
payload (sends id bytes len) = []
payload (shuts id) = []
payload (closes id) = []

-- The payloads of a log in the order they went out.
unfoldable pub delivered : List Event → List ℕ
delivered [] = []
delivered (e ∷ log) = delivered log ++ payload e

-- The host's bytes that wait for the guest.
abbrev pub waiting : NatFlow → List ℕ
waiting f = bytes_from f.h2g 0 f.h2g_len

bytes_from-split :
    (d : ℕ → ℕ) (i a b : ℕ) → bytes_from d i (a + b) ≡ bytes_from d i a ++ bytes_from d (i + a) b
unfolding bytes_from
bytes_from-split d i zero b =
    let same : i + 0 ≡ i = omega arith in
    let none_more : 0 + b ≡ b = omega arith in rw (none_more, same) refl
bytes_from-split d i (suc a) b =
    let more : suc a + b ≡ suc (a + b) = omega arith in
    let place : i + suc a ≡ i + 1 + a = omega arith in
    rw (more, place) (ap (λ t. d i ∷ t) (bytes_from-split d (i + 1) a b))

-- Two views of the same bytes.
bytes_from-shift :
    (p q : ℕ → ℕ) (i j left : ℕ)
    → ((k : ℕ) → k < left → p (i + k) ≡ q (j + k))
    → bytes_from p i left ≡ bytes_from q j left
unfolding bytes_from
bytes_from-shift p q i j zero h = refl
bytes_from-shift p q i j (suc left) h =
    let i_zero : i + 0 ≡ i = omega arith in
    let j_zero : j + 0 ≡ j = omega arith in
    let first : p i ≡ q j = ap p (sym i_zero) ∙ h 0 (omega arith) ∙ ap q j_zero in
    let rest = bytes_from-shift p q (i + 1) (j + 1) left λ k hk.
      let i_next : i + 1 + k ≡ i + suc k = omega arith in
      let j_next : j + suc k ≡ j + 1 + k = omega arith in
      ap p i_next ∙ h (suc k) (omega arith) ∙ ap q j_next in
    rw (first, rest) refl

put_bytes_in :
    (p : ℕ → ℕ) (i : ℕ) (src : ℕ → ℕ) (n k : ℕ) → k < n → put_bytes p i src n (i + k) ≡ src k
unfolding put_bytes
put_bytes_in p i src n k h =
    let low : leb i (i + k) ≡ true = ground arith in
    let high : ltb (i + k) (i + n) ≡ true = ground arith in
    let place : i + k - i ≡ k = omega arith in rw (low, high, place) refl

segment_payload :
    (ns : NetStack) (f : NatFlow) (flags : ℕ) (bytes : ℕ → ℕ) (plen k : ℕ)
    → k < plen
    → tcp_segment ns f flags bytes plen (54 + k) ≡ bytes k
unfolding tcp_segment sealed
segment_payload ns f flags bytes plen k h =
    put_be16-apart _ 50 _ (54 + k) (omega arith) (omega arith) ∙ put_bytes_in _ 54 bytes plen k h

payload-tcp_segment :
    (ns : NetStack) (f : NatFlow) (flags : ℕ) (bytes : ℕ → ℕ) (plen : ℕ)
    → payload (emits (tcp_segment ns f flags bytes plen) (14 + (20 + 20 + plen)))
      ≡ bytes_from bytes 0 plen
unfolding payload
payload-tcp_segment ns f flags bytes plen =
    let count : 14 + (20 + 20 + plen) - 54 ≡ plen = omega arith in
    rw count (
      bytes_from-shift (from (tcp_segment ns f flags bytes plen) 54) bytes 0 0 plen λ k h.
        let place : 0 + k ≡ k = omega arith in rw place (segment_payload ns f flags bytes plen k h))

-- What is dropped and what is kept of a buffer.
bytes_from-drop_bytes :
    (d : ℕ → ℕ) (n len : ℕ)
    → n ≤ len
    → bytes_from d 0 n ++ bytes_from (drop_bytes d n len) 0 (len - n) ≡ bytes_from d 0 len
unfolding drop_bytes
bytes_from-drop_bytes d n len h =
    let kept : bytes_from (drop_bytes d n len) 0 (len - n) ≡ bytes_from d (0 + n) (len - n) =
      bytes_from-shift (drop_bytes d n len) d 0 (0 + n) (len - n) λ k hk.
        let here : ltb (0 + k) (len - n) ≡ true = ground arith in
        let place : 0 + k + n ≡ 0 + n + k = omega arith in rw (here, place) refl in
    let whole : n + (len - n) ≡ len = omega arith in
    rw kept (sym (bytes_from-split d 0 n (len - n)) ∙ ap (bytes_from d 0) whole)

flush_chunk-le : (f : NatFlow) → flush_chunk f ≤ f.h2g_len
unfolding flush_chunk
flush_chunk-le f = omega arith

-- A round moves bytes from those that wait to those delivered.
flush_one-delivered :
    (ns : NetStack) (id : ℕ)
    → delivered (flush_one ns id).log ++ waiting ((flush_one ns id).flows id)
      ≡ delivered ns.log ++ waiting (ns.flows id)
unfolding flush_one tcp_out emit with_flow delivered chunk_sent
flush_one-delivered ns id =
    let f = ns.flows id in
    let n = flush_chunk f in
    rw (==_refl id, payload-tcp_segment ns f 0x10 f.h2g n)
      (append_assoc (delivered ns.log) (bytes_from f.h2g 0 n) _
        ∙ ap (λ t. delivered ns.log ++ t)
            (bytes_from-drop_bytes f.h2g n f.h2g_len (flush_chunk-le f)))

flush_rounds-delivered :
    (id left : ℕ) (ns : NetStack)
    → let after = flush_rounds id left ns in
      delivered after.log ++ waiting (after.flows id) ≡ delivered ns.log ++ waiting (ns.flows id)
unfolding flush_rounds
flush_rounds-delivered id zero ns = refl
flush_rounds-delivered id (suc left) ns =
    let rest = flush_rounds-delivered id left (flush_one ns id) in
    elim (Bool-cases (can_flush (ns.flows id))) [
      | inl e ↦ rw e (rest ∙ flush_one-delivered ns id)
      | inr e ↦ rw e refl
    ]

flush_fin-delivered :
    (ns : NetStack) (id : ℕ)
    → let after = flush_fin ns id in
      delivered after.log ++ waiting (after.flows id) ≡ delivered ns.log ++ waiting (ns.flows id)
unfolding flush_fin tcp_out emit with_flow delivered bytes_from
flush_fin-delivered ns id =
    let f = ns.flows id in
    elim (Bool-cases (f.host_eof && f.h2g_len == 0 && not f.fin_sent)) [
      | inl e ↦
          rw (e, ==_refl id, payload-tcp_segment ns f 0x11 (λ _. 0) 0)
            (ap (λ t. t ++ waiting f) (append-nil (delivered ns.log)))
      | inr e ↦ rw e refl
    ]

-- A flush neither loses nor repeats nor reorders the host's bytes: those that go out to the guest,
-- followed by those that still wait, are those that went out before, followed by those that waited.
pub tcp_flush_h2g-delivered :
    (ns : NetStack) (id : ℕ)
    → let after = tcp_flush_h2g ns id in
      delivered after.log ++ waiting (after.flows id) ≡ delivered ns.log ++ waiting (ns.flows id)
unfolding tcp_flush_h2g
tcp_flush_h2g-delivered ns id =
    let f = ns.flows id in
    let sent = flush_rounds id f.h2g_len ns in
    elim (Bool-cases (f.state == ts_estab)) [
      | inl e ↦ rw e (flush_fin-delivered sent id ∙ flush_rounds-delivered id f.h2g_len ns)
      | inr e ↦ rw e refl
    ]
