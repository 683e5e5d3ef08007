-- ===== src/Tests/Net.antt =====
-- The theorems on the user-mode network stack, at concrete inputs.
use quanta.Common.{
  ℕ, ◌+◌, ◌≡◌, arith, true, false, ◌==◌, if◌then◌else◌, some, none, List, [], ◌∷◌, ◌++◌,
}
use quanta.Netstack.{NatFlow, NetStack, Host, ts_estab, proto_tcp, bytes_of, from, gw_ip, guest_ip}
use quanta.Netstack.Frame.{eth_header, ip_header}
use quanta.Netstack.Gateway.{icmp_reply}
use quanta.Netstack.Flow.{empty_flow}
use quanta.Netstack.Tcp.{tcp_segment, flush_rounds, can_flush, tcp_flush_h2g}
use quanta.Netstack.Input.{fresh}
use quanta.Netstack.Table.Steps.{Stimulus, frame_in, connected, attach}
use quanta.Netstack.Verify.{IsValid}
use quanta.Netstack.Emit.Receive.{pseudo, tcp_segment-verifies, icmp_reply-verifies}
use quanta.Netstack.Stream.{delivered, waiting, tcp_flush_h2g-delivered}
use quanta.Netstack.Window.{Within, flush_rounds-Within_end}

-- A host that grants every call and takes no bytes.
abbrev idle_host : Host
idle_host = record { grants = λ _. true; accepts = λ _. some 0; allocates = λ _. true }

-- A SYN of the guest's port 0x4000 for 8.8.8.8, port 80, in 54 bytes.
abbrev syn : ℕ → ℕ
syn k =
    if k == 12
    then 8
    else if k == 14
    then 0x45
    else if k == 17
    then 40
    else if k == 23
    then 6
    else if k == 30
    then 8
    else if k == 34
    then 0x40
    else if k == 37
    then 80
    else if k == 46
    then 0x50
    else if k == 47
    then 0x02
    else 0

-- A connection that is set up, with three bytes for the guest.
abbrev chatty : NatFlow
chatty = record empty_flow {
  proto = proto_tcp;
  state = ts_estab;
  face_ip = λ _. 8;
  guest_wnd = 2;
  snd_nxt = 0x9001;
  snd_una = 0x9001;
  has_h2g = true;
  h2g = λ k. k + 65;
  h2g_len = 3;
}

abbrev chatty_stack : NetStack
chatty_stack = record fresh { attached = true; flows = λ _. chatty }

-- The guest opens a connection, the host reports it, and the guest repeats its SYN.
abbrev opening : List Stimulus
opening = attach true none ∷ frame_in syn 54 ∷ connected 0 ∷ frame_in syn 54 ∷ []

tcp_segment-verifies_example :
    let frame = tcp_segment chatty_stack chatty 0x10 (λ _. 65) 3 in
    IsValid 0 (from frame 14) 20 × IsValid (pseudo frame (20 + 3)) (from frame 34) (20 + 3)
tcp_segment-verifies_example =
    tcp_segment-verifies chatty_stack chatty 0x10 (λ _. 65) 3 (λ k. omega arith) (λ k. omega arith)
      (λ k. omega arith) (omega arith) (omega arith)

icmp_reply-verifies_example :
    let frame =
      icmp_reply
        (ip_header (eth_header (λ _. 2) 0x0800) (20 + 9) 7 0 1 gw_ip (λ _. 10))
        (λ _. 8)
        9 in
    IsValid 0 (from frame 14) 20 × IsValid 0 (from frame 34) 9
icmp_reply-verifies_example =
    icmp_reply-verifies (λ _. 2) (λ _. 8) (λ _. 10) 7 9 (λ k. omega arith) (λ k. omega arith)
      (λ k. omega arith) (omega arith) (omega arith)

tcp_flush_h2g-delivered_example :
    delivered (tcp_flush_h2g chatty_stack 5).log ++ waiting ((tcp_flush_h2g chatty_stack 5).flows 5)
    ≡ delivered chatty_stack.log ++ waiting (chatty_stack.flows 5)
tcp_flush_h2g-delivered_example = tcp_flush_h2g-delivered chatty_stack 5

chatty-Within : Within chatty
unfolding quanta.Netstack.Tcp.inflight
chatty-Within = record {
  nxt_fits = omega arith;
  una_fits = omega arith;
  wnd_fits = omega arith;
  in_window = omega arith;
}

flush_rounds-Within_end_example :
    let f = (flush_rounds 5 (chatty_stack.flows 5).h2g_len chatty_stack).flows 5 in
    (can_flush f ≡ false) × Within f
flush_rounds-Within_end_example = flush_rounds-Within_end 5 chatty_stack chatty-Within
