-- ===== src/Netstack/Window.antt =====
-- The flush loop of src/netstack.c ends, and keeps to the guest's window.
use quanta.Common.{
  ℕ, zero, suc, ◌^◌, ◌≤◌, ◌<◌, ◌≡◌, arith, refl, sym, true, false, inl, inr, Bool-cases, ==_refl,
}
use quanta.Netstack.{NatFlow, NetStack, emit, with_flow}
use quanta.Netstack.Tcp.{
  tcp_out, inflight, flush_chunk, chunk_sent, flush_one, can_flush, flush_rounds,
}

-- What is in flight is within the guest's window.
pub record Within (f : NatFlow) : Type 0 where
  pub nxt_fits : f.snd_nxt < 2 ^ 32
  pub una_fits : f.snd_una < 2 ^ 32
  pub wnd_fits : f.guest_wnd < 2 ^ 16
  pub in_window : inflight f ≤ f.guest_wnd

chunk_pos : (f : NatFlow) → can_flush f ≡ true → 0 < flush_chunk f
unfolding can_flush flush_chunk
chunk_pos f e = ground arith

flush_one-flow :
    (ns : NetStack) (id : ℕ)
    → chunk_sent (ns.flows id) (flush_chunk (ns.flows id)) ≡ (flush_one ns id).flows id
unfolding flush_one tcp_out emit with_flow
flush_one-flow ns id = rw (==_refl id) refl

chunk_sent-Within : (f : NatFlow) → Within f → Within (chunk_sent f (flush_chunk f))
unfolding chunk_sent inflight flush_chunk
chunk_sent-Within f w = record {
  nxt_fits = omega arith;
  una_fits = w.una_fits;
  wnd_fits = w.wnd_fits;
  in_window = omega (arith, w.nxt_fits, w.una_fits, w.wnd_fits, w.in_window);
}

flush_rounds_end :
    (id left : ℕ) (ns : NetStack)
    → (ns.flows id).h2g_len ≤ left
    → can_flush ((flush_rounds id left ns).flows id) ≡ false
unfolding flush_rounds can_flush chunk_sent
flush_rounds_end id zero ns h = ground arith
flush_rounds_end id (suc left) ns h =
    let f = ns.flows id in
    let rest = flush_rounds_end id left (flush_one ns id) in
    elim (Bool-cases (can_flush f)) [
      | inl e ↦
          let pos = chunk_pos f e in rw e (rest (rw (sym (flush_one-flow ns id)) (omega arith)))
      | inr e ↦ rw e e
    ]

flush_rounds-Within :
    (id left : ℕ) (ns : NetStack)
    → Within (ns.flows id)
    → Within ((flush_rounds id left ns).flows id)
unfolding flush_rounds
flush_rounds-Within id zero ns w = w
flush_rounds-Within id (suc left) ns w =
    let f = ns.flows id in
    let rest = flush_rounds-Within id left (flush_one ns id) in
    elim (Bool-cases (can_flush f)) [
      | inl e ↦ rw e (rest (rw (sym (flush_one-flow ns id)) (chunk_sent-Within f w)))
      | inr e ↦ rw e w
    ]

-- With as many rounds as bytes wait, as the flush has them, the loop has ended by its own condition,
-- and if what was in flight was within the guest's window it still is.
pub flush_rounds-Within_end :
    (id : ℕ) (ns : NetStack)
    → Within (ns.flows id)
    → let f = (flush_rounds id (ns.flows id).h2g_len ns).flows id in
      (can_flush f ≡ false) × Within f
flush_rounds-Within_end id ns w = (
  flush_rounds_end id (ns.flows id).h2g_len ns (omega arith),
  flush_rounds-Within id (ns.flows id).h2g_len ns w,
)
