-- ===== src/Device/Net.antt =====
-- The virtio network device of src/device.c: the receive FIFO, the delivery of its frames into the
-- guest's buffers, the consumption of transmitted frames, and the register file. A frame is a
-- function of the byte's index, with its length beside it.
pub mod Fifo
use quanta.Common.{
  ℕ, zero, suc, ◌+◌, ◌-◌, ◌*◌, ◌%◌, ◌^◌, ◌||◌, ◌&&◌, Bool, true, false, not, ◌==◌, ltb, leb,
  if◌then◌else◌, Option, none, some, List, [], ◌∷◌, min,
}
use quanta.Common.Word.{◌|||◌, ◌&&&◌, ◌<<◌, u16, u32, u64, clear32, set_low, set_high, update}
use quanta.Ram.{Ram, load16, store16}
use quanta.Device.Virtqueue.{dma_ptr, vq_chain, queue_max, post_used}

-- `Virtqueue` of src/device.h.
pub record Vq : Type 0 where
  pub num : ℕ
  pub ready : ℕ
  pub desc_addr : ℕ
  pub avail_addr : ℕ
  pub used_addr : ℕ
  pub last_avail : ℕ

pub record VirtioNet : Type 0 where
  pub status : ℕ
  pub features_sel : ℕ
  pub driver_feat_sel : ℕ
  pub queue_sel : ℕ
  pub interrupt_status : ℕ
  pub vq : ℕ → Vq
  pub mac : ℕ → ℕ
  pub fifo : ℕ → ℕ → ℕ
  pub fifo_len : ℕ → ℕ
  pub fifo_head : ℕ
  pub fifo_count : ℕ

-- The RAM's bytes and the device.
abbrev pub Wire : Type 0
Wire = (ℕ → ℕ) × VirtioNet

-- The host backend's `tx` callback, a frame and its length; `none` is the loopback.
abbrev pub Backend : Type 0
Backend = Option ((ℕ → ℕ) → ℕ → Wire → Wire)

abbrev pub fifo_size : ℕ
fifo_size = 16

abbrev pub frame_max : ℕ
frame_max = 1600

abbrev pub hdr_len : ℕ
hdr_len = 12

-- `memcpy` of `len` bytes.
unfoldable pub copy_frame : (ℕ → ℕ) → ℕ → (ℕ → ℕ) → ℕ → ℕ
copy_frame frame len old k = if ltb k len then frame k else old k

unfoldable pub net_fifo_push : VirtioNet → (ℕ → ℕ) → ℕ → Bool × VirtioNet
net_fifo_push n frame len =
    let tail = (n.fifo_head + n.fifo_count) % fifo_size in
    if len == 0 || ltb frame_max len
    then (false, n)
    else if leb fifo_size n.fifo_count
    then (false, n)
    else (
      true,
      record n {
        fifo = update n.fifo tail (copy_frame frame len (n.fifo tail));
        fifo_len = update n.fifo_len tail len;
        fifo_count = n.fifo_count + 1;
      },
    )

-- The bytes of a readable buffer behind those gathered, `total` of them so far.
unfoldable pub gather_buffer : (ℕ → ℕ) → ℕ → Option ℕ → ℕ → (ℕ → ℕ) × ℕ → (ℕ → ℕ) × ℕ
gather_buffer bytes cap none len (out, total) = (out, total)
gather_buffer bytes cap (some b) len (out, total) =
    let count = min len (cap - total) in
    (
      λ k. if leb total k && ltb k (total + count) then bytes (b + (k - total)) else out k,
      total + count,
    )

unfoldable pub net_gather : Bool → Ram → ℕ → List (ℕ × ℕ) → (ℕ → ℕ) × ℕ → (ℕ → ℕ) × ℕ
net_gather attached ram cap [] out = out
net_gather attached ram cap ((addr, len) ∷ rest) out =
    if ltb out.1 cap
    then net_gather attached ram cap rest
        (gather_buffer ram.bytes cap (dma_ptr attached ram addr len) len out)
    else out

-- The source of a scatter: the header, and then the frame.
unfoldable pub source_byte : (ℕ → ℕ) → (ℕ → ℕ) → ℕ → ℕ
source_byte hdr frame total = if ltb total hdr_len then hdr total else frame (total - hdr_len)

-- The byte loop over one writable buffer, with the rounds left: the RAM's bytes and the total.
unfoldable pub scatter_bytes : (ℕ → ℕ) → (ℕ → ℕ) → ℕ → ℕ → ℕ → ℕ → (ℕ → ℕ) × ℕ → (ℕ → ℕ) × ℕ
scatter_bytes hdr frame frlen b zero k (bytes, total) = (bytes, total)
scatter_bytes hdr frame frlen b (suc left) k (bytes, total) =
    if ltb total (hdr_len + frlen)
    then scatter_bytes hdr frame frlen b left (k + 1)
        (update bytes (b + k) (source_byte hdr frame total), total + 1)
    else (bytes, total)

unfoldable pub scatter_buffer : (ℕ → ℕ) → (ℕ → ℕ) → ℕ → Option ℕ → ℕ → (ℕ → ℕ) × ℕ → (ℕ → ℕ) × ℕ
scatter_buffer hdr frame frlen none len state = state
scatter_buffer hdr frame frlen (some b) len state = scatter_bytes hdr frame frlen b len 0 state

-- A buffer that ends the source leaves the later ones as they are: nothing is left to write.
unfoldable pub net_scatter :
    Bool → Ram → (ℕ → ℕ) → (ℕ → ℕ) → ℕ → List (ℕ × ℕ) → (ℕ → ℕ) × ℕ → (ℕ → ℕ) × ℕ
net_scatter attached ram hdr frame frlen [] state = state
net_scatter attached ram hdr frame frlen ((addr, len) ∷ rest) state =
    net_scatter attached ram hdr frame frlen rest
      (scatter_buffer hdr frame frlen (dma_ptr attached ram addr len) len state)

-- The header of a received frame: all zero but `num_buffers`, which is 1.
unfoldable pub rx_header : ℕ → ℕ
rx_header = store16 (λ _. 0) 10 1

-- A queue after a head is taken.
abbrev pub advance : Vq → Vq
advance q = record q { last_avail = u16 (q.last_avail + 1) }

-- One buffered frame into one posted chain.
unfoldable pub deliver_one : Bool → Ram → ℕ → ℕ → Wire → Wire
deliver_one attached ram avail used (bytes, n) =
    let q = n.vq 0 in
    let head = load16 bytes (avail + 4 + q.last_avail % q.num * 2) in
    let chain = vq_chain attached (record ram { bytes = bytes }) q.desc_addr q.num head in
    let written =
      net_scatter attached ram rx_header (n.fifo n.fifo_head) (n.fifo_len n.fifo_head) chain
        (bytes, 0) in
    (
      post_used written.0 used q.num head written.1,
      record n {
        vq = update n.vq 0 (advance q);
        fifo_head = (n.fifo_head + 1) % fifo_size;
        fifo_count = n.fifo_count - 1;
      },
    )

-- The loop while frames wait, of which there are `left`; `false` while nothing was delivered.
unfoldable pub deliver_all : Bool → Ram → ℕ → ℕ → ℕ → Bool × Wire → Bool × Wire
deliver_all attached ram avail used zero state = state
deliver_all attached ram avail used (suc left) (delivered, (bytes, n)) =
    if load16 bytes (avail + 2) == (n.vq 0).last_avail
    then (delivered, (bytes, n))
    else deliver_all attached ram avail used left
        (true, deliver_one attached ram avail used (bytes, n))

-- The interrupt, if anything happened.
unfoldable pub raise : Bool × Wire → Wire
raise (happened, (bytes, n)) =
    (bytes, if happened then record n { interrupt_status = n.interrupt_status ||| 1 } else n)

unfoldable pub deliver_rings : Bool → Ram → Option ℕ → Option ℕ → Wire → Wire
deliver_rings attached ram none used w = w
deliver_rings attached ram (some avail) none w = w
deliver_rings attached ram (some avail) (some used) w =
    raise (deliver_all attached ram avail used w.1.fifo_count (false, w))

-- A queue that is not ready, or of a size that is not supported.
abbrev pub idle : Vq → Bool
idle q = q.ready == 0 || q.num == 0 || ltb queue_max q.num

unfoldable pub net_deliver_rx : Bool → Ram → Wire → Wire
net_deliver_rx attached ram w =
    let q = w.1.vq 0 in
    if idle q
    then w
    else deliver_rings attached ram (dma_ptr attached ram q.avail_addr (4 + q.num * 2))
        (dma_ptr attached ram q.used_addr (4 + q.num * 8)) w

-- A frame from outside or from the loopback: buffered and, if there is room, delivered.
unfoldable pub net_receive : Bool → Ram → (ℕ → ℕ) → ℕ → Wire → Bool × Wire
net_receive attached ram frame len (bytes, n) =
    let pushed = net_fifo_push n frame len in
    if pushed.0 then (true, net_deliver_rx attached ram (bytes, pushed.1)) else (false, (bytes, n))

unfoldable pub net_transmit : Backend → Bool → Ram → (ℕ → ℕ) → ℕ → Wire → Wire
net_transmit none attached ram frame len w = (net_receive attached ram frame len w).1
net_transmit (some tx) attached ram frame len w = tx frame len w

-- One chain of the transmit queue.
unfoldable pub transmit_one : Backend → Bool → Ram → ℕ → ℕ → Wire → Wire
transmit_one backend attached ram avail used (bytes, n) =
    let q = n.vq 1 in
    let now : Ram = record ram { bytes = bytes } in
    let head = load16 bytes (avail + 4 + q.last_avail % q.num * 2) in
    let chain = vq_chain attached now q.desc_addr q.num head in
    let gathered = net_gather attached now (hdr_len + frame_max) chain (λ _. 0, 0) in
    let sent =
      if ltb hdr_len gathered.1
      then net_transmit backend attached ram (λ k. gathered.0 (hdr_len + k)) (gathered.1 - hdr_len)
          (bytes, n)
      else (bytes, n) in
    (
      post_used sent.0 used (sent.1.vq 1).num head 0,
      record sent.1 { vq = update sent.1.vq 1 (advance (sent.1.vq 1)) },
    )

unfoldable pub transmit_all : Backend → Bool → Ram → ℕ → ℕ → ℕ → Wire → Wire
transmit_all backend attached ram avail used zero w = w
transmit_all backend attached ram avail used (suc left) w =
    transmit_all backend attached ram avail used left
      (transmit_one backend attached ram avail used w)

unfoldable pub transmit_rings : Backend → Bool → Ram → Option ℕ → Option ℕ → Wire → Wire
transmit_rings backend attached ram none used w = w
transmit_rings backend attached ram (some avail) none w = w
transmit_rings backend attached ram (some avail) (some used) w =
    let rounds = u16 (load16 w.0 (avail + 2) + 2 ^ 16 - (w.1.vq 1).last_avail) in
    raise (not (rounds == 0), transmit_all backend attached ram avail used rounds w)

unfoldable pub net_process_tx : Backend → Bool → Ram → Wire → Wire
net_process_tx backend attached ram w =
    let q = w.1.vq 1 in
    if idle q
    then w
    else transmit_rings backend attached ram (dma_ptr attached ram q.avail_addr (4 + q.num * 2))
        (dma_ptr attached ram q.used_addr (4 + q.num * 8)) w

abbrev pub empty_vq : Vq
empty_vq = record {
  num = 0;
  ready = 0;
  desc_addr = 0;
  avail_addr = 0;
  used_addr = 0;
  last_avail = 0;
}

unfoldable pub net_reset : VirtioNet → VirtioNet
net_reset n = record n {
  status = 0;
  features_sel = 0;
  driver_feat_sel = 0;
  queue_sel = 0;
  interrupt_status = 0;
  vq = λ _. empty_vq;
  fifo_head = 0;
  fifo_count = 0;
}

-- The selected queue exists.
abbrev pub selected : VirtioNet → Bool
selected n = ltb n.queue_sel 2

unfoldable pub virtio_net_read : VirtioNet → ℕ → ℕ
virtio_net_read n off =
    if off == 0x000
    then 0x74726976
    else if off == 0x004
    then 2
    else if off == 0x008
    then 1
    else if off == 0x00c
    then 0x554d4551
    else if off == 0x010
    then (if n.features_sel == 1 then 1 else 0x20)
    else if off == 0x034
    then queue_max
    else if off == 0x044
    then (if selected n then (n.vq n.queue_sel).ready else 0)
    else if off == 0x060
    then n.interrupt_status
    else if off == 0x070
    then n.status
    else if off == 0x100
    then n.mac 0 ||| n.mac 1 << 8 ||| n.mac 2 << 16 ||| n.mac 3 << 24
    else if off == 0x104
    then n.mac 4 ||| n.mac 5 << 8
    else 0

-- A write to a register of the selected queue.
unfoldable pub with_queue : VirtioNet → (Vq → Vq) → VirtioNet
with_queue n f =
    if selected n then record n { vq = update n.vq n.queue_sel (f (n.vq n.queue_sel)) } else n

-- The registers whose write reaches the device alone.
unfoldable pub net_register : VirtioNet → ℕ → ℕ → VirtioNet
net_register n off val =
    if off == 0x014
    then record n { features_sel = val }
    else if off == 0x024
    then record n { driver_feat_sel = val }
    else if off == 0x030
    then record n { queue_sel = val }
    else if off == 0x038
    then with_queue n (λ q. record q { num = val })
    else if off == 0x044
    then with_queue n (λ q. record q { ready = val &&& 1 })
    else if off == 0x064
    then record n { interrupt_status = clear32 n.interrupt_status val }
    else if off == 0x070
    then (if val == 0 then net_reset n else record n { status = val })
    else if off == 0x080
    then with_queue n (λ q. record q { desc_addr = set_low q.desc_addr val })
    else if off == 0x084
    then with_queue n (λ q. record q { desc_addr = set_high q.desc_addr val })
    else if off == 0x090
    then with_queue n (λ q. record q { avail_addr = set_low q.avail_addr val })
    else if off == 0x094
    then with_queue n (λ q. record q { avail_addr = set_high q.avail_addr val })
    else if off == 0x0a0
    then with_queue n (λ q. record q { used_addr = set_low q.used_addr val })
    else if off == 0x0a4
    then with_queue n (λ q. record q { used_addr = set_high q.used_addr val })
    else n

unfoldable pub virtio_net_write : Backend → Bool → Ram → Wire → ℕ → ℕ → Wire
virtio_net_write backend attached ram w off val =
    if off == 0x050
    then (if val == 1
        then net_process_tx backend attached ram w
        else if val == 0
        then net_deliver_rx attached ram w
        else w)
    else (w.0, net_register w.1 off val)
