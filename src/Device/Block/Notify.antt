-- ===== src/Device/Block/Notify.antt =====
-- The end of the loop that serves the block device's queue in src/device.c.
use quanta.Common.{
  ℕ, zero, suc, ◌+◌, ◌-◌, ◌*◌, ◌^◌, ◌≤◌, ◌<◌, ◌≡◌, arith, Bool, false, some, refl, ◌∙◌, ◌==◌, ltb,
  ◌||◌,
}
use quanta.Common.Word.{u16}
use quanta.Ram.{Ram, load16}
use quanta.Ram.Bytes.{IsBytes, load16-lt}
use quanta.Common.Bits.{bit, bit-bit_or}
use quanta.Device.Virtqueue.{dma_ptr, queue_max}
use quanta.Device.Block.Served.{Serves, asserted, consume_all-Serves}
use quanta.Device.Block.{
  Queue, Disk, Virtio, consume, consume_all, pending, notify_rings, virtio_notify,
}

consume-last_avail :
    (attached : Bool) (ram : Ram) (avail used : ℕ) (q : Queue)
    → (consume attached ram avail used q).virtio.last_avail ≡ u16 (q.virtio.last_avail + 1)
unfolding consume
consume-last_avail attached ram avail used q = refl

consume_all-last_avail :
    (attached : Bool) (ram : Ram) (avail used left : ℕ) (q : Queue)
    → u16 (consume_all attached ram avail used left q).virtio.last_avail
      ≡ u16 (q.virtio.last_avail + left)
unfolding consume_all
consume_all-last_avail attached ram avail used zero q = omega arith
consume_all-last_avail attached ram avail used (suc left) q =
    let rest =
      consume_all-last_avail attached ram avail used left (consume attached ram avail used q) in
    let one = consume-last_avail attached ram avail used q in omega arith

consume_all-fits :
    (attached : Bool) (ram : Ram) (avail used left : ℕ) (q : Queue)
    → q.virtio.last_avail < 2 ^ 16
    → (consume_all attached ram avail used left q).virtio.last_avail < 2 ^ 16
unfolding consume_all
consume_all-fits attached ram avail used zero q h = h
consume_all-fits attached ram avail used (suc left) q h =
    let one = consume-last_avail attached ram avail used q in
    consume_all-fits attached ram avail used left (consume attached ram avail used q) (omega arith)

-- The rounds reach the index that the driver wrote.
consume_all-pending :
    (attached : Bool) (ram : Ram) (avail used target : ℕ) (q : Queue)
    → q.virtio.last_avail < 2 ^ 16
    → target < 2 ^ 16
    → (consume_all attached ram avail used (pending target q.virtio.last_avail) q).virtio.last_avail
      ≡ target
consume_all-pending attached ram avail used target q h fits =
    let left = pending target q.virtio.last_avail in
    let sum = consume_all-last_avail attached ram avail used left q in
    let small = consume_all-fits attached ram avail used left q h in omega arith

-- A notify of a ready queue with 1 to 256 descriptors whose rings lie in the RAM ends, having served in
-- order, one by one, as many chains as the driver published and no more: each chain is the one that
-- the available ring names, what its service does to the RAM and the disk stays, and its head and its
-- count of bytes are posted in the next element of the used ring, whose index moves on by one. Then
-- the device's index is the driver's, and the interrupt is asserted.
pub virtio_notify-Serves :
    (attached : Bool) (ram : Ram) (disk : Disk) (v : Virtio) (avail used : ℕ)
    → IsBytes ram.bytes
    → v.last_avail < 2 ^ 16
    → 0 < v.queue_ready
    → 0 < v.queue_num
    → v.queue_num ≤ queue_max
    → dma_ptr attached ram v.avail_addr (4 + v.queue_num * 2) ≡ some avail
    → dma_ptr attached ram v.used_addr (4 + v.queue_num * 8) ≡ some used
    → let idx = load16 ram.bytes (avail + 2) in
      let start : Queue = record { bytes = ram.bytes; disk = disk; virtio = v } in
      (end : Queue) × (Serves attached ram avail used (u16 (idx + 2 ^ 16 - v.last_avail)) start end
        × ((end.virtio.last_avail ≡ idx)
            × ((virtio_notify attached ram disk v ≡ asserted end)
                × (bit 0 (virtio_notify attached ram disk v).virtio.interrupt_status ≡ 1))))
unfolding virtio_notify notify_rings
virtio_notify-Serves attached ram disk v avail used h fits ready some_num few ea eu =
    let q : Queue = record { bytes = ram.bytes; disk = disk; virtio = v } in
    let idx = load16 ram.bytes (avail + 2) in
    let ok : (v.queue_ready == 0 || v.queue_num == 0 || ltb queue_max v.queue_num) ≡ false =
      ground arith in
    rw ok rw (ea, eu)
      (
        consume_all attached ram avail used (pending idx v.last_avail) q,
        (
          consume_all-Serves attached ram avail used (pending idx v.last_avail) q,
          (
            consume_all-pending attached ram avail used idx q fits
                (load16-lt ram.bytes (avail + 2) h),
            (refl, bit-bit_or 0 _ 1 ∙ omega arith),
          ),
        ),
      )
