-- ===== src/Device/Block.antt =====
-- The virtio block device of src/device.c. The service of a request, the notify that consumes every
-- available one, and the register file.
pub mod Served
pub mod Notify
use quanta.Common.{
  ℕ, zero, suc, ◌+◌, ◌-◌, ◌*◌, ◌/◌, ◌%◌, ◌^◌, ◌||◌, ◌&&◌, Bool, true, false, not, ◌==◌, ltb, leb,
  if◌then◌else◌, Option, none, some, List, [], ◌∷◌, ◌++◌, min,
}
use quanta.Common.Word.{◌|||◌, ◌&&&◌, ◌>>◌, u16, u32, u64, clear32, set_low, set_high, update}
use quanta.Ram.{Ram, load16, load32, load64, store8}
use quanta.Device.Virtqueue.{dma_ptr, vq_chain, queue_max, post_used}

pub record Virtio : Type 0 where
  pub status : ℕ
  pub features_sel : ℕ
  pub queue_num : ℕ
  pub queue_ready : ℕ
  pub desc_addr : ℕ
  pub avail_addr : ℕ
  pub used_addr : ℕ
  pub last_avail : ℕ
  pub interrupt_status : ℕ

-- The image. `has_file` and `seeks` are the backing file on the host: whether there is one, and
-- which offsets `fseek` reaches. `spans` are the ranges written through to it, the latest first.
pub record Disk : Type 0 where
  pub attached : Bool
  pub image : ℕ → ℕ
  pub size : ℕ
  pub has_file : Bool
  pub seeks : ℕ → Bool
  pub spans : List (ℕ × ℕ)
  pub writable : Bool

-- A request in service: the RAM's bytes, the image, the byte offset, the count of bytes written
-- into device-writable buffers, and the status.
pub record Service : Type 0 where
  pub bytes : ℕ → ℕ
  pub disk : Disk
  pub off : ℕ
  pub written : ℕ
  pub status : ℕ

abbrev pub in_image : Disk → ℕ → Bool
in_image disk position = disk.attached && ltb position disk.size

-- The byte loop of one buffer, with the rounds left.
unfoldable pub copy_bytes : ℕ → ℕ → ℕ → ℕ → ℕ → (ℕ → ℕ) × Disk → (ℕ → ℕ) × Disk
copy_bytes type buf off zero k (bytes, disk) = (bytes, disk)
copy_bytes type buf off (suc left) k (bytes, disk) =
    let position = u64 (off + k) in
    copy_bytes type buf off left (k + 1) (
      if type == 0
      then (
        update bytes (buf + k) (if in_image disk position then disk.image position else 0),
        disk,
      )
      else if type == 1 && in_image disk position
      then (bytes, record disk { image = update disk.image position (bytes (buf + k)) })
      else (bytes, disk))

-- `LONG_MAX` of a 64-bit host.
abbrev pub long_max : ℕ
long_max = 2 ^ 63 - 1

-- The write-through of a buffer's span to the backing file.
unfoldable pub write_through : ℕ → ℕ → ℕ → Disk → Disk
write_through type off len disk =
    let end = u64 (off + len) in
    let stop = if ltb disk.size end then disk.size else end in
    if type == 1
      && disk.writable
      && disk.has_file
      && disk.attached
      && ltb off disk.size
      && leb off long_max
      && disk.seeks off
    then record disk { spans = (off, stop - off) ∷ disk.spans }
    else disk

-- One data buffer; `none` is a buffer outside the RAM.
unfoldable pub service_buffer : ℕ → ℕ → Option ℕ → Service → Service
service_buffer type len none s = record s { status = 1 }
service_buffer type len (some buf) s =
    let copied = copy_bytes type buf s.off len 0 (s.bytes, s.disk) in
    record {
      bytes = copied.0;
      disk = write_through type s.off len copied.1;
      off = u64 (s.off + len);
      written = if type == 0 then u32 (s.written + len) else s.written;
      status = s.status;
    }

-- The loop over the data buffers: it stops at one outside the RAM.
unfoldable pub service_buffers : Bool → Ram → ℕ → List (ℕ × ℕ) → Service → Service
service_buffers attached ram type [] s = s
service_buffers attached ram type ((addr, len) ∷ rest) s =
    let after = service_buffer type len (dma_ptr attached ram addr len) s in
    if after.status == 1 then after else service_buffers attached ram type rest after

-- The type and the starting sector of the request at an index.
unfoldable pub request_type : (ℕ → ℕ) → Option ℕ → ℕ
request_type bytes none = 0
request_type bytes (some hdr) = load32 bytes hdr

unfoldable pub request_sector : (ℕ → ℕ) → Option ℕ → ℕ
request_sector bytes none = 0
request_sector bytes (some hdr) = load64 bytes (hdr + 8)

-- The status byte, where its descriptor lies in the RAM.
unfoldable pub put_status : (ℕ → ℕ) → ℕ → Option ℕ → ℕ → ℕ
put_status bytes status none = bytes
put_status bytes status (some st) = store8 bytes st status

-- The data buffers and the status descriptor of a chain behind its header.
unfoldable pub data_part : List (ℕ × ℕ) → List (ℕ × ℕ)
data_part [] = []
data_part (d ∷ []) = []
data_part (d ∷ e ∷ rest) = d ∷ data_part (e ∷ rest)

unfoldable pub status_addr : ℕ → List (ℕ × ℕ) → ℕ
status_addr addr [] = addr
status_addr addr ((a, _) ∷ rest) = status_addr a rest

-- The service of a collected chain: bytes written, RAM bytes and image.
unfoldable pub service_chain : Bool → Ram → Disk → List (ℕ × ℕ) → ℕ × ((ℕ → ℕ) × Disk)
service_chain attached ram disk [] = (0, (ram.bytes, disk))
service_chain attached ram disk (h ∷ []) = (0, (ram.bytes, disk))
service_chain attached ram disk ((header, _) ∷ d ∷ rest) =
    let hdr = dma_ptr attached ram header 16 in
    let type = request_type ram.bytes hdr in
    let off = u64 (request_sector ram.bytes hdr * 512) in
    let s =
      service_buffers attached ram type (data_part (d ∷ rest))
        record { bytes = ram.bytes; disk = disk; off = off; written = 0; status = 0 } in
    (
      u32 (s.written + 1),
      (put_status s.bytes s.status (dma_ptr attached ram (status_addr 0 (d ∷ rest)) 1), s.disk),
    )

-- `virtio_service`; a flush only pushes the host's file buffers.
unfoldable pub virtio_service : Bool → Ram → Disk → Virtio → ℕ → ℕ × ((ℕ → ℕ) × Disk)
virtio_service attached ram disk v head =
    if v.queue_num == 0 || ltb queue_max v.queue_num
    then (0, (ram.bytes, disk))
    else service_chain attached ram disk (vq_chain attached ram v.desc_addr v.queue_num head)

-- The state that a notify works on.
pub record Queue : Type 0 where
  pub bytes : ℕ → ℕ
  pub disk : Disk
  pub virtio : Virtio

-- One round of the loop of `virtio_notify`, with the indices of the rings.
unfoldable pub consume : Bool → Ram → ℕ → ℕ → Queue → Queue
consume attached ram avail used q =
    let v = q.virtio in
    let head = load16 q.bytes (avail + 4 + v.last_avail % v.queue_num * 2) in
    let served = virtio_service attached (record ram { bytes = q.bytes }) q.disk v head in
    record {
      bytes = post_used served.1.0 used v.queue_num head served.0;
      disk = served.1.1;
      virtio = record v { last_avail = u16 (v.last_avail + 1) };
    }

unfoldable pub consume_all : Bool → Ram → ℕ → ℕ → ℕ → Queue → Queue
consume_all attached ram avail used zero q = q
consume_all attached ram avail used (suc left) q =
    consume_all attached ram avail used left (consume attached ram avail used q)

-- The rounds until a 16-bit counter reaches the driver's index.
abbrev pub pending : ℕ → ℕ → ℕ
pending avail_idx last_avail = u16 (avail_idx + 2 ^ 16 - last_avail)

-- The notify with its ring pointers, `none` for one outside the RAM.
unfoldable pub notify_rings : Bool → Ram → Option ℕ → Option ℕ → Queue → Queue
notify_rings attached ram none used q = q
notify_rings attached ram (some avail) none q = q
notify_rings attached ram (some avail) (some used) q =
    let rounds = pending (load16 q.bytes (avail + 2)) q.virtio.last_avail in
    let after = consume_all attached ram avail used rounds q in
    let v = after.virtio in
    record after { virtio = record v { interrupt_status = v.interrupt_status ||| 1 } }

unfoldable pub virtio_notify : Bool → Ram → Disk → Virtio → Queue
virtio_notify attached ram disk v =
    let q : Queue = record { bytes = ram.bytes; disk = disk; virtio = v } in
    let avail = dma_ptr attached ram v.avail_addr (4 + v.queue_num * 2) in
    let used = dma_ptr attached ram v.used_addr (4 + v.queue_num * 8) in
    if v.queue_ready == 0 || v.queue_num == 0 || ltb queue_max v.queue_num
    then q
    else notify_rings attached ram avail used q

-- `virtio_reset`.
abbrev pub virtio_reset : Virtio
virtio_reset = record {
  status = 0;
  features_sel = 0;
  queue_num = 0;
  queue_ready = 0;
  desc_addr = 0;
  avail_addr = 0;
  used_addr = 0;
  last_avail = 0;
  interrupt_status = 0;
}

unfoldable pub virtio_read : Virtio → Disk → ℕ → ℕ
virtio_read v disk off =
    if off == 0x000
    then 0x74726976
    else if off == 0x004
    then 2
    else if off == 0x008
    then 2
    else if off == 0x00c
    then 0x554d4551
    else if off == 0x010
    then (if v.features_sel == 1 then 1 else if disk.writable then 0x200 else 0)
    else if off == 0x034
    then queue_max
    else if off == 0x044
    then v.queue_ready
    else if off == 0x060
    then v.interrupt_status
    else if off == 0x070
    then v.status
    else if off == 0x100
    then u32 (disk.size / 512)
    else if off == 0x104
    then u32 (disk.size / 512 >> 32)
    else 0

unfoldable pub virtio_write : Bool → Ram → Disk → Virtio → ℕ → ℕ → Queue
virtio_write attached ram disk v off val =
    let keep : Virtio → Queue = λ w. record { bytes = ram.bytes; disk = disk; virtio = w } in
    if off == 0x014
    then keep (record v { features_sel = val })
    else if off == 0x038
    then keep (record v { queue_num = val })
    else if off == 0x044
    then keep (record v { queue_ready = val &&& 1 })
    else if off == 0x050
    then virtio_notify attached ram disk v
    else if off == 0x064
    then keep (record v { interrupt_status = clear32 v.interrupt_status val })
    else if off == 0x070
    then keep (if val == 0 then virtio_reset else record v { status = val })
    else if off == 0x080
    then keep (record v { desc_addr = set_low v.desc_addr val })
    else if off == 0x084
    then keep (record v { desc_addr = set_high v.desc_addr val })
    else if off == 0x090
    then keep (record v { avail_addr = set_low v.avail_addr val })
    else if off == 0x094
    then keep (record v { avail_addr = set_high v.avail_addr val })
    else if off == 0x0a0
    then keep (record v { used_addr = set_low v.used_addr val })
    else if off == 0x0a4
    then keep (record v { used_addr = set_high v.used_addr val })
    else keep v
