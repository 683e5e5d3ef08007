-- ===== src/Device/Net/Fifo.antt =====
-- The receive FIFO of src/device.c as a bounded queue: the frames that wait, oldest first.
use quanta.Common.{
  ℕ, zero, suc, ◌+◌, ◌%◌, ◌≤◌, ◌<◌, ◌≡◌, arith, ◌-◌, Bool, true, false, not, ◌&&◌, inl, inr,
  Bool-cases, ◌==◌, ltb, leb, ◌||◌, if◌then◌else◌, List, [], ◌∷◌, ◌++◌, refl, ap, ◌∙◌, ==_refl,
}
use quanta.Common.Word.{update}
use quanta.Device.Net.{
  VirtioNet, fifo_size, frame_max, Wire, copy_frame, net_fifo_push, deliver_one,
}
use quanta.Ram.{Ram}

-- The bytes of a frame, from an index on.
unfoldable pub bytes_from : (ℕ → ℕ) → ℕ → ℕ → List ℕ
bytes_from frame i zero = []
bytes_from frame i (suc left) = frame i ∷ bytes_from frame (i + 1) left

abbrev pub frame_bytes : (ℕ → ℕ) → ℕ → List ℕ
frame_bytes frame len = bytes_from frame 0 len

-- The `left` frames from a slot on.
unfoldable pub frames_from : (ℕ → ℕ → ℕ) → (ℕ → ℕ) → ℕ → ℕ → List (List ℕ)
frames_from fifo lens head zero = []
frames_from fifo lens head (suc left) =
    frame_bytes (fifo (head % fifo_size)) (lens (head % fifo_size))
    ∷ frames_from fifo lens (head + 1) left

unfoldable pub contents : VirtioNet → List (List ℕ)
contents n = frames_from n.fifo n.fifo_len n.fifo_head n.fifo_count

-- The bounded queue that the FIFO stands for.
unfoldable pub enqueue : List (List ℕ) → ℕ → List ℕ → List (List ℕ)
enqueue waiting count frame = if ltb count fifo_size then waiting ++ frame ∷ [] else waiting

-- A copied frame has the frame's bytes.
copied :
    (frame old : ℕ → ℕ) (len i left : ℕ)
    → i + left ≡ len
    → bytes_from (copy_frame frame len old) i left ≡ bytes_from frame i left
unfolding bytes_from copy_frame
copied frame old len i zero e = refl
copied frame old len i (suc left) e =
    let rest = copied frame old len (i + 1) left (omega arith) in
    let below : ltb i len ≡ true = ground arith in rw below (ap (λ t. frame i ∷ t) rest)

-- A write to the slot behind the last frame leaves the frames and comes at the end.
push_frames :
    (fifo : ℕ → ℕ → ℕ) (lens frame : ℕ → ℕ) (len head left tail : ℕ)
    → left < fifo_size
    → (head + left) % fifo_size ≡ tail
    → frames_from
        (update fifo tail (copy_frame frame len (fifo tail)))
        (update lens tail len)
        head
        (suc left)
      ≡ frames_from fifo lens head left ++ frame_bytes frame len ∷ []
unfolding frames_from
push_frames fifo lens frame len head zero tail room e =
    let here : head % fifo_size ≡ tail = omega arith in
    rw here rw (==_refl tail) (ap (λ t. t ∷ []) (copied frame (fifo tail) len 0 len (omega arith)))
push_frames fifo lens frame len head (suc left) tail room e =
    let rest = push_frames fifo lens frame len (head + 1) left tail (omega arith) (omega arith) in
    let apart : (head % fifo_size == tail) ≡ false = ground arith in
    rw apart (ap (λ t. frame_bytes (fifo (head % fifo_size)) (lens (head % fifo_size)) ∷ t) rest)

-- A frame from the host joins the end of the queue if it has 1 to 1600 bytes and fewer than 16
-- frames wait, which the result tells, and is dropped otherwise; never do more than 16 wait.
pub net_fifo_push-enqueue :
    (n : VirtioNet) (frame : ℕ → ℕ) (len : ℕ)
    → n.fifo_count ≤ fifo_size
    → let pushed = net_fifo_push n frame len in
      let fits = not (len == 0 || ltb frame_max len) in
      (pushed.0 ≡ (fits && ltb n.fifo_count fifo_size))
      × (contents pushed.1 ≡ (
          if fits then enqueue (contents n) n.fifo_count (frame_bytes frame len) else contents n))
      × (pushed.1.fifo_count ≤ fifo_size)
unfolding net_fifo_push contents enqueue
net_fifo_push-enqueue n frame len h = elim (Bool-cases (len == 0 || ltb frame_max len)) [
  | inl bad ↦ rw bad (refl, refl, h)
  | inr good ↦ rw good (elim (Bool-cases (leb fifo_size n.fifo_count)) [
    | inl full ↦
        let more : ltb n.fifo_count fifo_size ≡ false = ground arith in
        rw full (rw more (refl, refl, h))
    | inr room ↦
        let less : ltb n.fifo_count fifo_size ≡ true = ground arith in
        let one : n.fifo_count + 1 ≡ suc n.fifo_count = omega arith in
        rw room (
          rw less (
            rw one (
              refl,
              push_frames n.fifo n.fifo_len frame len n.fifo_head n.fifo_count
                  ((n.fifo_head + n.fifo_count) % fifo_size) (ground arith) refl,
              ground arith,
            )))
  ])
]

-- A delivery takes the oldest frame off.
slot_mod :
    (fifo : ℕ → ℕ → ℕ) (lens : ℕ → ℕ) (a b left : ℕ)
    → a % fifo_size ≡ b % fifo_size
    → frames_from fifo lens a left ≡ frames_from fifo lens b left
unfolding frames_from
slot_mod fifo lens a b zero e = refl
slot_mod fifo lens a b (suc left) e =
    let rest = slot_mod fifo lens (a + 1) (b + 1) left (omega arith) in
    rw e (ap (λ t. frame_bytes (fifo (b % fifo_size)) (lens (b % fifo_size)) ∷ t) rest)

-- The delivery of a frame into a chain of the guest takes it, the oldest, off the queue; the others
-- stay in order.
pub deliver_one-contents :
    (attached : Bool) (ram : Ram) (avail used : ℕ) (w : Wire)
    → 0 < w.1.fifo_count
    → contents w.1
      ≡ frame_bytes
          (w.1.fifo (w.1.fifo_head % fifo_size))
          (w.1.fifo_len (w.1.fifo_head % fifo_size))
        ∷ contents (deliver_one attached ram avail used w).1
unfolding deliver_one contents
deliver_one-contents attached ram avail used (bytes, n) h =
    let one : n.fifo_count ≡ suc (n.fifo_count - 1) = omega arith in
    let tail =
      slot_mod n.fifo n.fifo_len (n.fifo_head + 1) ((n.fifo_head + 1) % fifo_size)
        (n.fifo_count - 1) (omega arith) in
    let slot = n.fifo_head % fifo_size in
    ap (frames_from n.fifo n.fifo_len n.fifo_head) one
    ∙ (unfold frames_from in ap (λ t. frame_bytes (n.fifo slot) (n.fifo_len slot) ∷ t) tail)
