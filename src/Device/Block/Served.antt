-- ===== src/Device/Block/Served.antt =====
-- What one round of the loop of `virtio_notify` in src/device.c does, and a run of rounds.
use quanta.Common.{
  ℕ, zero, suc, ◌+◌, ◌*◌, ◌/◌, ◌%◌, ◌^◌, ◌≤◌, ◌<◌, ◌≡◌, arith, Bool, refl, ◌∙◌, ◌⊎◌, inl, inr,
}
use quanta.Common.Word.{◌|||◌, u16}
use quanta.Ram.{Ram, load16, load32, store16, store32}
use quanta.Ram.Bytes.{load16-store16, load32-store32}
use quanta.Device.Virtqueue.{post_used}
use quanta.Device.Block.{Queue, Virtio, virtio_service, consume, consume_all}

load32-same :
    (p q : ℕ → ℕ) (i : ℕ)
    → p i ≡ q i
    → p (i + 1) ≡ q (i + 1)
    → p (i + 2) ≡ q (i + 2)
    → p (i + 3) ≡ q (i + 3)
    → load32 p i ≡ load32 q i
unfolding load32
load32-same p q i g0 g1 g2 g3 = rw (g0, g1, g2, g3) refl

-- Four bytes that make a word.
load32-bytes :
    (d : ℕ → ℕ) (i v : ℕ)
    → d i ≡ v % 2 ^ 8
    → d (i + 1) ≡ v / 2 ^ 8 % 2 ^ 8
    → d (i + 2) ≡ v / 2 ^ 16 % 2 ^ 8
    → d (i + 3) ≡ v / 2 ^ 24 % 2 ^ 8
    → load32 d i ≡ v % 2 ^ 32
load32-bytes d i v e0 e1 e2 e3 =
    let w = v % 2 ^ 32 in
    let back = load32-store32 (λ _. 0) i w (λ k. omega arith) (omega arith) in
    let f0 : d i ≡ store32 (λ _. 0) i w i = unfold store32 in ground arith in
    let f1 : d (i + 1) ≡ store32 (λ _. 0) i w (i + 1) = unfold store32 in ground arith in
    let f2 : d (i + 2) ≡ store32 (λ _. 0) i w (i + 2) = unfold store32 in ground arith in
    let f3 : d (i + 3) ≡ store32 (λ _. 0) i w (i + 3) = unfold store32 in ground arith in
    load32-same d (store32 (λ _. 0) i w) i f0 f1 f2 f3 ∙ back

load16-same : (p q : ℕ → ℕ) (i : ℕ) → p i ≡ q i → p (i + 1) ≡ q (i + 1) → load16 p i ≡ load16 q i
unfolding load16
load16-same p q i g0 g1 = rw (g0, g1) refl

load16-bytes :
    (d : ℕ → ℕ) (i v : ℕ)
    → d i ≡ v % 2 ^ 8
    → d (i + 1) ≡ v / 2 ^ 8 % 2 ^ 8
    → load16 d i ≡ v % 2 ^ 16
load16-bytes d i v e0 e1 =
    let w = v % 2 ^ 16 in
    let back = load16-store16 (λ _. 0) i w (λ k. omega arith) (omega arith) in
    let f0 : d i ≡ store16 (λ _. 0) i w i = unfold store16 in ground arith in
    let f1 : d (i + 1) ≡ store16 (λ _. 0) i w (i + 1) = unfold store16 in ground arith in
    load16-same d (store16 (λ _. 0) i w) i f0 f1 ∙ back

-- A completion in the used ring at `used`, of `num` elements: `d` are the bytes before, `p` those after.
pub record IsPosted (used num head len : ℕ) (d p : ℕ → ℕ) : Type 0 where
  pub index : load16 p (used + 2) ≡ (load16 d (used + 2) + 1) % 2 ^ 16
  pub id : load32 p (used + 4 + load16 d (used + 2) % num * 8) ≡ head % 2 ^ 32
  pub count : load32 p (used + 4 + load16 d (used + 2) % num * 8 + 4) ≡ len % 2 ^ 32
  pub others :
      (k : ℕ)
      → (k < used + 2)
        ⊎ (((used + 4 ≤ k) × (k < used + 4 + load16 d (used + 2) % num * 8))
            ⊎ (used + 4 + load16 d (used + 2) % num * 8 + 8 ≤ k))
      → p k ≡ d k

module _ (d : ℕ → ℕ) (i e head len v : ℕ) (apart : i + 2 ≤ e) where
  after : ℕ → ℕ
  after = store16 (store32 (store32 d e head) (e + 4) len) i v

  after_index : load16 after i ≡ v % 2 ^ 16
  unfolding after store16
  after_index = load16-bytes after i v (ground arith) (ground arith)

  after_id : load32 after e ≡ head % 2 ^ 32
  unfolding after store16 store32
  after_id = load32-bytes after e head (ground arith) (ground arith) (ground arith) (ground arith)

  after_count : load32 after (e + 4) ≡ len % 2 ^ 32
  unfolding after store16 store32
  after_count =
      load32-bytes after (e + 4) len (ground arith) (ground arith) (ground arith) (ground arith)

  after_others : (k : ℕ) → (k < i) ⊎ (((i + 2 ≤ k) × (k < e)) ⊎ (e + 8 ≤ k)) → after k ≡ d k
  unfolding after store16 store32
  after_others k (inl h) = ground arith
  after_others k (inr (inl h)) = ground arith
  after_others k (inr (inr h)) = ground arith

elsewhere :
    (used k e : ℕ)
    → (k < used + 2) ⊎ (((used + 4 ≤ k) × (k < e)) ⊎ (e + 8 ≤ k))
    → (k < used + 2) ⊎ (((used + 2 + 2 ≤ k) × (k < e)) ⊎ (e + 8 ≤ k))
elsewhere used k e (inl h) = inl h
elsewhere used k e (inr (inl (low, high))) = inr (inl (omega arith, high))
elsewhere used k e (inr (inr h)) = inr (inr h)

post_used-IsPosted :
    (d : ℕ → ℕ) (used num head len : ℕ)
    → IsPosted used num head len d (post_used d used num head len)
unfolding post_used after
post_used-IsPosted d used num head len =
    let i = used + 2 in
    let e = used + 4 + load16 d (used + 2) % num * 8 in
    let v = u16 (load16 d (used + 2) + 1) in
    let apart : i + 2 ≤ e = omega arith in
    record {
      index = after_index d i e head len v apart ∙ omega arith;
      id = after_id d i e head len v apart;
      count = after_count d i e head len v apart;
      others = λ k h. after_others d i e head len v apart k (elsewhere used k e h);
    }

-- A round: the chain that the ring names at the device's index is served, and posted.
pub record IsServed (attached : Bool) (ram : Ram) (avail used : ℕ) (q next : Queue) : Type 0 where
  pub head : ℕ
  pub named : head ≡ load16 q.bytes (avail + 4 + q.virtio.last_avail % q.virtio.queue_num * 2)
  pub disk :
      next.disk
      ≡ (virtio_service attached (record ram { bytes = q.bytes }) q.disk q.virtio head).1.1
  pub posted :
      let served = virtio_service attached (record ram { bytes = q.bytes }) q.disk q.virtio head in
      IsPosted used q.virtio.queue_num head served.0 served.1.0 next.bytes
  pub registers : next.virtio ≡ record q.virtio { last_avail = u16 (q.virtio.last_avail + 1) }

-- So many rounds, from a state to a state.
pub data Serves (attached : Bool) (ram : Ram) (avail used : ℕ) : ℕ → Queue → Queue → Type 0 where
  done : (q : Queue) → Serves attached ram avail used zero q q
  round :
      (n : ℕ) (q next end : Queue)
      → IsServed attached ram avail used q next
      → Serves attached ram avail used n next end
      → Serves attached ram avail used (suc n) q end

-- The queue's interrupt is asserted.
abbrev pub asserted : Queue → Queue
asserted q =
    let v : Virtio = q.virtio in
    record q { virtio = record v { interrupt_status = v.interrupt_status ||| 1 } }

consume-IsServed :
    (attached : Bool) (ram : Ram) (avail used : ℕ) (q : Queue)
    → IsServed attached ram avail used q (consume attached ram avail used q)
unfolding consume
consume-IsServed attached ram avail used q = record {
  head = load16 q.bytes (avail + 4 + q.virtio.last_avail % q.virtio.queue_num * 2);
  named = refl;
  disk = refl;
  posted = post_used-IsPosted _ used q.virtio.queue_num _ _;
  registers = refl;
}

pub consume_all-Serves :
    (attached : Bool) (ram : Ram) (avail used left : ℕ) (q : Queue)
    → Serves attached ram avail used left q (consume_all attached ram avail used left q)
unfolding consume_all
consume_all-Serves attached ram avail used zero q = done q
consume_all-Serves attached ram avail used (suc left) q =
    let next = consume attached ram avail used q in
    round left q next _ (consume-IsServed attached ram avail used q)
      (consume_all-Serves attached ram avail used left next)
