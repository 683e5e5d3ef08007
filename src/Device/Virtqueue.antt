-- ===== src/Device/Virtqueue.antt =====
-- The split virtqueues of src/device.c in guest RAM: bounds-checked pointers, as indices of the RAM's
-- bytes, and descriptor chains.
pub mod Chain
use quanta.Common.{
  ℕ, zero, suc, ◌+◌, ◌-◌, ◌*◌, ◌%◌, ◌||◌, Bool, not, ltb, if◌then◌else◌, Option, none, some, List,
  [], ◌∷◌, min,
}
use quanta.Common.Word.{u16, u64, test_bits}
use quanta.Ram.{Ram, load16, load32, load64, store16, store32}

-- `dma_ptr`; `attached` says that the platform has a RAM pointer.
unfoldable pub dma_ptr : Bool → Ram → ℕ → ℕ → Option ℕ
dma_ptr attached ram addr len =
    let off = addr - ram.base in
    if not attached || ltb ram.size len || ltb addr ram.base
    then none
    else if ltb (ram.size - len) off
    then none
    else some off

-- `V_QUEUE_MAX`.
abbrev pub queue_max : ℕ
queue_max = 256

-- The buffer that the descriptor at an index names, and the rest of the chain, from the next one.
unfoldable pub chain_at : Ram → Option ℕ → (ℕ → List (ℕ × ℕ)) → List (ℕ × ℕ)
chain_at ram none rest = []
chain_at ram (some d) rest =
    (load64 ram.bytes d, load32 ram.bytes (d + 8))
    ∷ (if test_bits (load16 ram.bytes (d + 12)) 1 then rest (load16 ram.bytes (d + 14)) else [])

-- The chain, with the rounds left.
unfoldable pub chain_from : Bool → Ram → ℕ → ℕ → ℕ → List (ℕ × ℕ)
chain_from attached ram desc_base zero idx = []
chain_from attached ram desc_base (suc left) idx =
    chain_at ram (dma_ptr attached ram (u64 (desc_base + idx * 16)) 16)
      (λ next. chain_from attached ram desc_base left next)

-- `vq_chain` without its `write` array, for which every caller passes NULL.
unfoldable pub vq_chain : Bool → Ram → ℕ → ℕ → ℕ → List (ℕ × ℕ)
vq_chain attached ram desc_base qn head = chain_from attached ram desc_base (min qn queue_max) head

-- The completion that the devices write alike: the element, and then the producer index.
unfoldable pub post_used : (ℕ → ℕ) → ℕ → ℕ → ℕ → ℕ → ℕ → ℕ
post_used d used num head len =
    let uidx = load16 d (used + 2) in
    let elem = used + 4 + uidx % num * 8 in
    store16 (store32 (store32 d elem head) (elem + 4) len) (used + 2) (u16 (uidx + 1))
