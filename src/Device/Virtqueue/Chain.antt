-- ===== src/Device/Virtqueue/Chain.antt =====
-- The length of a descriptor chain, which the guest writes and can tie into a loop.
use quanta.Common.{ℕ, zero, suc, ◌+◌, ◌≤◌, Bool, Option, none, some, List, [], ◌∷◌, min, arith}
use quanta.Ram.{Ram, load16}
use quanta.Device.Virtqueue.{dma_ptr, chain_at, chain_from, vq_chain, queue_max}

abbrev pub length {ℓ} : {A : Type ℓ} → List A → ℕ
length [] = 0
length (x ∷ rest) = suc (length rest)

chain_at-length :
    (ram : Ram) (at : Option ℕ) (next : ℕ → List (ℕ × ℕ)) (left : ℕ)
    → ((i : ℕ) → length (next i) ≤ left)
    → length (chain_at ram at next) ≤ suc left
unfolding chain_at
chain_at-length ram none next left h = omega arith
chain_at-length ram (some d) next left h = ground (arith, h (load16 ram.bytes (d + 14)))

chain_from-length :
    (attached : Bool) (ram : Ram) (desc_base left idx : ℕ)
    → length (chain_from attached ram desc_base left idx) ≤ left
unfolding chain_from
chain_from-length attached ram desc_base zero idx = omega arith
chain_from-length attached ram desc_base (suc left) idx =
    chain_at-length ram (dma_ptr attached ram _ 16) _ left
      (chain_from-length attached ram desc_base left)

-- A chain ends after at most as many buffers as the queue has descriptors, and after at most 256,
-- whatever descriptors the guest wrote.
pub vq_chain-length :
    (attached : Bool) (ram : Ram) (desc_base qn head : ℕ)
    → (length (vq_chain attached ram desc_base qn head) ≤ qn)
      × (length (vq_chain attached ram desc_base qn head) ≤ queue_max)
unfolding vq_chain
vq_chain-length attached ram desc_base qn head =
    let bound = chain_from-length attached ram desc_base (min qn queue_max) head in
    (omega arith, omega arith)
