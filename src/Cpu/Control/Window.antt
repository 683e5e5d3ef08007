-- ===== src/Cpu/Control/Window.antt =====
-- The S-mode windows onto mstatus, mie and mip.
use quanta.Common.{
  ℕ, zero, suc, ◌<◌, ◌^◌, ◌≡◌, arith, Option, bit_and, ◌-◌, ◌+◌, ◌/◌, ◌*◌, ◌==◌, if◌then◌else◌,
}
use quanta.Common.Bits.{bit, bit-bit_and, bit-bit_or}
use quanta.Common.Power.{div-two-pow-suc, two-pow-suc, two_pow_pos}
use quanta.Common.Word.{◌|||◌, ◌&&&◌, clear64, not64}
use quanta.Decode.Csr.{sstatus, mstatus}
use quanta.Cpu.{Hart}
use quanta.Cpu.Control.{csr_read, csr_write}
use quanta.Cpu.Status.{sstatus_mask}

bit-complement : (n k m : ℕ) → m < 2 ^ n → k < n → bit k (2 ^ n - 1 - m) + bit k m ≡ 1
bit-complement zero k m h j = absurd (omega arith)
bit-complement (suc n) zero m h j = ground (arith, two_pow_pos n)
bit-complement (suc n) (suc k) m h j =
    let double : 2 ^ suc n ≡ 2 * 2 ^ n = two-pow-suc n in
    let half : (2 ^ suc n - 1 - m) / 2 ≡ 2 ^ n - 1 - m / 2 = omega arith in
    rw (div-two-pow-suc (2 ^ suc n - 1 - m) k, div-two-pow-suc m k, half)
      (bit-complement n k (m / 2) (omega arith) (omega arith))

-- A bit of a masked write: from the new value in the mask, from the old one beside it.
bit-masked :
    (k x v m : ℕ)
    → m < 2 ^ 64
    → k < 64
    → bit k (clear64 x m ||| v &&& m) ≡ (if bit k m == 1 then bit k v else bit k x)
bit-masked k x v m hm hk = ground (
  arith,
  bit-bit_or k (clear64 x m) (bit_and v m),
  bit-bit_and k x (not64 m),
  bit-bit_and k v m,
  bit-complement 64 k m hm hk,
)

-- A write to sstatus reaches exactly the bits of its mask: in mstatus they become the value's and
-- every other bit stays, and a read of sstatus gives back the value within the mask and 0 outside.
pub csr_write-sstatus :
    (devices : Option ℕ) (cpu : Hart) (v k : ℕ)
    → k < 64
    → (bit k ((csr_write cpu sstatus v).csr mstatus)
        ≡ (if bit k sstatus_mask == 1 then bit k v else bit k (cpu.csr mstatus)))
      × (bit k (csr_read devices (csr_write cpu sstatus v) sstatus)
          ≡ (if bit k sstatus_mask == 1 then bit k v else 0))
unfolding csr_read csr_write
csr_write-sstatus devices cpu v k hk = (
  bit-masked k (cpu.csr mstatus) v sstatus_mask (omega arith) hk,
  ground (
    arith,
    bit-bit_and k ((csr_write cpu sstatus v).csr mstatus) sstatus_mask,
    bit-masked k (cpu.csr mstatus) v sstatus_mask (omega arith) hk,
  ),
)
