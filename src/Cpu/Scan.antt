-- ===== src/Cpu/Scan.antt =====
-- The bit-manipulation helpers of src/cpu.c (`bm_*`). `bits` is 32 or 64.
pub mod Count
use quanta.Common.{ℕ, zero, suc, ◌+◌, ◌-◌, ◌*◌, ◌/◌, ◌==◌, ltb, leb, Bool, if◌then◌else◌}
use quanta.Common.Word.{◌|||◌, ◌^^^◌, ◌&&&◌, ◌<<◌, ◌>>◌, u64, shl64, not64, test_bits}

unfoldable pub bm_mask : ℕ → ℕ
bm_mask bits = if leb 64 bits then not64 0 else shl64 1 (bits &&& 63) - 1

-- The scan down from bit `left - 1`.
unfoldable pub bm_clz_loop : ℕ → ℕ → ℕ → ℕ
bm_clz_loop v zero n = n
bm_clz_loop v (suc i) n = if test_bits (v >> i) 1 then n else bm_clz_loop v i (n + 1)

unfoldable pub bm_clz : ℕ → ℕ → ℕ
bm_clz v bits = bm_clz_loop v bits 0

-- The scan up from bit `i`, with the rounds left.
unfoldable pub bm_ctz_loop : ℕ → ℕ → ℕ → ℕ → ℕ
bm_ctz_loop v zero i n = n
bm_ctz_loop v (suc left) i n =
    if test_bits (v >> i) 1 then n else bm_ctz_loop v left (i + 1) (n + 1)

unfoldable pub bm_ctz : ℕ → ℕ → ℕ
bm_ctz v bits = bm_ctz_loop v bits 0 0

unfoldable pub bm_cpop_loop : ℕ → ℕ → ℕ → ℕ → ℕ
bm_cpop_loop v zero i n = n
bm_cpop_loop v (suc left) i n = bm_cpop_loop v left (i + 1) (n + (v >> i &&& 1))

unfoldable pub bm_cpop : ℕ → ℕ → ℕ
bm_cpop v bits = bm_cpop_loop v bits 0 0

unfoldable pub bm_ror : ℕ → ℕ → ℕ → ℕ
bm_ror v0 sh0 bits =
    let v = v0 &&& bm_mask bits in
    let sh = sh0 &&& (bits - 1) in
    if sh == 0 then v else (v >> sh ||| shl64 v (bits - sh)) &&& bm_mask bits

unfoldable pub bm_rol : ℕ → ℕ → ℕ → ℕ
bm_rol v0 sh0 bits =
    let v = v0 &&& bm_mask bits in
    let sh = sh0 &&& (bits - 1) in
    if sh == 0 then v else (shl64 v sh ||| v >> (bits - sh)) &&& bm_mask bits

-- The loops over the bytes, with the rounds left.
unfoldable pub bm_orcb_loop : ℕ → ℕ → ℕ → ℕ → ℕ
bm_orcb_loop v zero b r = r
bm_orcb_loop v (suc left) b r =
    bm_orcb_loop v left (b + 8) (if test_bits (v >> b) 0xff then r ||| shl64 0xff b else r)

unfoldable pub bm_orcb : ℕ → ℕ → ℕ
bm_orcb v bits = bm_orcb_loop v (bits / 8) 0 0

unfoldable pub bm_rev8_loop : ℕ → ℕ → ℕ → ℕ → ℕ → ℕ
bm_rev8_loop v nbytes zero i r = r
bm_rev8_loop v nbytes (suc left) i r =
    bm_rev8_loop v nbytes left (i + 1) (r ||| shl64 (v >> (i * 8) &&& 0xff) ((nbytes - 1 - i) * 8))

unfoldable pub bm_rev8 : ℕ → ℕ → ℕ
bm_rev8 v bits = bm_rev8_loop v (bits / 8) (bits / 8) 0 0

-- The high and the low half of the product.
unfoldable pub bm_clmul_loop : ℕ → ℕ → ℕ → ℕ → ℕ × ℕ → ℕ × ℕ
bm_clmul_loop a b zero i (hi, lo) = (hi, lo)
bm_clmul_loop a b (suc left) i (hi, lo) = bm_clmul_loop a b left (i + 1) (
    if test_bits (b >> i) 1
    then ((if ltb 0 i then hi ^^^ a >> (64 - i) else hi), lo ^^^ shl64 a i)
    else (hi, lo))

unfoldable pub bm_clmul128 : ℕ → ℕ → ℕ → ℕ × ℕ
bm_clmul128 a b bits = bm_clmul_loop (a &&& bm_mask bits) (b &&& bm_mask bits) bits 0 (0, 0)

unfoldable pub bm_bits128 : ℕ × ℕ → ℕ → ℕ → ℕ
bm_bits128 (hi, lo) position width =
    let v =
      if position == 0
      then lo
      else if ltb position 64
      then lo >> position ||| shl64 hi (64 - position)
      else if ltb position 128
      then hi >> (position - 64)
      else 0 in
    v &&& bm_mask width
