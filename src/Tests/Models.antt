-- ===== src/Tests/Models.antt =====
-- The theorems on the cache, the pipeline, the memory, the devices and the decoder at concrete
-- inputs.
use quanta.Common.{
  ℕ, ◌+◌, ◌-◌, ◌/◌, ◌%◌, ◌<◌, ◌⊎◌, ◌^◌, ◌≡◌, ◌≢◌, arith, true, false, [], ◌∷◌, refl,
}
use quanta.Common.Word.{u64}
use quanta.Cache.{Cache, empty_line, cache_access}
use quanta.Cache.Access.{cache_access_again, IsDistinct, cache_access-IsDistinct}
use quanta.Cache.Geometry.{IsGeometry}
use quanta.Rvc.{rvc_expand, illegal}
use quanta.Rvc.Stack.{LoadsFromStack, distance_w, rvc_expand-LoadsFromStack}
use quanta.Pipeline.Trace.{Trace}
use quanta.Device.Plic.{Plic, plic_best, plic_claim, nsources}
use quanta.Device.Plic.Best.{IsBest, plic_best_highest}
use quanta.Device.Plic.Claim.{plic_claim_hides}
use quanta.Device.Clint.{Clint}
use quanta.Device.Uart.{Uart}

-- Two ways, two sets of 16-byte blocks.
abbrev small_cache : Cache
small_cache = record {
  block_size = 16;
  num_sets = 2;
  assoc = 2;
  offset_bits = 4;
  index_bits = 1;
  lines = λ _. empty_line;
  tick = 0;
  loads = 0;
  stores = 0;
  hits = 0;
  misses = 0;
}

small_cache-IsGeometry : IsGeometry small_cache
small_cache-IsGeometry = record { block = refl; sets = refl; ways = omega arith }

small_cache-IsDistinct : IsDistinct 2 small_cache.lines
small_cache-IsDistinct = record { once = λ s v w t hv hw held. absurd (ground arith) }

cache_access_again_example :
    let c' = cache_access small_cache 0x40 true in
    let c'' = cache_access c' 0x40 false in
    (c''.hits ≡ u64 (c'.hits + 1)) × (c''.misses ≡ c'.misses)
cache_access_again_example = cache_access_again small_cache 0x40 true false (omega arith)

cache_access-IsDistinct_example :
    let c' = cache_access small_cache 0x40 true in IsDistinct c'.assoc c'.lines
cache_access-IsDistinct_example =
    cache_access-IsDistinct small_cache 0x40 true (omega arith) small_cache-IsDistinct

-- LW x5, 0(x6); ADD x7, x5, x5; then a taken BEQ.
abbrev run : Trace
run = (0x00032283, false) ∷ (0x005283b3, false) ∷ (0x00000463, true) ∷ []

-- Sources 1 and 10 assert, at one priority.
abbrev two_sources : Plic
two_sources = record {
  priority = λ _. 1;
  enable = λ _. 0x402;
  threshold = λ _. 0;
  claimed = λ _. 0;
}

plic_best_highest_example :
    (p : ℕ) × IsBest two_sources 0x402 1 nsources (plic_best two_sources 0x402 1) p
plic_best_highest_example = plic_best_highest two_sources 0x402 1

some_source : plic_best two_sources 0x402 1 ≢ 0
unfolding plic_best quanta.Device.Plic.best_from quanta.Device.Plic.presents
some_source e = absurd (omega (arith, e))

plic_claim_hides_example :
    plic_best (plic_claim two_sources 0x402 1).1 0x402 1 ≢ (plic_claim two_sources 0x402 1).0
plic_claim_hides_example = plic_claim_hides two_sources 0x402 1 some_source

abbrev timers : Clint
timers = record { mtime = 5; mtimecmp = λ _. 2 ^ 64 - 1; msip = λ _. 0 }

abbrev idle_uart : Uart
idle_uart = record {
  ier = 1;
  lcr = 3;
  mcr = 0;
  scr = 0;
  dll = 0;
  dlm = 0;
  rx_have = false;
  rx = 0;
  thre_ip = false;
  sent = [];
}

-- C.LWSP x5, 8(x2).
rvc_expand-LoadsFromStack_example :
    ((0x42a2 / 2 ^ 7 % 32 ≡ 0) × (rvc_expand 0x42a2 true ≡ illegal))
    ⊎ ((0 < 0x42a2 / 2 ^ 7 % 32)
        × LoadsFromStack (rvc_expand 0x42a2 true) 0x03 2 (0x42a2 / 2 ^ 7 % 32) (distance_w 0x42a2))
rvc_expand-LoadsFromStack_example = rvc_expand-LoadsFromStack 0x42a2 true refl refl
