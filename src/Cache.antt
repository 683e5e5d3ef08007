-- ===== src/Cache.antt =====
-- src/cache.c: the set-associative LRU cache model. The lines are a function of their row-major
-- index; `InitResult.fault` is the division by zero that C leaves undefined.
pub mod Geometry
pub mod Lookup
pub mod Victim
pub mod Access
use quanta.Common.{
  ℕ, zero, suc, ◌+◌, ◌-◌, ◌*◌, ◌/◌, ◌%◌, ◌^◌, Bool, true, false, not, ◌&&◌, ◌||◌, ◌==◌, ltb,
  if◌then◌else◌, Option, none, some,
}
use quanta.Common.Word.{u32, u64, ◌&&&◌, ◌>>◌, sub32, update}

pub record CacheLine : Type 0 where
  pub valid : Bool
  pub tag : ℕ
  pub used : ℕ

pub record Cache : Type 0 where
  pub block_size : ℕ
  pub num_sets : ℕ
  pub assoc : ℕ
  pub offset_bits : ℕ
  pub index_bits : ℕ
  pub lines : ℕ → CacheLine
  pub tick : ℕ
  pub loads : ℕ
  pub stores : ℕ
  pub hits : ℕ
  pub misses : ℕ

unfoldable pub is_pow2 : ℕ → Bool
is_pow2 x = not (x == 0) && (x &&& sub32 x 1) == 0

-- `while ((1u << n) < x) n++`, with the rounds left. A power of two below 2^32 needs at most 31.
unfoldable pub log2u_loop : ℕ → ℕ → ℕ → ℕ
log2u_loop zero x n = n
log2u_loop (suc rounds) x n =
    let rest = log2u_loop rounds x (n + 1) in if ltb (2 ^ n) x then rest else n

unfoldable pub log2u : ℕ → ℕ
unfolding log2u_loop
log2u x = log2u_loop 31 x 0

pub data InitResult : Type 0 where
  ready : Cache → InitResult
  rejected fault : InitResult

abbrev pub empty_line : CacheLine
empty_line = record { valid = false; tag = 0; used = 0 }

-- `allocated` says whether `calloc` gave the lines.
unfoldable pub cache_init : ℕ → ℕ → ℕ → Bool → InitResult
cache_init size_bytes assoc block_size allocated =
    let per_set = u32 (assoc * block_size) in
    let num_sets = size_bytes / per_set in
    if not (is_pow2 block_size) || ltb block_size 4
    then rejected
    else if not (is_pow2 assoc)
    then rejected
    else if size_bytes == 0
    then rejected
    else if per_set == 0
    then fault
    else if not (size_bytes % per_set == 0)
    then rejected
    else if not (is_pow2 num_sets)
    then rejected
    else if not allocated
    then rejected
    else ready (record {
      block_size = block_size;
      num_sets = num_sets;
      assoc = assoc;
      offset_bits = log2u block_size;
      index_bits = log2u num_sets;
      lines = λ i. empty_line;
      tick = 0;
      loads = 0;
      stores = 0;
      hits = 0;
      misses = 0;
    })

unfoldable pub set_index : Cache → ℕ → ℕ
set_index c addr = addr >> c.offset_bits &&& c.num_sets - 1

unfoldable pub tag_of : Cache → ℕ → ℕ
tag_of c addr = addr >> (c.offset_bits + c.index_bits)

-- The scan for a hit: `left` ways are still to see, from way `w` of the set at `base`.
unfoldable pub find_way : (ℕ → CacheLine) → ℕ → ℕ → ℕ → ℕ → Option ℕ
find_way lines base tag zero w = none
find_way lines base tag (suc left) w =
    let rest = find_way lines base tag left (w + 1) in
    let line = lines (base + w) in if line.valid && line.tag == tag then some w else rest

-- The scan for the way to fill: the first that is empty, else the one used longest ago.
unfoldable pub find_victim : (ℕ → CacheLine) → ℕ → ℕ → ℕ → ℕ → ℕ
find_victim lines base zero w victim = victim
find_victim lines base (suc left) w victim =
    let line = lines (base + w) in
    let next = if ltb line.used (lines (base + victim)).used then w else victim in
    let rest = find_victim lines base left (w + 1) next in if line.valid then rest else w

-- The statistics and the clock, at the head of `cache_access`.
unfoldable pub count_access : Cache → Bool → Cache
count_access c is_store = record c {
  loads = if is_store then c.loads else u64 (c.loads + 1);
  stores = if is_store then u64 (c.stores + 1) else c.stores;
  tick = u64 (c.tick + 1);
}

unfoldable pub touch : Cache → ℕ → Cache
touch c i =
    let line = c.lines i in
    record c { lines = update c.lines i (record line { used = c.tick }); hits = u64 (c.hits + 1) }

unfoldable pub install : Cache → ℕ → ℕ → Cache
install c i tag = record c {
  lines = update c.lines i (record { valid = true; tag = tag; used = c.tick });
  misses = u64 (c.misses + 1);
}

unfoldable pub cache_access : Cache → ℕ → Bool → Cache
unfolding set_index tag_of
cache_access c addr is_store =
    let c' = count_access c is_store in
    let base = set_index c addr * c.assoc in
    let tag = tag_of c addr in
    elim (find_way c.lines base tag c.assoc 0) [
      | some w ↦ touch c' (base + w)
      | none ↦ install c' (base + find_victim c.lines base c.assoc 0 0) tag
    ]
