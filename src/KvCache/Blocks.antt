-- ===== src/KvCache/Blocks.antt =====
-- agent_runtime_top/src/kv_cache.c: find_free_block, kv_allocate and kv_free.
use agent_nucleus.Prelude.{
  ℕ, zero, suc, ◌+◌, ◌-◌, ◌*◌, ◌/◌, ◌%◌, Bool, true, false, not, ◌||◌, Option, none, some, List,
  leb, ◌==◌, if◌then◌else◌, u32_mod, u64_mod,
}
use agent_nucleus.Arrays.{Status, success, failure, set, replicate}
use agent_nucleus.KvCache.State.{
  free, allocated, is_free, Block, BlockRange, KvCache, block_index, block_at,
}

-- The inner loop, with `n` blocks left from `i + j` on.
unfoldable pub free_from : KvCache → ℕ → ℕ → ℕ → Bool
free_from c i j zero = true
free_from c i j (suc n) =
    let rest = free_from c i (j + 1) n in
    let k = (i + j) % u32_mod in
    if leb c.block_count k || not (is_free (block_at c.blocks k).state) then false else rest

-- The outer loop, with `n` blocks left from `i` on: the id of the first of `count` free blocks.
unfoldable pub find_free_from : KvCache → ℕ → ℕ → ℕ → ℕ
find_free_from c count i zero = 0
find_free_from c count i (suc n) =
    let rest = find_free_from c count (i + 1) n in
    if is_free (block_at c.blocks i).state
    then if free_from c i 1 (count - 1) then (block_at c.blocks i).id else rest
    else rest

unfoldable pub find_free_block : KvCache → ℕ → ℕ
find_free_block c count = find_free_from c count 0 c.block_count

-- The division rounds up, on uint32_t.
unfoldable pub blocks_needed : KvCache → ℕ → ℕ
blocks_needed c size =
    let n = ((size + c.block_size + u32_mod - 1) % u32_mod) / c.block_size in
    if n == 0 then 1 else n

abbrev pub taken : KvCache → ℕ → ℕ → Block → Block
taken c agent now b = record b {
  state = allocated;
  ref_count = 1;
  owner = agent;
  last_access = now;
  content = replicate c.block_size 0;
}

-- The loop that initializes the blocks, with `n` of them left from the i-th of the range on.
unfoldable pub take_blocks : KvCache → ℕ → ℕ → BlockRange → ℕ → ℕ → List Block → List Block
take_blocks c agent now range i zero blocks = blocks
take_blocks c agent now range i (suc n) blocks =
    let k = block_index range i in
    take_blocks c agent now range (i + 1) n (set blocks k (taken c agent now (block_at blocks k)))

abbrev pub range_of : KvCache → ℕ → ℕ → BlockRange
range_of c size start =
    let count = blocks_needed c size in
    record { start = start; count = count; size = (count * c.block_size) % u32_mod }

abbrev pub with_range : KvCache → ℕ → ℕ → BlockRange → KvCache
with_range c now agent range = record c {
  blocks = take_blocks c agent now range 0 range.count c.blocks;
  used_size = (c.used_size + range.size) % u64_mod;
  stats = record c.stats { total_allocated = (c.stats.total_allocated + range.size) % u64_mod };
}

-- The range, where there is room. `now` is what get_time_ms answers.
unfoldable pub kv_allocate : ℕ → ℕ → ℕ → KvCache → Option BlockRange × KvCache
kv_allocate now agent size c =
    let start = find_free_block c (blocks_needed c size) in
    if not c.initialized || start == 0
    then (none, c)
    else (some (range_of c size start), with_range c now agent (range_of c size start))

-- One reference less; the last one frees the block.
abbrev pub released : Block → Block
released b =
    let refs = (b.ref_count + u32_mod - 1) % u32_mod in
    if is_free b.state
    then b
    else if refs == 0
    then record b { ref_count = refs; state = free; owner = 0 }
    else record b { ref_count = refs }

-- The loop of kv_free: it stops with a failure at an index that is out of range.
unfoldable pub free_blocks : KvCache → BlockRange → ℕ → ℕ → List Block → Status × List Block
free_blocks c range i zero blocks = (success, blocks)
free_blocks c range i (suc n) blocks =
    let k = block_index range i in
    let rest = free_blocks c range (i + 1) n (set blocks k (released (block_at blocks k))) in
    if leb c.block_count k then (failure, blocks) else rest

abbrev pub freed_cache : KvCache → BlockRange → Status × List Block → Status × KvCache
freed_cache c range (failure, blocks) = (failure, record c { blocks = blocks })
freed_cache c range (success, blocks) = (
  success,
  record c { blocks = blocks; used_size = (c.used_size + u64_mod - range.size) % u64_mod },
)

unfoldable pub kv_free : BlockRange → KvCache → Status × KvCache
kv_free range c =
    if not c.initialized
    then (failure, c)
    else freed_cache c range (free_blocks c range 0 range.count c.blocks)
