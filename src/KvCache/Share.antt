-- ===== src/KvCache/Share.antt =====
-- agent_runtime_top/src/kv_cache.c: kv_share to kv_reuse_prefix, and kv_get_stats.
use agent_nucleus.Prelude.{
  ℕ, zero, suc, ◌+◌, ◌-◌, ◌*◌, ◌/◌, ◌%◌, Bool, true, false, not, ◌&&◌, ◌||◌, Option, none, some,
  List, [], ◌∷◌, leb, ltb, ◌==◌, if◌then◌else◌, Bytes, length, u32_mod, u64_mod,
}
use agent_nucleus.Arrays.{Status, success, failure, set}
use agent_nucleus.KvCache.State.{
  allocated, shared, compressed, is_free, Block, BlockRange, KvStats, KvCache, block_index,
  block_at,
}
use agent_nucleus.KvCache.Blocks.{find_free_block}
use agent_nucleus.KvCache.Access.{first_bytes}

-- One reference more to a block of the source agent.
abbrev pub with_reader : ℕ → Block → Block
with_reader src b =
    if b.owner == src
    then record b { state = shared; ref_count = (b.ref_count + 1) % u32_mod }
    else b

unfoldable pub share_blocks : KvCache → ℕ → BlockRange → ℕ → ℕ → List Block → Status × List Block
share_blocks c src range i zero blocks = (success, blocks)
share_blocks c src range i (suc n) blocks =
    let k = block_index range i in
    let rest =
      share_blocks c src range (i + 1) n (set blocks k (with_reader src (block_at blocks k))) in
    if leb c.block_count k then (failure, blocks) else rest

abbrev pub shared_cache : KvCache → BlockRange → Status × List Block → Status × KvCache
shared_cache c range (failure, blocks) = (failure, record c { blocks = blocks })
shared_cache c range (success, blocks) = (
  success,
  record c {
    blocks = blocks;
    stats = record c.stats { total_shared = (c.stats.total_shared + range.size) % u64_mod };
  },
)

-- The agent that the blocks are shared with is not read.
unfoldable pub kv_share : ℕ → BlockRange → KvCache → Status × KvCache
kv_share src range c =
    if not c.initialized
    then (failure, c)
    else shared_cache c range (share_blocks c src range 0 range.count c.blocks)

-- One reference less.
abbrev pub without_reader : Block → Block
without_reader b =
    let refs = b.ref_count - 1 in
    if b.ref_count == 0
    then b
    else if refs == 1
    then record b { ref_count = refs; state = allocated }
    else record b { ref_count = refs }

unfoldable pub unshare_blocks : KvCache → BlockRange → ℕ → ℕ → List Block → List Block
unshare_blocks c range i zero blocks = blocks
unshare_blocks c range i (suc n) blocks =
    let k = block_index range i in
    unshare_blocks c range (i + 1) n
      (if leb c.block_count k then blocks else set blocks k (without_reader (block_at blocks k)))

-- The agent is not read.
unfoldable pub kv_unshare : BlockRange → KvCache → Status × KvCache
kv_unshare range c =
    if not c.initialized
    then (failure, c)
    else (success, record c { blocks = unshare_blocks c range 0 range.count c.blocks })

-- One sampled block, with `size` bytes to copy.
abbrev pub sampled : ℕ → ℕ → Block → Block → Block
sampled now size src dst = record dst {
  content = first_bytes size src.content;
  state = compressed;
  ref_count = 1;
  owner = src.owner;
  last_access = now;
}

-- The loop of kv_compress, with `n` of the output's blocks left from the i-th on.
unfoldable pub sample_blocks :
    KvCache → ℕ → BlockRange → BlockRange → ℕ → ℕ → List Block → List Block
sample_blocks c now input output i zero blocks = blocks
sample_blocks c now input output i (suc n) blocks =
    let src =
      (input.start + u64_mod - 1 + ((i * input.count) % u32_mod) / output.count)
      % u64_mod
      % u32_mod in
    let dst = block_index output i in
    sample_blocks c now input output (i + 1) n (
      if ltb src c.block_count && ltb dst c.block_count
      then set blocks dst (sampled now c.block_size (block_at blocks src) (block_at blocks dst))
      else blocks)

-- `in_range` is whether the ratio is above 0 and below 1, `scaled` the input's count times the ratio,
-- cut to a uint32_t.
unfoldable pub kv_compress : ℕ → BlockRange → Bool → ℕ → KvCache → Option BlockRange × KvCache
kv_compress now input in_range scaled c =
    let count = if scaled == 0 then 1 else scaled in
    let start = find_free_block c count in
    let output : BlockRange = record {
      start = start;
      count = count;
      size = (count * c.block_size) % u32_mod;
    } in
    if not c.initialized || not in_range then (none, c) else if start == 0 then (none, c) else (
      some output,
      record c {
        blocks = sample_blocks c now input output 0 count c.blocks;
        stats = record c.stats {
          total_compressed = (c.stats.total_compressed + output.size) % u64_mod;
        };
      },
    )

unfoldable pub decompress_blocks : KvCache → BlockRange → ℕ → ℕ → List Block → List Block
decompress_blocks c range i zero blocks = blocks
decompress_blocks c range i (suc n) blocks =
    let k = block_index range i in
    decompress_blocks c range (i + 1) n (
      if ltb k c.block_count
      then set blocks k (record (block_at blocks k) { state = allocated })
      else blocks)

-- The output range is the input range.
unfoldable pub kv_decompress : BlockRange → KvCache → Option BlockRange × KvCache
kv_decompress range c =
    if not c.initialized
    then (none, c)
    else (some range, record c { blocks = decompress_blocks c range 0 range.count c.blocks })

abbrev pub same_bytes : Bytes → Bytes → Bool
same_bytes [] [] = true
same_bytes [] (y ∷ t) = false
same_bytes (x ∷ s) [] = false
same_bytes (x ∷ s) (y ∷ t) = (x == y) && same_bytes s t

-- How much of a block the prefix is compared with.
abbrev pub check_size : KvCache → Bytes → ℕ
check_size c prefix = if ltb (length prefix) c.block_size then length prefix else c.block_size

abbrev pub holds_prefix : KvCache → ℕ → Bytes → Block → Bool
holds_prefix c agent prefix b =
    let size = check_size c prefix in
    not (is_free b.state)
    && b.owner == agent
    && (same_bytes (first_bytes size b.content) (first_bytes size prefix) && not (size == 0))

-- The loop of kv_reuse_prefix, with `n` blocks left from `i` on: the index where it stops.
unfoldable pub find_prefix : KvCache → ℕ → Bytes → ℕ → ℕ → Option ℕ
find_prefix c agent prefix i zero = none
find_prefix c agent prefix i (suc n) =
    let rest = find_prefix c agent prefix (i + 1) n in
    if holds_prefix c agent prefix (block_at c.blocks i) then some i else rest

unfoldable pub kv_reuse_prefix : ℕ → ℕ → Bytes → KvCache → Option BlockRange × KvCache
kv_reuse_prefix now agent prefix c =
    if not c.initialized then (none, c) else elim (find_prefix c agent prefix 0 c.block_count) [
      | none ↦ (none, c)
      | some i ↦
          let b = block_at c.blocks i in
          (
            some (record { start = b.id; count = 1; size = c.block_size }),
            record c {
              blocks =
                  set c.blocks i
                    (record b { ref_count = (b.ref_count + 1) % u32_mod; last_access = now });
              stats = record c.stats { reuse_count = (c.stats.reuse_count + 1) % u64_mod };
            },
          )
    ]

abbrev pub kv_get_stats : KvCache → Option KvStats
kv_get_stats c = if not c.initialized then none else some c.stats
