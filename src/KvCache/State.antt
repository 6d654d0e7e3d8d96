-- ===== src/KvCache/State.antt =====
-- agent_runtime_top/src/kv_cache.c and include/kv_cache.h: the blocks, the state g_kv_cache, and how
-- it is made.
use agent_nucleus.Prelude.{
  ℕ, zero, suc, ◌+◌, ◌-◌, ◌*◌, ◌%◌, Bool, true, false, not, Option, none, some, List, [], ◌∷◌, ◌==◌,
  if◌then◌else◌, Bytes, u32_mod, u64_mod,
}
use agent_nucleus.Arrays.{Status, success, failure, get_or}

pub data BlockState : Type 0 where
  free allocated shared compressed : BlockState

abbrev pub is_free : BlockState → Bool
is_free free = true
is_free s = false

-- `content` is the bytes of the block's buffer.
pub record Block : Type 0 where
  pub id : ℕ
  pub size : ℕ
  pub state : BlockState
  pub ref_count : ℕ
  pub owner : ℕ
  pub last_access : ℕ
  pub priority : ℕ
  pub content : Bytes

abbrev pub no_block : Block
no_block = record {
  id = 0;
  size = 0;
  state = free;
  ref_count = 0;
  owner = 0;
  last_access = 0;
  priority = 0;
  content = [];
}

pub record BlockRange : Type 0 where
  pub start : ℕ
  pub count : ℕ
  pub size : ℕ

-- The fields that kv_cache.c reads.
pub record KvConfig : Type 0 where
  pub total_size : ℕ
  pub block_size : ℕ
  pub max_blocks : ℕ

-- The counters; the two ratios are floating-point numbers of them.
pub record KvStats : Type 0 where
  pub total_allocated : ℕ
  pub total_shared : ℕ
  pub total_compressed : ℕ
  pub hit_count : ℕ
  pub miss_count : ℕ
  pub reuse_count : ℕ

abbrev pub no_kv_stats : KvStats
no_kv_stats = record {
  total_allocated = 0;
  total_shared = 0;
  total_compressed = 0;
  hit_count = 0;
  miss_count = 0;
  reuse_count = 0;
}

pub record KvCache : Type 0 where
  pub blocks : List Block
  pub block_count : ℕ
  pub block_size : ℕ
  pub total_size : ℕ
  pub used_size : ℕ
  pub stats : KvStats
  pub initialized : Bool

abbrev pub no_cache : KvCache
no_cache = record {
  blocks = [];
  block_count = 0;
  block_size = 0;
  total_size = 0;
  used_size = 0;
  stats = no_kv_stats;
  initialized = false;
}

abbrev pub default_block_size : ℕ
default_block_size = 4096

abbrev pub default_max_blocks : ℕ
default_max_blocks = 1048576

-- A setting, or its default where it is 0.
abbrev pub or_default : ℕ → ℕ → ℕ
or_default n default = if n == 0 then default else n

abbrev pub new_block : ℕ → ℕ → Bytes → Block
new_block block_size i content = record {
  id = i + 1;
  size = block_size;
  state = free;
  ref_count = 0;
  owner = 0;
  last_access = 0;
  priority = 0;
  content = content;
}

abbrev put_first : Block → Option (List Block) → Option (List Block)
put_first b none = none
put_first b (some blocks) = some (b ∷ blocks)

-- The loop over the blocks, with `n` of them left from the index `i` on; `malloc i` is the buffer
-- that malloc gives the block i, with what it holds.
unfoldable pub make_blocks : (ℕ → Option Bytes) → ℕ → ℕ → ℕ → Option (List Block)
make_blocks malloc block_size zero i = some []
make_blocks malloc block_size (suc n) i =
    let rest = make_blocks malloc block_size n (i + 1) in
    elim (malloc i) [ none ↦ none | some content ↦ put_first (new_block block_size i content) rest ]

-- The settings, as kv_cache_init writes them before it allocates.
abbrev pub configured : KvConfig → KvCache → KvCache
configured config c =
    let block_size = or_default config.block_size default_block_size in
    let block_count = or_default config.max_blocks default_max_blocks in
    record c {
      block_size = block_size;
      block_count = block_count;
      total_size = or_default config.total_size (block_count * block_size);
    }

-- `calloc` is whether there is memory for the descriptors.
unfoldable pub kv_cache_init :
    Bool → (ℕ → Option Bytes) → Option KvConfig → KvCache → Status × KvCache
kv_cache_init calloc malloc none c = (failure, c)
kv_cache_init calloc malloc (some config) c =
    let d = configured config c in
    if c.initialized
    then (failure, c)
    else if not calloc
    then (failure, record d { blocks = [] })
    else elim (make_blocks malloc d.block_size d.block_count 0) [
      | none ↦ (failure, record d { blocks = [] })
      | some blocks ↦ (
        success,
        record d { blocks = blocks; stats = no_kv_stats; used_size = 0; initialized = true },
      )
    ]

abbrev pub kv_cache_destroy : KvCache → KvCache
kv_cache_destroy c = if not c.initialized then c else no_cache

-- `start - 1 + i` on uint64_t, as a uint32_t.
abbrev pub block_index : BlockRange → ℕ → ℕ
block_index range i = (range.start + u64_mod - 1 + i) % u64_mod % u32_mod

abbrev pub block_at : List Block → ℕ → Block
block_at blocks i = get_or blocks i no_block
