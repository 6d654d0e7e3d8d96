-- ===== src/KvCache/Access.antt =====
-- agent_runtime_top/src/kv_cache.c: kv_read and kv_write.
use agent_nucleus.Prelude.{
  ℕ, zero, suc, ◌+◌, ◌-◌, ◌%◌, not, ◌||◌, Option, none, some, List, [], ◌∷◌, ◌++◌, leb, ltb,
  if◌then◌else◌, Bytes, length, u32_mod, u64_mod,
}
use agent_nucleus.Arrays.{set}
use agent_nucleus.KvCache.State.{is_free, Block, BlockRange, KvCache, block_index, block_at}

-- How much a round copies, with `limit` bytes in all and `n` of them copied before it.
abbrev pub copy_size : KvCache → ℕ → ℕ → ℕ
copy_size c limit n = if ltb limit ((n + c.block_size) % u32_mod) then limit - n else c.block_size

abbrev pub first_bytes : ℕ → Bytes → Bytes
first_bytes zero s = []
first_bytes (suc n) [] = []
first_bytes (suc n) (x ∷ s) = x ∷ first_bytes n s

abbrev pub bytes_after : ℕ → Bytes → Bytes
bytes_after zero s = s
bytes_after (suc n) [] = []
bytes_after (suc n) (x ∷ s) = bytes_after n s

-- What the loop of kv_read leaves: the bytes in the buffer, the blocks and the hits.
pub record Read : Type 0 where
  pub bytes : Bytes
  pub blocks : List Block
  pub hits : ℕ

-- One round of kv_read; it skips a free block.
abbrev pub read_block : KvCache → ℕ → ℕ → ℕ → Read → Read
read_block c now buffer_size k r =
    let b = block_at r.blocks k in
    let size = copy_size c buffer_size (length r.bytes) in
    if is_free b.state then r else record {
      bytes = r.bytes ++ first_bytes size b.content;
      blocks = set r.blocks k (record b { last_access = now });
      hits = (r.hits + 1) % u64_mod;
    }

-- The loop of kv_read, with `n` blocks left from the i-th of the range on; `r.bytes` is what is in
-- the buffer before it.
unfoldable pub read_blocks : KvCache → ℕ → ℕ → BlockRange → ℕ → ℕ → Read → Read
read_blocks c now buffer_size range i zero r = r
read_blocks c now buffer_size range i (suc n) r =
    let k = block_index range i in
    let rest = read_blocks c now buffer_size range (i + 1) n (read_block c now buffer_size k r) in
    if not (ltb (length r.bytes) buffer_size) || leb c.block_count k then r else rest

-- The bytes in the buffer, whose number is the result.
unfoldable pub kv_read : ℕ → BlockRange → ℕ → KvCache → Option Bytes × KvCache
kv_read now range buffer_size c =
    let r =
      read_blocks c now buffer_size range 0 range.count
        (record { bytes = []; blocks = c.blocks; hits = c.stats.hit_count }) in
    if not c.initialized then (none, c) else (
      some r.bytes,
      record c { blocks = r.blocks; stats = record c.stats { hit_count = r.hits } },
    )

-- What the loop of kv_write leaves: the number of bytes written, the bytes after them and the blocks.
pub record Written : Type 0 where
  pub written : ℕ
  pub src : Bytes
  pub blocks : List Block

-- The block k with what a round copies to it.
abbrev pub written_over : KvCache → ℕ → ℕ → ℕ → Written → Block
written_over c now data_size k w =
    let b = block_at w.blocks k in
    let size = copy_size c data_size w.written in
    record b { content = first_bytes size w.src ++ bytes_after size b.content; last_access = now }

-- One round of kv_write; it skips a free block.
abbrev pub write_block : KvCache → ℕ → ℕ → ℕ → Written → Written
write_block c now data_size k w =
    let size = copy_size c data_size w.written in
    if is_free (block_at w.blocks k).state then w else record {
      written = (w.written + size) % u32_mod;
      src = bytes_after size w.src;
      blocks = set w.blocks k (written_over c now data_size k w);
    }

-- The loop of kv_write, with `n` blocks left from the i-th of the range on.
unfoldable pub write_blocks : KvCache → ℕ → ℕ → BlockRange → ℕ → ℕ → Written → Written
write_blocks c now data_size range i zero w = w
write_blocks c now data_size range i (suc n) w =
    let k = block_index range i in
    let rest = write_blocks c now data_size range (i + 1) n (write_block c now data_size k w) in
    if not (ltb w.written data_size) || leb c.block_count k then w else rest

-- The number of bytes written.
unfoldable pub kv_write : ℕ → BlockRange → Bytes → KvCache → Option ℕ × KvCache
kv_write now range bytes c =
    let w =
      write_blocks c now (length bytes) range 0 range.count
        (record { written = 0; src = bytes; blocks = c.blocks }) in
    if not c.initialized then (none, c) else (some w.written, record c { blocks = w.blocks })
