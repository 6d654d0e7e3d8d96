-- ===== src/KvCache/Keeps.antt =====
-- The functions of agent_runtime_top/src/kv_cache.c keep the pool in order.
use agent_nucleus.Prelude.{
  ℕ, ◌+◌, ◌*◌, ◌%◌, ◌^◌, ◌≤◌, ◌<◌, ◌≡◌, refl, sym, ◌∙◌, subst, Bool, true, false, not, ◌||◌, none,
  some, List, [], length, ◌==◌, inl, inr, Option-cases, arith, Bytes, if◌then◌else◌, u32_mod,
  u64_mod,
}
use agent_nucleus.Arrays.{Status, success, failure, set}
use agent_nucleus.KvCache.State.{Block, BlockRange, KvCache, block_at}
use agent_nucleus.KvCache.Valid.{IsStore, IsValid}
use agent_nucleus.KvCache.Blocks.{
  range_of, with_range, kv_allocate, free_blocks, kv_free, freed_cache, find_free_block,
  blocks_needed,
}
use agent_nucleus.KvCache.Access.{Read, Written, read_blocks, kv_read, write_blocks, kv_write}
use agent_nucleus.KvCache.Share.{
  share_blocks, shared_cache, kv_share, unshare_blocks, kv_unshare, sample_blocks, kv_compress,
  decompress_blocks, kv_decompress, find_prefix, kv_reuse_prefix,
}
use agent_nucleus.KvCache.Order.{
  changed-InOrder, take_blocks-InOrder, free_blocks-InOrder, share_blocks-InOrder,
  unshare_blocks-InOrder, decompress_blocks-InOrder, sample_blocks-InOrder, read_blocks-InOrder,
  write_blocks-InOrder,
}

-- The calls, each with what the clock answers where it reads it.
pub data Call : Type 0 where
  allocate : ℕ → ℕ → ℕ → Call
  give_back : BlockRange → Call
  read : ℕ → BlockRange → ℕ → Call
  write : ℕ → BlockRange → Bytes → Call
  share : ℕ → BlockRange → Call
  unshare : BlockRange → Call
  compress : ℕ → BlockRange → Bool → ℕ → Call
  decompress : BlockRange → Call
  reuse : ℕ → ℕ → Bytes → Call

abbrev pub cache_call : Call → KvCache → KvCache
cache_call (allocate now agent size) c = (kv_allocate now agent size c).1
cache_call (give_back range) c = (kv_free range c).1
cache_call (read now range size) c = (kv_read now range size c).1
cache_call (write now range bytes) c = (kv_write now range bytes c).1
cache_call (share src range) c = (kv_share src range c).1
cache_call (unshare range) c = (kv_unshare range c).1
cache_call (compress now input in_range scaled) c = (kv_compress now input in_range scaled c).1
cache_call (decompress range) c = (kv_decompress range c).1
cache_call (reuse now agent prefix) c = (kv_reuse_prefix now agent prefix c).1

-- The sum of the sizes does not wrap in kv_write.
abbrev pub IsCall : KvCache → Call → Type 0
IsCall c (write now range bytes) = length bytes + c.block_size ≤ u32_mod
IsCall c other = Unit {0}

with_blocks-IsValid :
    (c d : KvCache)
    → IsValid c
    → d.initialized ≡ c.initialized
    → d.block_count ≡ c.block_count
    → d.block_size ≡ c.block_size
    → IsStore c.block_count c.block_size d.blocks
    → IsValid d
with_blocks-IsValid c d v on count size s = record {
  initialized = on ∙ v.initialized;
  store =
      subst (λ n. IsStore n d.block_size d.blocks) (sym count)
        (subst (λ n. IsStore c.block_count n d.blocks) (sym size) s);
  fits = subst (λ n. n ≤ 2 ^ 31) (sym count) v.fits;
  some_size = subst (λ n. 0 < n) (sym size) v.some_size;
}

freed_cache-IsValid :
    (c : KvCache) (range : BlockRange) (r : Status × List Block)
    → IsValid c
    → IsStore c.block_count c.block_size r.1
    → IsValid (freed_cache c range r).1
freed_cache-IsValid c range (success, blocks) v s =
    with_blocks-IsValid c (freed_cache c range (success, blocks)).1 v refl refl refl s
freed_cache-IsValid c range (failure, blocks) v s =
    with_blocks-IsValid c (freed_cache c range (failure, blocks)).1 v refl refl refl s

shared_cache-IsValid :
    (c : KvCache) (range : BlockRange) (r : Status × List Block)
    → IsValid c
    → IsStore c.block_count c.block_size r.1
    → IsValid (shared_cache c range r).1
shared_cache-IsValid c range (success, blocks) v s =
    with_blocks-IsValid c (shared_cache c range (success, blocks)).1 v refl refl refl s
shared_cache-IsValid c range (failure, blocks) v s =
    with_blocks-IsValid c (shared_cache c range (failure, blocks)).1 v refl refl refl s

-- A call that may be turned down.
guarded-IsValid :
    {X : Type 0} (b : Bool) (r r' : X × KvCache)
    → IsValid r.1
    → IsValid r'.1
    → IsValid (if b then r else r').1
guarded-IsValid true r r' v w = v
guarded-IsValid false r r' v w = w

reuse-IsValid :
    (now agent : ℕ) (prefix : Bytes) (c : KvCache)
    → IsValid c
    → IsValid (kv_reuse_prefix now agent prefix c).1
unfolding kv_reuse_prefix
reuse-IsValid now agent prefix c v =
    elim (Option-cases (find_prefix c agent prefix 0 c.block_count)) [
      | inl nowhere ↦
          let e : (kv_reuse_prefix now agent prefix c).1 ≡ c = simp (v.initialized, nowhere) in
          subst IsValid (sym e) v
      | inr (i, at) ↦
          let b = record (block_at c.blocks i) {
            ref_count = ((block_at c.blocks i).ref_count + 1) % u32_mod;
            last_access = now;
          } in
          let d = record c {
            blocks = set c.blocks i b;
            stats = record c.stats { reuse_count = (c.stats.reuse_count + 1) % u64_mod };
          } in
          let e : (kv_reuse_prefix now agent prefix c).1 ≡ d = simp (v.initialized, at) in
          subst IsValid (sym e) (
            with_blocks-IsValid c d v refl refl refl
              (changed-InOrder c c.blocks i b v.store refl refl))
    ]

-- Every call leaves a pool in order: the ids stay the indices from 1 on and each buffer keeps a
-- block's size, for kv_write where the sum of the two sizes does not wrap.
pub cache_call-IsValid :
    (x : Call) (c : KvCache) → IsValid c → IsCall c x → IsValid (cache_call x c)
unfolding kv_allocate kv_free kv_read kv_write kv_share kv_unshare kv_compress kv_decompress
cache_call-IsValid (allocate now agent size) c v h =
    let start = find_free_block c (blocks_needed c size) in
    let range = range_of c size start in
    guarded-IsValid (not c.initialized || start == 0) (none, c)
      (some range, with_range c now agent range) v
      (with_blocks-IsValid c (with_range c now agent range) v refl refl refl
        (take_blocks-InOrder c agent now range 0 range.count c.blocks v.store))
cache_call-IsValid (give_back range) c v h =
    guarded-IsValid (not c.initialized) (failure, c)
      (freed_cache c range (free_blocks c range 0 range.count c.blocks)) v
      (freed_cache-IsValid c range (free_blocks c range 0 range.count c.blocks) v
        (free_blocks-InOrder c range 0 range.count c.blocks v.store))
cache_call-IsValid (read now range size) c v h =
    let before : Read = record { bytes = []; blocks = c.blocks; hits = c.stats.hit_count } in
    let r = read_blocks c now size range 0 range.count before in
    let d = record c { blocks = r.blocks; stats = record c.stats { hit_count = r.hits } } in
    guarded-IsValid (not c.initialized) (none, c) (some r.bytes, d) v
      (with_blocks-IsValid c d v refl refl refl
        (read_blocks-InOrder c now size range 0 range.count before v.store))
cache_call-IsValid (write now range bytes) c v h =
    let before : Written = record { written = 0; src = bytes; blocks = c.blocks } in
    let w = write_blocks c now (length bytes) range 0 range.count before in
    let d = record c { blocks = w.blocks } in
    guarded-IsValid (not c.initialized) (none, c) (some w.written, d) v
      (with_blocks-IsValid c d v refl refl refl (
        write_blocks-InOrder c now (length bytes) range 0 range.count before h (omega arith)
          v.store))
cache_call-IsValid (share src range) c v h =
    guarded-IsValid (not c.initialized) (failure, c)
      (shared_cache c range (share_blocks c src range 0 range.count c.blocks)) v
      (shared_cache-IsValid c range (share_blocks c src range 0 range.count c.blocks) v
        (share_blocks-InOrder c src range 0 range.count c.blocks v.store))
cache_call-IsValid (unshare range) c v h =
    let d = record c { blocks = unshare_blocks c range 0 range.count c.blocks } in
    guarded-IsValid (not c.initialized) (failure, c) (success, d) v
      (with_blocks-IsValid c d v refl refl refl
        (unshare_blocks-InOrder c range 0 range.count c.blocks v.store))
cache_call-IsValid (compress now input in_range scaled) c v h =
    let count = if scaled == 0 then 1 else scaled in
    let start = find_free_block c count in
    let output : BlockRange = record {
      start = start;
      count = count;
      size = (count * c.block_size) % u32_mod;
    } in
    let d = record c {
      blocks = sample_blocks c now input output 0 count c.blocks;
      stats = record c.stats {
        total_compressed = (c.stats.total_compressed + output.size) % u64_mod;
      };
    } in
    guarded-IsValid (not c.initialized || not in_range) (none, c)
      (if start == 0 then (none, c) else (some output, d)) v
      (guarded-IsValid (start == 0) (none, c) (some output, d) v
        (with_blocks-IsValid c d v refl refl refl
          (sample_blocks-InOrder c now input output 0 count c.blocks v.store)))
cache_call-IsValid (decompress range) c v h =
    let d = record c { blocks = decompress_blocks c range 0 range.count c.blocks } in
    guarded-IsValid (not c.initialized) (none, c) (some range, d) v
      (with_blocks-IsValid c d v refl refl refl
        (decompress_blocks-InOrder c range 0 range.count c.blocks v.store))
cache_call-IsValid (reuse now agent prefix) c v h = reuse-IsValid now agent prefix c v
