-- ===== src/KvCache/Tests.antt =====
-- Runs of agent_runtime_top/src/kv_cache.c at concrete inputs.
use agent_nucleus.Prelude.{
  ℕ, zero, suc, ◌+◌, ◌*◌, ◌≤◌, ◌<◌, ◌≡◌, Bytes, refl, true, false, some, [], ◌∷◌, arith,
}
use agent_nucleus.KvCache.State.{
  KvConfig, KvCache, BlockRange, block_at, is_free, make_blocks, kv_cache_init, no_cache,
}
use agent_nucleus.KvCache.Blocks.{
  free_from, find_free_from, find_free_block, blocks_needed, take_blocks, kv_allocate, free_blocks,
  kv_free,
}
use agent_nucleus.KvCache.Access.{read_blocks, kv_read, write_blocks, kv_write}
use agent_nucleus.KvCache.Valid.{IsValid, kv_cache_init-IsValid}
use agent_nucleus.KvCache.Search.{Finds, find_free_block-Finds}
use agent_nucleus.KvCache.Allocate.{Allocates, kv_allocate-Allocates}
use agent_nucleus.KvCache.Free.{Restores, kv_allocate-kv_free}
use agent_nucleus.KvCache.Bounds.{range_of-covers}
use agent_nucleus.KvCache.Blocks.{range_of}
use agent_nucleus.KvCache.Keeps.{allocate, compress, cache_call, cache_call-IsValid}
use agent_nucleus.KvCache.Roundtrip.{kv_write-kv_read}
use agent_nucleus.KvCache.Share.{
  share_blocks, kv_share, unshare_blocks, kv_unshare, sample_blocks, kv_compress, decompress_blocks,
  kv_decompress,
}

unfoldable cache_code : Unit {0}
unfolding make_blocks kv_cache_init free_from find_free_from find_free_block blocks_needed
    take_blocks kv_allocate free_blocks kv_free read_blocks kv_read write_blocks kv_write
    share_blocks kv_share unshare_blocks kv_unshare sample_blocks kv_compress decompress_blocks
    kv_decompress
cache_code = tt

-- Four blocks of three bytes.
abbrev small : KvConfig
small = record { total_size = 0; block_size = 3; max_blocks = 4 }

abbrev initial : KvCache
initial = (kv_cache_init true (λ i. some (9 ∷ 9 ∷ 9 ∷ [])) (some small) no_cache).1

abbrev first_range : BlockRange
first_range = record { start = 1; count = 2; size = 6 }

allocates : (kv_allocate 5 7 5 initial).0 ≡ some first_range
unfolding cache_code
allocates = refl

abbrev one_taken : KvCache
one_taken = (kv_allocate 5 7 5 initial).1

writes : (kv_write 6 first_range (1 ∷ 2 ∷ 3 ∷ 4 ∷ []) one_taken).0 ≡ some 4
unfolding cache_code
writes = refl

reads :
    (kv_read 7 first_range 4 (kv_write 6 first_range (1 ∷ 2 ∷ 3 ∷ 4 ∷ []) one_taken).1).0
    ≡ some (1 ∷ 2 ∷ 3 ∷ 4 ∷ [])
unfolding cache_code
reads = refl

-- A block that is shared with nobody and given back by kv_unshare is in use with no reference, and
-- kv_free of it wraps the count.
unshared : (block_at (kv_unshare first_range one_taken).1.blocks 0).ref_count ≡ 0
unfolding cache_code
unshared = refl

still_used :
    is_free (block_at (kv_free first_range (kv_unshare first_range one_taken).1).1.blocks 0).state
    ≡ false
unfolding cache_code
still_used = refl

-- kv_compress takes blocks without counting them; kv_free of its output makes used_size wrap.
compress_wraps :
    (kv_free
      (record { start = 3; count = 1; size = 3 })
      (kv_free first_range (kv_compress 8 first_range true 1 one_taken).1).1).1.used_size
    ≡ 18446744073709551613
unfolding cache_code
compress_wraps = refl

-- The rounding up of a large size wraps: the range has one block.
allocates_too_little :
    (kv_allocate 5 7 4294967295 initial).0 ≡ some (record { start = 1; count = 1; size = 3 })
unfolding cache_code
allocates_too_little = refl

find_free_block-Finds_example : Finds one_taken 2 (find_free_block one_taken 2)
unfolding cache_code
find_free_block-Finds_example = find_free_block-Finds one_taken 1 (
    cache_call-IsValid (allocate 5 7 5) initial
      (kv_cache_init-IsValid (λ i. 9 ∷ 9 ∷ 9 ∷ []) small no_cache refl (omega arith) (λ i. refl))
      tt)

kv_allocate-Allocates_example :
    Allocates initial 7 (blocks_needed initial 5) (kv_allocate 5 7 5 initial)
kv_allocate-Allocates_example =
    kv_allocate-Allocates 5 7 5 initial
      (kv_cache_init-IsValid (λ i. 9 ∷ 9 ∷ 9 ∷ []) small no_cache refl (omega arith) (λ i. refl))

kv_allocate-kv_free_example : Restores initial (kv_free first_range one_taken)
unfolding cache_code
kv_allocate-kv_free_example =
    kv_allocate-kv_free 5 7 5 first_range initial one_taken
      (kv_cache_init-IsValid (λ i. 9 ∷ 9 ∷ 9 ∷ []) small no_cache refl (omega arith) (λ i. refl))
      refl (omega arith)

range_of-covers_example :
    (5 ≤ (range_of initial 5 1).size) × (5 ≤ blocks_needed initial 5 * initial.block_size)
unfolding cache_code
range_of-covers_example = range_of-covers initial 5 1 (omega arith) (omega arith)

cache_call-IsValid_example : IsValid (cache_call (compress 8 first_range true 1) one_taken)
cache_call-IsValid_example =
    cache_call-IsValid (compress 8 first_range true 1) one_taken
      (cache_call-IsValid (allocate 5 7 5) initial
        (kv_cache_init-IsValid (λ i. 9 ∷ 9 ∷ 9 ∷ []) small no_cache refl (omega arith) (λ i. refl))
        tt)
      tt

abbrev some_bytes : Bytes
some_bytes = 1 ∷ 2 ∷ 3 ∷ 4 ∷ []

kv_write-kv_read_example :
    ((kv_write 6 first_range some_bytes one_taken).0 ≡ some 4)
    × ((kv_read 7 first_range 4 (kv_write 6 first_range some_bytes one_taken).1).0
        ≡ some some_bytes)
unfolding cache_code
kv_write-kv_read_example =
    kv_write-kv_read 6 7 0 first_range some_bytes one_taken
      (cache_call-IsValid (allocate 5 7 5) initial
        (kv_cache_init-IsValid (λ i. 9 ∷ 9 ∷ 9 ∷ []) small no_cache refl (omega arith) (λ i. refl))
        tt)
      (record { from = refl; to = omega arith; fits = omega arith }) used (omega arith)
      (omega arith)
  where
    used : (j : ℕ) → j < 2 → is_free (block_at one_taken.blocks (0 + j)).state ≡ false
    used zero h = refl
    used (suc zero) h = refl
    used (suc (suc j)) h = absurd (omega arith)
