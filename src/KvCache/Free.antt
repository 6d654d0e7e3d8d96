-- ===== src/KvCache/Free.antt =====
-- kv_free of agent_runtime_top/src/kv_cache.c takes back what kv_allocate gives.
use agent_nucleus.Prelude.{
  ℕ, suc, ◌+◌, ◌-◌, ◌≤◌, ◌<◌, ◌≡◌, refl, sym, ◌∙◌, ap, subst, not, some, none≢some, some-inj,
  length, ltb, inl, inr, ◌⊎◌, Bool-cases, arith, u64_mod, if◌then◌else◌,
}
use agent_nucleus.Arrays.{Status, success, failure}
use agent_nucleus.KvCache.State.{BlockRange, KvCache, is_free, block_at}
use agent_nucleus.KvCache.Blocks.{
  find_free_block, blocks_needed, taken, range_of, with_range, kv_allocate, released, free_blocks,
  freed_cache, kv_free,
}
use agent_nucleus.KvCache.Valid.{IsValid}
use agent_nucleus.KvCache.Range.{over, length-over, over-outside, over-inside, free_blocks-over}
use agent_nucleus.KvCache.Search.{is_free_at, IsFreeRun, Finds}
use agent_nucleus.KvCache.Allocate.{
  allocate-none, allocate-some, range-IsIn, with_range-over, zero_or_suc, Finds-needed,
}

-- kv_free of a range of blocks that with_range took.
with_range-freed :
    (now agent k : ℕ) (c : KvCache) (range : BlockRange)
    → IsValid c
    → range.start ≡ suc k
    → k + range.count ≤ c.block_count
    → kv_free range (with_range c now agent range)
      ≡ freed_cache
          (with_range c now agent range)
          range
          (success, over released k range.count (over (taken c agent now) k range.count c.blocks))
unfolding kv_free
with_range-freed now agent k c range v from to =
    let d = with_range c now agent range in
    let none_before : k + 0 ≡ k = omega arith in
    ap
      (λ b.
        if not b
        then (failure, d)
        else freed_cache d range (free_blocks d range 0 range.count d.blocks))
      v.initialized
    ∙ ap (freed_cache d range) (
        free_blocks-over d range k 0 range.count d.blocks (range-IsIn c k range v from to)
        ∙ ap (λ j. (success, over released j range.count d.blocks)) none_before
        ∙ ap (λ blocks. (success, over released k range.count blocks))
            (with_range-over now agent k c range v from to))

-- The state after: the same blocks are free and the same number of bytes is used.
abbrev pub Restores : KvCache → Status × KvCache → Type 0
Restores c (status, d) =
    (status ≡ success) × ((d.used_size ≡ c.used_size) × ((j : ℕ) → is_free_at d j ≡ is_free_at c j))

-- Before, in or after the n places from k on.
place : (j k n : ℕ) → ((j < k) ⊎ (k + n ≤ j)) ⊎ ((i : ℕ) × ((i < n) × (j ≡ k + i)))
place j k n = elim (Bool-cases (ltb j k)) [
  | inl before ↦ inl (inl (ground arith))
  | inr from ↦ elim (Bool-cases (ltb j (k + n))) [
    | inl inside ↦ inr (j - k, (ground arith, ground arith))
    | inr after ↦ inl (inr (ground arith))
  ]
]

taken-released :
    (now agent k n : ℕ) (c : KvCache)
    → length c.blocks ≡ c.block_count
    → IsFreeRun c k n
    → (j : ℕ)
    → is_free (block_at (over released k n (over (taken c agent now) k n c.blocks)) j).state
      ≡ is_free_at c j
taken-released now agent k n c all run j =
    let to = run.0 in
    let t = taken c agent now in
    elim (place j k n) [
      | inl out ↦
          ap (λ b. is_free b.state)
            (over-outside released k n j (over t k n c.blocks) out
              ∙ over-outside t k n j c.blocks out)
      | inr (i, (inside, at)) ↦
          let same_length = length-over t k n c.blocks in
          ap (λ m. is_free (block_at (over released k n (over t k n c.blocks)) m).state) at
          ∙ ap (λ b. is_free b.state)
              (over-inside released k n i (over t k n c.blocks) inside (omega arith)
                ∙ ap released (over-inside t k n i c.blocks inside (omega arith)))
          ∙ sym (run.1 i inside)
          ∙ ap (is_free_at c) (sym at)
    ]

with_range-Restores :
    (now agent k : ℕ) (c : KvCache) (range : BlockRange)
    → IsValid c
    → range.start ≡ suc k
    → IsFreeRun c k range.count
    → c.used_size + range.size < u64_mod
    → Restores c (kv_free range (with_range c now agent range))
with_range-Restores now agent k c range v from run room =
    subst (Restores c) (sym (with_range-freed now agent k c range v from run.0))
      (refl, (omega arith, taken-released now agent k range.count c v.store.all_blocks run))

-- kv_free of the range that kv_allocate has given in a valid pool (initialised, of at most 2^31
-- blocks that have their ids in order and buffers of the block size): the blocks that were free before are free again,
-- the others are in use, and the bytes in use are as many as before, where their number did not wrap.
pub kv_allocate-kv_free :
    (now agent size : ℕ) (range : BlockRange) (c d : KvCache)
    → IsValid c
    → kv_allocate now agent size c ≡ (some range, d)
    → c.used_size + range.size < u64_mod
    → Restores c (kv_free range d)
kv_allocate-kv_free now agent size range c d v given room =
    elim (zero_or_suc (find_free_block c (blocks_needed c size))) [
      | inl nowhere ↦
          absurd (none≢some (ap (λ r. r.0) (sym (allocate-none now agent size c nowhere) ∙ given)))
      | inr (k, at) ↦
          let found : Finds c (blocks_needed c size) (suc k) =
            subst (Finds c (blocks_needed c size)) at (Finds-needed c size v) in
          let made = sym (allocate-some now agent size k c v.initialized at) ∙ given in
          let same_range : range_of c size (suc k) ≡ range = some-inj (ap (λ r. r.0) made) in
          let same_cache = ap (λ r. r.1) made in
          subst (λ r. Restores c (kv_free r d)) same_range
            (subst (λ e. Restores c (kv_free (range_of c size (suc k)) e)) same_cache
              (with_range-Restores now agent k c (range_of c size (suc k)) v refl found.0
                (subst (λ r. c.used_size + r.size < u64_mod) (sym same_range) room)))
    ]
