-- ===== src/KvCache/Allocate.antt =====
-- What kv_allocate of agent_runtime_top/src/kv_cache.c gives.
use agent_nucleus.Prelude.{
  ℕ, zero, suc, ◌+◌, ◌-◌, ◌*◌, ◌%◌, ◌≤◌, ◌<◌, ◌≡◌, refl, sym, ◌∙◌, ap, subst, true, false, not,
  ◌||◌, Option, none, some, ◌==◌, inl, inr, ◌⊎◌, Bool-cases, arith, u32_mod, u64_mod, if◌then◌else◌,
}
use agent_nucleus.KvCache.State.{BlockRange, KvCache, is_free, block_at}
use agent_nucleus.KvCache.Blocks.{
  find_free_block, blocks_needed, taken, range_of, with_range, kv_allocate,
}
use agent_nucleus.KvCache.Valid.{IsValid}
use agent_nucleus.KvCache.Range.{over, over-outside, over-inside, IsIn, take_blocks-over}
use agent_nucleus.KvCache.Search.{IsFreeRun, Finds, find_free_block-Finds}

-- What it answers by the place that the search finds.
pub allocate-none :
    (now agent size : ℕ) (c : KvCache)
    → find_free_block c (blocks_needed c size) ≡ 0
    → kv_allocate now agent size c ≡ (none, c)
unfolding kv_allocate
allocate-none now agent size c nowhere = elim (Bool-cases c.initialized) [
  | inl on ↦ simp (on, nowhere)
  | inr off ↦ simp off
]

pub allocate-some :
    (now agent size k : ℕ) (c : KvCache)
    → c.initialized ≡ true
    → find_free_block c (blocks_needed c size) ≡ suc k
    → kv_allocate now agent size c
      ≡ (some (range_of c size (suc k)), with_range c now agent (range_of c size (suc k)))
unfolding kv_allocate
allocate-some now agent size k c on at =
    ap
      (λ start.
        if not c.initialized || start == 0
        then (none, c)
        else (some (range_of c size start), with_range c now agent (range_of c size start)))
      at
    ∙ ap
        (λ b.
          if not b || suc k == 0
          then (none, c)
          else (some (range_of c size (suc k)), with_range c now agent (range_of c size (suc k))))
        on
    ∙ ap
        (λ b.
          if b
          then (none, c)
          else (some (range_of c size (suc k)), with_range c now agent (range_of c size (suc k))))
        positive
  where
    positive : (suc k == 0) ≡ false
    positive = ground arith

blocks_needed-positive : (c : KvCache) (size : ℕ) → 0 < blocks_needed c size
unfolding blocks_needed
blocks_needed-positive c size = ground arith

-- The blocks after a call that gives a range: those of the range belong to the agent, with one
-- reference, and the others are as they were.
pub record IsTaken (c d : KvCache) (agent k n : ℕ) : Type 0 where
  pub inside :
      (i : ℕ)
      → i < n
      → ((block_at d.blocks (k + i)).owner ≡ agent)
        × (((block_at d.blocks (k + i)).ref_count ≡ 1)
            × (is_free (block_at d.blocks (k + i)).state ≡ false))
  pub outside : (j : ℕ) → (j < k) ⊎ (k + n ≤ j) → block_at d.blocks j ≡ block_at c.blocks j

-- The answer and the state of a call: no range and no change where there is no run of free blocks
-- that is long enough, and otherwise the first such run, which the agent has from then on.
abbrev pub Allocates : KvCache → ℕ → ℕ → Option BlockRange × KvCache → Type 0
Allocates c agent n (none, d) = (d ≡ c) × ((k : ℕ) → ¬ IsFreeRun c k n)
Allocates c agent n (some range, d) =
    (k : ℕ) × (((range.start ≡ k + 1) × (range.count ≡ n))
      × ((IsFreeRun c k n × ((j : ℕ) → j < k → ¬ IsFreeRun c j n))
          × (IsTaken c d agent k n
              × (d.used_size ≡ (c.used_size + (n * c.block_size) % u32_mod) % u64_mod))))

pub range-IsIn :
    (c : KvCache) (k : ℕ) (range : BlockRange)
    → IsValid c
    → range.start ≡ suc k
    → k + range.count ≤ c.block_count
    → IsIn range k (0 + range.count) c.block_count
range-IsIn c k range v from to = record {
  from = from ∙ omega arith;
  to = omega arith;
  fits = v.fits;
}

pub with_range-over :
    (now agent k : ℕ) (c : KvCache) (range : BlockRange)
    → IsValid c
    → range.start ≡ suc k
    → k + range.count ≤ c.block_count
    → (with_range c now agent range).blocks ≡ over (taken c agent now) k range.count c.blocks
with_range-over now agent k c range v from to =
    let none_before : k + 0 ≡ k = omega arith in
    take_blocks-over c agent now range k 0 range.count c.block_count c.blocks
      (range-IsIn c k range v from to)
    ∙ ap (λ j. over (taken c agent now) j range.count c.blocks) none_before

with_range-IsTaken :
    (now agent k : ℕ) (c : KvCache) (range : BlockRange)
    → IsValid c
    → range.start ≡ suc k
    → k + range.count ≤ c.block_count
    → IsTaken c (with_range c now agent range) agent k range.count
with_range-IsTaken now agent k c range v from to =
    let made = with_range-over now agent k c range v from to in
    let all_blocks = v.store.all_blocks in
    record {
      inside = λ i h.
          let e =
            ap (λ blocks. block_at blocks (k + i)) made
            ∙ over-inside (taken c agent now) k range.count i c.blocks h (omega arith) in
          (ap (λ b. b.owner) e, (ap (λ b. b.ref_count) e, ap (λ b. is_free b.state) e));
      outside = λ j out.
          ap (λ blocks. block_at blocks j) made
          ∙ over-outside (taken c agent now) k range.count j c.blocks out;
    }

pub zero_or_suc : (n : ℕ) → (n ≡ 0) ⊎ ((k : ℕ) × (n ≡ suc k))
zero_or_suc zero = inl refl
zero_or_suc (suc k) = inr (k, refl)

-- What the search of a call finds.
pub Finds-needed :
    (c : KvCache) (size : ℕ)
    → IsValid c
    → Finds c (blocks_needed c size) (find_free_block c (blocks_needed c size))
Finds-needed c size v =
    let positive = blocks_needed-positive c size in
    let one : suc (blocks_needed c size - 1) ≡ blocks_needed c size = omega arith in
    subst (λ n. Finds c n (find_free_block c n)) one
      (find_free_block-Finds c (blocks_needed c size - 1) v)

-- In a valid pool (initialised, of at most 2^31 blocks that have their ids in order and buffers of
-- the block size), kv_allocate gives the first run of blocks_needed free blocks to the agent and
-- counts its bytes, or tells that there is no such run and changes nothing.
pub kv_allocate-Allocates :
    (now agent size : ℕ) (c : KvCache)
    → IsValid c
    → Allocates c agent (blocks_needed c size) (kv_allocate now agent size c)
kv_allocate-Allocates now agent size c v =
    let n = blocks_needed c size in
    elim (zero_or_suc (find_free_block c n)) [
      | inl nowhere ↦
          subst (Allocates c agent n) (sym (allocate-none now agent size c nowhere))
            (refl, subst (Finds c n) nowhere (Finds-needed c size v))
      | inr (k, at) ↦
          let found : Finds c n (suc k) = subst (Finds c n) at (Finds-needed c size v) in
          subst (Allocates c agent n) (sym (allocate-some now agent size k c v.initialized at)) (
            k,
            (
              (omega arith, refl),
              (
                found,
                (with_range-IsTaken now agent k c (range_of c size (suc k)) v refl found.0.0, refl),
              ),
            ),
          )
    ]
