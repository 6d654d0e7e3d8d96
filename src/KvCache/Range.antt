-- ===== src/KvCache/Range.antt =====
-- The loops of agent_runtime_top/src/kv_cache.c over the blocks of a range.
use agent_nucleus.Prelude.{
  ℕ, zero, suc, ◌+◌, ◌^◌, ◌≤◌, ◌<◌, ◌≡◌, ◌≢◌, refl, sym, ◌∙◌, ap, subst, false, List, length, leb,
  inl, inr, ◌⊎◌, arith,
}
use agent_nucleus.Arrays.{success, set, length-set, get_or-set_self, get_or-set_ne}
use agent_nucleus.KvCache.State.{Block, BlockRange, KvCache, no_block, block_index, block_at}
use agent_nucleus.KvCache.Blocks.{taken, take_blocks, released, free_blocks}

-- A change of `n` blocks from the k-th on.
abbrev pub over : (Block → Block) → ℕ → ℕ → List Block → List Block
over f k zero blocks = blocks
over f k (suc n) blocks = over f (k + 1) n (set blocks k (f (block_at blocks k)))

pub length-over :
    (f : Block → Block) (k n : ℕ) (blocks : List Block) → length (over f k n blocks) ≡ length blocks
length-over f k zero blocks = refl
length-over f k (suc n) blocks =
    length-over f (k + 1) n (set blocks k (f (block_at blocks k)))
    ∙ length-set blocks k (f (block_at blocks k))

-- Outside, nothing changes.
pub over-outside :
    (f : Block → Block) (k n j : ℕ) (blocks : List Block)
    → (j < k) ⊎ (k + n ≤ j)
    → block_at (over f k n blocks) j ≡ block_at blocks j
over-outside f k zero j blocks out = refl
over-outside f k (suc n) j blocks out =
    over-outside f (k + 1) n j (set blocks k (f (block_at blocks k))) (further out)
    ∙ get_or-set_ne blocks k j (f (block_at blocks k)) no_block (apart out)
  where
    further : (j < k) ⊎ (k + suc n ≤ j) → (j < k + 1) ⊎ (k + 1 + n ≤ j)
    further (inl h) = inl (omega arith)
    further (inr h) = inr (omega arith)

    apart : (j < k) ⊎ (k + suc n ≤ j) → k ≢ j
    apart (inl h) e = omega arith
    apart (inr h) e = omega arith

-- Inside, each block changes.
pub over-inside :
    (f : Block → Block) (k n i : ℕ) (blocks : List Block)
    → i < n
    → k + n ≤ length blocks
    → block_at (over f k n blocks) (k + i) ≡ f (block_at blocks (k + i))
over-inside f k zero i blocks inside fits = absurd (omega arith)
over-inside f k (suc n) zero blocks inside fits =
    let here : k + 0 ≡ k = omega arith in
    ap (block_at (over f k (suc n) blocks)) here
    ∙ over-outside f (k + 1) n k (set blocks k (f (block_at blocks k))) (inl (omega arith))
    ∙ get_or-set_self blocks k (f (block_at blocks k)) no_block (omega arith)
    ∙ ap (λ j. f (block_at blocks j)) (sym here)
over-inside f k (suc n) (suc i) blocks inside fits =
    let next : k + suc i ≡ k + 1 + i = omega arith in
    let same_length = length-set blocks k (f (block_at blocks k)) in
    ap (block_at (over f k (suc n) blocks)) next
    ∙ over-inside f (k + 1) n i (set blocks k (f (block_at blocks k))) (omega arith) (omega arith)
    ∙ ap f (get_or-set_ne blocks k (k + 1 + i) (f (block_at blocks k)) no_block (λ e. omega arith))
    ∙ ap (λ j. f (block_at blocks j)) (sym next)

-- A range that starts at the id of the k-th block and lies in the array of `count` blocks.
pub record IsIn (range : BlockRange) (k n count : ℕ) : Type 0 where
  pub from : range.start ≡ k + 1
  pub to : k + n ≤ count
  pub fits : count ≤ 2 ^ 31

pub block_index-IsIn :
    (range : BlockRange) (k n count i : ℕ)
    → IsIn range k n count
    → i < n
    → block_index range i ≡ k + i
block_index-IsIn range k n count i r h =
    let from = r.from in let to = r.to in let fits = r.fits in omega arith

pub take_blocks-over :
    (c : KvCache) (agent now : ℕ) (range : BlockRange) (k i n count : ℕ) (blocks : List Block)
    → IsIn range k (i + n) count
    → take_blocks c agent now range i n blocks ≡ over (taken c agent now) (k + i) n blocks
unfolding take_blocks
take_blocks-over c agent now range k i zero count blocks r = refl
take_blocks-over c agent now range k i (suc n) count blocks r =
    let at = block_index-IsIn range k (i + suc n) count i r (omega arith) in
    let next : k + (i + 1) ≡ k + i + 1 = omega arith in
    let same : i + suc n ≡ i + 1 + n = omega arith in
    ap
      (λ j.
        take_blocks c agent now range (i + 1) n
          (set blocks j (taken c agent now (block_at blocks j))))
      at
    ∙ take_blocks-over c agent now range k (i + 1) n count
        (set blocks (k + i) (taken c agent now (block_at blocks (k + i))))
        (subst (λ m. IsIn range k m count) same r)
    ∙ ap
        (λ j.
          over (taken c agent now) j n
            (set blocks (k + i) (taken c agent now (block_at blocks (k + i)))))
        next

pub free_blocks-over :
    (c : KvCache) (range : BlockRange) (k i n : ℕ) (blocks : List Block)
    → IsIn range k (i + n) c.block_count
    → free_blocks c range i n blocks ≡ (success, over released (k + i) n blocks)
unfolding free_blocks
free_blocks-over c range k i zero blocks r = refl
free_blocks-over c range k i (suc n) blocks r =
    let at = block_index-IsIn range k (i + suc n) c.block_count i r (omega arith) in
    let next : k + (i + 1) ≡ k + i + 1 = omega arith in
    let same : i + suc n ≡ i + 1 + n = omega arith in
    let to = r.to in
    let inside : leb c.block_count (k + i) ≡ false = ground arith in
    rw at (
      rw inside (
        free_blocks-over c range k (i + 1) n
          (set blocks (k + i) (released (block_at blocks (k + i))))
          (subst (λ m. IsIn range k m c.block_count) same r)
        ∙ ap
            (λ j. (
              success,
              over released j n (set blocks (k + i) (released (block_at blocks (k + i)))),
            ))
            next))
