-- ===== src/KvCache/Reading.antt =====
-- The loop of kv_read of agent_runtime_top/src/kv_cache.c answers what the blocks hold.
use agent_nucleus.Prelude.{
  ℕ, zero, suc, ◌+◌, ◌-◌, ◌%◌, ◌≤◌, ◌<◌, ◌≡◌, refl, sym, ◌∙◌, ap, subst, true, false, not, ◌||◌,
  List, [], ◌++◌, length, length-append, leb, ltb, inl, inr, Bool-cases, arith, u32_mod, u64_mod,
}
use mathlib.Core.Path.{ap₂}
use mathlib.Core.List.{append_assoc}
use agent_nucleus.Arrays.{set, get_or-set_ne}
use agent_nucleus.KvCache.State.{
  Block, BlockRange, KvCache, no_block, block_at, block_index, is_free,
}
use agent_nucleus.KvCache.Valid.{IsStore, set-IsStore}
use agent_nucleus.KvCache.Range.{IsIn, block_index-IsIn}
use agent_nucleus.KvCache.Access.{Read, first_bytes, copy_size, read_block, read_blocks}
use agent_nucleus.KvCache.Copy.{length-first_bytes, copy_size-bounds}
use agent_nucleus.KvCache.Stored.{
  stored, stored-set, append-nil, first_bytes-all, first_bytes-append, first_bytes-part,
}

-- The `n` blocks from k on are in use.
abbrev pub IsUsed : ℕ → ℕ → List Block → Type 0
IsUsed k n blocks = (j : ℕ) → j < n → is_free (block_at blocks (k + j)).state ≡ false

pub IsUsed-first :
    (k n : ℕ) (blocks : List Block)
    → IsUsed k (suc n) blocks
    → is_free (block_at blocks k).state ≡ false
IsUsed-first k n blocks used =
    let here : k ≡ k + 0 = omega arith in
    ap (λ j. is_free (block_at blocks j).state) here ∙ used 0 (omega arith)

-- The blocks after the first are in use after a write to it.
pub IsUsed-rest :
    (k n : ℕ) (b : Block) (blocks : List Block)
    → IsUsed k (suc n) blocks
    → IsUsed (k + 1) n (set blocks k b)
IsUsed-rest k n b blocks used = λ j h.
    let next : k + 1 + j ≡ k + suc j = omega arith in
    ap (λ x. is_free x.state) (get_or-set_ne blocks k (k + 1 + j) b no_block (λ e. omega arith))
    ∙ ap (λ m. is_free (block_at blocks m).state) next
    ∙ used (suc j) (omega arith)

module _ (c : KvCache) (now limit : ℕ) (fits : limit + c.block_size ≤ u32_mod) where
  abbrev InOrder : List Block → Type 0
  InOrder blocks = IsStore c.block_count c.block_size blocks

  read_blocks-suc :
      (range : BlockRange) (i n : ℕ) (r : Read)
      → length r.bytes < limit
      → block_index range i < c.block_count
      → read_blocks c now limit range i (suc n) r
        ≡ read_blocks c now limit range (i + 1) n (read_block c now limit (block_index range i) r)
  unfolding read_blocks
  read_blocks-suc range i n r more inside =
      let goes : (not (ltb (length r.bytes) limit) || leb c.block_count (block_index range i))
          ≡ false =
        ground arith in
      rw goes refl

  read_blocks-done :
      (range : BlockRange) (i n : ℕ) (r : Read)
      → limit ≤ length r.bytes
      → read_blocks c now limit range i n r ≡ r
  unfolding read_blocks
  read_blocks-done range i zero r done = refl
  read_blocks-done range i (suc n) r done =
      let stops : (not (ltb (length r.bytes) limit) || leb c.block_count (block_index range i))
          ≡ true =
        ground arith in
      rw stops refl

  -- A round at a block in use.
  abbrev after_round : ℕ → Read → Read
  after_round k r = record {
    bytes =
        r.bytes ++ first_bytes (copy_size c limit (length r.bytes)) (block_at r.blocks k).content;
    blocks = set r.blocks k (record (block_at r.blocks k) { last_access = now });
    hits = (r.hits + 1) % u64_mod;
  }

  read_block-used :
      (k : ℕ) (r : Read)
      → is_free (block_at r.blocks k).state ≡ false
      → read_block c now limit k r ≡ after_round k r
  read_block-used k r used = rw used refl

  -- The bytes that it adds.
  round-bytes :
      (k n : ℕ) (r : Read)
      → length r.bytes < limit
      → length (block_at r.blocks k).content ≡ c.block_size
      → (after_round k r).bytes
          ++ first_bytes (limit - length (after_round k r).bytes) (stored (k + 1) n r.blocks)
        ≡ r.bytes ++ first_bytes (limit - length r.bytes) (stored k (suc n) r.blocks)
  round-bytes k n r more full =
      let content = (block_at r.blocks k).content in
      let rest = stored (k + 1) n r.blocks in
      let size = copy_size c limit (length r.bytes) in
      let m = limit - length r.bytes in
      let bounds = copy_size-bounds c limit (length r.bytes) fits more in
      let most = bounds.0.1 in
      let most_block = bounds.0.0 in
      let added = length-first_bytes size content (omega arith) in
      let longer = length-append r.bytes (first_bytes size content) in
      elim bounds.1 [
        | inl all ↦
            let left : limit - length (r.bytes ++ first_bytes size content) ≡ m - length content =
              omega arith in
            let part : first_bytes size content ≡ first_bytes m content =
              first_bytes-part size m content (inl (omega arith, omega arith)) in
            append_assoc r.bytes (first_bytes size content)
              (first_bytes (limit - length (r.bytes ++ first_bytes size content)) rest)
            ∙ ap₂ (λ x l. r.bytes ++ (x ++ first_bytes l rest)) part left
            ∙ ap (λ x. r.bytes ++ x) (sym (first_bytes-append m content rest))
        | inr some_of ↦
            let left : limit - length (r.bytes ++ first_bytes size content) ≡ m - length content =
              omega arith in
            let part : first_bytes size content ≡ first_bytes m content =
              first_bytes-part size m content (inr some_of) in
            append_assoc r.bytes (first_bytes size content)
              (first_bytes (limit - length (r.bytes ++ first_bytes size content)) rest)
            ∙ ap₂ (λ x l. r.bytes ++ (x ++ first_bytes l rest)) part left
            ∙ ap (λ x. r.bytes ++ x) (sym (first_bytes-append m content rest))
      ]

  -- The loop of kv_read fills the buffer with what the blocks hold.
  pub read_blocks-stored :
      (range : BlockRange) (k i n : ℕ) (r : Read)
      → IsIn range k (i + n) c.block_count
      → InOrder r.blocks
      → IsUsed (k + i) n r.blocks
      → length r.bytes ≤ limit
      → (read_blocks c now limit range i n r).bytes
        ≡ r.bytes ++ first_bytes (limit - length r.bytes) (stored (k + i) n r.blocks)
  unfolding read_blocks
  read_blocks-stored range k i zero r inside s used room = sym (
      ap (λ t. r.bytes ++ t) (first_bytes-all (limit - length r.bytes) [] (omega arith))
      ∙ append-nil r.bytes)
  read_blocks-stored range k i (suc n) r inside s used room =
      let at = block_index-IsIn range k (i + suc n) c.block_count i inside (omega arith) in
      let to = inside.to in
      let same : i + suc n ≡ i + 1 + n = omega arith in
      let next : k + (i + 1) ≡ k + i + 1 = omega arith in
      let one_before : k + i + 1 ≡ k + (i + 1) = omega arith in
      let b = record (block_at r.blocks (k + i)) { last_access = now } in
      elim (Bool-cases (ltb (length r.bytes) limit)) [
        | inl more ↦
            let some_left : length r.bytes < limit = ground arith in
            let full = s.contents (k + i) (omega arith) in
            let size = copy_size c limit (length r.bytes) in
            let bounds = copy_size-bounds c limit (length r.bytes) fits some_left in
            let most = bounds.0.1 in
            let most_block = bounds.0.0 in
            let added = length-first_bytes size (block_at r.blocks (k + i)).content (omega arith) in
            let longer =
              length-append r.bytes (first_bytes size (block_at r.blocks (k + i)).content) in
            let kept : InOrder (set r.blocks (k + i) b) =
              set-IsStore c.block_count c.block_size r.blocks (k + i) b s (λ h. (refl, full)) in
            ap (λ x. x.bytes) (read_blocks-suc range i n r some_left (rw at (omega arith)))
            ∙ ap (λ j. (read_blocks c now limit range (i + 1) n (read_block c now limit j r)).bytes)
                at
            ∙ ap (λ x. (read_blocks c now limit range (i + 1) n x).bytes)
                (read_block-used (k + i) r (IsUsed-first (k + i) n r.blocks used))
            ∙ read_blocks-stored range k (i + 1) n (after_round (k + i) r)
                (subst (λ m. IsIn range k m c.block_count) same inside) kept
                (subst (λ j. IsUsed j n (set r.blocks (k + i) b)) one_before
                  (IsUsed-rest (k + i) n b r.blocks used))
                (omega arith)
            ∙ ap
                (λ t.
                  (after_round (k + i) r).bytes
                  ++ first_bytes (limit - length (after_round (k + i) r).bytes) t)
                (ap (λ j. stored j n (set r.blocks (k + i) b)) next
                  ∙ stored-set (k + i) (k + i + 1) n b r.blocks (omega arith))
            ∙ round-bytes (k + i) n r some_left full
        | inr done ↦
            let all : limit ≤ length r.bytes = ground arith in
            let nothing : 0 ≡ limit - length r.bytes = omega arith in
            ap (λ x. x.bytes) (read_blocks-done range i (suc n) r all)
            ∙ sym (append-nil r.bytes)
            ∙ ap (λ m. r.bytes ++ first_bytes m (stored (k + i) (suc n) r.blocks)) nothing
      ]
