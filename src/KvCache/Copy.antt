-- ===== src/KvCache/Copy.antt =====
-- How much a round of kv_read or kv_write of agent_runtime_top/src/kv_cache.c copies.
use agent_nucleus.Prelude.{
  ℕ, zero, suc, ◌+◌, ◌-◌, ◌%◌, ◌≤◌, ◌<◌, ◌≡◌, refl, ◌∙◌, ap, [], ◌∷◌, ◌++◌, length, length-append,
  ltb, inl, inr, ◌⊎◌, Bool-cases, arith, Bytes, u32_mod,
}
use agent_nucleus.KvCache.State.{KvCache, is_free, block_at}
use agent_nucleus.KvCache.Access.{
  Written, first_bytes, bytes_after, copy_size, written_over, write_block,
}

pub length-first_bytes : (n : ℕ) (s : Bytes) → n ≤ length s → length (first_bytes n s) ≡ n
length-first_bytes zero s h = refl
length-first_bytes (suc n) [] h = absurd (omega arith)
length-first_bytes (suc n) (x ∷ s) h = ap suc (length-first_bytes n s (omega arith))

pub length-bytes_after : (n : ℕ) (s : Bytes) → length (bytes_after n s) ≡ length s - n
length-bytes_after zero s = omega arith
length-bytes_after (suc n) [] = omega arith
length-bytes_after (suc n) (x ∷ s) = length-bytes_after n s ∙ omega arith

pub first-after : (n : ℕ) (s : Bytes) → first_bytes n s ++ bytes_after n s ≡ s
first-after zero s = refl
first-after (suc n) [] = refl
first-after (suc n) (x ∷ s) = ap (λ t. x ∷ t) (first-after n s)

-- The smaller of a block's size and what is left.
pub copy_size-bounds :
    (c : KvCache) (limit n : ℕ)
    → limit + c.block_size ≤ u32_mod
    → n < limit
    → ((copy_size c limit n ≤ c.block_size) × (copy_size c limit n ≤ limit - n))
      × ((copy_size c limit n ≡ c.block_size) ⊎ (copy_size c limit n ≡ limit - n))
copy_size-bounds c limit n fits left =
    let whole : (n + c.block_size) % u32_mod ≡ n + c.block_size = omega arith in
    elim (Bool-cases (ltb limit ((n + c.block_size) % u32_mod))) [
      | inl part ↦
          let over : limit < n + c.block_size = ground arith in
          rw part ((omega arith, omega arith), inr refl)
      | inr full ↦
          let under : n + c.block_size ≤ limit = ground arith in
          rw full ((omega arith, omega arith), inl refl)
    ]

-- The bytes written and those left are all the bytes.
abbrev pub InStep : ℕ → Written → Type 0
InStep data_size w = w.written + length w.src ≡ data_size

pub write_block-InStep :
    (c : KvCache) (now data_size k : ℕ) (w : Written)
    → data_size + c.block_size ≤ u32_mod
    → w.written < data_size
    → InStep data_size w
    → InStep data_size (write_block c now data_size k w)
write_block-InStep c now data_size k w fits left t =
    elim (Bool-cases (is_free (block_at w.blocks k).state)) [
      | inl unused ↦ rw unused t
      | inr used ↦
          let size = copy_size c data_size w.written in
          let bounds = copy_size-bounds c data_size w.written fits left in
          let most = bounds.0.1 in
          let after = length-bytes_after size w.src in rw used (omega arith)
    ]

pub written_over-length :
    (c : KvCache) (now data_size k : ℕ) (w : Written)
    → data_size + c.block_size ≤ u32_mod
    → w.written < data_size
    → InStep data_size w
    → length (block_at w.blocks k).content ≡ c.block_size
    → length (written_over c now data_size k w).content ≡ c.block_size
written_over-length c now data_size k w fits left t full =
    let size = copy_size c data_size w.written in
    let bounds = copy_size-bounds c data_size w.written fits left in
    let most = bounds.0.1 in
    let most_block = bounds.0.0 in
    let first = length-first_bytes size w.src (omega arith) in
    let after = length-bytes_after size (block_at w.blocks k).content in
    length-append (first_bytes size w.src) (bytes_after size (block_at w.blocks k).content)
    ∙ omega arith
