-- ===== src/KvCache/Order.antt =====
-- The loops of agent_runtime_top/src/kv_cache.c keep the ids of the blocks and the sizes of their buffers.
use agent_nucleus.Prelude.{
  ℕ, zero, suc, ◌+◌, ◌-◌, ◌*◌, ◌/◌, ◌%◌, ◌≤◌, ◌<◌, ◌≡◌, refl, ◌∙◌, ap, Bool, true, false, not, ◌&&◌,
  ◌||◌, List, length, leb, ltb, inl, inr, Bool-cases, arith, if◌then◌else◌, u32_mod, u64_mod,
}
use agent_nucleus.Arrays.{set, length-replicate}
use agent_nucleus.KvCache.State.{
  Block, BlockRange, KvCache, is_free, block_index, block_at, allocated,
}
use agent_nucleus.KvCache.Valid.{IsStore, set-IsStore}
use agent_nucleus.KvCache.Blocks.{taken, take_blocks, released, free_blocks}
use agent_nucleus.KvCache.Access.{
  Read, Written, read_block, read_blocks, write_block, write_blocks, written_over,
}
use agent_nucleus.KvCache.Copy.{length-first_bytes, InStep, write_block-InStep, written_over-length}
use agent_nucleus.KvCache.Share.{
  with_reader, share_blocks, without_reader, unshare_blocks, sampled, sample_blocks,
  decompress_blocks,
}

module _ (c : KvCache) where
  -- The blocks of a pool in order.
  abbrev pub InOrder : List Block → Type 0
  InOrder blocks = IsStore c.block_count c.block_size blocks

  -- A block that keeps its id and its buffer.
  pub changed-InOrder :
      (blocks : List Block) (k : ℕ) (b : Block)
      → InOrder blocks
      → b.id ≡ (block_at blocks k).id
      → b.content ≡ (block_at blocks k).content
      → InOrder (set blocks k b)
  changed-InOrder blocks k b s id content =
      set-IsStore c.block_count c.block_size blocks k b s
        (λ h. (id, ap length content ∙ s.contents k h))

  pub take_blocks-InOrder :
      (agent now : ℕ) (range : BlockRange) (i n : ℕ) (blocks : List Block)
      → InOrder blocks
      → InOrder (take_blocks c agent now range i n blocks)
  unfolding take_blocks
  take_blocks-InOrder agent now range i zero blocks s = s
  take_blocks-InOrder agent now range i (suc n) blocks s =
      let k = block_index range i in
      let b = taken c agent now (block_at blocks k) in
      take_blocks-InOrder agent now range (i + 1) n (set blocks k b) (
        set-IsStore c.block_count c.block_size blocks k b s
          (λ h. (refl, length-replicate c.block_size 0)))

  released-id : (b : Block) → (released b).id ≡ b.id
  released-id b = ground arith

  released-content : (b : Block) → (released b).content ≡ b.content
  released-content b = ground arith

  pub free_blocks-InOrder :
      (range : BlockRange) (i n : ℕ) (blocks : List Block)
      → InOrder blocks
      → InOrder (free_blocks c range i n blocks).1
  unfolding free_blocks
  free_blocks-InOrder range i zero blocks s = s
  free_blocks-InOrder range i (suc n) blocks s =
      let k = block_index range i in
      let b = released (block_at blocks k) in
      let rest = free_blocks-InOrder range (i + 1) n (set blocks k b) (
        changed-InOrder blocks k b s (released-id (block_at blocks k))
          (released-content (block_at blocks k))) in
      elim (Bool-cases (leb c.block_count k)) [ inl out ↦ rw out s | inr inside ↦ rw inside rest ]

  with_reader-id : (src : ℕ) (b : Block) → (with_reader src b).id ≡ b.id
  with_reader-id src b = ground arith

  with_reader-content : (src : ℕ) (b : Block) → (with_reader src b).content ≡ b.content
  with_reader-content src b = ground arith

  pub share_blocks-InOrder :
      (src : ℕ) (range : BlockRange) (i n : ℕ) (blocks : List Block)
      → InOrder blocks
      → InOrder (share_blocks c src range i n blocks).1
  unfolding share_blocks
  share_blocks-InOrder src range i zero blocks s = s
  share_blocks-InOrder src range i (suc n) blocks s =
      let k = block_index range i in
      let b = with_reader src (block_at blocks k) in
      let rest = share_blocks-InOrder src range (i + 1) n (set blocks k b) (
        changed-InOrder blocks k b s (with_reader-id src (block_at blocks k))
          (with_reader-content src (block_at blocks k))) in
      elim (Bool-cases (leb c.block_count k)) [ inl out ↦ rw out s | inr inside ↦ rw inside rest ]

  -- Either of two lists of blocks.
  pub either-InOrder :
      (b : Bool) (blocks others : List Block)
      → InOrder blocks
      → InOrder others
      → InOrder (if b then blocks else others)
  either-InOrder true blocks others s t = s
  either-InOrder false blocks others s t = t

  without_reader-id : (b : Block) → (without_reader b).id ≡ b.id
  without_reader-id b = ground arith

  without_reader-content : (b : Block) → (without_reader b).content ≡ b.content
  without_reader-content b = ground arith

  pub unshare_blocks-InOrder :
      (range : BlockRange) (i n : ℕ) (blocks : List Block)
      → InOrder blocks
      → InOrder (unshare_blocks c range i n blocks)
  unfolding unshare_blocks
  unshare_blocks-InOrder range i zero blocks s = s
  unshare_blocks-InOrder range i (suc n) blocks s =
      let k = block_index range i in
      let b = without_reader (block_at blocks k) in
      unshare_blocks-InOrder range (i + 1) n
        (if leb c.block_count k then blocks else set blocks k b)
        (either-InOrder (leb c.block_count k) blocks (set blocks k b) s (
          changed-InOrder blocks k b s (without_reader-id (block_at blocks k))
            (without_reader-content (block_at blocks k))))

  pub decompress_blocks-InOrder :
      (range : BlockRange) (i n : ℕ) (blocks : List Block)
      → InOrder blocks
      → InOrder (decompress_blocks c range i n blocks)
  unfolding decompress_blocks
  decompress_blocks-InOrder range i zero blocks s = s
  decompress_blocks-InOrder range i (suc n) blocks s =
      let k = block_index range i in
      let b = record (block_at blocks k) { state = allocated } in
      decompress_blocks-InOrder range (i + 1) n
        (if ltb k c.block_count then set blocks k b else blocks)
        (either-InOrder (ltb k c.block_count) (set blocks k b) blocks
          (changed-InOrder blocks k b s refl refl) s)

  pub sample_blocks-InOrder :
      (now : ℕ) (input output : BlockRange) (i n : ℕ) (blocks : List Block)
      → InOrder blocks
      → InOrder (sample_blocks c now input output i n blocks)
  unfolding sample_blocks
  sample_blocks-InOrder now input output i zero blocks s = s
  sample_blocks-InOrder now input output i (suc n) blocks s =
      let src =
        (input.start + u64_mod - 1 + ((i * input.count) % u32_mod) / output.count)
        % u64_mod
        % u32_mod in
      let dst = block_index output i in
      let b = sampled now c.block_size (block_at blocks src) (block_at blocks dst) in
      sample_blocks-InOrder now input output (i + 1) n
        (if ltb src c.block_count && ltb dst c.block_count then set blocks dst b else blocks)
        (elim (Bool-cases (ltb src c.block_count && ltb dst c.block_count)) [
          | inl both ↦
              let inside : src < c.block_count = ground arith in
              let full = s.contents src inside in
              rw both (
                set-IsStore c.block_count c.block_size blocks dst b s (λ h. (
                  refl,
                  length-first_bytes c.block_size (block_at blocks src).content (omega arith),
                )))
          | inr out ↦ rw out s
        ])

  pub read_block-InOrder :
      (now buffer_size k : ℕ) (r : Read)
      → InOrder r.blocks
      → InOrder (read_block c now buffer_size k r).blocks
  read_block-InOrder now buffer_size k r s =
      elim (Bool-cases (is_free (block_at r.blocks k).state)) [
        | inl unused ↦ rw unused s
        | inr used ↦ rw used (
            changed-InOrder r.blocks k (record (block_at r.blocks k) { last_access = now }) s refl
              refl)
      ]

  pub read_blocks-InOrder :
      (now buffer_size : ℕ) (range : BlockRange) (i n : ℕ) (r : Read)
      → InOrder r.blocks
      → InOrder (read_blocks c now buffer_size range i n r).blocks
  unfolding read_blocks
  read_blocks-InOrder now buffer_size range i zero r s = s
  read_blocks-InOrder now buffer_size range i (suc n) r s =
      let k = block_index range i in
      let rest =
        read_blocks-InOrder now buffer_size range (i + 1) n (read_block c now buffer_size k r)
          (read_block-InOrder now buffer_size k r s) in
      elim (Bool-cases (not (ltb (length r.bytes) buffer_size) || leb c.block_count k)) [
        | inl done ↦ rw done s
        | inr more ↦ rw more rest
      ]

  pub write_blocks-InOrder :
      (now data_size : ℕ) (range : BlockRange) (i n : ℕ) (w : Written)
      → data_size + c.block_size ≤ u32_mod
      → InStep data_size w
      → InOrder w.blocks
      → InOrder (write_blocks c now data_size range i n w).blocks
  unfolding write_blocks
  write_blocks-InOrder now data_size range i zero w fits t s = s
  write_blocks-InOrder now data_size range i (suc n) w fits t s =
      let k = block_index range i in
      elim (Bool-cases (not (ltb w.written data_size) || leb c.block_count k)) [
        | inl done ↦ rw done s
        | inr more ↦
            let some_left : w.written < data_size = ground arith in
            let inside : k < c.block_count = ground arith in
            let next = write_block-InStep c now data_size k w fits some_left t in
            rw more (
              write_blocks-InOrder now data_size range (i + 1) n (write_block c now data_size k w)
                fits next
                (elim (Bool-cases (is_free (block_at w.blocks k).state)) [
                  | inl unused ↦ rw unused s
                  | inr used ↦ rw used (
                      set-IsStore c.block_count c.block_size w.blocks k
                        (written_over c now data_size k w) s
                        (λ h. (
                          refl,
                          written_over-length c now data_size k w fits some_left t (s.contents k h),
                        )))
                ]))
      ]
