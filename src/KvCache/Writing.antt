-- ===== src/KvCache/Writing.antt =====
-- The loop of kv_write of agent_runtime_top/src/kv_cache.c fills the blocks with the bytes.
use agent_nucleus.Prelude.{
  ℕ, zero, suc, ◌+◌, ◌-◌, ◌%◌, ◌≤◌, ◌<◌, ◌≡◌, refl, sym, ◌∙◌, ap, subst, true, false, not, ◌||◌, [],
  ◌∷◌, ◌++◌, length, length-append, leb, ltb, ◌==◌, inl, inr, ◌⊎◌, Bool-cases, arith, Bytes,
  u32_mod,
}
use mathlib.Core.Path.{ap₂}
use agent_nucleus.Arrays.{set, get_or-set_ne, get_or-set_self}
use agent_nucleus.KvCache.State.{BlockRange, KvCache, no_block, block_at, block_index, is_free}
use agent_nucleus.KvCache.Valid.{IsStore, set-IsStore}
use agent_nucleus.KvCache.Range.{IsIn, block_index-IsIn}
use agent_nucleus.KvCache.Access.{
  Written, first_bytes, bytes_after, copy_size, written_over, write_block, write_blocks,
}
use agent_nucleus.KvCache.Copy.{
  length-bytes_after, first-after, copy_size-bounds, InStep, write_block-InStep,
  written_over-length,
}
use agent_nucleus.KvCache.Stored.{stored, stored-set, first_bytes-append, first_bytes-over}
use agent_nucleus.KvCache.Reading.{IsUsed, IsUsed-first, IsUsed-rest}

-- What the loop leaves in the `n` blocks from k on: the bytes that were left, all written, in blocks
-- that are in use as before; the blocks before k are as they were.
pub record IsFilled (c : KvCache) (data_size k n : ℕ) (w w' : Written) : Type 0 where
  pub all : w'.written ≡ data_size
  pub holds : first_bytes (length w.src) (stored k n w'.blocks) ≡ w.src
  pub before : (j : ℕ) → j < k → block_at w'.blocks j ≡ block_at w.blocks j
  pub in_use : (j : ℕ) → is_free (block_at w'.blocks j).state ≡ is_free (block_at w.blocks j).state

module _ (c : KvCache) (now data_size : ℕ) (fits : data_size + c.block_size ≤ u32_mod) where
  write_blocks-suc :
      (range : BlockRange) (i n : ℕ) (w : Written)
      → w.written < data_size
      → block_index range i < c.block_count
      → write_blocks c now data_size range i (suc n) w
        ≡ write_blocks c now data_size range
            (i + 1)
            n
            (write_block c now data_size (block_index range i) w)
  unfolding write_blocks
  write_blocks-suc range i n w more inside =
      let goes : (not (ltb w.written data_size) || leb c.block_count (block_index range i))
          ≡ false =
        ground arith in
      rw goes refl

  write_blocks-done :
      (range : BlockRange) (i n : ℕ) (w : Written)
      → data_size ≤ w.written
      → write_blocks c now data_size range i n w ≡ w
  unfolding write_blocks
  write_blocks-done range i zero w done = refl
  write_blocks-done range i (suc n) w done =
      let stops : (not (ltb w.written data_size) || leb c.block_count (block_index range i))
          ≡ true =
        ground arith in
      rw stops refl

  -- A round at a block in use.
  abbrev after_round : ℕ → Written → Written
  after_round k w =
      let size = copy_size c data_size w.written in
      record {
        written = (w.written + size) % u32_mod;
        src = bytes_after size w.src;
        blocks = set w.blocks k (written_over c now data_size k w);
      }

  write_block-used :
      (k : ℕ) (w : Written)
      → is_free (block_at w.blocks k).state ≡ false
      → write_block c now data_size k w ≡ after_round k w
  write_block-used k w used = rw used refl

  empty-src : (s : Bytes) → length s ≡ 0 → s ≡ []
  empty-src [] e = refl
  empty-src (x ∷ s) e = absurd (omega arith)

  -- Where all is written, there is nothing to do.
  done-IsFilled :
      (k n : ℕ) (w : Written)
      → w.written ≡ data_size
      → InStep data_size w
      → IsFilled c data_size k n w w
  done-IsFilled k n w all t =
      let nothing = empty-src w.src (omega arith) in
      record {
        all = all;
        holds = subst (λ s. first_bytes (length s) (stored k n w.blocks) ≡ s) (sym nothing) refl;
        before = λ j h. refl;
        in_use = λ j. refl;
      }

  -- A round and what the later rounds leave.
  round-IsFilled :
      (k n : ℕ) (w w' : Written)
      → w.written < data_size
      → InStep data_size w
      → length (block_at w.blocks k).content ≡ c.block_size
      → k < length w.blocks
      → is_free (block_at w.blocks k).state ≡ false
      → IsFilled c data_size (k + 1) n (after_round k w) w'
      → IsFilled c data_size k (suc n) w w'
  round-IsFilled k n w w' more t full inside used f =
      let size = copy_size c data_size w.written in
      let b = written_over c now data_size k w in
      let here : block_at w'.blocks k ≡ b =
        f.before k (omega arith) ∙ get_or-set_self w.blocks k b no_block inside in
      let bounds = copy_size-bounds c data_size w.written fits more in
      let most = bounds.0.1 in
      let most_block = bounds.0.0 in
      let which : ((size ≡ c.block_size) × (c.block_size ≤ length w.src))
          ⊎ ((size ≡ length w.src) × (length w.src ≤ c.block_size)) =
        elim bounds.1 [
          | inl whole ↦ inl (whole, omega arith)
          | inr rest ↦ inr (omega arith, omega arith)
        ] in
      let b_full = written_over-length c now data_size k w fits more t full in
      let after = length-bytes_after size w.src in
      let left : length w.src - length b.content ≡ length (bytes_after size w.src) = elim bounds.1 [
        | inl whole ↦ omega arith
        | inr rest ↦ omega arith
      ] in
      record {
        all = f.all;
        holds =
            ap (λ x. first_bytes (length w.src) (x.content ++ stored (k + 1) n w'.blocks)) here
            ∙ first_bytes-append (length w.src) b.content (stored (k + 1) n w'.blocks)
            ∙ ap₂ (λ x m. x ++ first_bytes m (stored (k + 1) n w'.blocks))
                (first_bytes-over size c.block_size w.src (block_at w.blocks k).content full which)
                left
            ∙ ap (λ x. first_bytes size w.src ++ x) f.holds
            ∙ first-after size w.src;
        before = λ j h.
            f.before j (omega arith) ∙ get_or-set_ne w.blocks k j b no_block (λ e. omega arith);
        in_use = λ j. f.in_use j ∙ set-used j;
      }
    where
      set-used :
          (j : ℕ)
          → is_free (block_at (set w.blocks k (written_over c now data_size k w)) j).state
            ≡ is_free (block_at w.blocks j).state
      set-used j = elim (Bool-cases (k == j)) [
        | inl same ↦
            let at : j ≡ k = ground arith in
            ap (λ m. is_free (block_at (set w.blocks k (written_over c now data_size k w)) m).state)
              at
            ∙ ap (λ x. is_free x.state)
                (get_or-set_self w.blocks k (written_over c now data_size k w) no_block inside)
            ∙ ap (λ m. is_free (block_at w.blocks m).state) (sym at)
        | inr other ↦
            ap (λ x. is_free x.state)
              (get_or-set_ne w.blocks k j (written_over c now data_size k w) no_block
                (λ e. ground arith))
      ]

  -- The bytes left after a round fit in the blocks after it.
  room_left :
      (k n : ℕ) {j : ℕ} (w : Written)
      → w.written < data_size
      → InStep data_size w
      → length (block_at w.blocks k).content ≡ c.block_size
      → length w.src ≤ length (stored k (suc n) w.blocks)
      → j ≡ k + 1
      → length (after_round k w).src ≤ length (stored j n (after_round k w).blocks)
  room_left k n {j} w more t full room next =
      let size = copy_size c data_size w.written in
      let bounds = copy_size-bounds c data_size w.written fits more in
      let after = length-bytes_after size w.src in
      let sum = length-append (block_at w.blocks k).content (stored (k + 1) n w.blocks) in
      let same : length (stored j n (after_round k w).blocks) ≡ length (stored (k + 1) n w.blocks) =
        ap (λ m. length (stored m n (after_round k w).blocks)) next
        ∙ ap length
            (stored-set k (k + 1) n (written_over c now data_size k w) w.blocks (omega arith)) in
      elim bounds.1 [ inl whole ↦ omega arith | inr rest ↦ omega arith ]

  pub write_blocks-IsFilled :
      (range : BlockRange) (k i n : ℕ) (w : Written)
      → IsIn range k (i + n) c.block_count
      → IsStore c.block_count c.block_size w.blocks
      → IsUsed (k + i) n w.blocks
      → InStep data_size w
      → length w.src ≤ length (stored (k + i) n w.blocks)
      → IsFilled c data_size (k + i) n w (write_blocks c now data_size range i n w)
  unfolding write_blocks
  write_blocks-IsFilled range k i zero w inside s used t room =
      done-IsFilled (k + i) 0 w (omega arith) t
  write_blocks-IsFilled range k i (suc n) w inside s used t room =
      let at = block_index-IsIn range k (i + suc n) c.block_count i inside (omega arith) in
      let to = inside.to in
      let same : i + suc n ≡ i + 1 + n = omega arith in
      let next : k + (i + 1) ≡ k + i + 1 = omega arith in
      let one_before : k + i + 1 ≡ k + (i + 1) = omega arith in
      let in_array : k + i < c.block_count = omega arith in
      let b = written_over c now data_size (k + i) w in
      elim (Bool-cases (ltb w.written data_size)) [
        | inl more ↦
            let some_left : w.written < data_size = ground arith in
            let full = s.contents (k + i) in_array in
            let first = IsUsed-first (k + i) n w.blocks used in
            let round = write_block-used (k + i) w first in
            let in_step =
              subst (InStep data_size) round
                (write_block-InStep c now data_size (k + i) w fits some_left t) in
            let kept : IsStore c.block_count c.block_size (set w.blocks (k + i) b) =
              set-IsStore c.block_count c.block_size w.blocks (k + i) b s (λ h.
                (refl, written_over-length c now data_size (k + i) w fits some_left t full)) in
            let e =
              write_blocks-suc range i n w some_left (rw at in_array)
              ∙ ap
                  (λ j.
                    write_blocks c now data_size range (i + 1) n (write_block c now data_size j w))
                  at
              ∙ ap (write_blocks c now data_size range (i + 1) n) round in
            let rest =
              write_blocks-IsFilled range k (i + 1) n (after_round (k + i) w)
                (subst (λ m. IsIn range k m c.block_count) same inside) kept
                (subst (λ j. IsUsed j n (set w.blocks (k + i) b)) one_before
                  (IsUsed-rest (k + i) n b w.blocks used))
                in_step (room_left (k + i) n w some_left t full room next) in
            subst (IsFilled c data_size (k + i) (suc n) w) (sym e) (
              round-IsFilled (k + i) n w
                (write_blocks c now data_size range (i + 1) n (after_round (k + i) w)) some_left t
                full (subst (λ m. k + i < m) (sym s.all_blocks) in_array) first
                (subst
                  (λ j.
                    IsFilled c data_size j n (after_round (k + i) w)
                      (write_blocks c now data_size range (i + 1) n (after_round (k + i) w)))
                  next rest))
        | inr done ↦
            let all : w.written ≡ data_size = ground arith in
            subst (IsFilled c data_size (k + i) (suc n) w)
              (sym (write_blocks-done range i (suc n) w (omega arith)))
              (done-IsFilled (k + i) (suc n) w all t)
      ]
