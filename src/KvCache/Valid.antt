-- ===== src/KvCache/Valid.antt =====
-- The states of agent_runtime_top/src/kv_cache.c that are in order, and that kv_cache_init makes one.
use agent_nucleus.Prelude.{
  ℕ, zero, suc, ◌+◌, ◌^◌, ◌≤◌, ◌<◌, ◌≡◌, refl, sym, ◌∙◌, ap, subst, true, false, some, List, [],
  ◌∷◌, length, ◌==◌, inl, inr, Bool-cases, arith, Bytes,
}
use agent_nucleus.Arrays.{set, length-set, get_or-set_self, get_or-set_ne}
use agent_nucleus.KvCache.State.{
  Block, KvConfig, KvCache, no_block, no_kv_stats, new_block, configured, make_blocks,
  kv_cache_init, block_at,
}

-- The ids are the indices from 1 on, and each buffer has a block's size.
pub record IsStore (count size : ℕ) (blocks : List Block) : Type 0 where
  pub all_blocks : length blocks ≡ count
  pub ids : (i : ℕ) → i < count → (block_at blocks i).id ≡ i + 1
  pub contents : (i : ℕ) → i < count → length (block_at blocks i).content ≡ size

pub record IsValid (c : KvCache) : Type 0 where
  pub initialized : c.initialized ≡ true
  pub store : IsStore c.block_count c.block_size c.blocks
  pub fits : c.block_count ≤ 2 ^ 31
  pub some_size : 0 < c.block_size

-- A write that keeps the id and the size of the buffer.
pub set-IsStore :
    (count size : ℕ) (blocks : List Block) (k : ℕ) (b : Block)
    → IsStore count size blocks
    → (k < count → (b.id ≡ (block_at blocks k).id) × (length b.content ≡ size))
    → IsStore count size (set blocks k b)
set-IsStore count size blocks k b s same = record {
  all_blocks = length-set blocks k b ∙ s.all_blocks;
  ids = λ i h. elim (Bool-cases (k == i)) [
    | inl here ↦
        let at : k ≡ i = ground arith in
        let all = s.all_blocks in
        let in_array : k < count = omega arith in
        ap (λ j. (block_at (set blocks k b) j).id) (sym at)
        ∙ ap (λ x. x.id) (get_or-set_self blocks k b no_block (omega arith))
        ∙ (same in_array).0
        ∙ s.ids k in_array
        ∙ ap (λ j. j + 1) at
    | inr other ↦
        ap (λ x. x.id) (get_or-set_ne blocks k i b no_block (λ e. ground arith)) ∙ s.ids i h
  ];
  contents = λ i h. elim (Bool-cases (k == i)) [
    | inl here ↦
        let at : k ≡ i = ground arith in
        let all = s.all_blocks in
        let in_array : k < count = omega arith in
        ap (λ j. length (block_at (set blocks k b) j).content) (sym at)
        ∙ ap (λ x. length x.content) (get_or-set_self blocks k b no_block (omega arith))
        ∙ (same in_array).1
    | inr other ↦
        ap (λ x. length x.content) (get_or-set_ne blocks k i b no_block (λ e. ground arith))
        ∙ s.contents i h
  ];
}

-- What make_blocks makes.
record IsMade (size i n : ℕ) (blocks : List Block) : Type 0 where
  made_all : length blocks ≡ n
  made_ids : (j : ℕ) → j < n → (block_at blocks j).id ≡ i + j + 1
  made_contents : (j : ℕ) → j < n → length (block_at blocks j).content ≡ size

module _ (buffers : ℕ → Bytes) (size : ℕ) (sized : (i : ℕ) → length (buffers i) ≡ size) where
  make_blocks-IsMade :
      (n i : ℕ)
      → (blocks : List Block) × ((make_blocks (λ i. some (buffers i)) size n i ≡ some blocks)
          × IsMade size i n blocks)
  unfolding make_blocks
  make_blocks-IsMade zero i = (
    [],
    (
      refl,
      record {
        made_all = refl;
        made_ids = λ j h. absurd (omega arith);
        made_contents = λ j h. absurd (omega arith);
      },
    ),
  )
  make_blocks-IsMade (suc n) i =
      let rest = make_blocks-IsMade n (i + 1) in
      let m = rest.1.1 in
      (
        new_block size i (buffers i) ∷ rest.0,
        (
          rw (rest.1.0) refl,
          record {
            made_all = ap suc m.made_all;
            made_ids = λ j h. ids m j h;
            made_contents = λ j h. contents m j h;
          },
        ),
      )
    where
      ids :
          {blocks : List Block}
          → IsMade size (i + 1) n blocks
          → (j : ℕ) → j < suc n
          → (block_at (new_block size i (buffers i) ∷ blocks) j).id ≡ i + j + 1
      ids m zero h = omega arith
      ids m (suc j) h = m.made_ids j (omega arith) ∙ omega arith

      contents :
          {blocks : List Block}
          → IsMade size (i + 1) n blocks
          → (j : ℕ) → j < suc n
          → length (block_at (new_block size i (buffers i) ∷ blocks) j).content ≡ size
      contents m zero h = sized i
      contents m (suc j) h = m.made_contents j (omega arith)

-- kv_cache_init makes a pool in order, where malloc gives every buffer.
pub kv_cache_init-IsValid :
    (buffers : ℕ → Bytes) (config : KvConfig) (c : KvCache)
    → c.initialized ≡ false
    → config.max_blocks ≤ 2 ^ 31
    → ((i : ℕ) → length (buffers i) ≡ (configured config c).block_size)
    → IsValid (kv_cache_init true (λ i. some (buffers i)) (some config) c).1
unfolding kv_cache_init
kv_cache_init-IsValid buffers config c fresh fits sized =
    let d = configured config c in
    let made = make_blocks-IsMade buffers d.block_size sized d.block_count 0 in
    let m = made.1.1 in
    let after : KvCache = record d {
      blocks = made.0;
      stats = no_kv_stats;
      used_size = 0;
      initialized = true;
    } in
    let e : (kv_cache_init true (λ i. some (buffers i)) (some config) c).1 ≡ after =
      simp (fresh, made.1.0) in
    subst IsValid (sym e) (record {
      initialized = refl;
      store = record {
        all_blocks = m.made_all;
        ids = λ i h. m.made_ids i h ∙ omega arith;
        contents = λ i h. m.made_contents i h;
      };
      fits = ground arith;
      some_size = ground arith;
    })
