-- ===== src/KvCache/Search.antt =====
-- find_free_block of agent_runtime_top/src/kv_cache.c finds the first run of free blocks.
use agent_nucleus.Prelude.{
  ℕ, zero, suc, ◌+◌, ◌-◌, ◌%◌, ◌^◌, ◌≤◌, ◌<◌, ◌≡◌, refl, sym, ◌∙◌, ap, subst, Bool, true, false,
  not, ◌||◌, leb, ◌==◌, inl, inr, Bool-cases, arith, u32_mod, if◌then◌else◌,
}
use agent_nucleus.KvCache.State.{KvCache, is_free, block_at}
use agent_nucleus.KvCache.Valid.{IsValid}
use agent_nucleus.KvCache.Blocks.{free_from, find_free_from, find_free_block}

abbrev pub is_free_at : KvCache → ℕ → Bool
is_free_at c i = is_free (block_at c.blocks i).state

-- A run of `n` free blocks from the i-th on.
abbrev pub IsFreeRun : KvCache → ℕ → ℕ → Type 0
IsFreeRun c i n = (i + n ≤ c.block_count) × ((j : ℕ) → j < n → is_free_at c (i + j) ≡ true)

run-cons :
    (c : KvCache) (k n : ℕ)
    → is_free_at c k ≡ true
    → k < c.block_count
    → IsFreeRun c (k + 1) n
    → IsFreeRun c k (suc n)
run-cons c k n first inside (to, all) = (omega arith, each)
  where
    each : (j : ℕ) → j < suc n → is_free_at c (k + j) ≡ true
    each zero h = let here : k + 0 ≡ k = omega arith in ap (is_free_at c) here ∙ first
    each (suc j) h =
        let next : k + suc j ≡ k + 1 + j = omega arith in
        ap (is_free_at c) next ∙ all j (omega arith)

run-first : (c : KvCache) (k n : ℕ) → IsFreeRun c k (suc n) → is_free_at c k ≡ true
run-first c k n (to, all) =
    let here : k ≡ k + 0 = omega arith in ap (is_free_at c) here ∙ all 0 (omega arith)

run-rest : (c : KvCache) (k n : ℕ) → IsFreeRun c k (suc n) → IsFreeRun c (k + 1) n
run-rest c k n (to, all) = (
  omega arith,
  λ j h.
      let next : k + 1 + j ≡ k + suc j = omega arith in
      ap (is_free_at c) next ∙ all (suc j) (omega arith),
)

-- One round of the inner loop, which does not wrap.
free_from-suc :
    (c : KvCache) (i j n : ℕ)
    → c.block_count ≤ 2 ^ 31
    → i + j ≤ c.block_count
    → free_from c i j (suc n) ≡ (
        if leb c.block_count (i + j) || not (is_free_at c (i + j))
        then false
        else free_from c i (j + 1) n)
unfolding free_from
free_from-suc c i j n fits start =
    let whole : (i + j) % u32_mod ≡ i + j = omega arith in
    ap (λ k. if leb c.block_count k || not (is_free_at c k) then false else free_from c i (j + 1) n)
      whole

free_from-run :
    (c : KvCache) (i j n : ℕ)
    → c.block_count ≤ 2 ^ 31
    → i + j ≤ c.block_count
    → free_from c i j n ≡ true
    → IsFreeRun c (i + j) n
free_from-run c i j zero fits start e = (omega arith, λ k h. absurd (omega arith))
free_from-run c i j (suc n) fits start e =
    let round = sym (free_from-suc c i j n fits start) ∙ e in
    let next : i + (j + 1) ≡ i + j + 1 = omega arith in
    elim (Bool-cases (leb c.block_count (i + j))) [
      | inl out ↦ absurd (ground arith)
      | inr inside ↦ elim (Bool-cases (is_free_at c (i + j))) [
        | inl first ↦
            let rest : free_from c i (j + 1) n ≡ true = ground arith in
            run-cons c (i + j) n first (ground arith) (
              subst (λ k. IsFreeRun c k n) next
                (free_from-run c i (j + 1) n fits (ground arith) rest))
        | inr used ↦ absurd (ground arith)
      ]
    ]

run-free_from :
    (c : KvCache) (i j n : ℕ)
    → c.block_count ≤ 2 ^ 31
    → IsFreeRun c (i + j) n
    → free_from c i j n ≡ true
unfolding free_from
run-free_from c i j zero fits run = refl
run-free_from c i j (suc n) fits run =
    let to = run.0 in
    let next : i + j + 1 ≡ i + (j + 1) = omega arith in
    let first = run-first c (i + j) n run in
    let inside : leb c.block_count (i + j) ≡ false = ground arith in
    let rest =
      run-free_from c i (j + 1) n fits
        (subst (λ k. IsFreeRun c k n) next (run-rest c (i + j) n run)) in
    free_from-suc c i j n fits (omega arith) ∙ rw (inside, first) rest

-- The id of the first run from i on, 0 where there is none.
abbrev FindsFrom : KvCache → ℕ → ℕ → ℕ → Type 0
FindsFrom c count i zero = (k : ℕ) → i ≤ k → ¬ IsFreeRun c k count
FindsFrom c count i (suc found) =
    (IsFreeRun c found count) × ((k : ℕ) → i ≤ k → k < found → ¬ IsFreeRun c k count)

-- A place where no run starts is passed over.
FindsFrom-next :
    (c : KvCache) (count i id : ℕ)
    → ¬ IsFreeRun c i count
    → FindsFrom c count (i + 1) id
    → FindsFrom c count i id
FindsFrom-next c count i zero here later = λ k h run. elim (Bool-cases (k == i)) [
  | inl same ↦ let at : k ≡ i = ground arith in here (subst (λ m. IsFreeRun c m count) at run)
  | inr other ↦ later k (ground arith) run
]
FindsFrom-next c count i (suc found) here (run, later) = (
  run,
  λ k h before run'. elim (Bool-cases (k == i)) [
    | inl same ↦ let at : k ≡ i = ground arith in here (subst (λ m. IsFreeRun c m count) at run')
    | inr other ↦ later k (ground arith) before run'
  ],
)

module _ (c : KvCache) (v : IsValid c) (count : ℕ) where
  found-here :
      (i : ℕ)
      → i < c.block_count
      → is_free_at c i ≡ true
      → free_from c i 1 (suc count - 1) ≡ true
      → FindsFrom c (suc count) i (block_at c.blocks i).id
  found-here i inside first others =
      let id : (block_at c.blocks i).id ≡ suc i = v.store.ids i inside ∙ omega arith in
      let one_less : suc count - 1 ≡ count = omega arith in
      let run =
        free_from-run c i 1 count v.fits (omega arith)
          (ap (free_from c i 1) (sym one_less) ∙ others) in
      subst (FindsFrom c (suc count) i) (sym id)
        (run-cons c i count first inside run, λ k from to. absurd (omega arith))

  not_here : (i : ℕ) → free_from c i 1 (suc count - 1) ≡ false → ¬ IsFreeRun c i (suc count)
  not_here i stopped run =
      let one_less : suc count - 1 ≡ count = omega arith in
      let goes = run-free_from c i 1 count v.fits (run-rest c i count run) in
      let both : true ≡ false = sym goes ∙ ap (free_from c i 1) (sym one_less) ∙ stopped in
      ground arith

  find_free_from-FindsFrom :
      (i n : ℕ)
      → i + n ≡ c.block_count
      → FindsFrom c (suc count) i (find_free_from c (suc count) i n)
  unfolding find_free_from
  find_free_from-FindsFrom i zero all = λ k from run. let to = run.0 in omega arith
  find_free_from-FindsFrom i (suc n) all =
      let rest = find_free_from-FindsFrom (i + 1) n (omega arith) in
      elim (Bool-cases (is_free_at c i)) [
        | inl first ↦ elim (Bool-cases (free_from c i 1 (suc count - 1))) [
          | inl others ↦ rw (first, others) (found-here i (omega arith) first others)
          | inr stopped ↦
              rw (first, stopped)
                (FindsFrom-next c (suc count) i (find_free_from c (suc count) (i + 1) n)
                  (not_here i stopped) rest)
        ]
        | inr used ↦ rw used (
            FindsFrom-next c (suc count) i (find_free_from c (suc count) (i + 1) n)
              (λ run. let both = sym (run-first c i count run) ∙ used in ground arith) rest)
      ]

-- The answer of the search for `count` blocks: the id of the first of them, where the index before
-- the id starts a run of free blocks and no earlier one does, or 0 where there is no such run.
abbrev pub Finds : KvCache → ℕ → ℕ → Type 0
Finds c count zero = (k : ℕ) → ¬ IsFreeRun c k count
Finds c count (suc found) =
    (IsFreeRun c found count) × ((k : ℕ) → k < found → ¬ IsFreeRun c k count)

Finds-all : (c : KvCache) (count id : ℕ) → FindsFrom c count 0 id → Finds c count id
Finds-all c count zero h = λ k. h k (omega arith)
Finds-all c count (suc found) (run, earlier) = (run, λ k. earlier k (omega arith))

-- In a valid pool (initialised, of at most 2^31 blocks that have their ids in order and buffers of
-- the block size), find_free_block of a count of at least one finds the first run of so many free
-- blocks, or tells that there is none.
pub find_free_block-Finds :
    (c : KvCache) (count : ℕ) → IsValid c → Finds c (suc count) (find_free_block c (suc count))
unfolding find_free_block
find_free_block-Finds c count v =
    Finds-all c (suc count) (find_free_block c (suc count))
      (find_free_from-FindsFrom c v count 0 c.block_count (omega arith))
