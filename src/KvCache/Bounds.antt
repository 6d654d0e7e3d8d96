-- ===== src/KvCache/Bounds.antt =====
-- How many bytes a range of agent_runtime_top/src/kv_cache.c has.
use agent_nucleus.Prelude.{
  ℕ, ◌+◌, ◌-◌, ◌*◌, ◌/◌, ◌%◌, ◌≤◌, ◌<◌, ◌≡◌, ◌∙◌, ap, ◌==◌, inl, inr, Bool-cases, arith, u32_mod,
}
use native.Mathlib.Nat.{lt-div-mul-add, div-mul-le_self}
use agent_nucleus.KvCache.State.{KvCache}
use agent_nucleus.KvCache.Blocks.{blocks_needed, range_of}

-- The range that kv_allocate gives has room for the bytes that are asked for, where their number and
-- a block's size do not wrap on uint32_t.
pub range_of-covers :
    (c : KvCache) (size start : ℕ)
    → 0 < c.block_size
    → size + c.block_size ≤ u32_mod
    → (size ≤ (range_of c size start).size) × (size ≤ blocks_needed c size * c.block_size)
unfolding blocks_needed
range_of-covers c size start some_size fits =
    let whole : (size + c.block_size + u32_mod - 1) % u32_mod ≡ size + c.block_size - 1 =
      omega arith in
    let x = (size + c.block_size + u32_mod - 1) % u32_mod in
    let below = lt-div-mul-add {a = x} {b = c.block_size} some_size in
    let above = div-mul-le_self x c.block_size in
    elim (Bool-cases (x / c.block_size == 0)) [
      | inl none_there ↦
          let zero_blocks : x / c.block_size ≡ 0 = ground arith in
          let no_bytes : x / c.block_size * c.block_size ≡ 0 =
            ap (λ q. q * c.block_size) zero_blocks ∙ omega arith in
          let nothing : size ≡ 0 = omega arith in rw none_there (omega arith, omega arith)
      | inr some_there ↦ rw some_there (omega arith, omega arith)
    ]
