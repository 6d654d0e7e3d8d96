-- ===== src/Contexts/State.antt =====
-- agent_runtime_top/include/context_manager.h: the state of ContextManager, and its constructor.
use agent_nucleus.Prelude.{
  ℕ, zero, suc, ◌+◌, ◌-◌, ◌%◌, Bool, Option, List, [], ◌∷◌, ltb, ◌==◌, if◌then◌else◌, u64_mod,
  u32_mod,
}
use agent_nucleus.Prelude.Int.{ℤ}
use agent_nucleus.Wire.Signed.{of_bits}
use agent_nucleus.Table.{Table}

pub record Entry : Type 0 where
  pub id : ℕ
  pub sequence_id : ℤ
  pub resident : Bool
  pub pin_count : ℕ
  pub owners : List ℕ
  pub last_access : ℕ

pub record ContextLease : Type 0 where
  pub context_id : ℕ
  pub sequence_id : ℤ
  pub created : Bool
  pub restored : Bool

-- The callbacks, which the caller supplies; `none` is a null pointer or an empty function.
pub record ContextSwapCallbacks : Type 0 where
  pub save : Option (ℕ → ℤ → Bool)
  pub load : Option (ℕ → ℤ → Bool)

pub record ContextManagerStats : Type 0 where
  pub active_contexts : ℕ
  pub active_owners : ℕ
  pub resident_contexts : ℕ
  pub swapped_contexts : ℕ
  pub created_contexts : ℕ
  pub shared_acquisitions : ℕ
  pub released_contexts : ℕ
  pub swap_outs : ℕ
  pub swap_ins : ℕ

-- The vector `free_sequences_` is a list with its back at the head.
pub record ContextManager : Type 0 where
  pub max_resident_contexts : ℕ
  pub max_logical_contexts : ℕ
  pub contexts : Table Entry
  pub free_sequences : List ℤ
  pub next_context_id : ℕ
  pub stats : ContextManagerStats

-- What an operation that is refused writes to `*error`.
pub data ContextError : Type 0 where
  agent_id_is_reserved all_in_use all_pinned cannot_swap_out is_swapped_out cannot_restore :
      ContextError
  capacity_is_exhausted does_not_exist is_not_owner is_not_pinned is_busy : ContextError

pub data Answer {ℓ} (A : Type ℓ) : Type ℓ where
  answered : A → Answer A
  refused : ContextError → Answer A

-- `++` and `--` on a std::size_t or std::uint64_t.
abbrev pub increment : ℕ → ℕ
increment n = (n + 1) % u64_mod

abbrev pub decrement : ℕ → ℕ
decrement n = (n + u64_mod - 1) % u64_mod

abbrev pub max : ℕ → ℕ → ℕ
max a b = if ltb a b then b else a

-- static_cast<int> of a std::size_t: the lowest 32 bits, read as a signed number.
abbrev pub to_int : ℕ → ℤ
to_int n = of_bits u32_mod (n % u32_mod)

-- The loop that pushes the numbers from `n` down to 1, each cast to an int.
abbrev pub push_sequences : ℕ → List ℤ → List ℤ
push_sequences zero free = free
push_sequences (suc n) free = push_sequences n (to_int (suc n) ∷ free)

abbrev pub no_stats : ContextManagerStats
no_stats = record {
  active_contexts = 0;
  active_owners = 0;
  resident_contexts = 0;
  swapped_contexts = 0;
  created_contexts = 0;
  shared_acquisitions = 0;
  released_contexts = 0;
  swap_outs = 0;
  swap_ins = 0;
}

unfoldable pub new_context_manager : ℕ → ℕ → ContextManager
new_context_manager max_resident max_logical =
    let resident = max 1 max_resident in
    record {
      max_resident_contexts = resident;
      max_logical_contexts = max resident (if max_logical == 0 then resident else max_logical);
      contexts = [];
      free_sequences = push_sequences resident [];
      next_context_id = 1;
      stats = no_stats;
    }
