-- ===== src/Contexts/Residency.antt =====
-- agent_runtime_top/src/context_manager.cpp: obtain_sequence_locked and make_resident_locked.
use agent_nucleus.Prelude.{
  ℕ, Bool, true, false, not, ◌||◌, Option, none, some, [], ◌∷◌, ltb, ◌==◌, if◌then◌else◌,
}
use agent_nucleus.Prelude.Int.{ℤ, negsuc}
use agent_nucleus.Table.{Table, adjust}
use agent_nucleus.Contexts.State.{
  Entry, ContextSwapCallbacks, ContextManager, Answer, answered, refused, all_in_use, all_pinned,
  cannot_swap_out, is_swapped_out, cannot_restore, increment, decrement,
}

-- The entries that the loop passes over.
abbrev pub is_kept : ℕ → Entry → Bool
is_kept excluded e = not e.resident || not (e.pin_count == 0) || e.id == excluded

-- No candidate yet, or an older one.
abbrev pub is_older : Entry → Option Entry → Bool
is_older e none = true
is_older e (some c) = ltb e.last_access c.last_access

-- The loop over `contexts_` with its candidate.
unfoldable pub find_candidate : ℕ → Table Entry → Option Entry → Option Entry
find_candidate excluded [] candidate = candidate
find_candidate excluded ((key, e) ∷ rest) candidate =
    find_candidate excluded rest
      (if is_kept excluded e then candidate else if is_older e candidate then some e else candidate)

abbrev pub swap_out : Entry → Entry
swap_out e = record e { sequence_id = negsuc 0; resident = false }

unfoldable pub evict : Entry → ContextManager → ContextManager
evict e m = record m {
  contexts = adjust e.id swap_out m.contexts;
  stats = record m.stats {
    swap_outs = increment m.stats.swap_outs;
    resident_contexts = decrement m.stats.resident_contexts;
    swapped_contexts = increment m.stats.swapped_contexts;
  };
}

-- No sequence is free: the least recently used context makes room.
unfoldable pub obtain_by_eviction :
    ℕ → Option (ℕ → ℤ → Bool) → ContextManager → ContextManager × Answer ℤ
obtain_by_eviction excluded none m = (m, refused all_in_use)
obtain_by_eviction excluded (some save) m = elim (find_candidate excluded m.contexts none) [
  | none ↦ (m, refused all_pinned)
  | some e ↦
      if save e.id e.sequence_id
      then (evict e m, answered e.sequence_id)
      else (m, refused cannot_swap_out)
]

unfoldable pub obtain_sequence_locked :
    ℕ → ContextSwapCallbacks → ContextManager → ContextManager × Answer ℤ
obtain_sequence_locked excluded swap m = elim m.free_sequences [
  | [] ↦ obtain_by_eviction excluded swap.save m
  | sequence ∷ rest ↦ (record m { free_sequences = rest }, answered sequence)
]

abbrev pub swap_in : ℤ → Entry → Entry
swap_in sequence e = record e { sequence_id = sequence; resident = true }

-- The sequence is there: load the context, or give the sequence back.
unfoldable pub restore : ℕ → (ℕ → ℤ → Bool) → ContextManager × Answer ℤ → ContextManager × Answer ℤ
restore id load (m, refused e) = (m, refused e)
restore id load (m, answered sequence) =
    if load id sequence
    then (
      record m {
        contexts = adjust id (swap_in sequence) m.contexts;
        stats = record m.stats {
          swap_ins = increment m.stats.swap_ins;
          resident_contexts = increment m.stats.resident_contexts;
          swapped_contexts = decrement m.stats.swapped_contexts;
        };
      },
      answered sequence,
    )
    else (record m { free_sequences = sequence ∷ m.free_sequences }, refused cannot_restore)

-- The answer is the sequence that the entry has in the end.
unfoldable pub make_resident_locked :
    Entry → ContextSwapCallbacks → ContextManager → ContextManager × Answer ℤ
make_resident_locked e swap m = if e.resident then (m, answered e.sequence_id) else elim swap.load [
  | none ↦ (m, refused is_swapped_out)
  | some load ↦ restore e.id load (obtain_sequence_locked e.id swap m)
]
