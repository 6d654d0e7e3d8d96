-- ===== src/Contexts/Release.antt =====
-- agent_runtime_top/src/context_manager.cpp: finish, release and owns.
use agent_nucleus.Prelude.{
  ℕ, ◌-◌, Bool, true, false, not, ◌&&◌, Option, none, some, ◌∷◌, length, is_empty, member, remove,
  ltb, ◌==◌, if◌then◌else◌,
}
use agent_nucleus.Prelude.Int.{ℤ, negsuc}
use agent_nucleus.Table.{lookup, adjust, erase}
use agent_nucleus.Contexts.State.{
  Entry, ContextManager, ContextError, Answer, answered, refused, does_not_exist, is_not_owner,
  is_not_pinned, is_busy, increment, decrement,
}

abbrev pub unpin : ℕ → Entry → Entry
unpin now e = record e { pin_count = e.pin_count - 1; last_access = now }

unfoldable pub finish : ℕ → ℕ → ContextManager → ContextManager × Option ContextError
finish context_id now m = elim (lookup context_id m.contexts) [
  | none ↦ (m, some does_not_exist)
  | some e ↦
      if e.pin_count == 0
      then (m, some is_not_pinned)
      else (record m { contexts = adjust context_id (unpin now) m.contexts }, none)
]

-- `*released_sequence` and `*context_removed`.
pub record Released : Type 0 where
  pub sequence : ℤ
  pub removed : Bool

abbrev pub owner_to_release : Entry → ℕ → ℕ → ℕ
owner_to_release e agent_id parent_id =
    if not (member agent_id e.owners) && (not (parent_id == 0) && member parent_id e.owners)
    then parent_id
    else agent_id

-- The owner is erased; the last one takes the context along.
unfoldable pub drop_owner : ℕ → ℕ → ℕ → Entry → ContextManager → ContextManager × Answer Released
drop_owner owner context_id now e m =
    let left = remove owner e.owners in
    let fewer =
      if ltb 0 m.stats.active_owners
      then decrement m.stats.active_owners
      else m.stats.active_owners in
    if not (is_empty left)
    then (
      record m {
        contexts =
            adjust context_id (λ (x : Entry). record x { owners = left; last_access = now })
              m.contexts;
        stats = record m.stats { active_owners = fewer };
      },
      answered (record { sequence = negsuc 0; removed = false }),
    )
    else (
      record m {
        contexts = erase context_id m.contexts;
        free_sequences = if e.resident then e.sequence_id ∷ m.free_sequences else m.free_sequences;
        stats = record m.stats {
          active_owners = fewer;
          resident_contexts =
              if e.resident then decrement m.stats.resident_contexts else m.stats.resident_contexts;
          swapped_contexts =
              if e.resident then m.stats.swapped_contexts else decrement m.stats.swapped_contexts;
          released_contexts = increment m.stats.released_contexts;
          active_contexts = decrement m.stats.active_contexts;
        };
      },
      answered
          (record { sequence = if e.resident then e.sequence_id else negsuc 0; removed = true }),
    )

unfoldable pub release : ℕ → ℕ → ℕ → ℕ → ContextManager → ContextManager × Answer Released
release agent_id parent_id context_id now m = elim (lookup context_id m.contexts) [
  | none ↦ (m, refused does_not_exist)
  | some e ↦
      let owner = owner_to_release e agent_id parent_id in
      if not (member owner e.owners)
      then (m, refused is_not_owner)
      else if length e.owners == 1 && not (e.pin_count == 0)
      then (m, refused is_busy)
      else drop_owner owner context_id now e m
]

abbrev pub owns_entry : ℕ → Option Entry → Bool
owns_entry agent_id none = false
owns_entry agent_id (some e) = member agent_id e.owners

abbrev pub owns : ℕ → ℕ → ContextManager → Bool
owns agent_id context_id m = owns_entry agent_id (lookup context_id m.contexts)
