-- ===== src/Contexts/Acquire.antt =====
-- agent_runtime_top/src/context_manager.cpp: acquire.
use agent_nucleus.Prelude.{
  ℕ, Bool, true, false, not, ◌&&◌, ◌||◌, Option, none, some, [], ◌∷◌, length, member, insert, leb,
  ◌==◌, if◌then◌else◌,
}
use agent_nucleus.Prelude.Int.{ℤ}
use agent_nucleus.Table.{Table, lookup, adjust, emplace}
use agent_nucleus.Contexts.State.{
  Entry, ContextLease, ContextSwapCallbacks, ContextManager, Answer, answered, refused,
  agent_id_is_reserved, capacity_is_exhausted, does_not_exist, is_not_owner, increment,
}
use agent_nucleus.Contexts.Residency.{obtain_sequence_locked, make_resident_locked}

unfoldable pub find_for_agent_locked : ℕ → Table Entry → Option Entry
find_for_agent_locked agent_id [] = none
find_for_agent_locked agent_id ((key, e) ∷ rest) =
    let later = find_for_agent_locked agent_id rest in
    if member agent_id e.owners then some e else later

abbrev pub authorized_locked : Entry → ℕ → ℕ → Bool
authorized_locked e agent_id parent_id =
    member agent_id e.owners || (not (parent_id == 0) && member parent_id e.owners)

abbrev pub pin : ℕ → Entry → Entry
pin now e = record e { last_access = now; pin_count = increment e.pin_count }

-- The context is resident: take the lease on it.
unfoldable pub lease_resident :
    ℕ → Entry → ContextManager × Answer ℤ → ContextManager × Answer ContextLease
lease_resident now e (m, refused error) = (m, refused error)
lease_resident now e (m, answered sequence) = (
  record m { contexts = adjust e.id (pin now) m.contexts },
  answered (record {
    context_id = e.id;
    sequence_id = sequence;
    created = false;
    restored = not e.resident;
  }),
)

-- A sequence was found for a context that is created.
unfoldable pub create_context :
    ℕ → ℕ → ContextManager × Answer ℤ → ContextManager × Answer ContextLease
create_context agent_id now (m, refused error) = (m, refused error)
create_context agent_id now (m, answered sequence) = (
  record m {
    contexts =
        emplace m.next_context_id
          (record {
            id = m.next_context_id;
            sequence_id = sequence;
            resident = true;
            pin_count = 1;
            owners = agent_id ∷ [];
            last_access = now;
          })
          m.contexts;
    next_context_id = increment m.next_context_id;
    stats = record m.stats {
      created_contexts = increment m.stats.created_contexts;
      active_contexts = increment m.stats.active_contexts;
      active_owners = increment m.stats.active_owners;
      resident_contexts = increment m.stats.resident_contexts;
    };
  },
  answered (record {
    context_id = m.next_context_id;
    sequence_id = sequence;
    created = true;
    restored = false;
  }),
)

-- No context was asked for: the agent's own one, or a new one.
unfoldable pub acquire_own :
    ℕ → ℕ → ContextSwapCallbacks → ContextManager → ContextManager × Answer ContextLease
acquire_own agent_id now swap m = elim (find_for_agent_locked agent_id m.contexts) [
  | some e ↦ lease_resident now e (make_resident_locked e swap m)
  | none ↦
      if leb m.max_logical_contexts (length m.contexts)
      then (m, refused capacity_is_exhausted)
      else create_context agent_id now (obtain_sequence_locked 0 swap m)
]

-- The agent becomes an owner of a context that it shares.
unfoldable pub share : ℕ → Entry → ContextManager × Answer ℤ → ContextManager × Answer ℤ
share agent_id e (m, refused error) = (m, refused error)
share agent_id e (m, answered sequence) =
    if member agent_id e.owners then (m, answered sequence) else (
      record m {
        contexts =
            adjust e.id (λ (x : Entry). record x { owners = insert agent_id x.owners }) m.contexts;
        stats = record m.stats {
          active_owners = increment m.stats.active_owners;
          shared_acquisitions = increment m.stats.shared_acquisitions;
        };
      },
      answered sequence,
    )

unfoldable pub acquire_requested :
    ℕ → ℕ → ℕ → ℕ → ContextSwapCallbacks → ContextManager → ContextManager × Answer ContextLease
acquire_requested agent_id parent_id requested now swap m = elim (lookup requested m.contexts) [
  | none ↦ (m, refused does_not_exist)
  | some e ↦
      if not (authorized_locked e agent_id parent_id)
      then (m, refused is_not_owner)
      else lease_resident now e (share agent_id e (make_resident_locked e swap m))
]

unfoldable pub acquire :
    ℕ → ℕ → ℕ → ℕ → ContextSwapCallbacks → ContextManager → ContextManager × Answer ContextLease
acquire agent_id parent_id requested now swap m =
    if agent_id == 0
    then (m, refused agent_id_is_reserved)
    else if requested == 0
    then acquire_own agent_id now swap m
    else acquire_requested agent_id parent_id requested now swap m
