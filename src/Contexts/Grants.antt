-- ===== src/Contexts/Grants.antt =====
-- What acquire of agent_runtime_top/src/context_manager.cpp keeps, and what its lease names.
use agent_nucleus.Prelude.{
  ℕ, ◌+◌, ◌<◌, ◌≡◌, refl, sym, subst, true, none, some, [], ◌∷◌, length, leb, arith, u64_mod, ◌==◌,
  ==_refl, Bool-cases, Option-cases, inl, inr,
}
use agent_nucleus.Prelude.Int.{ℤ}
use agent_nucleus.Table.{lookup, lookup-emplace}
use agent_nucleus.Contexts.State.{
  Entry, ContextManager, ContextSwapCallbacks, Answer, answered, refused, increment,
  capacity_is_exhausted, does_not_exist, is_not_owner,
}
use agent_nucleus.Contexts.Residency.{obtain_sequence_locked, make_resident_locked}
use agent_nucleus.Contexts.Acquire.{
  find_for_agent_locked, authorized_locked, lease_resident, create_context, acquire_own, share,
  acquire_requested, acquire,
}
use agent_nucleus.Contexts.Keyed.{lookup-IsEntry, lookup-bound, find_for_agent_locked-lookup}
use agent_nucleus.Contexts.Held.{Holds, in-or-out, Holds-created}
use agent_nucleus.Contexts.Loads.{make_resident_locked-IsResident}
use agent_nucleus.Contexts.Swaps.{IsObtained, increment-small, obtain_sequence_locked-IsObtained}
use agent_nucleus.Contexts.Leases.{pins, IsLeased, owned, share-IsOwned, lease_resident-IsLeased}

create_context-IsLeased :
    (agent_id now : ℕ) (m : ContextManager) (r : ContextManager × Answer ℤ)
    → Holds [] m
    → m.next_context_id + 1 < u64_mod
    → length m.contexts < m.max_logical_contexts
    → IsObtained 0 m r
    → IsLeased agent_id m (create_context agent_id now r)
unfolding create_context
create_context-IsLeased agent_id now m (n, refused error) h small below same =
    subst (Holds []) (sym same) h
create_context-IsLeased agent_id now m (n, answered sequence) h small below (g, keeps) =
    let k = n.next_context_id in
    let e : Entry = record {
      id = k;
      sequence_id = sequence;
      resident = true;
      pin_count = 1;
      owners = agent_id ∷ [];
      last_access = now;
    } in
    let fresh : lookup k n.contexts ≡ none = lookup-bound k n.contexts g.keyed in
    let unknown : lookup k m.contexts ≡ none =
      subst (λ i. lookup i m.contexts ≡ none) (sym keeps.same_next)
        (lookup-bound m.next_context_id m.contexts h.keyed) in
    let small_n : k + 1 < u64_mod = omega (arith, small, keeps.same_next) in
    let more_in : n.stats.resident_contexts + 1 < u64_mod =
      omega (arith, g.counts.resident, g.short, small_n, in-or-out n.contexts) in
    let next = increment-small k small_n in
    (
      Holds-created n e (increment k) _ g next (omega (arith, next, small_n))
          (omega (arith, below, keeps.same_length, keeps.same_limit)) refl refl refl
          (increment-small n.stats.active_contexts
            (omega (arith, g.counts.active, g.short, small_n)))
          (increment-small n.stats.resident_contexts more_in) refl,
      (
        e,
        record {
          there = rw (lookup-emplace k k e n.contexts, fresh, ==_refl k) refl;
          resident = refl;
          same_sequence = refl;
          owner = rw (==_refl agent_id) refl;
          leased = rw (unknown, pins) refl;
        },
      ),
    )

acquire_own-IsLeased :
    (agent_id now : ℕ) (swap : ContextSwapCallbacks) (m : ContextManager)
    → Holds [] m
    → m.next_context_id + 1 < u64_mod
    → IsLeased agent_id m (acquire_own agent_id now swap m)
unfolding acquire_own
acquire_own-IsLeased agent_id now swap m h small =
    elim (Option-cases (find_for_agent_locked agent_id m.contexts)) [
      | inl nothing ↦ elim (Bool-cases (leb m.max_logical_contexts (length m.contexts))) [
        | inl full ↦
            let is : acquire_own agent_id now swap m ≡ (m, refused capacity_is_exhausted) =
              rw (nothing, acquire_own, full) refl in
            subst (IsLeased agent_id m) (sym is) h
        | inr room ↦
            let is : acquire_own agent_id now swap m
                ≡ create_context agent_id now (obtain_sequence_locked 0 swap m) =
              rw (nothing, acquire_own, room) refl in
            subst (IsLeased agent_id m) (sym is) (
              create_context-IsLeased agent_id now m (obtain_sequence_locked 0 swap m) h small
                (ground arith) (obtain_sequence_locked-IsObtained 0 swap m h))
      ]
      | inr (e, chosen) ↦
          let (found, owner) =
            find_for_agent_locked-lookup m.next_context_id agent_id m.contexts e h.keyed chosen in
          let r = make_resident_locked e swap m in
          let is : acquire_own agent_id now swap m ≡ lease_resident now e r =
            rw (chosen, acquire_own) refl in
          subst (IsLeased agent_id m) (sym is) (
            lease_resident-IsLeased agent_id now e m r found
              (owned agent_id e r owner (make_resident_locked-IsResident e swap m h found)))
    ]

acquire_requested-IsLeased :
    (agent_id parent_id requested now : ℕ) (swap : ContextSwapCallbacks) (m : ContextManager)
    → Holds [] m
    → IsLeased agent_id m (acquire_requested agent_id parent_id requested now swap m)
unfolding acquire_requested
acquire_requested-IsLeased agent_id parent_id requested now swap m h =
    elim (Option-cases (lookup requested m.contexts)) [
      | inl nothing ↦
          let is : acquire_requested agent_id parent_id requested now swap m
              ≡ (m, refused does_not_exist) =
            rw (nothing, acquire_requested) refl in
          subst (IsLeased agent_id m) (sym is) h
      | inr (e, found) ↦ elim (Bool-cases (authorized_locked e agent_id parent_id)) [
        | inl may ↦
            let r = make_resident_locked e swap m in
            let is : acquire_requested agent_id parent_id requested now swap m
                ≡ lease_resident now e (share agent_id e r) =
              rw (found, acquire_requested, may) refl in
            let own = lookup-IsEntry m.next_context_id requested m.contexts e h.keyed found in
            let found_id : lookup e.id m.contexts ≡ some e =
              subst (λ i. lookup i m.contexts ≡ some e) (sym own.own_id) found in
            subst (IsLeased agent_id m) (sym is) (
              lease_resident-IsLeased agent_id now e m (share agent_id e r) found_id
                (share-IsOwned agent_id e r (make_resident_locked-IsResident e swap m h found_id)))
        | inr no_right ↦
            let is : acquire_requested agent_id parent_id requested now swap m
                ≡ (m, refused is_not_owner) =
              rw (found, acquire_requested, no_right) refl in
            subst (IsLeased agent_id m) (sym is) h
      ]
    ]

-- In a manager that holds the invariant, and has an id left, acquire keeps it; and where it answers
-- with a lease, the context that the lease names is resident with the sequence of the lease, the
-- agent owns it, and it has one lease more than before.
pub acquire-IsLeased :
    (agent_id parent_id requested now : ℕ) (swap : ContextSwapCallbacks) (m : ContextManager)
    → Holds [] m
    → m.next_context_id + 1 < u64_mod
    → IsLeased agent_id m (acquire agent_id parent_id requested now swap m)
unfolding acquire
acquire-IsLeased agent_id parent_id requested now swap m h small =
    elim (Bool-cases (agent_id == 0)) [
      | inl reserved ↦ rw reserved h
      | inr agent ↦ elim (Bool-cases (requested == 0)) [
        | inl own ↦ rw (agent, own) (acquire_own-IsLeased agent_id now swap m h small)
        | inr shared ↦
            rw (agent, shared)
              (acquire_requested-IsLeased agent_id parent_id requested now swap m h)
      ]
    ]
