-- ===== src/Contexts/Tests.antt =====
-- Runs of agent_runtime_top/src/context_manager.cpp at concrete inputs.
use agent_nucleus.Prelude.{◌≡◌, refl, ◌+◌, ◌<◌, ◌^◌, u64_mod, arith, true, false, some, ◌>>=◌}
use agent_nucleus.Table.{lookup, adjust, emplace, erase}
use agent_nucleus.Contexts.State.{
  ContextSwapCallbacks, ContextManager, refused, is_busy, new_context_manager,
}
use agent_nucleus.Contexts.Residency.{
  find_candidate, evict, obtain_by_eviction, obtain_sequence_locked, restore, make_resident_locked,
}
use agent_nucleus.Contexts.Acquire.{
  find_for_agent_locked, lease_resident, create_context, acquire_own, share, acquire_requested,
  acquire,
}
use agent_nucleus.Contexts.Release.{finish, drop_owner, release, owns}
use agent_nucleus.Contexts.Leases.{IsLeased}
use agent_nucleus.Contexts.Grants.{acquire-IsLeased}
use agent_nucleus.Contexts.Accounts.{
  Reachable, made, acquired, finished, IsAccounted, Reachable-Holds, Reachable-IsAccounted,
}

unfoldable context_code : Unit {0}
unfolding lookup adjust emplace erase new_context_manager find_candidate evict obtain_by_eviction
    obtain_sequence_locked restore make_resident_locked find_for_agent_locked lease_resident
    create_context acquire_own share acquire_requested acquire finish drop_owner release
context_code = tt

abbrev swapping : ContextSwapCallbacks
swapping = record { save = some (λ id sequence. true); load = some (λ id sequence. true) }

-- Two resident contexts of at most four: agents 1 and 2 have them, agent 1 is done.
unfoldable both_used : ContextManager
unfolding context_code
both_used =
    (finish 1 30
      (acquire 2 0 0 20 swapping (acquire 1 0 0 10 swapping (new_context_manager 2 4)).0).0).0

-- Agent 3 gets the sequence of the context of agent 1.
unfoldable third_in : ContextManager
unfolding both_used context_code
third_in = (acquire 3 0 0 40 swapping both_used).0

third_in-first_out : (lookup 1 third_in.contexts >>= λ e. some e.resident) ≡ some false
unfolding third_in both_used context_code
third_in-first_out = refl

third_in-owns : owns 3 3 third_in ≡ true
unfolding third_in both_used context_code
third_in-owns = refl

-- The context of agent 2 is leased, so it is not given up.
second-busy : (release 2 0 2 50 third_in).1 ≡ refused is_busy
unfolding third_in both_used context_code
second-busy = refl

unfoldable made_room : ContextManager
unfolding both_used context_code
made_room = (obtain_sequence_locked 0 swapping both_used).0

both_used-Reachable : Reachable 2 4 both_used
unfolding both_used context_code
both_used-Reachable =
    let first = acquire 1 0 0 10 swapping (new_context_manager 2 4) in
    finished (acquire 2 0 0 20 swapping first.0).0 1 30 (
      acquired first.0 2 0 0 20 swapping (omega arith)
        (acquired (new_context_manager 2 4) 1 0 0 10 swapping (omega arith) made))

third_in-Reachable : Reachable 2 4 third_in
unfolding third_in both_used context_code
third_in-Reachable = acquired both_used 3 0 0 40 swapping (omega arith) both_used-Reachable

third_in-small : third_in.max_resident_contexts < 2 ^ 31
unfolding third_in both_used context_code
third_in-small = omega arith

Reachable-IsAccounted_example : IsAccounted third_in
Reachable-IsAccounted_example = Reachable-IsAccounted 2 4 third_in third_in-small third_in-Reachable

both_used-room : both_used.next_context_id + 1 < u64_mod
unfolding both_used context_code
both_used-room = omega arith

acquire-IsLeased_example : IsLeased 3 both_used (acquire 3 0 0 40 swapping both_used)
acquire-IsLeased_example =
    acquire-IsLeased 3 0 0 40 swapping both_used (Reachable-Holds 2 4 both_used both_used-Reachable)
      both_used-room
