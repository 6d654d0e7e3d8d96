-- ===== src/Scheduler/Cascade.antt =====
-- agent-runtime/src/scheduler.cpp: cancel_descendants_locked and the loop of complete over the
-- successors. A lookup that finds nothing is a
-- `nodes_.at` that throws. The recursion of the former has fuel; each level marks a node that was not terminal,
-- so the number of nodes, and one more for the root, is enough.
use agent_nucleus.Prelude.{
  ℕ, zero, suc, ◌-◌, ◌&&◌, Option, none, some, List, [], ◌∷◌, ltb, ◌==◌, if◌then◌else◌, ◌>>=◌,
  remove, Bytes,
}
use agent_nucleus.Table.{lookup}
use agent_nucleus.Types.{
  waiting_dependency, cancelled, state_eq, is_terminal, AgentSnapshot, Message, because,
}
use agent_nucleus.Scheduler.State.{
  Node, Scheduler, with_snapshot, update, enqueue_ready_locked, release_resources_locked,
}

abbrev pub set_finished : ℕ → AgentSnapshot → AgentSnapshot
set_finished now s = record s { finished_at = now }

-- The assignments to a successor that is cancelled, the resources given back first.
unfoldable pub cancel_node : ℕ → Message → ℕ → Node → Scheduler → Scheduler
cancel_node now message id node s =
    let s1 = release_resources_locked id node (record s { ready_set = remove id s.ready_set }) in
    update id
      (with_snapshot (λ n. record n { state = cancelled; error = message; finished_at = now })) s1

-- The body of the loop: `recurse` is the recursive call.
unfoldable pub cancel_successor :
    (ℕ → Scheduler → Option Scheduler) → ℕ → Message → ℕ → Scheduler → Option Scheduler
cancel_successor recurse now message id s = lookup id s.nodes >>= λ node.
    if is_terminal node.snapshot.state
    then some s
    else recurse id (cancel_node now message id node s)

unfoldable pub cancel_each :
    (ℕ → Scheduler → Option Scheduler) → ℕ → Message → List ℕ → Scheduler → Option Scheduler
cancel_each recurse now message [] s = some s
cancel_each recurse now message (id ∷ ids) s =
    cancel_successor recurse now message id s >>= cancel_each recurse now message ids

unfoldable pub cancel_descendants_locked : ℕ → ℕ → Bytes → ℕ → Scheduler → Option Scheduler
cancel_descendants_locked zero now reason id s = none
cancel_descendants_locked (suc fuel) now reason id s = lookup id s.nodes >>= λ node.
    cancel_each (cancel_descendants_locked fuel now reason) now (because reason id) node.successors
      s

-- `if (count > 0) --count;`
abbrev pub resolve_one : ℕ → ℕ
resolve_one count = if ltb 0 count then count - 1 else count

abbrev pub resolve_node : Node → Node
resolve_node n =
    with_snapshot
      (λ s. record s { unresolved_dependencies = resolve_one s.unresolved_dependencies }) n

unfoldable pub resolve_found : ℕ → Node → Scheduler → Scheduler
resolve_found id node s =
    if resolve_one node.snapshot.unresolved_dependencies == 0
      && state_eq node.snapshot.state waiting_dependency
    then enqueue_ready_locked id (update id resolve_node s)
    else update id resolve_node s

unfoldable pub resolve_successor : ℕ → Scheduler → Option Scheduler
resolve_successor id s = lookup id s.nodes >>= λ node. some (resolve_found id node s)

unfoldable pub resolve_each : List ℕ → Scheduler → Option Scheduler
resolve_each [] s = some s
resolve_each (id ∷ ids) s = resolve_successor id s >>= resolve_each ids
