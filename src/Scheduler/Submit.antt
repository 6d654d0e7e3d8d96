-- ===== src/Scheduler/Submit.antt =====
-- agent-runtime/src/scheduler.cpp: submit_batch_locked, which submit, submit_batch and spawn call
-- under the mutex, and graph_has_cycle_locked.
use agent_nucleus.Prelude.{
  ℕ, zero, suc, ◌+◌, ◌%◌, Bool, true, false, ◌&&◌, ◌||◌, not, Option, none, some, List, [], ◌∷◌,
  ◌++◌, ◌==◌, if◌then◌else◌, ◌>>=◌, member, insert, is_empty, length, u32_mod,
}
use agent_nucleus.Table.{Table, lookup, contains, adjust, emplace}
use agent_nucleus.Types.{
  waiting_dependency, completed, state_eq, is_terminal, kind_is_named, AgentTaskSpec,
  InvocationSpec, new_snapshot, invalid_agent_id,
}
use agent_nucleus.Scheduler.State.{
  Node, Scheduler, Error, batch_is_empty, id_is_reserved, command_and_invocation,
  invocation_is_invalid, has_cycle, duplicate_agent_id, invalid_dependency, parent_does_not_exist,
  Verdict, accepted, rejected, with_snapshot, with_state, update, enqueue_ready_locked,
}

-- target, operation and kind of an invocation are checked, its payload is not.
abbrev pub invocation_ok : InvocationSpec → Bool
invocation_ok v = not (is_empty v.target || is_empty v.operation || not (kind_is_named v.kind))

abbrev pub has_invocation : AgentTaskSpec → Bool
has_invocation task = elim task.invocation [ none ↦ false | some v ↦ true ]

abbrev pub has_bad_invocation : AgentTaskSpec → Bool
has_bad_invocation task = elim task.invocation [ none ↦ false | some v ↦ not (invocation_ok v) ]

-- The first test of the first loop that a task fails.
unfoldable pub task_error : Table Node → List ℕ → AgentTaskSpec → Option Error
task_error nodes incoming task =
    if task.id == invalid_agent_id
    then some id_is_reserved
    else if not (is_empty task.command) && has_invocation task
    then some command_and_invocation
    else if has_bad_invocation task
    then some invocation_is_invalid
    else if contains task.id nodes || member task.id incoming
    then some (duplicate_agent_id task.id)
    else none

-- The first loop: the error, and the set `incoming` that it fills.
unfoldable pub check_tasks : Table Node → List ℕ → List AgentTaskSpec → Option Error × List ℕ
check_tasks nodes incoming [] = (none, incoming)
check_tasks nodes incoming (task ∷ tasks) = elim (task_error nodes incoming task) [
  | some e ↦ (some e, incoming)
  | none ↦ check_tasks nodes (insert task.id incoming) tasks
]

unfoldable pub check_dependencies : Table Node → List ℕ → ℕ → List ℕ → Option Error
check_dependencies nodes incoming id [] = none
check_dependencies nodes incoming id (d ∷ ds) =
    let rest = check_dependencies nodes incoming id ds in
    if d == id || (not (contains d nodes) && not (member d incoming))
    then some (invalid_dependency d id)
    else rest

-- The second loop.
unfoldable pub check_graph : Table Node → List ℕ → List AgentTaskSpec → Option Error
check_graph nodes incoming [] = none
check_graph nodes incoming (task ∷ tasks) =
    elim (check_dependencies nodes incoming task.id task.dependencies) [
      | some e ↦ some e
      | none ↦ check_graph nodes incoming tasks
    ]

abbrev pub new_node : ℕ → AgentTaskSpec → Node
new_node now task = record {
  snapshot = new_snapshot task now;
  successors = [];
  resources_reserved = false;
}

unfoldable pub emplace_all : ℕ → List AgentTaskSpec → Table Node → Table Node
emplace_all now [] nodes = nodes
emplace_all now (task ∷ tasks) nodes =
    emplace_all now tasks (emplace task.id (new_node now task) nodes)

abbrev pub add_successor : ℕ → Node → Node
add_successor id n = record n { successors = n.successors ++ (id ∷ []) }

-- The loop over one task's dependencies; the uint32_t counter `unresolved` wraps.
unfoldable pub link : ℕ → List ℕ → ℕ → Table Node → Option (Table Node × ℕ)
link id [] unresolved nodes = some (nodes, unresolved)
link id (d ∷ ds) unresolved nodes = lookup d nodes >>= λ predecessor.
    link id ds
      (if not (is_terminal predecessor.snapshot.state)
          || not (state_eq predecessor.snapshot.state completed)
        then (unresolved + 1) % u32_mod
        else unresolved)
      (adjust d (add_successor id) nodes)

abbrev pub set_unresolved : ℕ → Node → Node
set_unresolved count = with_snapshot (λ s. record s { unresolved_dependencies = count })

abbrev pub store_unresolved : ℕ → Table Node × ℕ → Table Node
store_unresolved id (nodes, count) = adjust id (set_unresolved count) nodes

unfoldable pub link_all : List AgentTaskSpec → Table Node → Option (Table Node)
link_all [] nodes = some nodes
link_all (task ∷ tasks) nodes = lookup task.id nodes >>= λ node.
    link task.id task.dependencies 0 nodes >>= λ r. link_all tasks (store_unresolved task.id r)

-- The map `visits`: `Visit::done` for the ids in `done`, else `Visit::active` for those in `active`.
pub record Visits : Type 0 where
  pub active : List ℕ
  pub done : List ℕ

-- The loop over the successors, with the recursive call passed in. True is a cycle.
unfoldable pub visit_each :
    (ℕ → Visits → Option (Visits × Bool)) → List ℕ → Visits → Option (Visits × Bool)
visit_each recurse [] v = some (v, false)
visit_each recurse (id ∷ ids) v =
    recurse id v >>= λ r. elim r.1 [ true ↦ some (r.0, true) | false ↦ visit_each recurse ids r.0 ]

abbrev pub leave : ℕ → Visits × Bool → Visits × Bool
leave id (v, true) = (v, true)
leave id (v, false) = (record { active = v.active; done = insert id v.done }, false)

-- The lambda `visit`: `none` is a missing node, or fuel that ran out. A path of active visits has
-- no id twice, so the number of nodes, and one more for the call that finds the cycle, is enough.
unfoldable pub visit : Table Node → ℕ → ℕ → Visits → Option (Visits × Bool)
visit nodes zero id v = none
visit nodes (suc fuel) id v =
    let rest = lookup id nodes >>= λ node.
    visit_each (visit nodes fuel) node.successors (record v { active = id ∷ v.active }) >>= λ r.
    some (leave id r) in
    if member id v.done
    then some (v, false)
    else if member id v.active
    then some (v, true)
    else rest

abbrev pub keys : Table Node → List ℕ
keys [] = []
keys ((id, n) ∷ t) = id ∷ keys t

unfoldable pub graph_has_cycle_locked : Table Node → Option Bool
graph_has_cycle_locked nodes =
    visit_each (visit nodes (suc (length nodes))) (keys nodes) (record { active = []; done = [] })
    >>= λ r. some r.1

unfoldable pub enqueue_one : ℕ → Node → Scheduler → Scheduler
enqueue_one id node s =
    if node.snapshot.unresolved_dependencies == 0
    then enqueue_ready_locked id s
    else update id (with_state waiting_dependency) s

unfoldable pub enqueue_all : List AgentTaskSpec → Scheduler → Option Scheduler
enqueue_all [] s = some s
enqueue_all (task ∷ tasks) s =
    lookup task.id s.nodes >>= λ node. enqueue_all tasks (enqueue_one task.id node s)

-- The batch is in `nodes_`: the cycle test, the way back, and the queues.
unfoldable pub admit : List AgentTaskSpec → Scheduler → Table Node → Option (Scheduler × Verdict)
admit tasks s nodes = graph_has_cycle_locked nodes >>= λ cycle.
    if cycle
    then some (s, rejected has_cycle)
    else enqueue_all tasks (record s { nodes = nodes }) >>= λ t. some (t, accepted)

unfoldable pub submit_checked :
    List AgentTaskSpec → ℕ → Scheduler → Option Error → Option (Scheduler × Verdict)
submit_checked tasks now s (some e) = some (s, rejected e)
submit_checked tasks now s none = link_all tasks (emplace_all now tasks s.nodes) >>= admit tasks s

abbrev pub batch_error : List AgentTaskSpec → Scheduler → Option Error
batch_error tasks s =
    if is_empty tasks then some batch_is_empty else elim (check_tasks s.nodes [] tasks).0 [
      | some e ↦ some e
      | none ↦ check_graph s.nodes (check_tasks s.nodes [] tasks).1 tasks
    ]

unfoldable pub submit_batch : List AgentTaskSpec → ℕ → Scheduler → Option (Scheduler × Verdict)
submit_batch tasks now s = submit_checked tasks now s (batch_error tasks s)

unfoldable pub submit : AgentTaskSpec → ℕ → Scheduler → Option (Scheduler × Verdict)
submit task = submit_batch (task ∷ [])

unfoldable pub spawn : ℕ → AgentTaskSpec → ℕ → Scheduler → Option (Scheduler × Verdict)
spawn parent task now s =
    if not (contains parent s.nodes)
    then some (s, rejected parent_does_not_exist)
    else submit_batch (record task { parent_id = parent } ∷ []) now s
