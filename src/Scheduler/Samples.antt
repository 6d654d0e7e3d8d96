-- ===== src/Scheduler/Samples.antt =====
-- Small schedulers that the tests and the witnesses run: the diamond of
-- agent-runtime/tests/scheduler_test.cpp, and a task that asks for resources.
use agent_nucleus.Prelude.{
  ℕ, ◌≡◌, refl, Bool, true, false, Option, none, some, List, [], ◌∷◌, ◌>>=◌, Bytes, codes, ◌^◌,
}
use agent_nucleus.Prelude.Int.{pos, ◌+ℤ◌, ◌*ℤ◌}
use agent_nucleus.Table.{lookup, adjust, emplace}
use agent_nucleus.Types.{AgentState, AgentTaskSpec}
use agent_nucleus.Scheduler.State.{
  Scheduler, Verdict, empty_scheduler, transition_allowed, transition_locked, enqueue_ready_locked,
  release_resources_locked,
}
use agent_nucleus.Scheduler.Dispatch.{
  MemorySnapshot, score, better, considered, consider_all, reserve_selected, take_selected,
  dispatch_locked,
}
use agent_nucleus.Scheduler.Cascade.{
  cancel_node, cancel_successor, cancel_each, cancel_descendants_locked, resolve_found,
  resolve_successor, resolve_each,
}
use agent_nucleus.Scheduler.Lifecycle.{
  mark_running, mark_blocked, wake, complete, retry, fail_for_good, fail, cancel, bind_context,
}
use agent_nucleus.Scheduler.Submit.{
  task_error, check_tasks, check_dependencies, check_graph, emplace_all, link, link_all, visit_each,
  visit, graph_has_cycle_locked, enqueue_one, enqueue_all, admit, submit_checked, submit_batch,
  submit,
}

-- Everything that a run computes with.
unfoldable pub running_code : Unit {0}
unfolding lookup adjust emplace transition_allowed transition_locked enqueue_ready_locked
    release_resources_locked score better considered consider_all reserve_selected take_selected
    dispatch_locked cancel_node cancel_successor cancel_each cancel_descendants_locked resolve_found
    resolve_successor resolve_each mark_running mark_blocked wake complete retry fail_for_good fail
    cancel bind_context task_error check_tasks check_dependencies check_graph emplace_all link
    link_all visit_each visit graph_has_cycle_locked enqueue_one enqueue_all admit submit_checked
    submit_batch submit ◌+ℤ◌ ◌*ℤ◌
running_code = tt

abbrev pub task : ℕ → List ℕ → AgentTaskSpec
task id dependencies = record {
  id = id;
  parent_id = 0;
  name = [];
  kind = [];
  priority = pos 0;
  dependencies = dependencies;
  resources = record { cpu_threads = 2; memory_bytes = 100; timeout = pos 0 };
  retry_limit = 0;
  command = [];
  invocation = none;
}

abbrev pub diamond : List AgentTaskSpec
diamond = task 1 [] ∷ task 2 (1 ∷ []) ∷ task 3 (1 ∷ []) ∷ task 4 (2 ∷ 3 ∷ []) ∷ []

abbrev pub roomy : MemorySnapshot
roomy = record { available_cpu_threads = 8; available_bytes = 4096 }

-- A C++ call in sequence, its verdict dropped.
abbrev pub after : Option (Scheduler × Verdict) → Option Scheduler
after r = r >>= λ p. some p.0

abbrev pub states : Scheduler → List AgentState
states s = agent_nucleus.Prelude.map (λ e. e.1.snapshot.state) s.nodes

unfoldable pub submitted : Option Scheduler
unfolding running_code
submitted = after (submit_batch diamond 5 empty_scheduler)

unfoldable pub root_done : Option Scheduler
unfolding running_code
root_done = submitted >>= λ s.
    dispatch_locked roomy 9 s >>= λ p. after (complete 1 12 (mark_running 1 (pos 77) 10 p.0).0)

-- A task with retries that has failed nowhere yet, dispatched and finished.
abbrev pub retrying : List AgentTaskSpec
retrying = record (task 1 []) { retry_limit = 2 } ∷ []

abbrev pub from_some : Option Scheduler → Scheduler
from_some none = empty_scheduler
from_some (some s) = s
