-- ===== src/Scheduler/Tests.antt =====
-- Runs of agent-runtime/src/scheduler.cpp at concrete inputs.
use agent_nucleus.Prelude.{
  ◌≡◌, ◌+◌, if◌then◌else◌, ltb, refl, true, none, some, List, [], ◌∷◌, ◌>>=◌, arith, codes,
}
use agent_nucleus.Prelude.Int.{pos}
use agent_nucleus.Table.{lookup, weigh}
use agent_nucleus.Types.{AgentState}
use agent_nucleus.Scheduler.State.{
  Node, Scheduler, Verdict, accepted, rejected, Error, empty_scheduler,
}
use agent_nucleus.Scheduler.Dispatch.{dispatch_locked, reserve_selected, fits}
use agent_nucleus.Scheduler.Lifecycle.{cancel, fail}
use agent_nucleus.Scheduler.Submit.{submit_batch}
use agent_nucleus.Scheduler.Invariants.{ReadyMatches, Covered, NoInvalidId, cpu_held, memory_held}
use agent_nucleus.Scheduler.Returns.{IsReturned}
use agent_nucleus.Scheduler.History.{
  Call, submits, dispatches, marks_running, marks_blocked, wakes, completes, cancels, step,
  Reachable, start, run, run-Reachable, Reachable-ReadyMatches, Reachable-Covered,
  Reachable-NoInvalidId, step-IsReturned,
}
use agent_nucleus.Scheduler.Grant.Best.{IsBest, dispatch_locked-IsBest}
use agent_nucleus.Scheduler.Grant.Room.{
  IsWithin, dispatch_locked-IsWithin, reserve_selected-accounts,
}
use agent_nucleus.Scheduler.Cancel.Whole.{CancelsAll, cancel-CancelsAll}
use agent_nucleus.Scheduler.Answers.{IsRetried, fail-retries, submit_batch-unchanged}
use agent_nucleus.Scheduler.Samples.{
  running_code, task, diamond, roomy, after, states, submitted, root_done, retrying, from_some,
}

submitted-states :
    (submitted >>= λ s. some (states s))
    ≡ some (
        AgentState.ready ∷ AgentState.waiting_dependency ∷ AgentState.waiting_dependency
        ∷ AgentState.waiting_dependency ∷ [])
unfolding submitted
submitted-states = refl

root_done-states :
    (root_done >>= λ s. some (states s))
    ≡ some (
        AgentState.completed ∷ AgentState.ready ∷ AgentState.ready ∷ AgentState.waiting_dependency
        ∷ [])
unfolding root_done submitted
root_done-states = refl

cycle_is_refused :
    (submit_batch (task 1 (2 ∷ []) ∷ task 2 (1 ∷ []) ∷ []) 5 empty_scheduler)
    ≡ some (empty_scheduler, Verdict.rejected agent_nucleus.Scheduler.State.Error.has_cycle)
unfolding running_code
cycle_is_refused = refl

cancelled-states :
    (submitted >>= λ s. after (cancel 2 7 s) >>= λ t. some (states t))
    ≡ some (
        AgentState.ready ∷ AgentState.cancelled ∷ AgentState.waiting_dependency
        ∷ AgentState.cancelled ∷ [])
unfolding submitted
cancelled-states = refl

-- The diamond is submitted, its root is dispatched, blocks and wakes up.
abbrev calls : List Call
calls =
    submits diamond 5
    ∷ dispatches roomy 9
    ∷ marks_running 1 (pos 77) 10
    ∷ marks_blocked 1
    ∷ wakes 1
    ∷ []

unfoldable woken : Scheduler
unfolding running_code run step
woken = from_some (run calls empty_scheduler)

calls-woken : run calls empty_scheduler ≡ some woken
unfolding woken running_code run step
calls-woken = refl

woken-Reachable : Reachable woken
woken-Reachable =
    run-Reachable calls empty_scheduler woken start
      (tt, ((omega arith, omega arith), (tt, (tt, (tt, tt))))) calls-woken

Reachable-ReadyMatches_example : ReadyMatches woken
Reachable-ReadyMatches_example = Reachable-ReadyMatches woken woken-Reachable

Reachable-Covered_example : Covered woken
Reachable-Covered_example = Reachable-Covered woken woken-Reachable

Reachable-NoInvalidId_example : NoInvalidId woken
Reachable-NoInvalidId_example = Reachable-NoInvalidId woken woken-Reachable

step-IsReturned_example : IsReturned (step (completes 1 20) woken)
step-IsReturned_example = step-IsReturned woken (completes 1 20) woken-Reachable refl

-- The second dispatch of the root.
unfoldable again : Scheduler
unfolding woken running_code run step
again = from_some (step (dispatches roomy 21) woken)

woken-again : dispatch_locked roomy 21 woken ≡ some (again, some 1)
unfolding again woken running_code run step
woken-again = refl

dispatch_locked-IsBest_example : IsBest roomy 21 woken (some 1)
dispatch_locked-IsBest_example =
    dispatch_locked-IsBest roomy 21 woken again (some 1)
      (Reachable-NoInvalidId woken woken-Reachable) woken-again

dispatch_locked-IsWithin_example : IsWithin roomy again 1
dispatch_locked-IsWithin_example =
    dispatch_locked-IsWithin roomy 21 woken again 1 (omega arith) (omega arith)
      (Reachable-Covered woken woken-Reachable) woken-again

-- Agent 1 held its request since before it blocked, and fits once more.
unfoldable root_node : Node
unfolding woken running_code run step
root_node = elim (lookup 1 woken.nodes) [
  | none ↦ agent_nucleus.Scheduler.Submit.new_node 0 (task 0 [])
  | some n ↦ n
]

root_node-stored : lookup 1 woken.nodes ≡ some root_node
unfolding root_node woken running_code run step
root_node-stored = refl

root_node-fits : fits roomy root_node woken ≡ true
unfolding root_node woken running_code run step
root_node-fits = refl

reserve_selected-accounts_example :
    let t = reserve_selected 1 root_node woken in
    let r = root_node.snapshot.spec.resources in
    (t.reserved_cpu_threads ≡ woken.reserved_cpu_threads + r.cpu_threads)
    × (t.reserved_memory_bytes ≡ woken.reserved_memory_bytes + r.memory_bytes)
    × (weigh cpu_held t.nodes
        ≡ weigh cpu_held woken.nodes + (if root_node.resources_reserved then 0 else r.cpu_threads))
    × (weigh memory_held t.nodes
        ≡ weigh memory_held woken.nodes
          + (if root_node.resources_reserved then 0 else r.memory_bytes))
reserve_selected-accounts_example =
    reserve_selected-accounts roomy 1 root_node woken root_node-stored root_node-fits (omega arith)
      (omega arith) (Reachable-Covered woken woken-Reachable)

unfoldable root_cancelled : Scheduler
unfolding woken running_code run step
root_cancelled = from_some (step (cancels 1 30) woken)

woken-cancelled : cancel 1 30 woken ≡ some (root_cancelled, accepted)
unfolding root_cancelled woken running_code run step
woken-cancelled = refl

cancel-CancelsAll_example : CancelsAll woken.nodes root_cancelled.nodes 1
cancel-CancelsAll_example = cancel-CancelsAll 1 30 woken root_cancelled woken-cancelled

-- A task with two retries, completed, is failed: it is READY again.
unfoldable finished : Scheduler
unfolding running_code run step
finished =
    from_some (run (submits retrying 5 ∷ dispatches roomy 9 ∷ completes 1 10 ∷ []) empty_scheduler)

unfoldable finished_node : Node
unfolding finished running_code run step
finished_node = elim (lookup 1 finished.nodes) [
  | none ↦ agent_nucleus.Scheduler.Submit.new_node 0 (task 0 [])
  | some n ↦ n
]

finished_node-stored : lookup 1 finished.nodes ≡ some finished_node
unfolding finished_node finished running_code run step
finished_node-stored = refl

finished_node-retries :
    ltb finished_node.snapshot.retry_count finished_node.snapshot.spec.retry_limit ≡ true
unfolding finished_node finished running_code run step
finished_node-retries = refl

finished_node-completed : finished_node.snapshot.state ≡ AgentState.completed
unfolding finished_node finished running_code run step
finished_node-completed = refl

fail-retries_example :
    (t : Scheduler) × (fail 1 (codes "late") 40 finished ≡ some (t, accepted))
    × IsRetried 1 finished_node t
fail-retries_example =
    fail-retries 1 (codes "late") 40 finished finished_node finished_node-stored
      finished_node-retries

again-refused : submit_batch diamond 50 woken ≡ some (woken, rejected (Error.duplicate_agent_id 1))
unfolding woken running_code run step
again-refused = refl

submit_batch-unchanged_example : woken ≡ woken
submit_batch-unchanged_example =
    submit_batch-unchanged diamond 50 woken woken (Error.duplicate_agent_id 1) again-refused
