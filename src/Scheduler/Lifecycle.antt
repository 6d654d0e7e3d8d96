-- ===== src/Scheduler/Lifecycle.antt =====
-- agent-runtime/src/scheduler.cpp: the operations on one agent. Each returns the new state and what
-- the C++ function returns; `now` is the steady clock where the function reads it.
use agent_nucleus.Prelude.{
  ℕ, suc, ◌+◌, Bool, false, ◌||◌, Option, none, some, ltb, if◌then◌else◌, insert, remove, length,
  Bytes, codes,
}
use agent_nucleus.Prelude.Int.{ℤ, pos, negsuc, ltb_ℤ}
use agent_nucleus.Table.{lookup}
use agent_nucleus.Types.{
  ready, running, blocked, completed, failed, cancelled, is_terminal, AgentSnapshot,
  AgentPerformanceMetrics, text,
}
use agent_nucleus.Scheduler.State.{
  Node, Scheduler, Error, agent_does_not_exist, unreported, cannot_bind_context,
  cannot_bind_process, cannot_record_metrics, Verdict, accepted, rejected, and_then, and_try,
  with_snapshot, update, transition_locked, release_resources_locked,
}
use agent_nucleus.Scheduler.Cascade.{set_finished, cancel_descendants_locked, resolve_each}

-- The reasons that descendants are given.
pub dependency_failed : Bytes
dependency_failed = codes "dependency agent failed"

pub dependency_cancelled : Bytes
dependency_cancelled = codes "dependency agent was cancelled"

abbrev pub set_running : ℤ → ℕ → AgentSnapshot → AgentSnapshot
set_running process_id now n = record n { process_id = process_id; started_at = now }

unfoldable pub mark_running : ℕ → ℤ → ℕ → Scheduler → Scheduler × Verdict
mark_running id process_id now s = elim (lookup id s.nodes) [
  | none ↦ (s, rejected agent_does_not_exist)
  | some node ↦
      and_then (transition_locked id node running s)
        (update id (with_snapshot (set_running process_id now)))
]

unfoldable pub mark_blocked : ℕ → Scheduler → Scheduler × Verdict
mark_blocked id s = elim (lookup id s.nodes) [
  | none ↦ (s, rejected unreported)
  | some node ↦ transition_locked id node blocked s
]

abbrev pub into_ready_set : ℕ → Scheduler → Scheduler
into_ready_set id s = record s { ready_set = insert id s.ready_set }

unfoldable pub wake : ℕ → Scheduler → Scheduler × Verdict
wake id s = elim (lookup id s.nodes) [
  | none ↦ (s, rejected unreported)
  | some node ↦ and_then (transition_locked id node ready s) (into_ready_set id)
]

abbrev pub after_completion : ℕ → Node → ℕ → Scheduler → Option Scheduler
after_completion id node now t =
    resolve_each node.successors
      (release_resources_locked id node (update id (with_snapshot (set_finished now)) t))

unfoldable pub complete : ℕ → ℕ → Scheduler → Option (Scheduler × Verdict)
complete id now s = elim (lookup id s.nodes) [
  | none ↦ some (s, rejected unreported)
  | some node ↦ and_try (transition_locked id node completed s) (after_completion id node now)
]

-- A retry is granted in whatever state the agent is.
unfoldable pub retry : ℕ → Bytes → Scheduler → Scheduler
retry id message s =
    record (update id
      (with_snapshot (λ n. record n {
        retry_count = n.retry_count + 1;
        error = text message;
        process_id = negsuc 0;
        state = ready;
      }))
      s) { ready_set = insert id s.ready_set }

abbrev pub set_failed : Bytes → ℕ → AgentSnapshot → AgentSnapshot
set_failed message now n = record n { error = text message; finished_at = now }

abbrev pub after_failure : ℕ → Bytes → ℕ → Scheduler → Option Scheduler
after_failure id message now t =
    cancel_descendants_locked (suc (length t.nodes)) now dependency_failed id
      (update id (with_snapshot (set_failed message now)) t)

unfoldable pub fail_for_good : ℕ → Node → Bytes → ℕ → Scheduler → Option (Scheduler × Verdict)
fail_for_good id node message now s =
    and_try (transition_locked id node failed s) (after_failure id message now)

unfoldable pub fail : ℕ → Bytes → ℕ → Scheduler → Option (Scheduler × Verdict)
fail id message now s = elim (lookup id s.nodes) [
  | none ↦ some (s, rejected agent_does_not_exist)
  | some node ↦
      let released = release_resources_locked id node s in
      if ltb node.snapshot.retry_count node.snapshot.spec.retry_limit
      then some (retry id message released, accepted)
      else fail_for_good id node message now released
]

abbrev pub after_cancellation : ℕ → Node → ℕ → Scheduler → Option Scheduler
after_cancellation id node now t =
    cancel_descendants_locked (suc (length t.nodes)) now dependency_cancelled id (
      update id (with_snapshot (set_finished now))
        (release_resources_locked id node (record t { ready_set = remove id t.ready_set })))

unfoldable pub cancel : ℕ → ℕ → Scheduler → Option (Scheduler × Verdict)
cancel id now s = elim (lookup id s.nodes) [
  | none ↦ some (s, rejected unreported)
  | some node ↦ and_try (transition_locked id node cancelled s) (after_cancellation id node now)
]

-- The three setters reject a missing or a terminal agent.
abbrev pub assign_live :
    (Node → Bool) → Error → (AgentSnapshot → AgentSnapshot) → ℕ → Scheduler → Scheduler × Verdict
assign_live extra error f id s = elim (lookup id s.nodes) [
  | none ↦ (s, rejected error)
  | some node ↦
      if is_terminal node.snapshot.state || extra node
      then (s, rejected error)
      else (update id (with_snapshot f) s, accepted)
]

unfoldable pub bind_context : ℕ → ℕ → Scheduler → Scheduler × Verdict
bind_context id context =
    assign_live (λ n. false) cannot_bind_context (λ n. record n { context_id = context }) id

unfoldable pub bind_process : ℕ → ℤ → Scheduler → Scheduler × Verdict
bind_process id process =
    assign_live (λ n. ltb_ℤ process (pos 0)) cannot_bind_process
      (λ n. record n { process_id = process }) id

unfoldable pub record_metrics : ℕ → AgentPerformanceMetrics → Scheduler → Scheduler × Verdict
record_metrics id metrics =
    assign_live (λ n. false) cannot_record_metrics (λ n. record n { metrics = metrics }) id
