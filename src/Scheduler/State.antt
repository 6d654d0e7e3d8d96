-- ===== src/Scheduler/State.antt =====
-- agent-runtime/src/scheduler.cpp: the state of AgentScheduler, and the helpers that its public
-- operations share. A `Node &` is the key under which the node is stored, its task's id.
use agent_nucleus.Prelude.{
  ℕ, ◌+◌, ◌-◌, ◌%◌, ◌≡◌, Bool, false, ◌||◌, not, Option, none, some, List, [], ltb, if◌then◌else◌,
  insert, u64_mod,
}
use agent_nucleus.Table.{Table, adjust}
use agent_nucleus.Types.{
  AgentState, ready, waiting_resource, dispatched, running, blocked, suspended, completed, failed,
  cancelled, state_eq, is_terminal, AgentSnapshot,
}

pub record Node : Type 0 where
  pub snapshot : AgentSnapshot
  pub successors : List ℕ
  pub resources_reserved : Bool

pub record Scheduler : Type 0 where
  pub nodes : Table Node
  pub ready_set : List ℕ
  pub reserved_cpu_threads : ℕ
  pub reserved_memory_bytes : ℕ

abbrev pub empty_scheduler : Scheduler
empty_scheduler = record {
  nodes = [];
  ready_set = [];
  reserved_cpu_threads = 0;
  reserved_memory_bytes = 0;
}

-- What an operation that returns false writes to `*error`. `unreported` writes nothing.
pub data Error : Type 0 where
  batch_is_empty id_is_reserved command_and_invocation invocation_is_invalid has_cycle : Error
  duplicate_agent_id : ℕ → Error
  invalid_dependency : ℕ → ℕ → Error
  parent_does_not_exist agent_does_not_exist unreported : Error
  invalid_transition : AgentState → AgentState → Error
  cannot_bind_context cannot_bind_process cannot_record_metrics : Error

pub data Verdict : Type 0 where
  accepted : Verdict
  rejected : Error → Verdict

pub rejected≢accepted : {e : Error} → rejected e ≡ accepted → ⊥
rejected≢accepted h = cc

-- `return false` leaves out the rest of the operation.
abbrev pub and_then : Scheduler × Verdict → (Scheduler → Scheduler) → Scheduler × Verdict
and_then (s, accepted) f = (f s, accepted)
and_then (s, rejected e) f = (s, rejected e)

-- The same where the rest can throw: `none` is a std::out_of_range of `nodes_.at`.
abbrev pub and_try :
    Scheduler × Verdict → (Scheduler → Option Scheduler) → Option (Scheduler × Verdict)
and_try (s, rejected e) f = some (s, rejected e)
and_try (s, accepted) f = elim (f s) [ none ↦ none | some t ↦ some (t, accepted) ]

abbrev pub with_snapshot : (AgentSnapshot → AgentSnapshot) → Node → Node
with_snapshot f n = record n { snapshot = f n.snapshot }

abbrev pub with_state : AgentState → Node → Node
with_state next n = with_snapshot (λ s. record s { state = next }) n

abbrev pub clear_reserved : Node → Node
clear_reserved n = record n { resources_reserved = false }

abbrev pub update : ℕ → (Node → Node) → Scheduler → Scheduler
update id f s = record s { nodes = adjust id f s.nodes }

-- The switch of transition_locked on `next`, with its default.
unfoldable pub transition_allowed : AgentState → AgentState → Bool
transition_allowed current running = state_eq current dispatched
transition_allowed current blocked = state_eq current running
transition_allowed current ready =
    state_eq current blocked || state_eq current suspended || state_eq current waiting_resource
transition_allowed current completed =
    state_eq current running || state_eq current blocked || state_eq current dispatched
transition_allowed current failed =
    state_eq current running || state_eq current blocked || state_eq current dispatched
transition_allowed current cancelled = not (is_terminal current)
transition_allowed current next = false

unfoldable pub transition_locked : ℕ → Node → AgentState → Scheduler → Scheduler × Verdict
transition_locked id node next s =
    if transition_allowed node.snapshot.state next
    then (update id (with_state next) s, accepted)
    else (s, rejected (invalid_transition node.snapshot.state next))

unfoldable pub enqueue_ready_locked : ℕ → Scheduler → Scheduler
enqueue_ready_locked id s = record s {
  nodes = adjust id (with_state ready) s.nodes;
  ready_set = insert id s.ready_set;
}

-- `reserved > total ? 0 : total - reserved`
abbrev pub take_back : ℕ → ℕ → ℕ
take_back reserved held = if ltb held reserved then 0 else held - reserved

unfoldable pub release_resources_locked : ℕ → Node → Scheduler → Scheduler
release_resources_locked id node s = if not node.resources_reserved then s else record s {
  nodes = adjust id clear_reserved s.nodes;
  reserved_cpu_threads = take_back node.snapshot.spec.resources.cpu_threads s.reserved_cpu_threads;
  reserved_memory_bytes =
      take_back node.snapshot.spec.resources.memory_bytes s.reserved_memory_bytes;
}

abbrev pub add64 : ℕ → ℕ → ℕ
add64 a b = (a + b) % u64_mod
