-- ===== src/Types.antt =====
-- agent-runtime/include/agent_runtime/types.h: the data that the runtime's components exchange.
-- Times are the steady clock's ticks in nanoseconds; `int` and `int64_t` fields are integers.
use agent_nucleus.Prelude.{ℕ, zero, suc, Bool, true, false, Option, List, [], Bytes, ◌==◌}
use agent_nucleus.Prelude.Int.{ℤ, negsuc}

abbrev pub invalid_agent_id : ℕ
invalid_agent_id = 0

abbrev pub invalid_context_id : ℕ
invalid_context_id = 0

pub data AgentState : Type 0 where
  created waiting_dependency ready waiting_resource dispatched running : AgentState
  blocked suspended completed failed cancelled : AgentState

-- The value of an enumerator, as `static_cast<std::uint8_t>` gives it.
abbrev pub state_code : AgentState → ℕ
state_code created = 0
state_code waiting_dependency = 1
state_code ready = 2
state_code waiting_resource = 3
state_code dispatched = 4
state_code running = 5
state_code blocked = 6
state_code suspended = 7
state_code completed = 8
state_code failed = 9
state_code cancelled = 10

-- `static_cast<AgentState>` of a value that is at most `cancelled`.
abbrev pub state_of_code : ℕ → AgentState
state_of_code zero = created
state_of_code (suc zero) = waiting_dependency
state_of_code (suc (suc zero)) = ready
state_of_code (suc (suc (suc zero))) = waiting_resource
state_of_code (suc (suc (suc (suc zero)))) = dispatched
state_of_code (suc (suc (suc (suc (suc zero))))) = running
state_of_code (suc (suc (suc (suc (suc (suc zero)))))) = blocked
state_of_code (suc (suc (suc (suc (suc (suc (suc zero))))))) = suspended
state_of_code (suc (suc (suc (suc (suc (suc (suc (suc zero)))))))) = completed
state_of_code (suc (suc (suc (suc (suc (suc (suc (suc (suc zero))))))))) = failed
state_of_code (suc (suc (suc (suc (suc (suc (suc (suc (suc (suc n)))))))))) = cancelled

abbrev pub state_eq : AgentState → AgentState → Bool
state_eq a b = state_code a == state_code b

abbrev pub is_terminal : AgentState → Bool
is_terminal completed = true
is_terminal failed = true
is_terminal cancelled = true
is_terminal s = false

-- `unnamed` is a value of the underlying type that no enumerator has.
pub data InvocationKind : Type 0 where
  model tool : InvocationKind
  unnamed : ℕ → InvocationKind

abbrev pub kind_is_named : InvocationKind → Bool
kind_is_named model = true
kind_is_named tool = true
kind_is_named (unnamed v) = false

pub record ResourceRequest : Type 0 where
  pub cpu_threads : ℕ
  pub memory_bytes : ℕ
  pub timeout : ℤ

pub record InvocationSpec : Type 0 where
  pub kind : InvocationKind
  pub target : Bytes
  pub operation : Bytes
  pub payload : Bytes
  pub context_id : ℕ

pub record AgentPerformanceMetrics : Type 0 where
  pub queue_time_us : ℕ
  pub execution_time_us : ℕ
  pub input_tokens : ℕ
  pub output_tokens : ℕ
  pub reused_tokens : ℕ
  pub cache_bytes : ℕ
  pub cache_hit : Bool

pub record AgentTaskSpec : Type 0 where
  pub id : ℕ
  pub parent_id : ℕ
  pub name : Bytes
  pub kind : Bytes
  pub priority : ℤ
  pub dependencies : List ℕ
  pub resources : ResourceRequest
  pub retry_limit : ℕ
  pub command : List Bytes
  pub invocation : Option InvocationSpec

-- A stored error text. `because reason id` is the text `reason + ": " + std::to_string(id)`.
pub data Message : Type 0 where
  text : Bytes → Message
  because : Bytes → ℕ → Message

pub record AgentSnapshot : Type 0 where
  pub spec : AgentTaskSpec
  pub state : AgentState
  pub unresolved_dependencies : ℕ
  pub retry_count : ℕ
  pub context_id : ℕ
  pub process_id : ℤ
  pub error : Message
  pub metrics : AgentPerformanceMetrics
  pub created_at : ℕ
  pub started_at : ℕ
  pub finished_at : ℕ

abbrev pub no_metrics : AgentPerformanceMetrics
no_metrics = record {
  queue_time_us = 0;
  execution_time_us = 0;
  input_tokens = 0;
  output_tokens = 0;
  reused_tokens = 0;
  cache_bytes = 0;
  cache_hit = false;
}

-- The default members of AgentSnapshot, with the members that submit_batch_locked assigns.
abbrev pub new_snapshot : AgentTaskSpec → ℕ → AgentSnapshot
new_snapshot task now = record {
  spec = task;
  state = created;
  unresolved_dependencies = 0;
  retry_count = 0;
  context_id = invalid_context_id;
  process_id = negsuc 0;
  error = text [];
  metrics = no_metrics;
  created_at = now;
  started_at = 0;
  finished_at = 0;
}
