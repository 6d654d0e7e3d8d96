-- ===== src/Runtime/State.antt =====
-- agent-runtime/include/agent_runtime/runtime.h and process_executor.h: the data of AgentRuntime, and
-- what the code outside of it answers while one agent is executed.
use agent_nucleus.Prelude.{ℕ, Bool, true, false, Option, Bytes, []}
use agent_nucleus.Prelude.Int.{ℤ}
use agent_nucleus.Types.{AgentSnapshot}
use agent_nucleus.Invocation.Data.{InvocationRequest, InvocationResponse}
use agent_nucleus.Results.Region.{SharedMemoryRegion, ResizeCalls, SealCalls}
use agent_nucleus.Results.Store.{ResultStore}
use agent_nucleus.Scheduler.State.{Scheduler, Error}

abbrev pub no_region : SharedMemoryRegion
no_region = record { mapped = false; size = 0; region_id = 0; read_only = false }

pub record AgentExecutionResult : Type 0 where
  pub success : Bool
  pub message : Bytes
  pub output : SharedMemoryRegion
  pub output_length : ℕ
  pub output_type : ℕ
  pub output_flags : ℕ

-- `return {};` and `return {false, message};`
abbrev pub succeeded : AgentExecutionResult
succeeded = record {
  success = true;
  message = [];
  output = no_region;
  output_length = 0;
  output_type = 0;
  output_flags = 0;
}

abbrev pub failed_with : Bytes → AgentExecutionResult
failed_with message = record succeeded { success = false; message = message }

-- What a handler does: it returns, or throws a std::exception or something else.
pub data HandlerOutcome : Type 0 where
  returned : AgentExecutionResult → HandlerOutcome
  raised : Bytes → HandlerOutcome
  raised_unknown : HandlerOutcome

-- The members of RuntimeConfig that an execution reads.
pub record RuntimeConfig : Type 0 where
  pub enable_cgroups : Bool
  pub max_agent_output_bytes : ℕ
  pub invocation_socket : Bytes

pub record ProcessResult : Type 0 where
  pub started : Bool
  pub timed_out : Bool
  pub exit_code : ℤ
  pub output_bytes : ℕ
  pub output_truncated : Bool
  pub error : Bytes

pub record InvocationCallResult : Type 0 where
  pub response : InvocationResponse
  pub output : SharedMemoryRegion

-- The two members that keep what an execution does.
pub record AgentRuntime : Type 0 where
  pub scheduler : Scheduler
  pub result_store : ResultStore

-- What the rest answers. `none` of an error text is success.
pub record World : Type 0 where
  -- handlers_
  pub handlers : Bytes → Option (AgentSnapshot → HandlerOutcome)
  -- SharedMemoryRegion::create, and its error
  pub created_region : SharedMemoryRegion
  pub create_error : Bytes
  -- CgroupManager
  pub create_agent_group : Option Bytes
  pub attach : Option Bytes
  -- ProcessExecutor::run: the process that its callback is called with, if any, and its result
  -- after what the callback answered
  pub process_id : Option ℤ
  pub run : Option Bytes → ProcessResult
  -- InvocationClient::invoke: its error, or its result
  pub invoke_error : InvocationRequest → Option Bytes
  pub call_result : InvocationRequest → InvocationCallResult
  -- the system calls of publish, and its error; fcntl for the result of an agent
  pub resizing : ResizeCalls
  pub sealing : SealCalls
  pub publish_error : Bytes
  pub duplicated : ℕ → Bool
  -- the text that the scheduler writes for an error
  pub describe : Error → Bytes
  -- the clock when the agent starts, and what other threads do to the scheduler while it runs
  pub now : ℕ
  pub meanwhile : Scheduler → Scheduler
