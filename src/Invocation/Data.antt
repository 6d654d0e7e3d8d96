-- ===== src/Invocation/Data.antt =====
-- agent-runtime/include/agent_runtime/invocation_protocol.h: the data of the protocol.
use agent_nucleus.Prelude.{ℕ, Bool, ◌&&◌, List, leb, ◌==◌, if◌then◌else◌, Bytes}
use agent_nucleus.Prelude.Int.{ℤ}
use agent_nucleus.Types.{InvocationKind, ResourceRequest, AgentPerformanceMetrics}
use agent_nucleus.Control.Agent.{SharedBufferRef, reference_ok}

pub data InvocationStatus : Type 0 where
  ok rejected failed cancelled busy : InvocationStatus

abbrev pub status_code : InvocationStatus → ℕ
status_code ok = 0
status_code rejected = 1
status_code failed = 2
status_code cancelled = 3
status_code busy = 4

abbrev pub status_of_code : ℕ → InvocationStatus
status_of_code v =
    if v == 0
    then ok
    else if v == 1
    then rejected
    else if v == 2
    then failed
    else if v == 3
    then cancelled
    else busy

pub record InvocationInput : Type 0 where
  pub producer_id : ℕ
  pub reference : SharedBufferRef

pub record InvocationRequest : Type 0 where
  pub agent_id : ℕ
  pub parent_id : ℕ
  pub kind : InvocationKind
  pub target : Bytes
  pub operation : Bytes
  pub payload : Bytes
  pub context_id : ℕ
  pub priority : ℤ
  pub resources : ResourceRequest
  pub inputs : List InvocationInput

pub record InvocationResponse : Type 0 where
  pub agent_id : ℕ
  pub process_id : ℤ
  pub status : InvocationStatus
  pub message : Bytes
  pub context_id : ℕ
  pub metrics : AgentPerformanceMetrics
  pub output_available : Bool
  pub output : SharedBufferRef

abbrev pub invocation_magic : ℕ
invocation_magic = 1_095_911_766

abbrev pub invocation_version : ℕ
invocation_version = 1

abbrev pub max_invocation_inputs : ℕ
max_invocation_inputs = 64

abbrev pub request_message : ℕ
request_message = 1

abbrev pub response_message : ℕ
response_message = 2

-- SharedDataType::json_utf8
abbrev pub last_data_type : ℕ
last_data_type = 2

abbrev pub valid_reference : SharedBufferRef → Bool
valid_reference r = reference_ok r && leb r.data_type last_data_type
