-- ===== src/Control/Message.antt =====
-- agent-runtime/src/control_protocol.cpp: the header, requests and responses.
use agent_nucleus.Prelude.{
  ℕ, Bool, true, false, not, ◌&&◌, ◌||◌, Option, none, List, [], length, ltb, ◌==◌, if◌then◌else◌,
  ◌>>=◌, Bytes,
}
use agent_nucleus.Types.{AgentTaskSpec}
use agent_nucleus.Wire.Writer
use agent_nucleus.Wire.Writer.{◌>=>◌, done, max_message_size}
use agent_nucleus.Wire.Reader
use agent_nucleus.Wire.Reader.{◌>>-◌, give, expect, repeat}
use agent_nucleus.Wire.Frame.{write_header, finish_message, decode_message}
use agent_nucleus.Control.Task.{max_collection_elements, encode_task, decode_task}
use agent_nucleus.Control.Agent.{
  ControlAgentInfo, SharedBufferRef, no_reference, bit, encode_agent, decode_agent,
  encode_reference, decode_reference,
}

pub data ControlOperation : Type 0 where
  ping submit spawn status list cancel shutdown result release_result : ControlOperation

abbrev pub operation_code : ControlOperation → ℕ
operation_code ping = 1
operation_code submit = 2
operation_code spawn = 3
operation_code status = 4
operation_code list = 5
operation_code cancel = 6
operation_code shutdown = 7
operation_code result = 8
operation_code release_result = 9

-- The cast of a code that passed the range test.
abbrev pub operation_of_code : ℕ → ControlOperation
operation_of_code v =
    if v == 1
    then ping
    else if v == 2
    then submit
    else if v == 3
    then spawn
    else if v == 4
    then status
    else if v == 5
    then list
    else if v == 6
    then cancel
    else if v == 7
    then shutdown
    else if v == 8
    then result
    else release_result

pub record ControlRequest : Type 0 where
  pub operation : ControlOperation
  pub target_id : ℕ
  pub task : AgentTaskSpec

pub record ControlResponse : Type 0 where
  pub success : Bool
  pub message : Bytes
  pub agents : List ControlAgentInfo
  pub result_available : Bool
  pub result_reference : SharedBufferRef

abbrev pub protocol_magic : ℕ
protocol_magic = 1_095_914_563

abbrev pub protocol_version : ℕ
protocol_version = 3

unfoldable pub encode_header : ControlOperation → Writer.Writer
encode_header operation = write_header protocol_magic protocol_version (operation_code operation) 0

-- The operation and the payload size.
unfoldable pub decode_header : Reader.Reader (ControlOperation × ℕ)
decode_header = Reader.u32 >>- λ magic. Reader.u16 >>- λ version. Reader.u16 >>- λ operation_value.
    Reader.u32 >>- λ payload_size. expect (magic == protocol_magic && version == protocol_version) (
      expect
        (not (
          ltb operation_value (operation_code ping)
          || ltb (operation_code release_result) operation_value))
        (give (operation_of_code operation_value, payload_size)))

unfoldable pub encode_control_request : ControlRequest → Option Bytes
encode_control_request request =
    (encode_header request.operation
        >=> (Writer.u64 request.target_id >=> encode_task request.task >=> done))
      []
    >>= finish_message

unfoldable pub decode_control_request : Bytes → Option ControlRequest
decode_control_request = decode_message decode_header (λ operation. Reader.u64 >>- λ target_id.
    decode_task >>- λ task.
    give (record { operation = operation; target_id = target_id; task = task }))

-- The optional reference at the end of a response.
unfoldable pub encode_result : Bool → SharedBufferRef → Writer.Writer
encode_result true reference = Writer.u8 1 >=> encode_reference reference >=> done
encode_result false reference = Writer.u8 0 >=> done

unfoldable pub decode_result : Reader.Reader (Bool × SharedBufferRef)
decode_result = Reader.u8 >>- λ result_available. expect (not (ltb 1 result_available)) (
    if result_available == 1
    then (decode_reference >>- λ reference. give (true, reference))
    else give (false, no_reference))

unfoldable pub encode_control_response : ControlResponse → Option Bytes
encode_control_response response =
    if ltb max_collection_elements (length response.agents)
    then none
    else (encode_header ping
          >=> (Writer.u8 (bit response.success)
              >=> Writer.string response.message
              >=> Writer.u32 (length response.agents)
              >=> Writer.each encode_agent response.agents
              >=> encode_result response.result_available response.result_reference
              >=> done))
        []
      >>= finish_message

unfoldable pub decode_control_response : Bytes → Option ControlResponse
decode_control_response = decode_message decode_header (λ ignored. Reader.u8 >>- λ success.
    expect (not (ltb 1 success)) (
      Reader.string >>- λ message. Reader.u32 >>- λ count.
      expect (not (ltb max_collection_elements count)) (
        repeat count decode_agent >>- λ agents. decode_result >>- λ r. give (record {
          success = success == 1;
          message = message;
          agents = agents;
          result_available = r.0;
          result_reference = r.1;
        }))))
