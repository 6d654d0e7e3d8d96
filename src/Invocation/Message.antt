-- ===== src/Invocation/Message.antt =====
-- agent-runtime/src/invocation_protocol.cpp: requests and responses.
use agent_nucleus.Prelude.{
  ℕ, ◌-◌, ◌^◌, Bool, true, false, not, ◌&&◌, ◌||◌, Option, none, List, [], ◌∷◌, length, is_empty,
  ltb, ◌==◌, if◌then◌else◌, ◌>>=◌, Bytes, u32_mod, u64_mod,
}
use agent_nucleus.Prelude.Int.{pos, ltb_ℤ}
use agent_nucleus.Types.{kind_is_named, invalid_agent_id}
use agent_nucleus.Wire.Writer
use agent_nucleus.Wire.Writer.{◌>=>◌, done}
use agent_nucleus.Wire.Reader
use agent_nucleus.Wire.Reader.{◌>>-◌, give, expect, repeat}
use agent_nucleus.Wire.Signed.{to_bits, of_bits}
use agent_nucleus.Wire.Frame.{write_header, finish_message, decode_message}
use agent_nucleus.Control.Task.{kind_code, kind_of_code}
use agent_nucleus.Control.Agent.{
  SharedBufferRef, no_reference, encode_metrics, decode_metrics, encode_reference,
}
use agent_nucleus.Invocation.Data.{
  status_code, status_of_code, busy, InvocationInput, InvocationRequest, InvocationResponse,
  invocation_magic, invocation_version, max_invocation_inputs, request_message, response_message,
  valid_reference,
}

-- The message type and the payload size.
unfoldable pub decode_header : ℕ → Reader.Reader (ℕ × ℕ)
decode_header expected_type = Reader.u32 >>- λ magic. Reader.u16 >>- λ version.
    Reader.u16 >>- λ type_code. Reader.u32 >>- λ payload_size.
    expect
      (magic == invocation_magic && version == invocation_version && type_code == expected_type)
      (give (type_code, payload_size))

unfoldable pub decode_reference : Reader.Reader SharedBufferRef
decode_reference = Reader.u64 >>- λ region_id. Reader.u64 >>- λ region_size.
    Reader.u64 >>- λ offset. Reader.u64 >>- λ len. Reader.u32 >>- λ data_type.
    Reader.u32 >>- λ flags. Reader.u64 >>- λ version.
    let reference : SharedBufferRef = record {
      region_id = region_id;
      region_size = region_size;
      offset = offset;
      len = len;
      data_type = data_type;
      flags = flags;
      version = version;
    } in
    expect (valid_reference reference) (give reference)

unfoldable pub encode_input : InvocationInput → Writer.Writer
encode_input input = Writer.u64 input.producer_id >=> encode_reference input.reference >=> done

unfoldable pub decode_input : Reader.Reader InvocationInput
decode_input = Reader.u64 >>- λ producer_id. expect (not (producer_id == invalid_agent_id)) (
    decode_reference >>- λ reference.
    give (record { producer_id = producer_id; reference = reference }))

abbrev pub input_ok : InvocationInput → Bool
input_ok input = not (input.producer_id == invalid_agent_id) && valid_reference input.reference

abbrev pub inputs_ok : List InvocationInput → Bool
inputs_ok [] = true
inputs_ok (input ∷ inputs) = input_ok input && inputs_ok inputs

-- The three tests before anything is written.
abbrev pub request_ok : InvocationRequest → Bool
request_ok r =
    not (
      r.agent_id == invalid_agent_id
      || is_empty r.target
      || is_empty r.operation
      || ltb max_invocation_inputs (length r.inputs)
      || ltb_ℤ r.resources.timeout (pos 0))
    && kind_is_named r.kind
    && inputs_ok r.inputs

unfoldable pub encode_request_body : InvocationRequest → Writer.Writer
encode_request_body r =
    Writer.u64 r.agent_id
    >=> Writer.u64 r.parent_id
    >=> Writer.u8 (kind_code r.kind)
    >=> Writer.u64 r.context_id
    >=> Writer.u32 (to_bits u32_mod r.priority)
    >=> Writer.u32 r.resources.cpu_threads
    >=> Writer.u64 r.resources.memory_bytes
    >=> Writer.u64 (to_bits u64_mod r.resources.timeout)
    >=> Writer.string r.target
    >=> Writer.string r.operation
    >=> Writer.string r.payload
    >=> Writer.u32 (length r.inputs)
    >=> Writer.each encode_input r.inputs
    >=> done

unfoldable pub encode_invocation_request : InvocationRequest → Option Bytes
encode_invocation_request r =
    if request_ok r
    then (write_header invocation_magic invocation_version request_message 0
          >=> encode_request_body r)
        []
      >>= finish_message
    else none

-- The tests on the fields of a request.
abbrev pub fields_ok : ℕ → ℕ → ℕ → Bytes → Bytes → Bool
fields_ok kind timeout_ms agent_id target operation = not (
    ltb kind 1
    || ltb 2 kind
    || ltb (2 ^ 63 - 1) timeout_ms
    || agent_id == invalid_agent_id
    || is_empty target
    || is_empty operation)

unfoldable pub decode_request_body : Reader.Reader InvocationRequest
decode_request_body = Reader.u64 >>- λ agent_id. Reader.u64 >>- λ parent_id. Reader.u8 >>- λ kind.
    Reader.u64 >>- λ context_id. Reader.u32 >>- λ priority. Reader.u32 >>- λ cpu_threads.
    Reader.u64 >>- λ memory_bytes. Reader.u64 >>- λ timeout_ms. Reader.string >>- λ target.
    Reader.string >>- λ operation. Reader.string >>- λ payload. Reader.u32 >>- λ input_count.
    expect (not (ltb max_invocation_inputs input_count)) (
      expect (fields_ok kind timeout_ms agent_id target operation) (
        repeat input_count decode_input >>- λ inputs. give (record {
          agent_id = agent_id;
          parent_id = parent_id;
          kind = kind_of_code kind;
          target = target;
          operation = operation;
          payload = payload;
          context_id = context_id;
          priority = of_bits u32_mod priority;
          resources = record {
            cpu_threads = cpu_threads;
            memory_bytes = memory_bytes;
            timeout = pos timeout_ms;
          };
          inputs = inputs;
        })))

unfoldable pub decode_invocation_request : Bytes → Option InvocationRequest
decode_invocation_request =
    decode_message (decode_header request_message) (λ type_code. decode_request_body)

-- The test before anything is written.
abbrev pub response_ok : InvocationResponse → Bool
response_ok r = not (
    r.agent_id == invalid_agent_id
    || ltb (status_code busy) (status_code r.status)
    || (r.output_available && not (valid_reference r.output)))

unfoldable pub encode_output : Bool → SharedBufferRef → Writer.Writer
encode_output true output = Writer.u8 1 >=> encode_reference output >=> done
encode_output false output = Writer.u8 0 >=> done

unfoldable pub decode_output : Reader.Reader (Bool × SharedBufferRef)
decode_output = Reader.u8 >>- λ output_available. expect (not (ltb 1 output_available)) (
    if output_available == 1
    then (decode_reference >>- λ output. give (true, output))
    else give (false, no_reference))

unfoldable pub encode_response_body : InvocationResponse → Writer.Writer
encode_response_body r =
    Writer.u64 r.agent_id
    >=> Writer.u64 (to_bits u64_mod r.process_id)
    >=> Writer.u8 (status_code r.status)
    >=> Writer.u64 r.context_id
    >=> Writer.string r.message
    >=> encode_metrics r.metrics
    >=> encode_output r.output_available r.output
    >=> done

unfoldable pub encode_invocation_response : InvocationResponse → Option Bytes
encode_invocation_response r =
    if response_ok r
    then (write_header invocation_magic invocation_version response_message 0
          >=> encode_response_body r)
        []
      >>= finish_message
    else none

unfoldable pub decode_response_body : Reader.Reader InvocationResponse
decode_response_body = Reader.u64 >>- λ agent_id. Reader.u64 >>- λ process_id.
    Reader.u8 >>- λ status. expect (not (ltb (status_code busy) status)) (
      Reader.u64 >>- λ context_id. Reader.string >>- λ message. decode_metrics >>- λ metrics.
      decode_output >>- λ r. expect (not (agent_id == invalid_agent_id)) (
        give (record {
          agent_id = agent_id;
          process_id = of_bits u64_mod process_id;
          status = status_of_code status;
          message = message;
          context_id = context_id;
          metrics = metrics;
          output_available = r.0;
          output = r.1;
        })))

unfoldable pub decode_invocation_response : Bytes → Option InvocationResponse
decode_invocation_response =
    decode_message (decode_header response_message) (λ type_code. decode_response_body)
