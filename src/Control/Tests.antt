-- ===== src/Control/Tests.antt =====
-- Messages of agent-runtime/src/control_protocol.cpp at concrete inputs.
use agent_nucleus.Prelude.{
  ◌≡◌, ◌≤◌, refl, true, Option, none, some, [], ◌∷◌, length, Bytes, codes, arith,
}
use agent_nucleus.Prelude.Int.{pos, negsuc}
use agent_nucleus.Types.{AgentTaskSpec, model, running, no_metrics}
use agent_nucleus.Wire.Writer
use agent_nucleus.Wire.Reader
use agent_nucleus.Wire.Frame.{write_header, finish_message, expect_remaining, decode_message}
use agent_nucleus.Control.Task.{
  max_collection_elements, encode_invocation, encode_collections, encode_task, decode_present,
  decode_invocation, decode_task,
}
use agent_nucleus.Control.Agent.{
  encode_metrics, decode_metrics, encode_agent, decode_agent, encode_reference, decode_reference,
}
use agent_nucleus.Control.Message.{
  ControlRequest, ControlResponse, spawn, encode_header, decode_header, encode_control_request,
  decode_control_request, encode_result, decode_result, encode_control_response,
  decode_control_response,
}
use agent_nucleus.Control.RoundTrip.Task.{IsTyped}
use agent_nucleus.Control.RoundTrip.Agent.{IsTypedMetrics}
use agent_nucleus.Control.RoundTrip.Message.{
  decode_control_request-encode, decode_control_response-encode,
}
use agent_nucleus.Control.Decoded.{ReferenceFine, decode_control_response-IsSane}

unfoldable codec_code : Unit {0}
unfolding Writer.◌>=>◌ Writer.done Writer.check Writer.integer Writer.string Writer.each
    Reader.◌>>-◌ Reader.give Reader.expect Reader.integer Reader.chars Reader.string Reader.repeat
    encode_invocation encode_collections encode_task decode_present decode_invocation decode_task
    encode_metrics decode_metrics encode_agent decode_agent encode_reference decode_reference
    encode_header write_header finish_message decode_header expect_remaining decode_message
    encode_control_request decode_control_request encode_result decode_result
    encode_control_response decode_control_response
codec_code = tt

abbrev model_task : AgentTaskSpec
model_task = record {
  id = 7;
  parent_id = 3;
  name = codes "plan";
  kind = codes "llm";
  priority = negsuc 4;
  dependencies = 1 ∷ 2 ∷ [];
  resources = record { cpu_threads = 2; memory_bytes = 4096; timeout = pos 500 };
  retry_limit = 1;
  command = [];
  invocation = some (record {
    kind = model;
    target = codes "m";
    operation = codes "chat";
    payload = codes "hi";
    context_id = 9;
  });
}

abbrev spawn_request : ControlRequest
spawn_request = record { operation = spawn; target_id = 3; task = model_task }

abbrev result_response : ControlResponse
result_response = record {
  success = true;
  message = codes "ok";
  agents =
      record {
        id = 7;
        parent_id = 3;
        state = running;
        process_id = negsuc 0;
        unresolved_dependencies = 0;
        retry_count = 1;
        context_id = 9;
        metrics = no_metrics;
        name = codes "plan";
        kind = codes "llm";
        error = [];
      }
      ∷ [];
  result_available = true;
  result_reference = record {
    region_id = 5;
    region_size = 4096;
    offset = 16;
    len = 100;
    data_type = 1;
    flags = 0;
    version = 1;
  };
}

abbrev from_some : Option Bytes → Bytes
from_some none = []
from_some (some bytes) = bytes

unfoldable request_bytes : Bytes
unfolding codec_code
request_bytes = from_some (encode_control_request spawn_request)

spawn_request-encoded : encode_control_request spawn_request ≡ some request_bytes
unfolding request_bytes codec_code
spawn_request-encoded = refl

unfoldable response_bytes : Bytes
unfolding codec_code
response_bytes = from_some (encode_control_response result_response)

result_response-encoded : encode_control_response result_response ≡ some response_bytes
unfolding response_bytes codec_code
result_response-encoded = refl

model_task-IsTyped : IsTyped model_task
model_task-IsTyped = record {
  id = omega arith;
  parent_id = omega arith;
  cpu_threads = omega arith;
  memory_bytes = omega arith;
  timeout = omega arith;
  priority = omega arith;
  retry_limit = omega arith;
  dependencies = (omega arith, (omega arith, tt));
  context_id = omega arith;
}

decode_control_request-encode_example : decode_control_request request_bytes ≡ some spawn_request
decode_control_request-encode_example =
    decode_control_request-encode spawn_request request_bytes (omega arith, model_task-IsTyped)
      spawn_request-encoded

no_metrics-IsTypedMetrics : IsTypedMetrics no_metrics
no_metrics-IsTypedMetrics = record {
  queue_time_us = omega arith;
  execution_time_us = omega arith;
  input_tokens = omega arith;
  output_tokens = omega arith;
  reused_tokens = omega arith;
  cache_bytes = omega arith;
}

decode_control_response-encode_example :
    decode_control_response response_bytes ≡ some result_response
decode_control_response-encode_example =
    decode_control_response-encode result_response response_bytes
      (
        (
          record {
            id = omega arith;
            parent_id = omega arith;
            process_id = omega arith;
            unresolved_dependencies = omega arith;
            retry_count = omega arith;
            context_id = omega arith;
            metrics = no_metrics-IsTypedMetrics;
          },
          tt,
        ),
        (
          record {
            region_id = omega arith;
            region_size = omega arith;
            offset = omega arith;
            len = omega arith;
            data_type = omega arith;
            flags = omega arith;
            version = omega arith;
          },
          refl,
        ),
      )
      result_response-encoded

response_bytes-decoded : decode_control_response response_bytes ≡ some result_response
unfolding response_bytes codec_code
response_bytes-decoded = refl

decode_control_response-IsSane_example :
    (length result_response.agents ≤ max_collection_elements)
    × ReferenceFine true result_response.result_reference
decode_control_response-IsSane_example =
    decode_control_response-IsSane response_bytes result_response response_bytes-decoded
