-- ===== src/Invocation/Tests.antt =====
-- Messages of agent-runtime/src/invocation_protocol.cpp at concrete inputs.
use agent_nucleus.Prelude.{◌≡◌, refl, true, Option, none, some, [], ◌∷◌, Bytes, codes, arith}
use agent_nucleus.Prelude.Int.{pos, negsuc}
use agent_nucleus.Types.{tool, no_metrics}
use agent_nucleus.Wire.Writer
use agent_nucleus.Wire.Reader
use agent_nucleus.Wire.Frame.{write_header, finish_message, expect_remaining, decode_message}
use agent_nucleus.Control.Agent.{SharedBufferRef, encode_metrics, decode_metrics, encode_reference}
use agent_nucleus.Control.RoundTrip.Agent.{IsTypedMetrics, IsTypedReference}
use agent_nucleus.Invocation.Data.{InvocationRequest, InvocationResponse, ok}
use agent_nucleus.Invocation.Message.{
  decode_header, decode_reference, encode_input, decode_input, encode_request_body,
  encode_invocation_request, decode_request_body, decode_invocation_request, encode_output,
  decode_output, encode_response_body, encode_invocation_response, decode_response_body,
  decode_invocation_response,
}
use agent_nucleus.Invocation.RoundTrip.{IsTypedRequest, decode_invocation_request-encode}
use agent_nucleus.Invocation.RoundTrip.Response.{IsTypedResponse, decode_invocation_response-encode}

unfoldable codec_code : Unit {0}
unfolding Writer.◌>=>◌ Writer.done Writer.check Writer.integer Writer.string Writer.each
    Reader.◌>>-◌ Reader.give Reader.expect Reader.integer Reader.chars Reader.string Reader.repeat
    write_header finish_message expect_remaining decode_message encode_metrics decode_metrics
    encode_reference decode_header decode_reference encode_input decode_input encode_request_body
    encode_invocation_request decode_request_body decode_invocation_request encode_output
    decode_output encode_response_body encode_invocation_response decode_response_body
    decode_invocation_response
codec_code = tt

abbrev page : SharedBufferRef
page = record {
  region_id = 5;
  region_size = 4096;
  offset = 16;
  len = 100;
  data_type = 2;
  flags = 0;
  version = 1;
}

page-IsTypedReference : IsTypedReference page
page-IsTypedReference = record {
  region_id = omega arith;
  region_size = omega arith;
  offset = omega arith;
  len = omega arith;
  data_type = omega arith;
  flags = omega arith;
  version = omega arith;
}

abbrev tool_request : InvocationRequest
tool_request = record {
  agent_id = 4;
  parent_id = 1;
  kind = tool;
  target = codes "sql";
  operation = codes "query";
  payload = codes "{}";
  context_id = 0;
  priority = negsuc 1;
  resources = record { cpu_threads = 1; memory_bytes = 64; timeout = pos 1000 };
  inputs = record { producer_id = 2; reference = page } ∷ [];
}

abbrev tool_response : InvocationResponse
tool_response = record {
  agent_id = 4;
  process_id = negsuc 0;
  status = ok;
  message = codes "done";
  context_id = 0;
  metrics = no_metrics;
  output_available = true;
  output = page;
}

abbrev from_some : Option Bytes → Bytes
from_some none = []
from_some (some bytes) = bytes

unfoldable request_bytes : Bytes
unfolding codec_code
request_bytes = from_some (encode_invocation_request tool_request)

tool_request-encoded : encode_invocation_request tool_request ≡ some request_bytes
unfolding request_bytes codec_code
tool_request-encoded = refl

tool_request-IsTypedRequest : IsTypedRequest tool_request
tool_request-IsTypedRequest = record {
  agent_id = omega arith;
  parent_id = omega arith;
  context_id = omega arith;
  priority = omega arith;
  cpu_threads = omega arith;
  memory_bytes = omega arith;
  timeout = omega arith;
  inputs = ((omega arith, page-IsTypedReference), tt);
}

decode_invocation_request-encode_example :
    decode_invocation_request request_bytes ≡ some tool_request
decode_invocation_request-encode_example =
    decode_invocation_request-encode tool_request request_bytes tool_request-IsTypedRequest
      tool_request-encoded

unfoldable response_bytes : Bytes
unfolding codec_code
response_bytes = from_some (encode_invocation_response tool_response)

tool_response-encoded : encode_invocation_response tool_response ≡ some response_bytes
unfolding response_bytes codec_code
tool_response-encoded = refl

no_metrics-IsTypedMetrics : IsTypedMetrics no_metrics
no_metrics-IsTypedMetrics = record {
  queue_time_us = omega arith;
  execution_time_us = omega arith;
  input_tokens = omega arith;
  output_tokens = omega arith;
  reused_tokens = omega arith;
  cache_bytes = omega arith;
}

tool_response-IsTypedResponse : IsTypedResponse tool_response
tool_response-IsTypedResponse = record {
  agent_id = omega arith;
  process_id = omega arith;
  context_id = omega arith;
  metrics = no_metrics-IsTypedMetrics;
  output = page-IsTypedReference;
}

decode_invocation_response-encode_example :
    decode_invocation_response response_bytes ≡ some tool_response
decode_invocation_response-encode_example =
    decode_invocation_response-encode tool_response response_bytes tool_response-IsTypedResponse
      tool_response-encoded
