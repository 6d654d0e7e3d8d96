-- ===== src/Invocation/Decoded.antt =====
-- What every message that agent-runtime/src/invocation_protocol.cpp accepts obeys, whatever bytes
-- arrive.
use agent_nucleus.Prelude.{ℕ, ◌≡◌, true, List, All, length}
use agent_nucleus.Wire.Ensures.{Ensures}
use agent_nucleus.Control.Agent.{SharedBufferRef}
use agent_nucleus.Invocation.Data.{InvocationInput, InvocationRequest, valid_reference}
use agent_nucleus.Invocation.Message.{input_ok, request_ok}

abbrev ValidReference : SharedBufferRef → Type 0
ValidReference r = valid_reference r ≡ true

abbrev ValidInput : InvocationInput → Type 0
ValidInput i = input_ok i ≡ true

abbrev ValidRequest : InvocationRequest → Type 0
ValidRequest r = request_ok r ≡ true

abbrev BoundedInputs : ℕ → List InvocationInput → Type 0
BoundedInputs n xs = (length xs ≡ n) × All ValidInput xs
