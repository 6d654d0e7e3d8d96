-- ===== src/Invocation/RoundTrip.antt =====
-- Messages of agent-runtime/src/invocation_protocol.cpp: decoding undoes encoding.
pub mod Response
use agent_nucleus.Prelude.{
  ℕ, ◌-◌, ◌≤◌, ◌<◌, ◌^◌, ◌≡◌, refl, sym, ◌∙◌, ap, subst, none≢some, Bool, true, false, not, ◌&&◌,
  ◌||◌, Option, some, List, [], ◌∷◌, All, length, is_empty, ltb, ◌==◌, if◌then◌else◌, ◌>>=◌, Bytes,
  arith, inl, inr, Bool-cases, u32_mod, u64_mod,
}
use agent_nucleus.Prelude.Int.{ℤ, pos, ltb_ℤ}
use agent_nucleus.Types.{InvocationKind, kind_is_named, invalid_agent_id, AgentPerformanceMetrics}
use agent_nucleus.Wire.Writer
use agent_nucleus.Wire.Writer.{◌>=>◌, done}
use agent_nucleus.Wire.Reader
use agent_nucleus.Wire.Reader.{◌>>-◌, give, expect, repeat}
use agent_nucleus.Wire.Signed.{
  to_bits, of_bits, IsSigned, of_bits-to_bits_32, of_bits-to_bits_64, to_bits-lt_32, to_bits-lt_64,
}
use agent_nucleus.Wire.Inverse.{
  Inverse, Inverse-give, Inverse-seq, Inverse-expect, Inverse-integer, Inverse-string, Inverse-each,
}
use agent_nucleus.Wire.Frame.{write_header, decode_message, decode_message-encoded}
use agent_nucleus.Control.Task.{kind_code, kind_of_code}
use agent_nucleus.Control.Agent.{
  SharedBufferRef, no_reference, encode_metrics, decode_metrics, encode_reference,
}
use agent_nucleus.Control.RoundTrip.Task.{
  kind_back, kind_small, kind_listed, timeout_back, timeout_small,
}
use agent_nucleus.Control.RoundTrip.Agent.{IsTypedMetrics, IsTypedReference, Inverse-metrics}
use agent_nucleus.Invocation.Data.{
  InvocationStatus, status_code, status_of_code, busy, InvocationInput, InvocationRequest,
  InvocationResponse, invocation_magic, invocation_version, max_invocation_inputs, request_message,
  response_message, valid_reference,
}
use agent_nucleus.Invocation.Message.{
  decode_header, decode_reference, encode_input, decode_input, input_ok, inputs_ok, request_ok,
  encode_request_body, encode_invocation_request, fields_ok, decode_request_body,
  decode_invocation_request, response_ok, encode_output, decode_output, encode_response_body,
  encode_invocation_response, decode_response_body, decode_invocation_response,
}

pub Inverse-header :
    (code : ℕ)
    → code < 256 ^ 2
    → (n : ℕ) → n < 256 ^ 4
    → Inverse {A = ℕ × ℕ}
        (write_header invocation_magic invocation_version code n)
        (decode_header code)
        (code, n)
unfolding decode_header write_header
Inverse-header code small n h =
    Inverse-seq _ invocation_magic (Inverse-integer 4 invocation_magic (omega arith)) (
      Inverse-seq _ invocation_version (Inverse-integer 2 invocation_version (omega arith)) (
        Inverse-seq _ code (Inverse-integer 2 code small) (
          Inverse-seq _ n (Inverse-integer 4 n h)
            (Inverse-expect (ground arith) (Inverse-give (code, n))))))

pub Inverse-reference :
    (r : SharedBufferRef)
    → IsTypedReference r
    → valid_reference r ≡ true
    → Inverse (encode_reference r) decode_reference r
unfolding encode_reference decode_reference
Inverse-reference r h valid = Inverse-seq _ _ (Inverse-integer 8 r.region_id h.region_id) (
    Inverse-seq _ _ (Inverse-integer 8 r.region_size h.region_size) (
      Inverse-seq _ _ (Inverse-integer 8 r.offset h.offset) (
        Inverse-seq _ _ (Inverse-integer 8 r.len h.len) (
          Inverse-seq _ _ (Inverse-integer 4 r.data_type h.data_type) (
            Inverse-seq _ _ (Inverse-integer 4 r.flags h.flags) (
              Inverse-seq _ _ (Inverse-integer 8 r.version h.version)
                (Inverse-expect valid (Inverse-give r))))))))

abbrev pub IsTypedInput : InvocationInput → Type 0
IsTypedInput i = (i.producer_id < u64_mod) × IsTypedReference i.reference

inputs-Inverse :
    (xs : List InvocationInput)
    → All IsTypedInput xs
    → inputs_ok xs ≡ true
    → All (λ x. Inverse (encode_input x) decode_input x) xs
unfolding encode_input decode_input
inputs-Inverse [] h valid = tt
inputs-Inverse (x ∷ xs) h valid = (
  Inverse-seq _ x.producer_id (Inverse-integer 8 x.producer_id h.0.0) (
      Inverse-expect (ground arith) (
        Inverse-seq _ x.reference (Inverse-reference x.reference h.0.1 (ground arith))
          (Inverse-give x))),
  inputs-Inverse xs h.1 (ground arith),
)

-- The members of a request are values of their C++ types.
pub record IsTypedRequest (r : InvocationRequest) : Type 0 where
  pub agent_id : r.agent_id < u64_mod
  pub parent_id : r.parent_id < u64_mod
  pub context_id : r.context_id < u64_mod
  pub priority : IsSigned u32_mod r.priority
  pub cpu_threads : r.resources.cpu_threads < u32_mod
  pub memory_bytes : r.resources.memory_bytes < u64_mod
  pub timeout : IsSigned u64_mod r.resources.timeout
  pub inputs : All IsTypedInput r.inputs

-- A request as it is read back.
abbrev through_bits : InvocationRequest → InvocationRequest
through_bits r = record r {
  kind = kind_of_code (kind_code r.kind);
  priority = of_bits u32_mod (to_bits u32_mod r.priority);
  resources = record r.resources { timeout = pos (to_bits u64_mod r.resources.timeout) };
}

through_bits_lem :
    (r : InvocationRequest)
    → IsTypedRequest r
    → kind_is_named r.kind ≡ true
    → ltb_ℤ r.resources.timeout (pos 0) ≡ false
    → through_bits r ≡ r
through_bits_lem r h named valid =
    ap
      (λ (k : InvocationKind). record r {
        kind = k;
        priority = of_bits u32_mod (to_bits u32_mod r.priority);
        resources = record r.resources { timeout = pos (to_bits u64_mod r.resources.timeout) };
      })
      (kind_back r.kind named)
    ∙ ap
        (λ (p : ℤ). record r {
          priority = p;
          resources = record r.resources { timeout = pos (to_bits u64_mod r.resources.timeout) };
        })
        (of_bits-to_bits_32 r.priority h.priority)
    ∙ ap (λ (z : ℤ). record r { resources = record r.resources { timeout = z } })
        (timeout_back r.resources.timeout h.timeout valid)

request_fields :
    (r : InvocationRequest)
    → IsTypedRequest r
    → request_ok r ≡ true
    → fields_ok
        (kind_code r.kind)
        (to_bits u64_mod r.resources.timeout)
        r.agent_id
        r.target
        r.operation
      ≡ true
request_fields r h valid =
    let named : kind_is_named r.kind ≡ true = ground arith in
    let future : ltb_ℤ r.resources.timeout (pos 0) ≡ false = ground arith in
    ground (arith, kind_listed r.kind named, timeout_small r.resources.timeout h.timeout future)

Inverse-request :
    (r : InvocationRequest)
    → IsTypedRequest r
    → request_ok r ≡ true
    → Inverse (encode_request_body r) decode_request_body r
unfolding encode_request_body decode_request_body
Inverse-request r h valid =
    let named : kind_is_named r.kind ≡ true = ground arith in
    let future : ltb_ℤ r.resources.timeout (pos 0) ≡ false = ground arith in
    Inverse-seq _ _ (Inverse-integer 8 r.agent_id h.agent_id) (
      Inverse-seq _ _ (Inverse-integer 8 r.parent_id h.parent_id) (
        Inverse-seq _ _ (Inverse-integer 1 (kind_code r.kind) (kind_small r.kind named)) (
          Inverse-seq _ _ (Inverse-integer 8 r.context_id h.context_id) (
            Inverse-seq _ _
              (Inverse-integer 4 (to_bits u32_mod r.priority) (to_bits-lt_32 r.priority))
              (Inverse-seq _ _ (Inverse-integer 4 r.resources.cpu_threads h.cpu_threads) (
                Inverse-seq _ _ (Inverse-integer 8 r.resources.memory_bytes h.memory_bytes) (
                  Inverse-seq _ _
                    (Inverse-integer 8 (to_bits u64_mod r.resources.timeout)
                      (to_bits-lt_64 r.resources.timeout))
                    (Inverse-seq _ _ (Inverse-string r.target) (
                      Inverse-seq _ _ (Inverse-string r.operation) (
                        Inverse-seq _ _ (Inverse-string r.payload) (
                          Inverse-seq _ _ (Inverse-integer 4 (length r.inputs) (ground arith)) (
                            Inverse-expect (ground arith) (
                              Inverse-expect (request_fields r h valid) (
                                Inverse-seq _ _
                                  (Inverse-each encode_input decode_input r.inputs
                                    (inputs-Inverse r.inputs h.inputs (ground arith)))
                                  (subst (λ u. Inverse done (give (through_bits r)) u)
                                    (through_bits_lem r h named future)
                                    (Inverse-give (through_bits r)))))))))))))))))

-- A request whose members are in the range of their types, where encode_invocation_request accepts
-- it, is what decode_invocation_request gives back for the bytes.
pub decode_invocation_request-encode :
    (r : InvocationRequest) (bytes : Bytes)
    → IsTypedRequest r
    → encode_invocation_request r ≡ some bytes
    → decode_invocation_request bytes ≡ some r
unfolding encode_invocation_request decode_invocation_request
decode_invocation_request-encode r bytes h e = elim (Bool-cases (request_ok r)) [
  | inl valid ↦
      decode_message-encoded invocation_magic invocation_version request_message
        (decode_header request_message) request_message
        (Inverse-header request_message (omega arith)) (encode_request_body r)
        (λ type_code. decode_request_body) r bytes (Inverse-request r h valid) (rw valid at e)
  | inr bad ↦ absurd (none≢some (rw bad at e))
]
