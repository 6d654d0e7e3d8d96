-- ===== src/Invocation/RoundTrip/Response.antt =====
-- Responses of agent-runtime/src/invocation_protocol.cpp: decoding undoes encoding.
use agent_nucleus.Prelude.{
  ◌<◌, ◌^◌, ◌≡◌, refl, sym, subst, none≢some, Bool, true, false, not, ◌&&◌, some, ltb, Bytes, arith,
  inl, inr, Bool-cases, u64_mod,
}
use agent_nucleus.Wire.Writer.{done}
use agent_nucleus.Wire.Reader.{give}
use agent_nucleus.Wire.Signed.{to_bits, IsSigned, of_bits-to_bits_64, to_bits-lt_64}
use agent_nucleus.Wire.Inverse.{
  Inverse, Inverse-give, Inverse-seq, Inverse-expect, Inverse-integer, Inverse-string,
}
use agent_nucleus.Wire.Frame.{decode_message-encoded}
use agent_nucleus.Control.Agent.{SharedBufferRef, no_reference}
use agent_nucleus.Control.RoundTrip.Agent.{IsTypedMetrics, IsTypedReference, Inverse-metrics}
use agent_nucleus.Invocation.Data.{
  InvocationStatus, status_code, status_of_code, busy, InvocationResponse, invocation_magic,
  invocation_version, response_message, valid_reference,
}
use agent_nucleus.Invocation.Message.{
  decode_header, response_ok, encode_output, decode_output, encode_response_body,
  encode_invocation_response, decode_response_body, decode_invocation_response,
}
use agent_nucleus.Invocation.RoundTrip.{Inverse-header, Inverse-reference}

-- Without an output the member has its default value.
abbrev pub OutputInRange : Bool → SharedBufferRef → Type 0
OutputInRange true r = IsTypedReference r
OutputInRange false r = r ≡ no_reference

-- The members of a response are values of their C++ types.
pub record IsTypedResponse (r : InvocationResponse) : Type 0 where
  pub agent_id : r.agent_id < u64_mod
  pub process_id : IsSigned u64_mod r.process_id
  pub context_id : r.context_id < u64_mod
  pub metrics : IsTypedMetrics r.metrics
  pub output : OutputInRange r.output_available r.output

Inverse-output :
    (b : Bool) (r : SharedBufferRef)
    → OutputInRange b r
    → (b && not (valid_reference r)) ≡ false
    → Inverse {A = Bool × SharedBufferRef} (encode_output b r) decode_output (b, r)
unfolding encode_output decode_output
Inverse-output true r h valid = Inverse-seq _ 1 (Inverse-integer 1 1 (omega arith)) (
    Inverse-expect refl
      (Inverse-seq _ r (Inverse-reference r h (ground arith)) (Inverse-give (true, r))))
Inverse-output false r h valid = Inverse-seq _ 0 (Inverse-integer 1 0 (omega arith)) (
    Inverse-expect refl (
      subst (λ x. Inverse {A = Bool × SharedBufferRef} done (give (false, no_reference)) (false, x))
        (sym h) (Inverse-give (false, no_reference))))

status_small : (s : InvocationStatus) → status_code s < 256 ^ 1
status_small s = ground arith

status_listed : (s : InvocationStatus) → not (ltb (status_code busy) (status_code s)) ≡ true
status_listed s = ground arith

status_back : (s : InvocationStatus) → status_of_code (status_code s) ≡ s
status_back s = ground arith

Inverse-response :
    (r : InvocationResponse)
    → IsTypedResponse r
    → response_ok r ≡ true
    → Inverse (encode_response_body r) decode_response_body r
unfolding encode_response_body decode_response_body
Inverse-response r h valid = Inverse-seq _ _ (Inverse-integer 8 r.agent_id h.agent_id) (
    Inverse-seq _ _ (Inverse-integer 8 (to_bits u64_mod r.process_id) (to_bits-lt_64 r.process_id))
      (Inverse-seq _ _ (Inverse-integer 1 (status_code r.status) (status_small r.status)) (
        Inverse-expect (status_listed r.status) (
          Inverse-seq _ _ (Inverse-integer 8 r.context_id h.context_id) (
            Inverse-seq _ _ (Inverse-string r.message) (
              Inverse-seq _ _ (Inverse-metrics r.metrics h.metrics) (
                Inverse-seq _ _ (Inverse-output r.output_available r.output h.output (ground arith))
                  (Inverse-expect (ground arith) (
                    subst
                      (λ z.
                        Inverse done
                          (give (record r {
                            process_id = z;
                            status = status_of_code (status_code r.status);
                          }))
                          r)
                      (sym (of_bits-to_bits_64 r.process_id h.process_id))
                      (subst (λ s. Inverse done (give (record r { status = s })) r)
                        (sym (status_back r.status)) (Inverse-give r)))))))))))

-- A response whose members are in the range of their types, and whose reference is the default one
-- where there is no output, is what decode_invocation_response gives back for the bytes that
-- encode_invocation_response accepted it with.
pub decode_invocation_response-encode :
    (r : InvocationResponse) (bytes : Bytes)
    → IsTypedResponse r
    → encode_invocation_response r ≡ some bytes
    → decode_invocation_response bytes ≡ some r
unfolding encode_invocation_response decode_invocation_response
decode_invocation_response-encode r bytes h e = elim (Bool-cases (response_ok r)) [
  | inl valid ↦
      decode_message-encoded invocation_magic invocation_version response_message
        (decode_header response_message) response_message
        (Inverse-header response_message (omega arith)) (encode_response_body r)
        (λ type_code. decode_response_body) r bytes (Inverse-response r h valid) (rw valid at e)
  | inr bad ↦ absurd (none≢some (rw bad at e))
]
