-- ===== src/Control/RoundTrip/Message.antt =====
-- Whole messages of agent-runtime/src/control_protocol.cpp: decoding undoes encoding.
use agent_nucleus.Prelude.{
  ℕ, ◌<◌, ◌^◌, ◌≡◌, refl, sym, subst, none≢some, Bool, true, false, not, ◌||◌, some, List, [], ◌∷◌,
  All, length, ltb, ◌>>=◌, Bytes, arith, inl, inr, Bool-cases, u64_mod,
}
use agent_nucleus.Wire.Writer.{Writer, ◌>=>◌, done}
use agent_nucleus.Wire.Reader.{Reader, give}
use agent_nucleus.Wire.Inverse.{
  Inverse, Inverse-give, Inverse-seq, Inverse-expect, Inverse-integer, Inverse-string, Inverse-each,
}
use agent_nucleus.Wire.Frame.{write_header, finish_message, decode_message, decode_message-encoded}
use agent_nucleus.Control.Task.{max_collection_elements}
use agent_nucleus.Control.Agent.{
  ControlAgentInfo, SharedBufferRef, no_reference, bit, reference_ok, encode_agent, decode_agent,
}
use agent_nucleus.Control.Message.{
  ControlOperation, ping, release_result, operation_code, operation_of_code, ControlRequest,
  ControlResponse, protocol_magic, protocol_version, encode_header, decode_header,
  encode_control_request, decode_control_request, encode_result, decode_result,
  encode_control_response, decode_control_response,
}
use agent_nucleus.Control.RoundTrip.Task.{IsTyped, Inverse-task}
use agent_nucleus.Control.RoundTrip.Agent.{
  IsTypedAgent, IsTypedReference, bit_small, bit_ok, bit_back, Inverse-agent, Inverse-reference,
}

operation_small : (o : ControlOperation) → operation_code o < 256 ^ 2
operation_small o = ground arith

operation_listed :
    (o : ControlOperation)
    → not (
        ltb (operation_code o) (operation_code ping)
        || ltb (operation_code release_result) (operation_code o))
      ≡ true
operation_listed o = ground arith

operation_back : (o : ControlOperation) → operation_of_code (operation_code o) ≡ o
operation_back o = ground arith

Inverse-header :
    (o : ControlOperation) (n : ℕ)
    → n < 256 ^ 4
    → Inverse {A = ControlOperation × ℕ}
        (write_header protocol_magic protocol_version (operation_code o) n)
        decode_header
        (o, n)
unfolding decode_header write_header
Inverse-header o n h =
    Inverse-seq _ protocol_magic (Inverse-integer 4 protocol_magic (omega arith)) (
      Inverse-seq _ protocol_version (Inverse-integer 2 protocol_version (omega arith)) (
        Inverse-seq _ _ (Inverse-integer 2 (operation_code o) (operation_small o)) (
          Inverse-seq _ _ (Inverse-integer 4 n h) (
            Inverse-expect refl (
              Inverse-expect (operation_listed o) (
                subst (λ p. Inverse {A = ControlOperation × ℕ} done (give (p, n)) (o, n))
                  (sym (operation_back o)) (Inverse-give (o, n))))))))

-- The generic law, for the header of this protocol.
control-encoded {ℓ} :
    {A : Type ℓ} (o : ControlOperation) (w : Writer) (body : ControlOperation → Reader A) (v : A)
    (bytes : Bytes)
    → Inverse w (body o) v
    → ((encode_header o >=> w) [] >>= finish_message) ≡ some bytes
    → decode_message decode_header body bytes ≡ some v
unfolding encode_header
control-encoded o w body v bytes h e =
    decode_message-encoded protocol_magic protocol_version (operation_code o) decode_header o
      (Inverse-header o) w body v bytes h e

-- The members of a request are values of their C++ types.
abbrev pub IsTypedRequest : ControlRequest → Type 0
IsTypedRequest r = (r.target_id < u64_mod) × IsTyped r.task

-- A request whose members are in the range of their types, where encode_control_request accepts it,
-- is what decode_control_request gives back for the bytes.
pub decode_control_request-encode :
    (r : ControlRequest) (bytes : Bytes)
    → IsTypedRequest r
    → encode_control_request r ≡ some bytes
    → decode_control_request bytes ≡ some r
unfolding encode_control_request decode_control_request
decode_control_request-encode r bytes h e =
    control-encoded r.operation _ _ r bytes
      (Inverse-seq _ r.target_id (Inverse-integer 8 r.target_id h.0)
        (Inverse-seq _ r.task (Inverse-task r.task h.1) (Inverse-give r)))
      e

-- The reference that goes with the answer passes the tests of decode_reference; without one the
-- member has its default value.
abbrev pub ResultInRange : Bool → SharedBufferRef → Type 0
ResultInRange true r = IsTypedReference r × (reference_ok r ≡ true)
ResultInRange false r = r ≡ no_reference

abbrev pub IsTypedResponse : ControlResponse → Type 0
IsTypedResponse r = All IsTypedAgent r.agents × ResultInRange r.result_available r.result_reference

Inverse-result :
    (b : Bool) (r : SharedBufferRef)
    → ResultInRange b r
    → Inverse {A = Bool × SharedBufferRef} (encode_result b r) decode_result (b, r)
unfolding encode_result decode_result
Inverse-result true r h =
    Inverse-seq _ 1 (Inverse-integer 1 1 (omega arith))
      (Inverse-expect refl (Inverse-seq _ r (Inverse-reference r h.0 h.1) (Inverse-give (true, r))))
Inverse-result false r h = Inverse-seq _ 0 (Inverse-integer 1 0 (omega arith)) (
    Inverse-expect refl (
      subst (λ x. Inverse {A = Bool × SharedBufferRef} done (give (false, no_reference)) (false, x))
        (sym h) (Inverse-give (false, no_reference))))

agents-Inverse :
    (xs : List ControlAgentInfo)
    → All IsTypedAgent xs
    → All (λ a. Inverse (encode_agent a) decode_agent a) xs
agents-Inverse [] h = tt
agents-Inverse (a ∷ xs) h = (Inverse-agent a h.0, agents-Inverse xs h.1)

-- A response whose members are in the range of their types, and whose reference is valid where
-- `result_available` is set and the default one where it is not, is what decode_control_response gives back for the bytes that encode_control_response
-- accepted it with.
pub decode_control_response-encode :
    (r : ControlResponse) (bytes : Bytes)
    → IsTypedResponse r
    → encode_control_response r ≡ some bytes
    → decode_control_response bytes ≡ some r
unfolding encode_control_response decode_control_response
decode_control_response-encode r bytes h e =
    elim (Bool-cases (ltb max_collection_elements (length r.agents))) [
      | inl many ↦ absurd (none≢some (rw many at e))
      | inr few ↦
          control-encoded ping _ _ r bytes
            (Inverse-seq _ _ (Inverse-integer 1 (bit r.success) (bit_small r.success)) (
              Inverse-expect (bit_ok r.success) (
                Inverse-seq _ _ (Inverse-string r.message) (
                  Inverse-seq _ _ (Inverse-integer 4 (length r.agents) (ground arith)) (
                    Inverse-expect (ground arith) (
                      Inverse-seq _ _
                        (Inverse-each encode_agent decode_agent r.agents
                          (agents-Inverse r.agents h.0))
                        (Inverse-seq _ _ (Inverse-result r.result_available r.result_reference h.1)
                          (subst (λ b. Inverse done (give (record r { success = b })) r)
                            (sym (bit_back r.success)) (Inverse-give r)))))))))
            (rw few at e)
    ]
