-- ===== src/Control/Decoded.antt =====
-- What every message that agent-runtime/src/control_protocol.cpp accepts obeys, whatever bytes a
-- client sends.
use agent_nucleus.Prelude.{
  ℕ, ◌+◌, ◌≤◌, ◌≡◌, refl, Bool, true, false, not, ◌||◌, Option, some, length, ltb, ◌==◌,
  if◌then◌else◌, Bytes, arith,
}
use agent_nucleus.Prelude.Int.{pos, ltb_ℤ}
use agent_nucleus.Types.{AgentTaskSpec, InvocationSpec, kind_is_named}
use agent_nucleus.Wire.Reader.{Reader}
use agent_nucleus.Wire.Ensures.{
  Ensures, Ensures-give, Ensures-expect, Ensures-seq, Ensures-then, repeat-length,
}
use agent_nucleus.Wire.Frame.{decode_message-Ensures}
use agent_nucleus.Control.Task.{max_collection_elements, kind_of_code, invocation_is_bad}
use agent_nucleus.Control.Agent.{SharedBufferRef, decode_reference}
use agent_nucleus.Control.Message.{
  ControlResponse, decode_header, decode_result, decode_control_response,
}

-- The invocation is one that the scheduler takes.
abbrev FineInvocation : Option InvocationSpec → Type 0
FineInvocation i = invocation_is_bad i ≡ false

-- A decoded task: its timeout is not negative, its lists are bounded, its invocation is complete.
pub record IsSane (t : AgentTaskSpec) : Type 0 where
  pub timeout : ltb_ℤ t.resources.timeout (pos 0) ≡ false
  pub dependencies : length t.dependencies ≤ max_collection_elements
  pub command : length t.command ≤ max_collection_elements
  pub invocation : invocation_is_bad t.invocation ≡ false

pub kind_named : (v : ℕ) → not (ltb v 1 || ltb 2 v) ≡ true → kind_is_named (kind_of_code v) ≡ true
kind_named v h = ground arith

-- A result that is announced lies within its region; without one the reference is the default.
abbrev pub ReferenceFine : Bool → SharedBufferRef → Type 0
ReferenceFine true r = (r.offset + r.len ≤ r.region_size) × (1 ≤ r.region_id)
ReferenceFine false r = r.region_id ≡ 0

abbrev Within : SharedBufferRef → Type 0
Within r = ReferenceFine true r

decode_reference-Within : Ensures decode_reference Within
unfolding decode_reference
decode_reference-Within = Ensures-then Within _ (λ region_id. Ensures-then Within _ (λ region_size.
    Ensures-then Within _ (λ offset. Ensures-then Within _ (λ len.
      Ensures-then Within _ (λ data_type. Ensures-then Within _ (λ flags.
        Ensures-then Within _
          (λ version. Ensures-expect Within (λ valid. Ensures-give Within (ground arith)))))))))

abbrev PairFine : Bool × SharedBufferRef → Type 0
PairFine p = ReferenceFine p.0 p.1

if-PairFine :
    (b : Bool) (r s : Reader (Bool × SharedBufferRef))
    → Ensures r PairFine
    → Ensures s PairFine
    → Ensures (if b then r else s) PairFine
if-PairFine true r s h k = h
if-PairFine false r s h k = k

decode_result-Fine : Ensures decode_result PairFine
unfolding decode_result
decode_result-Fine = Ensures-then PairFine _ (λ available. Ensures-expect PairFine (λ flag.
    if-PairFine (available == 1) _ _
      (Ensures-seq PairFine Within decode_reference-Within (λ r h. Ensures-give PairFine h))
      (Ensures-give PairFine refl)))

abbrev IsSaneResponse : ControlResponse → Type 0
IsSaneResponse r =
    (length r.agents ≤ max_collection_elements)
    × ReferenceFine r.result_available r.result_reference

-- Whatever bytes arrive, a response that decode_control_response accepts has at most 4096 agents,
-- and a result that it announces lies within its region, which has an id; without one the
-- reference has the id 0.
pub decode_control_response-IsSane :
    (bytes : Bytes) (r : ControlResponse)
    → decode_control_response bytes ≡ some r
    → (length r.agents ≤ max_collection_elements)
      × ReferenceFine r.result_available r.result_reference
unfolding decode_control_response
decode_control_response-IsSane bytes r e =
    decode_message-Ensures IsSaneResponse decode_header _ bytes r
      (λ o. Ensures-then IsSaneResponse _ (λ success. Ensures-expect IsSaneResponse (λ flag.
        Ensures-then IsSaneResponse _ (λ message. Ensures-then IsSaneResponse _ (λ count.
          Ensures-expect IsSaneResponse (λ few.
            Ensures-seq IsSaneResponse _ (repeat-length count _) (λ agents n.
              Ensures-seq IsSaneResponse PairFine decode_result-Fine
                (λ p fine. Ensures-give IsSaneResponse (ground arith, fine)))))))))
      e
