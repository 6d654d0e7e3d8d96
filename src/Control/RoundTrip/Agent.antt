-- ===== src/Control/RoundTrip/Agent.antt =====
-- decode_agent and decode_reference of agent-runtime/src/control_protocol.cpp undo the encoders.
use agent_nucleus.Prelude.{
  ◌<◌, ◌^◌, ◌≡◌, refl, sym, subst, Bool, true, false, not, ltb, ◌==◌, arith, u32_mod, u64_mod,
}
use agent_nucleus.Types.{AgentState, state_code, state_of_code, cancelled, AgentPerformanceMetrics}
use agent_nucleus.Wire.Writer.{done}
use agent_nucleus.Wire.Reader.{give}
use agent_nucleus.Wire.Signed.{to_bits, IsSigned, of_bits-to_bits_64, to_bits-lt_64}
use agent_nucleus.Wire.Inverse.{
  Inverse, Inverse-give, Inverse-seq, Inverse-expect, Inverse-integer, Inverse-string,
}
use agent_nucleus.Control.Agent.{
  ControlAgentInfo, SharedBufferRef, bit, encode_metrics, decode_metrics, encode_agent,
  decode_agent, encode_reference, reference_ok, decode_reference,
}

-- The counters are uint64_t.
pub record IsTypedMetrics (m : AgentPerformanceMetrics) : Type 0 where
  pub queue_time_us : m.queue_time_us < u64_mod
  pub execution_time_us : m.execution_time_us < u64_mod
  pub input_tokens : m.input_tokens < u64_mod
  pub output_tokens : m.output_tokens < u64_mod
  pub reused_tokens : m.reused_tokens < u64_mod
  pub cache_bytes : m.cache_bytes < u64_mod

pub record IsTypedAgent (a : ControlAgentInfo) : Type 0 where
  pub id : a.id < u64_mod
  pub parent_id : a.parent_id < u64_mod
  pub process_id : IsSigned u64_mod a.process_id
  pub unresolved_dependencies : a.unresolved_dependencies < u32_mod
  pub retry_count : a.retry_count < u32_mod
  pub context_id : a.context_id < u64_mod
  pub metrics : IsTypedMetrics a.metrics

pub record IsTypedReference (r : SharedBufferRef) : Type 0 where
  pub region_id : r.region_id < u64_mod
  pub region_size : r.region_size < u64_mod
  pub offset : r.offset < u64_mod
  pub len : r.len < u64_mod
  pub data_type : r.data_type < u32_mod
  pub flags : r.flags < u32_mod
  pub version : r.version < u64_mod

pub bit_small : (b : Bool) → bit b < 256 ^ 1
bit_small b = ground arith

pub bit_ok : (b : Bool) → not (ltb 1 (bit b)) ≡ true
bit_ok b = ground arith

pub bit_back : (b : Bool) → (bit b == 1) ≡ b
bit_back true = refl
bit_back false = refl

state_small : (s : AgentState) → state_code s < 256 ^ 1
state_small s = ground arith

state_ok : (s : AgentState) → not (ltb (state_code cancelled) (state_code s)) ≡ true
state_ok s = ground arith

state_back : (s : AgentState) → state_of_code (state_code s) ≡ s
state_back s = ground arith

pub Inverse-metrics :
    (m : AgentPerformanceMetrics) → IsTypedMetrics m → Inverse (encode_metrics m) decode_metrics m
unfolding encode_metrics decode_metrics
Inverse-metrics m h = Inverse-seq _ _ (Inverse-integer 8 m.queue_time_us h.queue_time_us) (
    Inverse-seq _ _ (Inverse-integer 8 m.execution_time_us h.execution_time_us) (
      Inverse-seq _ _ (Inverse-integer 8 m.input_tokens h.input_tokens) (
        Inverse-seq _ _ (Inverse-integer 8 m.output_tokens h.output_tokens) (
          Inverse-seq _ _ (Inverse-integer 8 m.reused_tokens h.reused_tokens) (
            Inverse-seq _ _ (Inverse-integer 8 m.cache_bytes h.cache_bytes) (
              Inverse-seq _ _ (Inverse-integer 1 (bit m.cache_hit) (bit_small m.cache_hit)) (
                Inverse-expect (bit_ok m.cache_hit) (
                  subst (λ b. Inverse done (give (record m { cache_hit = b })) m)
                    (sym (bit_back m.cache_hit)) (Inverse-give m)))))))))

-- decode_agent undoes encode_agent, for an agent whose members are in the range of their types.
pub Inverse-agent :
    (a : ControlAgentInfo) → IsTypedAgent a → Inverse (encode_agent a) decode_agent a
unfolding encode_agent decode_agent
Inverse-agent a h = Inverse-seq _ _ (Inverse-integer 8 a.id h.id) (
    Inverse-seq _ _ (Inverse-integer 8 a.parent_id h.parent_id) (
      Inverse-seq _ _ (Inverse-integer 1 (state_code a.state) (state_small a.state)) (
        Inverse-seq _ _
          (Inverse-integer 8 (to_bits u64_mod a.process_id) (to_bits-lt_64 a.process_id))
          (Inverse-seq _ _ (Inverse-integer 4 a.unresolved_dependencies h.unresolved_dependencies) (
            Inverse-seq _ _ (Inverse-integer 4 a.retry_count h.retry_count) (
              Inverse-seq _ _ (Inverse-integer 8 a.context_id h.context_id) (
                Inverse-seq _ _ (Inverse-metrics a.metrics h.metrics) (
                  Inverse-seq _ _ (Inverse-string a.name) (
                    Inverse-seq _ _ (Inverse-string a.kind) (
                      Inverse-seq _ _ (Inverse-string a.error) (
                        Inverse-expect (state_ok a.state) (
                          subst
                            (λ z.
                              Inverse done
                                (give (record a {
                                  state = state_of_code (state_code a.state);
                                  process_id = z;
                                }))
                                a)
                            (sym (of_bits-to_bits_64 a.process_id h.process_id))
                            (subst (λ s. Inverse done (give (record a { state = s })) a)
                              (sym (state_back a.state)) (Inverse-give a))))))))))))))

-- decode_reference undoes encode_reference, for a reference that passes its tests and whose members
-- are in the range of their types.
pub Inverse-reference :
    (r : SharedBufferRef)
    → IsTypedReference r
    → reference_ok r ≡ true
    → Inverse (encode_reference r) decode_reference r
unfolding encode_reference decode_reference
Inverse-reference r h valid = Inverse-seq _ _ (Inverse-integer 8 r.region_id h.region_id) (
    Inverse-seq _ _ (Inverse-integer 8 r.region_size h.region_size) (
      Inverse-seq _ _ (Inverse-integer 8 r.offset h.offset) (
        Inverse-seq _ _ (Inverse-integer 8 r.len h.len) (
          Inverse-seq _ _ (Inverse-integer 4 r.data_type h.data_type) (
            Inverse-seq _ _ (Inverse-integer 4 r.flags h.flags) (
              Inverse-seq _ _ (Inverse-integer 8 r.version h.version)
                (Inverse-expect valid (Inverse-give r))))))))
