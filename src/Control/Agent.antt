-- ===== src/Control/Agent.antt =====
-- agent-runtime/src/control_protocol.cpp: ControlAgentInfo and SharedBufferRef on the wire.
use agent_nucleus.Prelude.{ℕ, ◌-◌, Bool, not, ◌&&◌, ltb, leb, ◌==◌, if◌then◌else◌, u64_mod, Bytes}
use agent_nucleus.Prelude.Int.{ℤ}
use agent_nucleus.Types.{AgentState, state_code, state_of_code, cancelled, AgentPerformanceMetrics}
use agent_nucleus.Wire.Writer
use agent_nucleus.Wire.Writer.{◌>=>◌, done}
use agent_nucleus.Wire.Reader
use agent_nucleus.Wire.Reader.{◌>>-◌, give, expect}
use agent_nucleus.Wire.Signed.{to_bits, of_bits}

pub record ControlAgentInfo : Type 0 where
  pub id : ℕ
  pub parent_id : ℕ
  pub state : AgentState
  pub process_id : ℤ
  pub unresolved_dependencies : ℕ
  pub retry_count : ℕ
  pub context_id : ℕ
  pub metrics : AgentPerformanceMetrics
  pub name : Bytes
  pub kind : Bytes
  pub error : Bytes

pub record SharedBufferRef : Type 0 where
  pub region_id : ℕ
  pub region_size : ℕ
  pub offset : ℕ
  pub len : ℕ
  pub data_type : ℕ
  pub flags : ℕ
  pub version : ℕ

-- A default SharedBufferRef.
abbrev pub no_reference : SharedBufferRef
no_reference = record {
  region_id = 0;
  region_size = 0;
  offset = 0;
  len = 0;
  data_type = 0;
  flags = 0;
  version = 1;
}

-- `b ? 1 : 0`
abbrev pub bit : Bool → ℕ
bit b = if b then 1 else 0

-- The run of metrics in the middle of encode_agent.
unfoldable pub encode_metrics : AgentPerformanceMetrics → Writer.Writer
encode_metrics m =
    Writer.u64 m.queue_time_us
    >=> Writer.u64 m.execution_time_us
    >=> Writer.u64 m.input_tokens
    >=> Writer.u64 m.output_tokens
    >=> Writer.u64 m.reused_tokens
    >=> Writer.u64 m.cache_bytes
    >=> Writer.u8 (bit m.cache_hit)
    >=> done

unfoldable pub decode_metrics : Reader.Reader AgentPerformanceMetrics
decode_metrics = Reader.u64 >>- λ queue_time_us. Reader.u64 >>- λ execution_time_us.
    Reader.u64 >>- λ input_tokens. Reader.u64 >>- λ output_tokens. Reader.u64 >>- λ reused_tokens.
    Reader.u64 >>- λ cache_bytes. Reader.u8 >>- λ cache_hit. expect (not (ltb 1 cache_hit)) (
      give (record {
        queue_time_us = queue_time_us;
        execution_time_us = execution_time_us;
        input_tokens = input_tokens;
        output_tokens = output_tokens;
        reused_tokens = reused_tokens;
        cache_bytes = cache_bytes;
        cache_hit = cache_hit == 1;
      }))

unfoldable pub encode_agent : ControlAgentInfo → Writer.Writer
encode_agent agent =
    Writer.u64 agent.id
    >=> Writer.u64 agent.parent_id
    >=> Writer.u8 (state_code agent.state)
    >=> Writer.u64 (to_bits u64_mod agent.process_id)
    >=> Writer.u32 agent.unresolved_dependencies
    >=> Writer.u32 agent.retry_count
    >=> Writer.u64 agent.context_id
    >=> encode_metrics agent.metrics
    >=> Writer.string agent.name
    >=> Writer.string agent.kind
    >=> Writer.string agent.error
    >=> done

unfoldable pub decode_agent : Reader.Reader ControlAgentInfo
decode_agent = Reader.u64 >>- λ id. Reader.u64 >>- λ parent_id. Reader.u8 >>- λ state.
    Reader.u64 >>- λ process_id. Reader.u32 >>- λ unresolved_dependencies.
    Reader.u32 >>- λ retry_count. Reader.u64 >>- λ context_id. decode_metrics >>- λ metrics.
    Reader.string >>- λ name. Reader.string >>- λ kind. Reader.string >>- λ error.
    expect (not (ltb (state_code cancelled) state)) (
      give (record {
        id = id;
        parent_id = parent_id;
        state = state_of_code state;
        process_id = of_bits u64_mod process_id;
        unresolved_dependencies = unresolved_dependencies;
        retry_count = retry_count;
        context_id = context_id;
        metrics = metrics;
        name = name;
        kind = kind;
        error = error;
      }))

unfoldable pub encode_reference : SharedBufferRef → Writer.Writer
encode_reference reference =
    Writer.u64 reference.region_id
    >=> Writer.u64 reference.region_size
    >=> Writer.u64 reference.offset
    >=> Writer.u64 reference.len
    >=> Writer.u32 reference.data_type
    >=> Writer.u32 reference.flags
    >=> Writer.u64 reference.version
    >=> done

-- The tests of decode_reference.
abbrev pub reference_ok : SharedBufferRef → Bool
reference_ok r =
    r.version == 1
    && not (r.region_id == 0)
    && not (r.region_size == 0)
    && leb r.offset r.region_size
    && leb r.len (r.region_size - r.offset)

unfoldable pub decode_reference : Reader.Reader SharedBufferRef
decode_reference = Reader.u64 >>- λ region_id. Reader.u64 >>- λ region_size.
    Reader.u64 >>- λ offset. Reader.u64 >>- λ len. Reader.u32 >>- λ data_type.
    Reader.u32 >>- λ flags. Reader.u64 >>- λ version.
    let reference : SharedBufferRef = record {
      region_id = region_id;
      region_size = region_size;
      offset = offset;
      len = len;
      data_type = data_type;
      flags = flags;
      version = version;
    } in
    expect (reference_ok reference) (give reference)
