-- ===== src/Control/Task.antt =====
-- agent-runtime/src/control_protocol.cpp: encode_task and decode_task.
use agent_nucleus.Prelude.{
  ℕ, ◌-◌, ◌^◌, Bool, true, false, not, ◌&&◌, ◌||◌, Option, none, some, length, is_empty, ltb, ◌==◌,
  if◌then◌else◌, u32_mod, u64_mod,
}
use agent_nucleus.Prelude.Int.{pos, negsuc, ltb_ℤ}
use agent_nucleus.Types.{
  AgentTaskSpec, InvocationSpec, InvocationKind, model, tool, unnamed, kind_is_named,
}
use agent_nucleus.Wire.Writer
use agent_nucleus.Wire.Writer.{◌>=>◌, done, check}
use agent_nucleus.Wire.Reader
use agent_nucleus.Wire.Reader.{◌>>-◌, give, expect, repeat}
use agent_nucleus.Wire.Signed.{to_bits, of_bits}

abbrev pub max_collection_elements : ℕ
max_collection_elements = 4096

abbrev pub kind_code : InvocationKind → ℕ
kind_code model = 1
kind_code tool = 2
kind_code (unnamed v) = v

abbrev pub kind_of_code : ℕ → InvocationKind
kind_of_code v = if v == 1 then model else if v == 2 then tool else unnamed v

abbrev pub invocation_is_bad : Option InvocationSpec → Bool
invocation_is_bad none = false
invocation_is_bad (some v) = is_empty v.target || is_empty v.operation || not (kind_is_named v.kind)

abbrev pub is_present : Option InvocationSpec → Bool
is_present none = false
is_present (some v) = true

-- The test at the head of encode_task.
abbrev pub task_is_invalid : AgentTaskSpec → Bool
task_is_invalid task =
    ltb_ℤ task.priority (negsuc (2 ^ 31 - 1))
    || ltb_ℤ (pos (2 ^ 31 - 1)) task.priority
    || ltb_ℤ task.resources.timeout (pos 0)
    || (not (is_empty task.command) && is_present task.invocation)
    || invocation_is_bad task.invocation

unfoldable pub encode_invocation : Option InvocationSpec → Writer.Writer
encode_invocation none = Writer.u8 0 >=> done
encode_invocation (some v) =
    Writer.u8 1
    >=> Writer.u8 (kind_code v.kind)
    >=> Writer.u64 v.context_id
    >=> Writer.string v.target
    >=> Writer.string v.operation
    >=> Writer.string v.payload
    >=> done

unfoldable pub encode_collections : AgentTaskSpec → Writer.Writer
encode_collections task =
    Writer.u32 (length task.dependencies)
    >=> Writer.each Writer.u64 task.dependencies
    >=> Writer.u32 (length task.command)
    >=> Writer.each Writer.string task.command
    >=> encode_invocation task.invocation
    >=> done

unfoldable pub encode_task : AgentTaskSpec → Writer.Writer
encode_task task = check (not (task_is_invalid task)) (
    Writer.u64 task.id
    >=> Writer.u64 task.parent_id
    >=> Writer.u32 (to_bits u32_mod task.priority)
    >=> Writer.u32 task.resources.cpu_threads
    >=> Writer.u64 task.resources.memory_bytes
    >=> Writer.u64 (to_bits u64_mod task.resources.timeout)
    >=> Writer.u32 task.retry_limit
    >=> Writer.string task.name
    >=> Writer.string task.kind
    >=> check
        (not (
          ltb max_collection_elements (length task.dependencies)
          || ltb max_collection_elements (length task.command)))
        (encode_collections task))

-- An invocation that follows the byte 1.
unfoldable pub decode_present : Reader.Reader (Option InvocationSpec)
decode_present = Reader.u8 >>- λ kind. expect (not (ltb kind 1 || ltb 2 kind)) (
    Reader.u64 >>- λ context_id. Reader.string >>- λ target. Reader.string >>- λ operation.
    Reader.string >>- λ payload. expect (not (is_empty target || is_empty operation)) (
      give (
        some (record {
          kind = kind_of_code kind;
          target = target;
          operation = operation;
          payload = payload;
          context_id = context_id;
        }))))

unfoldable pub decode_invocation : Reader.Reader (Option InvocationSpec)
decode_invocation = Reader.u8 >>- λ has_invocation.
    expect (not (ltb 1 has_invocation)) (if has_invocation == 1 then decode_present else give none)

unfoldable pub decode_task : Reader.Reader AgentTaskSpec
decode_task = Reader.u64 >>- λ id. Reader.u64 >>- λ parent_id. Reader.u32 >>- λ priority.
    Reader.u32 >>- λ cpu_threads. Reader.u64 >>- λ memory_bytes. Reader.u64 >>- λ timeout_ms.
    Reader.u32 >>- λ retry_limit. Reader.string >>- λ name. Reader.string >>- λ kind.
    expect (not (ltb (2 ^ 63 - 1) timeout_ms)) (
      Reader.u32 >>- λ dependency_count.
      expect (not (ltb max_collection_elements dependency_count)) (
        repeat dependency_count Reader.u64 >>- λ dependencies. Reader.u32 >>- λ command_count.
        expect (not (ltb max_collection_elements command_count)) (
          repeat command_count Reader.string >>- λ command. decode_invocation >>- λ invocation.
          give (record {
            id = id;
            parent_id = parent_id;
            name = name;
            kind = kind;
            priority = of_bits u32_mod priority;
            dependencies = dependencies;
            resources = record {
              cpu_threads = cpu_threads;
              memory_bytes = memory_bytes;
              timeout = pos timeout_ms;
            };
            retry_limit = retry_limit;
            command = command;
            invocation = invocation;
          }))))
