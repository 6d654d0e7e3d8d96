-- ===== src/Runtime/Execute.antt =====
-- agent-runtime/src/runtime.cpp: execute and execute_invocation.
use agent_nucleus.Prelude.{
  ℕ, not, none, some, List, [], ◌∷◌, ◌++◌, length, is_empty, ltb, ◌==◌, if◌then◌else◌, codes,
}
use Prim.Native.Nat.{bit_and}
use agent_nucleus.Prelude.Int.{pos, negsuc, ltb_ℤ}
use agent_nucleus.Table.{erase}
use agent_nucleus.Types.{invalid_context_id, AgentTaskSpec, AgentSnapshot, InvocationSpec}
use agent_nucleus.Invocation.Data.{
  InvocationRequest, InvocationResponse, InvocationInput, max_invocation_inputs, status_code,
}
use agent_nucleus.Results.Region.{is_valid}
use agent_nucleus.Results.Store.{ResultStore, acquire_result}
use agent_nucleus.Scheduler.State.{Scheduler, accepted, rejected}
use agent_nucleus.Scheduler.Lifecycle.{mark_running, record_metrics, bind_process, bind_context}
use agent_nucleus.Runtime.State.{
  AgentExecutionResult, succeeded, failed_with, HandlerOutcome, returned, raised, raised_unknown,
  RuntimeConfig, InvocationCallResult, AgentRuntime, World,
}
use agent_nucleus.Runtime.Command.{publish_output, cut_length, cut_flags, execute_command}

-- What a handler returned.
unfoldable pub finish_handler :
    RuntimeConfig
    → World
    → ℕ
    → AgentExecutionResult
    → AgentRuntime
    → AgentRuntime × AgentExecutionResult
finish_handler config w id result rt =
    if is_valid result.output
    then (if ltb result.output.size result.output_length
        then (rt, failed_with (codes "agent handler output exceeds its shared region"))
        else publish_output w id result.output (cut_length config result.output_length)
            result.output_type (cut_flags config result.output_length result.output_flags) result
            rt)
    else if not (result.output_length == 0)
    then (rt, failed_with (codes "agent handler returned output without a region"))
    else (rt, result)

unfoldable pub run_handler :
    RuntimeConfig → World → ℕ → HandlerOutcome → AgentRuntime → AgentRuntime × AgentExecutionResult
run_handler config w id (returned result) rt = finish_handler config w id result rt
run_handler config w id (raised what) rt = (rt, failed_with what)
run_handler config w id raised_unknown rt =
    (rt, failed_with (codes "agent handler raised an unknown exception"))

-- mark_running without a process, then what follows it.
unfoldable pub if_running :
    World
    → ℕ
    → (AgentRuntime → AgentRuntime × AgentExecutionResult)
    → AgentRuntime
    → AgentRuntime × AgentExecutionResult
if_running w id rest rt =
    let (s, verdict) = mark_running id (negsuc 0) w.now rt.scheduler in
    elim verdict [
      | accepted ↦ rest (record rt { scheduler = w.meanwhile s })
      | rejected e ↦ (record rt { scheduler = s }, failed_with (w.describe e))
    ]

unfoldable pub execute_handler :
    RuntimeConfig → World → AgentSnapshot → AgentRuntime → AgentRuntime × AgentExecutionResult
execute_handler config w snapshot rt = elim (w.handlers snapshot.spec.kind) [
  | none ↦ (rt, failed_with (codes "no handler registered for kind: " ++ snapshot.spec.kind))
  | some handler ↦
      if_running w snapshot.spec.id (run_handler config w snapshot.spec.id (handler snapshot)) rt
]

-- The results of the dependencies that have one, in their order.
unfoldable pub gather_inputs : World → ResultStore → List ℕ → List InvocationInput
gather_inputs w results [] = []
gather_inputs w results (d ∷ ds) =
    let rest = gather_inputs w results ds in
    elim (acquire_result (w.duplicated d) d results) [
      | none ↦ rest
      | some reference ↦ record { producer_id = d; reference = reference } ∷ rest
    ]

abbrev pub request_of : AgentTaskSpec → InvocationSpec → List InvocationInput → InvocationRequest
request_of task spec inputs = record {
  agent_id = task.id;
  parent_id = task.parent_id;
  kind = spec.kind;
  target = spec.target;
  operation = spec.operation;
  payload = spec.payload;
  context_id = spec.context_id;
  priority = task.priority;
  resources = task.resources;
  inputs = inputs;
}

-- What the scheduler records of a response; the answers are ignored.
abbrev pub record_response : ℕ → InvocationResponse → Scheduler → Scheduler
record_response id r s =
    let bound = if ltb_ℤ r.process_id (pos 0) then s else (bind_process id r.process_id s).0 in
    if r.context_id == invalid_context_id then bound else (bind_context id r.context_id bound).0

-- `flags & ~shared_buffer_immutable` on uint32_t.
abbrev pub without_immutable : ℕ → ℕ
without_immutable flags = bit_and flags 4_294_967_293

-- The end of execute_invocation: the output of the response.
unfoldable pub publish_response :
    RuntimeConfig
    → World
    → ℕ
    → InvocationCallResult
    → AgentRuntime
    → AgentRuntime × AgentExecutionResult
publish_response config w id result rt =
    let r = result.response in
    let answer = record succeeded { message = r.message } in
    if not r.output_available
    then (rt, answer)
    else if not (r.output.offset == 0)
    then (rt, failed_with (codes "invocation backend returned a non-zero output offset"))
    else publish_output w id result.output (cut_length config r.output.len) r.output.data_type
        (cut_flags config r.output.len (without_immutable r.output.flags)) answer rt

unfoldable pub finish_invocation :
    RuntimeConfig
    → World
    → ℕ
    → InvocationCallResult
    → AgentRuntime
    → AgentRuntime × AgentExecutionResult
finish_invocation config w id result rt =
    let r = result.response in
    let s = (record_metrics id r.metrics rt.scheduler).0 in
    if not (status_code r.status == 0)
    then (
      record rt { scheduler = s },
      failed_with (if is_empty r.message then codes "model/tool invocation failed" else r.message),
    )
    else publish_response config w id result (record rt { scheduler = record_response id r s })

unfoldable pub invoke :
    RuntimeConfig
    → World
    → AgentTaskSpec
    → InvocationSpec
    → AgentRuntime
    → AgentRuntime × AgentExecutionResult
invoke config w task spec rt =
    let inputs = gather_inputs w rt.result_store task.dependencies in
    let request = request_of task spec inputs in
    if ltb max_invocation_inputs (length inputs)
    then (rt, failed_with (codes "invocation has too many dependency results"))
    else elim (w.invoke_error request) [
      | some error ↦ (rt, failed_with error)
      | none ↦ finish_invocation config w task.id (w.call_result request) rt
    ]

unfoldable pub execute_invocation :
    RuntimeConfig
    → World
    → AgentTaskSpec
    → InvocationSpec
    → AgentRuntime
    → AgentRuntime × AgentExecutionResult
execute_invocation config w task spec rt =
    if is_empty config.invocation_socket
    then (rt, failed_with (codes "no model/tool invocation backend is configured"))
    else if_running w task.id (invoke config w task spec) rt

unfoldable pub execute :
    RuntimeConfig → World → AgentSnapshot → AgentRuntime → AgentRuntime × AgentExecutionResult
execute config w snapshot rt =
    let task = snapshot.spec in
    let fresh = record rt { result_store = erase task.id rt.result_store } in
    elim task.invocation [
      | some spec ↦ execute_invocation config w task spec fresh
      | none ↦
          if not (is_empty task.command)
          then execute_command config w task.id fresh
          else execute_handler config w snapshot fresh
    ]
