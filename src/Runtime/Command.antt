-- ===== src/Runtime/Command.antt =====
-- agent-runtime/src/runtime.cpp: how execute publishes an output, and how it runs a command.
use agent_nucleus.Prelude.{
  ℕ, zero, suc, ◌+◌, ◌/◌, ◌%◌, Bool, not, ◌&&◌, Option, none, some, [], ◌∷◌, ◌++◌, ltb,
  if◌then◌else◌, Bytes, codes,
}
use Prim.Native.Nat.{bit_or}
use agent_nucleus.Prelude.Int.{ℤ, pos, negsuc}
use agent_nucleus.Results.Region.{SharedMemoryRegion, is_valid}
use agent_nucleus.Results.Store.{publish}
use agent_nucleus.Scheduler.State.{Scheduler, accepted, rejected}
use agent_nucleus.Scheduler.Lifecycle.{mark_running}
use agent_nucleus.Runtime.State.{
  no_region, AgentExecutionResult, succeeded, failed_with, RuntimeConfig, ProcessResult,
  AgentRuntime, World,
}

-- std::to_string of an int, which has at most ten digits.
unfoldable pub digits : ℕ → ℕ → Bytes → Bytes
digits zero n rest = rest
digits (suc fuel) n rest =
    let more = digits fuel (n / 10) ((48 + n % 10) ∷ rest) in
    if ltb n 10 then (48 + n) ∷ rest else more

unfoldable pub decimal : ℤ → Bytes
decimal (pos n) = digits 10 n []
decimal (negsuc n) = 45 ∷ digits 10 (suc n) []

abbrev pub shared_buffer_truncated : ℕ
shared_buffer_truncated = 1

abbrev pub shared_buffer_stdout_stderr : ℕ
shared_buffer_stdout_stderr = 4

abbrev pub text_utf8 : ℕ
text_utf8 = 1

-- The call of publish that all executions end with; `answer` is what follows it.
unfoldable pub publish_output :
    World
    → ℕ
    → SharedMemoryRegion
    → ℕ
    → ℕ
    → ℕ
    → AgentExecutionResult
    → AgentRuntime
    → AgentRuntime × AgentExecutionResult
publish_output w id region len data_type flags answer rt =
    let published = publish w.resizing w.sealing id region len data_type flags rt.result_store in
    (
      record rt { result_store = published.1 },
      if published.0 then answer else failed_with w.publish_error,
    )

-- The output of a handler or of the backend, cut to the limit.
abbrev pub is_cut : RuntimeConfig → ℕ → Bool
is_cut config len = ltb 0 config.max_agent_output_bytes && ltb config.max_agent_output_bytes len

abbrev pub cut_length : RuntimeConfig → ℕ → ℕ
cut_length config len = if is_cut config len then config.max_agent_output_bytes else len

abbrev pub cut_flags : RuntimeConfig → ℕ → ℕ → ℕ
cut_flags config len flags =
    if is_cut config len then bit_or flags shared_buffer_truncated else flags

-- The callback of the process: the cgroup, then the scheduler. `none` is an answer of true.
unfoldable pub on_started : RuntimeConfig → World → ℕ → ℤ → Scheduler → Scheduler × Option Bytes
on_started config w id process_id s =
    let (t, verdict) = mark_running id process_id w.now s in
    let answer : Option Bytes = elim verdict [
      | accepted ↦ none
      | rejected e ↦ some (w.describe e)
    ] in
    if not config.enable_cgroups
    then (t, answer)
    else elim w.attach [ none ↦ (t, answer) | some error ↦ (s, some error) ]

-- The last test of an exit code, and its success.
unfoldable pub exit_answer : ℤ → AgentExecutionResult
exit_answer (pos zero) = succeeded
exit_answer code = failed_with (codes "agent process exited with code " ++ decimal code)

-- The returns after the process has ended.
unfoldable pub process_answer : ProcessResult → AgentExecutionResult
process_answer result =
    if not result.started
    then failed_with result.error
    else if result.timed_out
    then failed_with (codes "agent process timed out")
    else exit_answer result.exit_code

-- After the run: the output, then the answer.
unfoldable pub finish_command :
    World
    → ℕ
    → SharedMemoryRegion
    → ProcessResult
    → AgentRuntime
    → AgentRuntime × AgentExecutionResult
finish_command w id region result rt =
    if result.started && is_valid region
    then publish_output w id region result.output_bytes text_utf8
        (if result.output_truncated
          then bit_or shared_buffer_stdout_stderr shared_buffer_truncated
          else shared_buffer_stdout_stderr)
        (process_answer result) rt
    else (rt, process_answer result)

unfoldable pub run_command :
    RuntimeConfig
    → World
    → ℕ
    → SharedMemoryRegion
    → AgentRuntime
    → AgentRuntime × AgentExecutionResult
run_command config w id region rt =
    let called : Scheduler × Option Bytes = elim w.process_id [
      | none ↦ (rt.scheduler, none)
      | some p ↦ on_started config w id p rt.scheduler
    ] in
    finish_command w id region (w.run called.1) (record rt { scheduler = w.meanwhile called.0 })

unfoldable pub execute_command :
    RuntimeConfig → World → ℕ → AgentRuntime → AgentRuntime × AgentExecutionResult
execute_command config w id rt =
    let wanted = ltb 0 config.max_agent_output_bytes in
    let region = if wanted then w.created_region else no_region in
    if wanted && not (is_valid region)
    then (rt, failed_with w.create_error)
    else if not config.enable_cgroups
    then run_command config w id region rt
    else elim w.create_agent_group [
      | none ↦ run_command config w id region rt
      | some error ↦ (rt, failed_with error)
    ]
