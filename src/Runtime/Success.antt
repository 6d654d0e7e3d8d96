-- ===== src/Runtime/Success.antt =====
-- When execute of agent-runtime/src/runtime.cpp reports the success of a command.
use agent_nucleus.Prelude.{
  ℕ, zero, suc, ◌≡◌, refl, sym, ◌∙◌, true, false, not, ◌&&◌, ◌||◌, Option, none, some, ◌==◌,
  ==_refl, ltb, ◌⊎◌, if◌then◌else◌, inl, inr, Bool-cases, Bytes, arith,
}
use agent_nucleus.Prelude.Int.{ℤ, pos, negsuc}
use Prim.Native.Nat.{bit_or}
use mathlib.Core.Bool.{false≢true}
use agent_nucleus.Table.{lookup}
use agent_nucleus.Results.Region.{SharedMemoryRegion, is_valid}
use agent_nucleus.Results.Store.{StoredResult, ResultStore, publish, retain, reference_to}
use agent_nucleus.Runtime.State.{
  no_region, AgentExecutionResult, failed_with, RuntimeConfig, AgentRuntime, World, ProcessResult,
}
use agent_nucleus.Runtime.Kept.{either, cases}
use agent_nucleus.Runtime.Command.{
  shared_buffer_truncated, shared_buffer_stdout_stderr, text_utf8, publish_output, exit_answer,
  process_answer, finish_command, run_command, execute_command,
}

-- A result of the agent is stored, of the length `len`.
abbrev pub IsOutput : ℕ → ℕ → ResultStore → Type 0
IsOutput id len results =
    (x : StoredResult) × (lookup id results ≡ some x) × (x.reference.len ≡ len)

-- The process ran to its end with the code 0, and its output is stored where outputs are kept.
pub record IsSuccess (config : RuntimeConfig) (id : ℕ) (result : ProcessResult) (rt : AgentRuntime)
    : Type 0 where
  pub started : result.started ≡ true
  pub in_time : result.timed_out ≡ false
  pub exited : result.exit_code ≡ pos 0
  pub stored :
      (ltb 0 config.max_agent_output_bytes ≡ false)
      ⊎ IsOutput id result.output_bytes rt.result_store

publish-IsOutput :
    (w : World) (id : ℕ) (region : SharedMemoryRegion) (len data_type flags : ℕ)
    (results : ResultStore)
    → (publish w.resizing w.sealing id region len data_type flags results).0 ≡ true
    → IsOutput id len (publish w.resizing w.sealing id region len data_type flags results).1
unfolding publish lookup
publish-IsOutput w id region len data_type flags results h =
    let kept = retain w.resizing w.sealing len region in
    let r : StoredResult = record {
      region = kept.1;
      reference = reference_to kept.1 len data_type flags;
    } in
    elim (Bool-cases (id == 0 || not (is_valid region) || ltb region.size len)) [
      | inl refused ↦ absurd (false≢true (rw refused at h))
      | inr fine ↦ elim (Bool-cases (retain w.resizing w.sealing len region).0) [
        | inl done ↦ rw (fine, done) (r, rw (==_refl id) refl, refl)
        | inr failed ↦ absurd (false≢true (rw (fine, failed) at h))
      ]
    ]

exit_zero : (code : ℤ) → (exit_answer code).success ≡ true → code ≡ pos 0
unfolding exit_answer
exit_zero (pos zero) h = refl
exit_zero (pos (suc n)) h = absurd (false≢true h)
exit_zero (negsuc n) h = absurd (false≢true h)

process_answer-ok :
    (r : ProcessResult)
    → (process_answer r).success ≡ true
    → (r.started ≡ true) × (r.timed_out ≡ false) × (r.exit_code ≡ pos 0)
unfolding process_answer
process_answer-ok r h = elim (Bool-cases r.started) [
  | inr never ↦ absurd (false≢true (rw never at h))
  | inl started ↦ elim (Bool-cases r.timed_out) [
    | inl late ↦ absurd (false≢true (rw (started, late) at h))
    | inr in_time ↦ (started, in_time, exit_zero r.exit_code (rw (started, in_time) at h))
  ]
]

finish_command-IsSuccess :
    (config : RuntimeConfig) (w : World) (id : ℕ) (region : SharedMemoryRegion) (r : ProcessResult)
    (rt : AgentRuntime)
    → (ltb 0 config.max_agent_output_bytes ≡ false) ⊎ (is_valid region ≡ true)
    → (finish_command w id region r rt).1.success ≡ true
    → IsSuccess config id r (finish_command w id region r rt).0
unfolding finish_command publish_output
finish_command-IsSuccess config w id region r rt kept h =
    let flags =
      if r.output_truncated
      then bit_or shared_buffer_stdout_stderr shared_buffer_truncated
      else shared_buffer_stdout_stderr in
    let published =
      publish w.resizing w.sealing id region r.output_bytes text_utf8 flags rt.result_store in
    elim (Bool-cases (r.started && is_valid region)) [
      | inl running ↦ elim (Bool-cases published.0) [
        | inl done ↦
            let (started, in_time, exited) = process_answer-ok r (rw (running, done) at h) in
            rw running (record {
              started = started;
              in_time = in_time;
              exited = exited;
              stored = inr (
                  publish-IsOutput w id region r.output_bytes text_utf8 flags rt.result_store done);
            })
        | inr failed ↦ absurd (false≢true (rw (running, failed) at h))
      ]
      | inr neither ↦
          let (started, in_time, exited) = process_answer-ok r (rw neither at h) in
          rw neither (record {
            started = started;
            in_time = in_time;
            exited = exited;
            stored = elim kept [ inl off ↦ inl off | inr valid ↦ absurd (ground arith) ];
          })
    ]

module _ (config : RuntimeConfig) (w : World) (id : ℕ)
    (admitted : (error : Bytes) → (w.run (some error)).started ≡ false) where
  -- If it is a success, it is that of the process that was let run.
  abbrev IsGood : AgentRuntime × AgentExecutionResult → Type 0
  IsGood r = r.1.success ≡ true → IsSuccess config id (w.run none) r.0

  IsGood-finish :
      (region : SharedMemoryRegion) (answer : Option Bytes) (rt : AgentRuntime)
      → (ltb 0 config.max_agent_output_bytes ≡ false) ⊎ (is_valid region ≡ true)
      → IsGood (finish_command w id region (w.run answer) rt)
  IsGood-finish region none rt kept h =
      finish_command-IsSuccess config w id region (w.run none) rt kept h
  IsGood-finish region (some error) rt kept h =
      let ran = finish_command-IsSuccess config w id region (w.run (some error)) rt kept h in
      absurd (false≢true (sym (admitted error) ∙ ran.started))

  IsGood-failed : (rt : AgentRuntime) (message : Bytes) → IsGood (rt, failed_with message)
  IsGood-failed rt message h = absurd (false≢true h)

  -- Where a process whose admission is refused is not started, a command is reported as a success
  -- only if its process, as it runs where the admission is not refused, started, did not time out
  -- and exited with the code 0, and, unless outputs are turned off, a result of the length that the
  -- process reported is stored for the agent.
  pub execute_command-IsSuccess :
      (rt : AgentRuntime)
      → (execute_command config w id rt).1.success ≡ true
      → IsSuccess config id (w.run none) (execute_command config w id rt).0
  unfolding execute_command run_command
  execute_command-IsSuccess rt =
      let wanted = ltb 0 config.max_agent_output_bytes in
      let region = if wanted then w.created_region else no_region in
      elim (Bool-cases (wanted && not (is_valid region))) [
        | inl missing ↦ rw missing (IsGood-failed rt w.create_error)
        | inr fine ↦
            let kept : (wanted ≡ false) ⊎ (is_valid region ≡ true) = ground arith in
            let run : IsGood (run_command config w id region rt) = IsGood-finish region _ _ kept in
            rw fine (
              either IsGood (not config.enable_cgroups) _ _ run
                (cases IsGood w.create_agent_group _ _ run (λ error. IsGood-failed rt error)))
      ]
