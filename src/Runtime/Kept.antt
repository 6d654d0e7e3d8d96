-- ===== src/Runtime/Kept.antt =====
-- What execute of agent-runtime/src/runtime.cpp keeps of the scheduler: all that its calls keep.
use agent_nucleus.Prelude.{
  ℕ, Bool, true, false, not, Option, none, some, Bytes, ◌==◌, if◌then◌else◌,
}
use agent_nucleus.Prelude.Int.{ℤ, pos, negsuc, ltb_ℤ}
use agent_nucleus.Table.{erase}
use agent_nucleus.Types.{AgentSnapshot, InvocationSpec, AgentPerformanceMetrics}
use agent_nucleus.Invocation.Data.{InvocationResponse}
use agent_nucleus.Results.Region.{SharedMemoryRegion}
use agent_nucleus.Results.Store.{publish}
use agent_nucleus.Scheduler.State.{Scheduler, Verdict, accepted, rejected}
use agent_nucleus.Scheduler.Lifecycle.{mark_running, record_metrics, bind_process, bind_context}
use agent_nucleus.Runtime.State.{
  AgentExecutionResult, succeeded, failed_with, HandlerOutcome, returned, raised, raised_unknown,
  RuntimeConfig, InvocationCallResult, AgentRuntime, World,
}
use agent_nucleus.Runtime.Command.{
  cut_length, cut_flags, publish_output, on_started, finish_command, run_command, execute_command,
}
use agent_nucleus.Runtime.Execute.{
  without_immutable, finish_handler, run_handler, if_running, execute_handler, record_response,
  publish_response, finish_invocation, invoke, execute_invocation, execute, gather_inputs,
  request_of,
}

abbrev pub with_scheduler : AgentRuntime → Scheduler → AgentRuntime
with_scheduler rt s = record rt { scheduler = s }

-- What an execution of the agent `id` does keeps `Q`: the calls of the scheduler, what other threads
-- do, and publishing an output whose length is within `Bound`.
pub record KeptBy (config : RuntimeConfig) (w : World) (id : ℕ) (Bound : ℕ → Type 0)
    (Q : AgentRuntime → Type 0) : Type 0 where
  pub running :
      (p : ℤ) (rt : AgentRuntime)
      → Q rt
      → Q (with_scheduler rt (mark_running id p w.now rt.scheduler).0)
  pub metrics :
      (x : AgentPerformanceMetrics) (rt : AgentRuntime)
      → Q rt
      → Q (with_scheduler rt (record_metrics id x rt.scheduler).0)
  pub process :
      (p : ℤ) (rt : AgentRuntime) → Q rt → Q (with_scheduler rt (bind_process id p rt.scheduler).0)
  pub context :
      (c : ℕ) (rt : AgentRuntime) → Q rt → Q (with_scheduler rt (bind_context id c rt.scheduler).0)
  pub others : (rt : AgentRuntime) → Q rt → Q (with_scheduler rt (w.meanwhile rt.scheduler))
  pub published :
      (region : SharedMemoryRegion) (len data_type flags : ℕ) (rt : AgentRuntime)
      → Bound len
      → Q rt
      → Q (record rt {
        result_store =
            (publish w.resizing w.sealing id region len data_type flags rt.result_store).1;
      })
  pub cut : (len : ℕ) → Bound (cut_length config len)
  pub ran : (answer : Option Bytes) → Bound (w.run answer).output_bytes

-- Both branches of a test, and both cases of an option.
pub either : {A : Type 0} (P : A → Type 0) (b : Bool) (x y : A) → P x → P y → P (if b then x else y)
either P true x y h g = h
either P false x y h g = g

pub cases :
    {A B : Type 0} (P : B → Type 0) (o : Option A) (x : B) (f : A → B)
    → P x
    → ((a : A) → P (f a))
    → P (elim o [ none ↦ x | some a ↦ f a ])
cases P none x f h g = h
cases P (some a) x f h g = g a

module _ (config : RuntimeConfig) (w : World) (snapshot : AgentSnapshot) (Bound : ℕ → Type 0)
    (Q : AgentRuntime → Type 0) (kept : KeptBy config w snapshot.spec.id Bound Q) where
  record Keeps (r : AgentRuntime × AgentExecutionResult) : Type 0 where
    left : Q r.0

  -- The scheduler that a step leaves, in place of that of `rt`.
  record Moves (rt : AgentRuntime) (r : Scheduler × Option Bytes) : Type 0 where
    moved : Q (with_scheduler rt r.0)

  on_started-Moves :
      (p : ℤ) (rt : AgentRuntime)
      → Q rt
      → Moves rt (on_started config w snapshot.spec.id p rt.scheduler)
  unfolding on_started
  on_started-Moves p rt h =
      let run = kept.running p rt h in
      either (Moves rt) _ _ _ (record { moved = run })
        (cases (Moves rt) _ _ _ (record { moved = run }) (λ error. record { moved = h }))

  publish_output-Keeps :
      (region : SharedMemoryRegion) (len data_type flags : ℕ) (answer : AgentExecutionResult)
      (rt : AgentRuntime)
      → Bound len
      → Q rt
      → Keeps (publish_output w snapshot.spec.id region len data_type flags answer rt)
  unfolding publish_output
  publish_output-Keeps region len data_type flags answer rt small h = record {
    left = kept.published region len data_type flags rt small h;
  }

  run_command-Keeps :
      (region : SharedMemoryRegion) (rt : AgentRuntime)
      → Q rt
      → Keeps (run_command config w snapshot.spec.id region rt)
  unfolding run_command finish_command
  run_command-Keeps region rt h =
      let called : Scheduler × Option Bytes = elim w.process_id [
        | none ↦ (rt.scheduler, none)
        | some p ↦ on_started config w snapshot.spec.id p rt.scheduler
      ] in
      let moves : Moves rt called =
        cases (Moves rt) _ _ _ (record { moved = h }) (λ p. on_started-Moves p rt h) in
      let after = with_scheduler rt (w.meanwhile called.0) in
      let g = kept.others (with_scheduler rt called.0) moves.moved in
      either Keeps _ _ _
        (publish_output-Keeps region (w.run called.1).output_bytes _ _ _ after (kept.ran called.1)
          g)
        (record { left = g })

  execute_command-Keeps :
      (rt : AgentRuntime) → Q rt → Keeps (execute_command config w snapshot.spec.id rt)
  unfolding execute_command
  execute_command-Keeps rt h =
      let run = run_command-Keeps _ rt h in
      either Keeps _ _ _ (record { left = h })
        (either Keeps _ _ _ run (cases Keeps _ _ _ run (λ error. record { left = h })))

  run_handler-Keeps :
      (outcome : HandlerOutcome) (rt : AgentRuntime)
      → Q rt
      → Keeps (run_handler config w snapshot.spec.id outcome rt)
  unfolding run_handler finish_handler
  run_handler-Keeps (returned result) rt h =
      either Keeps _ _ _
        (either Keeps _ _ _ (record { left = h })
          (publish_output-Keeps result.output _ _ _ _ rt (kept.cut result.output_length) h))
        (either Keeps _ _ _ (record { left = h }) (record { left = h }))
  run_handler-Keeps (raised what) rt h = record { left = h }
  run_handler-Keeps raised_unknown rt h = record { left = h }

  if_running-Keeps :
      (rest : AgentRuntime → AgentRuntime × AgentExecutionResult) (rt : AgentRuntime)
      → ((u : AgentRuntime) → Q u → Keeps (rest u))
      → Q rt
      → Keeps (if_running w snapshot.spec.id rest rt)
  unfolding if_running
  if_running-Keeps rest rt next h =
      by_verdict (mark_running snapshot.spec.id (negsuc 0) w.now rt.scheduler).1
    where
      started : AgentRuntime
      started = with_scheduler rt (mark_running snapshot.spec.id (negsuc 0) w.now rt.scheduler).0

      by_verdict :
          (v : Verdict)
          → Keeps (elim v as (λ _. AgentRuntime × AgentExecutionResult) [
            | accepted ↦ rest (
                with_scheduler rt
                  (w.meanwhile (mark_running snapshot.spec.id (negsuc 0) w.now rt.scheduler).0))
            | rejected e ↦ (
              with_scheduler rt (mark_running snapshot.spec.id (negsuc 0) w.now rt.scheduler).0,
              failed_with (w.describe e),
            )
          ])
      by_verdict accepted = next _ (kept.others _ (kept.running (negsuc 0) rt h))
      by_verdict (rejected e) = record { left = kept.running (negsuc 0) rt h }

  record_response-kept :
      (r : InvocationResponse) (rt : AgentRuntime)
      → Q rt
      → Q (with_scheduler rt (record_response snapshot.spec.id r rt.scheduler))
  record_response-kept r rt h =
      let P : Scheduler → Type 0 = λ s. Q (with_scheduler rt s) in
      let bound =
        if ltb_ℤ r.process_id (pos 0)
        then rt.scheduler
        else (bind_process snapshot.spec.id r.process_id rt.scheduler).0 in
      let g : P bound = either P _ _ _ h (kept.process r.process_id rt h) in
      either P _ _ _ g (kept.context r.context_id (with_scheduler rt bound) g)

  publish_response-Keeps :
      (result : InvocationCallResult) (rt : AgentRuntime)
      → Q rt
      → Keeps (publish_response config w snapshot.spec.id result rt)
  unfolding publish_response
  publish_response-Keeps result rt h =
      let r = result.response in
      let answer = record succeeded { message = r.message } in
      let published =
        publish_output w snapshot.spec.id result.output (cut_length config r.output.len)
          r.output.data_type (cut_flags config r.output.len (without_immutable r.output.flags))
          answer rt in
      let small = kept.cut r.output.len in
      either Keeps (not r.output_available) (rt, answer) _ (record { left = h })
        (either Keeps (not (r.output.offset == 0)) _ published (record { left = h })
          (publish_output-Keeps result.output _ _ _ _ rt small h))

  finish_invocation-Keeps :
      (result : InvocationCallResult) (rt : AgentRuntime)
      → Q rt
      → Keeps (finish_invocation config w snapshot.spec.id result rt)
  unfolding finish_invocation
  finish_invocation-Keeps result rt h =
      let r = result.response in
      let measured = with_scheduler rt (record_metrics snapshot.spec.id r.metrics rt.scheduler).0 in
      let g = kept.metrics r.metrics rt h in
      either Keeps _ _ _ (record { left = g })
        (publish_response-Keeps result
          (with_scheduler measured (record_response snapshot.spec.id r measured.scheduler))
          (record_response-kept r measured g))

  invoke-Keeps :
      (spec : InvocationSpec) (rt : AgentRuntime)
      → Q rt
      → Keeps (invoke config w snapshot.spec spec rt)
  unfolding invoke
  invoke-Keeps spec rt h =
      let inputs = gather_inputs w rt.result_store snapshot.spec.dependencies in
      let request = request_of snapshot.spec spec inputs in
      either Keeps _ _ _ (record { left = h })
        (cases Keeps _ _ _ (finish_invocation-Keeps (w.call_result request) rt h)
          (λ error. record { left = h }))

  pub execute-kept :
      (rt : AgentRuntime)
      → Q (record rt { result_store = erase snapshot.spec.id rt.result_store })
      → Q (execute config w snapshot rt).0
  unfolding execute execute_invocation execute_handler
  execute-kept rt h =
      let fresh = record rt { result_store = erase snapshot.spec.id rt.result_store } in
      let all : Keeps (execute config w snapshot rt) =
        cases Keeps snapshot.spec.invocation _ _
          (either Keeps _ _ _ (execute_command-Keeps fresh h) (
            cases Keeps _ _ _ (record { left = h })
              (λ handler.
                if_running-Keeps (run_handler config w snapshot.spec.id (handler snapshot)) fresh
                  (run_handler-Keeps (handler snapshot)) h)))
          (λ spec.
            either Keeps _ _ _ (record { left = h })
              (if_running-Keeps (invoke config w snapshot.spec spec) fresh (invoke-Keeps spec)
                h)) in
      all.left
