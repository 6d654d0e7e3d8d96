-- ===== src/Runtime/Served.antt =====
-- A round of worker_loop of agent-runtime/src/runtime.cpp in a history of the scheduler.
use agent_nucleus.Prelude.{
  ℕ, ◌<◌, ◌≡◌, refl, sym, subst, Option, none, some, Option-cases, Bool-cases, inl, inr, u64_mod,
}
use agent_nucleus.Table.{lookup}
use agent_nucleus.Scheduler.State.{Scheduler, Verdict}
use agent_nucleus.Scheduler.Dispatch.{MemorySnapshot}
use agent_nucleus.Scheduler.Returns.{
  complete-IsReturned, fail-IsReturned, dispatch_locked-IsReturned,
}
use agent_nucleus.Scheduler.History.{
  Reachable, call, step, dispatches, marks_running, completes, fails, binds_context, binds_process,
  records_metrics, Reachable-ReadyMatches, Reachable-Closed,
}
use agent_nucleus.Runtime.State.{AgentExecutionResult, RuntimeConfig, AgentRuntime, World}
use agent_nucleus.Runtime.Execute.{execute}
use agent_nucleus.Runtime.Round.{report, run_dispatched, worker_round}
use agent_nucleus.Runtime.Kept.{KeptBy, execute-kept}
use agent_nucleus.Runtime.Rests.{IsResting, complete-rests, fail-rests}

abbrev pub IsLeft : Option ℕ → Scheduler → Type 0
IsLeft none s = Unit {0}
IsLeft (some id) s = IsResting id s.nodes

-- The round returns, in a scheduler that calls lead to, and no worker has the agent any more.
abbrev pub IsServed : Option (AgentRuntime × Option ℕ) → Type 0
IsServed none = ⊥
IsServed (some (rt, id)) = Reachable rt.scheduler × IsLeft id rt.scheduler

Reachable-KeptBy :
    (config : RuntimeConfig) (w : World) (id : ℕ)
    → ((s : Scheduler) → Reachable s → Reachable (w.meanwhile s))
    → KeptBy config w id (λ len. Unit {0}) (λ rt. Reachable rt.scheduler)
unfolding step
Reachable-KeptBy config w id others = record {
  running = λ p rt h. call h (marks_running id p w.now) tt refl;
  metrics = λ x rt h. call h (records_metrics id x) tt refl;
  process = λ p rt h. call h (binds_process id p) tt refl;
  context = λ c rt h. call h (binds_context id c) tt refl;
  others = λ rt h. others rt.scheduler h;
  published = λ region len data_type flags rt small h. h;
  cut = λ len. tt;
  ran = λ answer. tt;
}

-- What is reported of an agent is accepted or refused, and the agent rests.
IsReported : ℕ → Option (Scheduler × Verdict) → Type 0
IsReported id r =
    (t : Scheduler) × (v : Verdict) × (r ≡ some (t, v)) × Reachable t × IsResting id t.nodes

report-IsReported :
    (id later : ℕ) (result : AgentExecutionResult) (s : Scheduler)
    → Reachable s
    → IsReported id (report id later result s)
unfolding report IsReported step
report-IsReported id later result s h = elim (Bool-cases result.success) [
  | inl fine ↦
      let ((t, v), e) = complete-IsReturned id later s (Reachable-Closed s h) in
      (
        t,
        v,
        rw (fine, e) refl,
        call h (completes id later) tt (rw e refl),
        complete-rests id later s t v e,
      )
  | inr bad ↦
      let ((t, v), e) = fail-IsReturned id result.message later s (Reachable-Closed s h) in
      (
        t,
        v,
        rw (bad, e) refl,
        call h (fails id result.message later) tt (rw e refl),
        fail-rests id result.message later s t v e,
      )
]

run_dispatched-IsServed :
    (config : RuntimeConfig) (w : World) (later : ℕ) (selected : Option ℕ) (rt : AgentRuntime)
    → ((s : Scheduler) → Reachable s → Reachable (w.meanwhile s))
    → Reachable rt.scheduler
    → IsServed (run_dispatched config w later selected rt)
unfolding run_dispatched IsReported
run_dispatched-IsServed config w later none rt others h = (h, tt)
run_dispatched-IsServed config w later (some id) rt others h =
    elim (Option-cases (lookup id rt.scheduler.nodes)) [
      | inl nothing ↦ rw (nothing, IsServed, run_dispatched) (h, tt)
      | inr (node, found) ↦
          let done = execute config w node.snapshot rt in
          let g =
            execute-kept config w node.snapshot (λ len. Unit {0}) (λ u. Reachable u.scheduler)
              (Reachable-KeptBy config w node.snapshot.spec.id others) rt h in
          let (t, v, e, reached, rests) = report-IsReported id later done.1 done.0.scheduler g in
          let is : run_dispatched config w later (some id) rt
              ≡ some (record done.0 { scheduler = t }, some id) =
            rw (found, run_dispatched, e) refl in
          subst IsServed (sym is) (reached, rests)
    ]

-- On a scheduler that any history of calls has led to, a round of a worker returns, whatever the
-- process, the handler, the backend, the cgroups and the shared memory answer: no lookup throws. It
-- leaves a scheduler that a history leads to, so that its invariants hold, and an agent that it has
-- executed is neither dispatched, nor running, nor blocked. The sizes of the memory snapshot fit
-- their types, and what other threads do while the agent runs is a history of calls too.
pub worker_round-IsServed :
    (config : RuntimeConfig) (w : World) (m : MemorySnapshot) (dispatch_time later : ℕ)
    (rt : AgentRuntime)
    → m.available_cpu_threads < u64_mod
    → m.available_bytes < u64_mod
    → ((s : Scheduler) → Reachable s → Reachable (w.meanwhile s))
    → Reachable rt.scheduler
    → IsServed (worker_round config w m dispatch_time later rt)
unfolding worker_round step
worker_round-IsServed config w m dispatch_time later rt cpu bytes others h =
    let ((s, selected), e) =
      dispatch_locked-IsReturned m dispatch_time rt.scheduler
        (Reachable-ReadyMatches rt.scheduler h) in
    let is : worker_round config w m dispatch_time later rt
        ≡ run_dispatched config w later selected (record rt { scheduler = s }) =
      rw e refl in
    subst IsServed (sym is) (
      run_dispatched-IsServed config w later selected (record rt { scheduler = s }) others
        (call h (dispatches m dispatch_time) (cpu, bytes) (rw e refl)))
