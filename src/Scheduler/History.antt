-- ===== src/Scheduler/History.antt =====
-- Histories of agent-runtime/src/scheduler.cpp: any sequence of calls of the public operations, in
-- any order and with any arguments, from an empty scheduler.
use agent_nucleus.Prelude.{
  ℕ, ◌<◌, ◌≡◌, refl, subst, Bool, true, false, Option, none, some, List, [], ◌∷◌, All, arith, Bytes,
  u64_mod, ◌>>=◌, Option-cases, inl, inr, some-inj, >>=-eq-some,
}
use agent_nucleus.Prelude.Int.{ℤ}
use agent_nucleus.Table.{lookup}
use agent_nucleus.Types.{AgentTaskSpec, AgentPerformanceMetrics}
use agent_nucleus.Scheduler.State.{Scheduler, Verdict, empty_scheduler}
use agent_nucleus.Scheduler.Dispatch.{MemorySnapshot, dispatch_locked}
use agent_nucleus.Scheduler.Lifecycle.{
  mark_running, mark_blocked, wake, complete, fail, cancel, bind_context, bind_process,
  record_metrics,
}
use agent_nucleus.Scheduler.Submit.{submit_batch, spawn}
use agent_nucleus.Scheduler.Changes.{Changes, here, Changes-trans, Changes-keep}
use agent_nucleus.Scheduler.Invariants.{
  ReadyMatches, Covered, NoInvalidId, Change-ReadyMatches, Change-Covered, Change-NoInvalidId,
}
use agent_nucleus.Scheduler.Refine.Agent.{
  Returns, mark_running-Changes, mark_blocked-Changes, wake-Changes, complete-Changes, fail-Changes,
  cancel-Changes, assign_live-Changes,
}
use agent_nucleus.Scheduler.Closed.{Closed, Change-Closed}
use agent_nucleus.Scheduler.Returns.{
  IsReturned, complete-IsReturned, cancel-IsReturned, fail-IsReturned, dispatch_locked-IsReturned,
}
use agent_nucleus.Scheduler.Refine.Dispatch.{dispatch_locked-Changes}
use agent_nucleus.Scheduler.Refine.Submit.{submit_batch-Changes, spawn-Changes}

-- submit is submit_batch of one task; try_dispatch and wait_dispatch are dispatch_locked.
pub data Call : Type 0 where
  submits : List AgentTaskSpec → ℕ → Call
  spawns : ℕ → AgentTaskSpec → ℕ → Call
  dispatches : MemorySnapshot → ℕ → Call
  marks_running : ℕ → ℤ → ℕ → Call
  marks_blocked wakes : ℕ → Call
  completes cancels : ℕ → ℕ → Call
  fails : ℕ → Bytes → ℕ → Call
  binds_context : ℕ → ℕ → Call
  binds_process : ℕ → ℤ → Call
  records_metrics : ℕ → AgentPerformanceMetrics → Call

abbrev state_of {ℓ} : {A : Type ℓ} → Option (Scheduler × A) → Option Scheduler
state_of r = r >>= λ p. some p.0

unfoldable pub step : Call → Scheduler → Option Scheduler
step (submits tasks now) s = state_of (submit_batch tasks now s)
step (spawns parent task now) s = state_of (spawn parent task now s)
step (dispatches m now) s = state_of (dispatch_locked m now s)
step (marks_running id process now) s = some (mark_running id process now s).0
step (marks_blocked id) s = some (mark_blocked id s).0
step (wakes id) s = some (wake id s).0
step (completes id now) s = state_of (complete id now s)
step (cancels id now) s = state_of (cancel id now s)
step (fails id message now) s = state_of (fail id message now s)
step (binds_context id context) s = some (bind_context id context s).0
step (binds_process id process) s = some (bind_process id process s).0
step (records_metrics id metrics) s = some (record_metrics id metrics s).0

-- The members of MemorySnapshot are a uint32_t and a uint64_t.
abbrev pub InRange : Call → Type 0
InRange (dispatches m now) = (m.available_cpu_threads < u64_mod) × (m.available_bytes < u64_mod)
InRange _ = Unit {0}

pub data Reachable : Scheduler → Type 0 where
  start : Reachable empty_scheduler
  call : {s t : Scheduler} → Reachable s → (c : Call) → InRange c → step c s ≡ some t → Reachable t

-- A sequence of calls.
unfoldable pub run : List Call → Scheduler → Option Scheduler
unfolding step
run [] s = some s
run (c ∷ cs) s = step c s >>= run cs

pub run-Reachable :
    (cs : List Call) (s t : Scheduler)
    → Reachable s
    → All InRange cs
    → run cs s ≡ some t
    → Reachable t
unfolding run
run-Reachable [] s t r range e = subst Reachable (some-inj e) r
run-Reachable (c ∷ cs) s t r range e =
    let (u, first, rest) = >>=-eq-some (step c s) (run cs) e in
    run-Reachable cs u t (call r c range.0 first) range.1 rest

Returns-state :
    (s t : Scheduler) (r : Option (Scheduler × Verdict))
    → Returns s r
    → state_of r ≡ some t
    → Changes s t
Returns-state s t none h e = cc
Returns-state s t (some r) h e = subst (Changes s) (some-inj e) h

dispatch-Changes :
    (m : MemorySnapshot) (now : ℕ) (s t : Scheduler)
    → InRange (dispatches m now)
    → state_of (dispatch_locked m now s) ≡ some t
    → Changes s t
dispatch-Changes m now s t range e = elim (Option-cases (dispatch_locked m now s)) [
  | inl thrown ↦ absurd (cc)
  | inr ((u, r), found) ↦
      dispatch_locked-Changes m now s t r range.0 range.1
        (subst (λ v. dispatch_locked m now s ≡ some (v, r)) (some-inj (rw found at e)) found)
]

step-Changes : (c : Call) (s t : Scheduler) → InRange c → step c s ≡ some t → Changes s t
unfolding step bind_context bind_process record_metrics
step-Changes (submits tasks now) s t range e =
    Returns-state s t _ (submit_batch-Changes tasks now s) e
step-Changes (spawns parent task now) s t range e =
    Returns-state s t _ (spawn-Changes parent task now s) e
step-Changes (dispatches m now) s t range e = dispatch-Changes m now s t range e
step-Changes (marks_running id process now) s t range e =
    subst (Changes s) (some-inj e) (mark_running-Changes id process now s)
step-Changes (marks_blocked id) s t range e =
    subst (Changes s) (some-inj e) (mark_blocked-Changes id s)
step-Changes (wakes id) s t range e = subst (Changes s) (some-inj e) (wake-Changes id s)
step-Changes (completes id now) s t range e = Returns-state s t _ (complete-Changes id now s) e
step-Changes (cancels id now) s t range e = Returns-state s t _ (cancel-Changes id now s) e
step-Changes (fails id message now) s t range e =
    Returns-state s t _ (fail-Changes id message now s) e
step-Changes (binds_context id context) s t range e =
    subst (Changes s) (some-inj e) (assign_live-Changes _ _ _ id s (λ n. refl) (λ n. refl))
step-Changes (binds_process id process) s t range e =
    subst (Changes s) (some-inj e) (assign_live-Changes _ _ _ id s (λ n. refl) (λ n. refl))
step-Changes (records_metrics id metrics) s t range e =
    subst (Changes s) (some-inj e) (assign_live-Changes _ _ _ id s (λ n. refl) (λ n. refl))

Reachable-Changes : {s : Scheduler} → Reachable s → Changes empty_scheduler s
Reachable-Changes start = here
Reachable-Changes (call {s} {t} r c range e) =
    Changes-trans (Reachable-Changes r) (step-Changes c s t range e)

-- After any history an agent is in the ready set exactly when its state is READY or
-- WAITING_RESOURCE.
pub Reachable-ReadyMatches : (s : Scheduler) → Reachable s → ReadyMatches s
unfolding lookup
Reachable-ReadyMatches s r =
    Changes-keep ReadyMatches Change-ReadyMatches (Reachable-Changes r) (λ j. refl)

-- After any history each of the two reservation totals is at least the sum of the requests of the
-- agents that hold a reservation, and is below 2^64.
pub Reachable-Covered : (s : Scheduler) → Reachable s → Covered s
Reachable-Covered s r = Changes-keep Covered Change-Covered (Reachable-Changes r) (record {
  cpu_in_range = omega arith;
  memory_in_range = omega arith;
  cpu_covered = omega arith;
  memory_covered = omega arith;
})

-- After any history no agent is stored under the reserved id 0.
pub Reachable-NoInvalidId : (s : Scheduler) → Reachable s → NoInvalidId s
unfolding lookup
Reachable-NoInvalidId s r = Changes-keep NoInvalidId Change-NoInvalidId (Reachable-Changes r) refl

-- After any history the successors of every agent are stored.
pub Reachable-Closed : (s : Scheduler) → Reachable s → Closed s.nodes
unfolding lookup
Reachable-Closed s r =
    Changes-keep (λ u. Closed u.nodes) Change-Closed (Reachable-Changes r) (λ id n e. cc)

-- submit, submit_batch and spawn.
abbrev pub is_submission : Call → Bool
is_submission (submits tasks now) = true
is_submission (spawns parent task now) = true
is_submission _ = false

state-IsReturned {ℓ} :
    {A : Type ℓ} (r : Option (Scheduler × A)) → IsReturned r → IsReturned (state_of r)
state-IsReturned r (p, e) = (p.0, rw e refl)

-- After any history every call but a submission returns: no lookup of `nodes_.at` throws, and the
-- recursion over the descendants ends within its fuel.
pub step-IsReturned :
    (s : Scheduler) (c : Call) → Reachable s → is_submission c ≡ false → IsReturned (step c s)
unfolding step
step-IsReturned s (submits tasks now) r other = cc
step-IsReturned s (spawns parent task now) r other = cc
step-IsReturned s (dispatches m now) r other =
    state-IsReturned (dispatch_locked m now s)
      (dispatch_locked-IsReturned m now s (Reachable-ReadyMatches s r))
step-IsReturned s (marks_running id process now) r other = (_, refl)
step-IsReturned s (marks_blocked id) r other = (_, refl)
step-IsReturned s (wakes id) r other = (_, refl)
step-IsReturned s (completes id now) r other =
    state-IsReturned (complete id now s) (complete-IsReturned id now s (Reachable-Closed s r))
step-IsReturned s (cancels id now) r other =
    state-IsReturned (cancel id now s) (cancel-IsReturned id now s (Reachable-Closed s r))
step-IsReturned s (fails id message now) r other =
    state-IsReturned (fail id message now s)
      (fail-IsReturned id message now s (Reachable-Closed s r))
step-IsReturned s (binds_context id context) r other = (_, refl)
step-IsReturned s (binds_process id process) r other = (_, refl)
step-IsReturned s (records_metrics id metrics) r other = (_, refl)
