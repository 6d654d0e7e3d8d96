-- ===== src/Scheduler/Refine/Agent.antt =====
-- The operations on one agent as changes.
use agent_nucleus.Prelude.{
  ℕ, suc, ◌≡◌, refl, sym, ◌∙◌, ap, Bool, true, false, Option, none, some, remove, length,
  Option-cases, Bool-cases, inl, inr, ltb, ◌||◌, Bytes,
}
use agent_nucleus.Prelude.Int.{ℤ}
use agent_nucleus.Table.{lookup, lookup-adjust_self}
use agent_nucleus.Types.{
  AgentState, AgentSnapshot, is_terminal, ready, running, blocked, completed, failed, cancelled,
}
use agent_nucleus.Scheduler.State.{
  Node, Scheduler, Error, Verdict, accepted, rejected, and_then, and_try, with_snapshot, with_state,
  update, transition_allowed, transition_locked, release_resources_locked,
}
use agent_nucleus.Scheduler.Cascade.{set_finished, cancel_descendants_locked, resolve_each}
use agent_nucleus.Scheduler.Lifecycle.{
  set_running, mark_running, mark_blocked, into_ready_set, wake, after_completion, complete,
  after_failure, after_cancellation, retry, set_failed, fail_for_good, fail, cancel, assign_live,
  dependency_failed, dependency_cancelled,
}
use agent_nucleus.Scheduler.Changes.{
  is_queued, Keeps, Change, quiet, enter, leave, release, Changes, here, next, one, Changes-trans,
  not_queued_of_running, not_queued_of_blocked, not_queued_of_completed, not_queued_of_failed,
}
use agent_nucleus.Scheduler.Refine.Cascade.{
  lookup-release, cancel_descendants_locked-Changes, resolve_each-Changes,
}

abbrev pub unchanged : {n : Node} → Keeps n n
unchanged = record { same_spec = refl; same_reserved = refl; same_successors = refl }

-- A transition, and what follows it where it is allowed.
transition_ind {ℓ} :
    (P : Scheduler × Verdict → Type ℓ) (id : ℕ) (node : Node) (to : AgentState) (s : Scheduler)
    → (transition_allowed node.snapshot.state to ≡ true → P (update id (with_state to) s, accepted))
    → ((e : Error) → P (s, rejected e))
    → P (transition_locked id node to s)
unfolding transition_locked
transition_ind P id node to s go stay =
    elim (Bool-cases (transition_allowed node.snapshot.state to)) [
      | inl may ↦ rw may (go may)
      | inr not_may ↦ rw not_may (stay _)
    ]

-- A move between two states outside the ready set.
quiet_move :
    (id : ℕ) (node : Node) (to : AgentState) (s : Scheduler)
    → lookup id s.nodes ≡ some node
    → is_queued node.snapshot.state ≡ false
    → is_queued to ≡ false
    → Change s (update id (with_state to) s)
quiet_move id node to s e from_idle to_idle =
    quiet id (with_state to) node e
      (record { same_spec = refl; same_reserved = refl; same_successors = refl })
      (to_idle ∙ sym from_idle)

-- A write to the snapshot that keeps its state and its spec.
note :
    (id : ℕ) (f : AgentSnapshot → AgentSnapshot) (node : Node) (s : Scheduler)
    → lookup id s.nodes ≡ some node
    → (f node.snapshot).spec ≡ node.snapshot.spec
    → (f node.snapshot).state ≡ node.snapshot.state
    → Change s (update id (with_snapshot f) s)
note id f node s e same_spec same_state =
    quiet id (with_snapshot f) node e
      (record { same_spec = same_spec; same_reserved = refl; same_successors = refl })
      (ap is_queued same_state)

pub mark_running-Changes :
    (id : ℕ) (process_id : ℤ) (now : ℕ) (s : Scheduler)
    → Changes s (mark_running id process_id now s).0
unfolding mark_running
mark_running-Changes id process_id now s = elim (Option-cases (lookup id s.nodes)) [
  | inl e ↦ rw (e, mark_running) here
  | inr (node, e) ↦
      rw (e, mark_running)
        (transition_ind
          (λ r. Changes s (and_then r (update id (with_snapshot (set_running process_id now)))).0)
          id node running s
          (λ may. next (one (quiet_move id node running s e (not_queued_of_running _ may) refl)) (
            note id (set_running process_id now) (with_state running node) _
              (lookup-adjust_self id _ s.nodes e) refl refl))
          (λ _. here))
]

pub mark_blocked-Changes : (id : ℕ) (s : Scheduler) → Changes s (mark_blocked id s).0
unfolding mark_blocked
mark_blocked-Changes id s = elim (Option-cases (lookup id s.nodes)) [
  | inl e ↦ rw (e, mark_blocked) here
  | inr (node, e) ↦
      rw (e, mark_blocked)
        (transition_ind (λ r. Changes s r.0) id node blocked s
          (λ may. one (quiet_move id node blocked s e (not_queued_of_blocked _ may) refl))
          (λ _. here))
]

pub wake-Changes : (id : ℕ) (s : Scheduler) → Changes s (wake id s).0
unfolding wake
wake-Changes id s = elim (Option-cases (lookup id s.nodes)) [
  | inl e ↦ rw (e, wake) here
  | inr (node, e) ↦
      rw (e, wake)
        (transition_ind (λ r. Changes s (and_then r (into_ready_set id)).0) id node ready s
          (λ may. one (
            enter id (with_state ready) node e
              (record { same_spec = refl; same_reserved = refl; same_successors = refl }) refl))
          (λ _. here))
]

-- Where the operation returns, its result follows from the start by changes.
abbrev pub Returns : Scheduler → Option (Scheduler × Verdict) → Type 0
Returns s none = Unit
Returns s (some r) = Changes s r.0

-- The rest of an operation that can throw.
Returns-rest :
    (s t : Scheduler) (r : Option Scheduler)
    → ((u : Scheduler) → r ≡ some u → Changes t u)
    → Changes s t
    → Returns s (elim r [ none ↦ none | some u ↦ some (u, accepted) ])
Returns-rest s t none h c = tt
Returns-rest s t (some u) h c = Changes-trans c (h u refl)

-- release_resources_locked after a write to the node, and a write after it.
released :
    (id : ℕ) (node m : Node) (s : Scheduler) (f : AgentSnapshot → AgentSnapshot)
    → lookup id s.nodes ≡ some m
    → Keeps node m
    → (f m.snapshot).spec ≡ m.snapshot.spec
    → (f m.snapshot).state ≡ m.snapshot.state
    → Changes s (update id (with_snapshot f) (release_resources_locked id node s))
released id node m s f e k same_spec same_state =
    let (n, found, same) = lookup-release id node m s e k in
    next (one (release id node m e k))
      (note id f n _ found (rw same same_spec) (rw same same_state))

-- The writes of complete before the loop over the successors.
pub completion_steps :
    (id : ℕ) (node : Node) (now : ℕ) (s : Scheduler)
    → lookup id s.nodes ≡ some node
    → transition_allowed node.snapshot.state completed ≡ true
    → Changes s (
        release_resources_locked id node
          (update id (with_snapshot (set_finished now)) (update id (with_state completed) s)))
completion_steps id node now s e may =
    let e1 = lookup-adjust_self id (with_state completed) s.nodes e in
    next
      (next (one (quiet_move id node completed s e (not_queued_of_completed _ may) refl))
        (note id (set_finished now) (with_state completed node) _ e1 refl refl))
      (release id node (with_snapshot (set_finished now) (with_state completed node))
        (lookup-adjust_self id _ (update id (with_state completed) s).nodes e1)
        (record { same_spec = refl; same_reserved = refl; same_successors = refl }))

pub complete-Changes : (id now : ℕ) (s : Scheduler) → Returns s (complete id now s)
unfolding complete
complete-Changes id now s = elim (Option-cases (lookup id s.nodes)) [
  | inl e ↦ rw (e, Returns, complete) here
  | inr (node, e) ↦
      rw (e, Returns, complete)
        (transition_ind (λ r. Returns s (and_try r (after_completion id node now))) id node
          completed s
          (λ may.
            Returns-rest s _ (resolve_each node.successors _)
              (resolve_each-Changes node.successors _) (completion_steps id node now s e may))
          (λ _. here))
]

-- The writes of cancel before the cascade.
abbrev pub cancelled_alone : ℕ → Node → ℕ → Scheduler → Scheduler
cancelled_alone id node now s = update id (with_snapshot (set_finished now)) (
    release_resources_locked id node
      (record (update id (with_state cancelled) s) { ready_set = remove id s.ready_set }))

pub cancellation_steps :
    (id : ℕ) (node : Node) (now : ℕ) (s : Scheduler)
    → lookup id s.nodes ≡ some node
    → Changes s (cancelled_alone id node now s)
cancellation_steps id node now s e =
    Changes-trans
      (one (
        leave id (with_state cancelled) node e
          (record { same_spec = refl; same_reserved = refl; same_successors = refl }) refl))
      (released id node (with_state cancelled node) _ (set_finished now)
        (lookup-adjust_self id _ s.nodes e)
        (record { same_spec = refl; same_reserved = refl; same_successors = refl }) refl refl)

pub cancel-Changes : (id now : ℕ) (s : Scheduler) → Returns s (cancel id now s)
unfolding cancel
cancel-Changes id now s = elim (Option-cases (lookup id s.nodes)) [
  | inl e ↦ rw (e, Returns, cancel) here
  | inr (node, e) ↦
      rw (e, Returns, cancel)
        (transition_ind (λ r. Returns s (and_try r (after_cancellation id node now))) id node
          cancelled s
          (λ may.
            let fuel = suc (length (update id (with_state cancelled) s).nodes) in
            Returns-rest s _ (cancel_descendants_locked fuel now dependency_cancelled id _)
              (cancel_descendants_locked-Changes fuel now dependency_cancelled id _)
              (cancellation_steps id node now s e))
          (λ _. here))
]

retry-Changes :
    (id : ℕ) (message : Bytes) (n : Node) (s : Scheduler)
    → lookup id s.nodes ≡ some n
    → Changes s (retry id message s)
unfolding retry
retry-Changes id message n s e = one (
    enter id _ n e (record { same_spec = refl; same_reserved = refl; same_successors = refl }) refl)

fail_for_good-Changes :
    (id : ℕ) (node n : Node) (message : Bytes) (now : ℕ) (s : Scheduler)
    → lookup id s.nodes ≡ some n
    → n.snapshot ≡ node.snapshot
    → Returns s (fail_for_good id node message now s)
unfolding fail_for_good
fail_for_good-Changes id node n message now s e same =
    transition_ind (λ r. Returns s (and_try r (after_failure id message now))) id node failed s
      (λ may.
        Returns-rest s _
          (cancel_descendants_locked (suc (length (update id (with_state failed) s).nodes)) now
            dependency_failed id _)
          (cancel_descendants_locked-Changes (suc (length (update id (with_state failed) s).nodes))
            now dependency_failed id _)
          (next (one (quiet_move id n failed s e (rw same (not_queued_of_failed _ may)) refl)) (
            note id (set_failed message now) (with_state failed n) _
              (lookup-adjust_self id _ s.nodes e) refl refl)))
      (λ _. here)

pub Returns-after :
    (s t : Scheduler) (r : Option (Scheduler × Verdict)) → Changes s t → Returns t r → Returns s r
Returns-after s t none c d = tt
Returns-after s t (some r) c d = Changes-trans c d

pub fail-Changes :
    (id : ℕ) (message : Bytes) (now : ℕ) (s : Scheduler) → Returns s (fail id message now s)
unfolding fail
fail-Changes id message now s = elim (Option-cases (lookup id s.nodes)) [
  | inl e ↦ rw (e, Returns, fail) here
  | inr (node, e) ↦
      let (n, found, same) = lookup-release id node node s e unchanged in
      let given_back = one (release id node node e unchanged) in
      rw (e, Returns, fail)
        (elim (Bool-cases (ltb node.snapshot.retry_count node.snapshot.spec.retry_limit)) [
          | inl again ↦ rw again (Changes-trans given_back (retry-Changes id message n _ found))
          | inr over ↦ rw over (
              Returns-after s _ _ given_back
                (fail_for_good-Changes id node n message now _ found same))
        ])
]

pub assign_live-Changes :
    (extra : Node → Bool) (error : Error) (f : AgentSnapshot → AgentSnapshot) (id : ℕ)
    (s : Scheduler)
    → ((n : AgentSnapshot) → (f n).spec ≡ n.spec)
    → ((n : AgentSnapshot) → (f n).state ≡ n.state)
    → Changes s (assign_live extra error f id s).0
assign_live-Changes extra error f id s same_spec same_state =
    elim (Option-cases (lookup id s.nodes)) [
      | inl e ↦ rw (e, assign_live) here
      | inr (node, e) ↦
          rw (e, assign_live)
            (elim (Bool-cases (is_terminal node.snapshot.state || extra node)) [
              | inl refused ↦ rw refused here
              | inr live ↦
                  rw live
                    (one (note id f node s e (same_spec node.snapshot) (same_state node.snapshot)))
            ])
    ]
