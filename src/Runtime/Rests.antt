-- ===== src/Runtime/Rests.antt =====
-- What complete and fail of agent-runtime/src/scheduler.cpp leave of the agent that they are called
-- for: it is no longer dispatched, running or blocked.
use agent_nucleus.Prelude.{
  ℕ, ◌≡◌, refl, ap, subst, ◌∙◌, Bool, true, false, not, ◌&&◌, Option, none, some, List, [], ◌∷◌,
  ◌==◌, ==_iff, ltb, >>=-eq-some, some-inj, none≢some, inl, inr, Bool-cases, Option-cases, Bytes,
  arith,
}
use agent_nucleus.Table.{Table, lookup, contains, contains-lookup, adjust, lookup-adjust_self}
use agent_nucleus.Types.{
  AgentState, waiting_dependency, state_eq, ready, dispatched, running, blocked, completed, failed,
}
use agent_nucleus.Scheduler.State.{
  Node, Scheduler, Verdict, accepted, update, with_state, with_snapshot, transition_allowed,
  transition_locked, release_resources_locked, enqueue_ready_locked, and_try,
}
use agent_nucleus.Scheduler.Cascade.{
  set_finished, resolve_one, resolve_node, resolve_found, resolve_successor, resolve_each,
  cancel_descendants_locked,
}
use agent_nucleus.Scheduler.Lifecycle.{
  complete, retry, fail, fail_for_good, after_completion, after_failure, set_failed,
  dependency_failed,
}
use agent_nucleus.Scheduler.Cancel.Settle.{status, status_of, status-adjust, status-release}
use agent_nucleus.Scheduler.Refine.Cascade.{lookup-release}
use agent_nucleus.Scheduler.Refine.Agent.{unchanged}
use agent_nucleus.Scheduler.Cancel.Reach.{cancel_descendants_locked-Settles}

abbrev pub is_active : AgentState → Bool
is_active dispatched = true
is_active running = true
is_active blocked = true
is_active s = false

abbrev is_idle : Option AgentState → Bool
is_idle none = true
is_idle (some s) = not (is_active s)

-- The agent is not in the hands of a worker.
abbrev pub IsResting : ℕ → Table Node → Type 0
IsResting id t = is_idle (status id t) ≡ true

-- A write that does not make a node active.
IsResting-adjust :
    (id k : ℕ) (f : Node → Node) (t : Table Node) (n : Node)
    → lookup k t ≡ some n
    → (is_active n.snapshot.state ≡ false → is_active (f n).snapshot.state ≡ false)
    → IsResting id t
    → IsResting id (adjust k f t)
IsResting-adjust id k f t n e calm h = elim (Bool-cases (k == id)) [
  | inl hit ↦
      let same : k ≡ id = (==_iff k id).0 hit in
      let at : status id t ≡ some n.snapshot.state =
        subst (λ i. status i t ≡ some n.snapshot.state) same (ap status_of e) in
      let was : is_active n.snapshot.state ≡ false = ground (arith, rw at at h) in
      rw (status-adjust id k f t n e, hit, calm was) refl
  | inr miss ↦ rw (status-adjust id k f t n e, miss) h
]

resolve_each-rests :
    (id : ℕ) (ids : List ℕ) (s t : Scheduler)
    → IsResting id s.nodes
    → resolve_each ids s ≡ some t
    → IsResting id t.nodes
unfolding resolve_each resolve_successor resolve_found enqueue_ready_locked
resolve_each-rests id [] s t h e = subst (λ u. IsResting id u.nodes) (some-inj e) h
resolve_each-rests id (j ∷ ids) s t h e =
    let (u, first, rest) = >>=-eq-some (resolve_successor j s) _ e in
    let (node, found, same) = >>=-eq-some (lookup j s.nodes) _ first in
    let g = IsResting-adjust id j resolve_node s.nodes node found (λ calm. calm) h in
    let next : IsResting id (resolve_found j node s).nodes =
      elim (Bool-cases (
        resolve_one node.snapshot.unresolved_dependencies == 0
        && state_eq node.snapshot.state waiting_dependency)) [
          | inl last ↦ rw last (
              IsResting-adjust id j (with_state ready) (update j resolve_node s).nodes
                (resolve_node node) (lookup-adjust_self j resolve_node s.nodes found) (λ calm. refl)
                g)
          | inr more ↦ rw more g
        ] in
    resolve_each-rests id ids u t (subst (λ v. IsResting id v.nodes) (some-inj same) next) rest

-- cancel_descendants_locked makes no agent active.
cascade-rests :
    (id fuel now : ℕ) (reason : Bytes) (root : ℕ) (s t : Scheduler)
    → IsResting id s.nodes
    → cancel_descendants_locked fuel now reason root s ≡ some t
    → IsResting id t.nodes
cascade-rests id fuel now reason root s t h e =
    let (settles, dead) = cancel_descendants_locked-Settles fuel now reason root s t e in
    elim (settles.moved id) [ inl same ↦ rw same h | inr (alive, c) ↦ rw c refl ]

rest-answered :
    (u t : Scheduler) (v : Verdict) (rest : Scheduler → Option Scheduler)
    → and_try (u, accepted) rest ≡ some (t, v)
    → rest u ≡ some t
rest-answered u t v rest e = elim (Option-cases (rest u)) [
  | inl nothing ↦ absurd (none≢some (rw (nothing, and_try) at e))
  | inr (x, at) ↦ at ∙ ap (λ p. some p.0) (some-inj (rw (at, and_try) at e))
]

-- A move to a finished state, which is refused only to an agent that no worker has.
transition-rests :
    (id : ℕ) (node : Node) (to : AgentState) (s t : Scheduler) (v : Verdict)
    (rest : Scheduler → Option Scheduler)
    → status id s.nodes ≡ some node.snapshot.state
    → (transition_allowed node.snapshot.state to ≡ false → is_active node.snapshot.state ≡ false)
    → ((u : Scheduler) → rest (update id (with_state to) s) ≡ some u → IsResting id u.nodes)
    → and_try (transition_locked id node to s) rest ≡ some (t, v)
    → IsResting id t.nodes
unfolding transition_locked
transition-rests id node to s t v rest at calm go e =
    elim (Bool-cases (transition_allowed node.snapshot.state to)) [
      | inl may ↦ go t (rest-answered (update id (with_state to) s) t v rest (rw may at e))
      | inr not_may ↦
          subst (λ u. IsResting id u.nodes) (ap (λ p. p.0) (some-inj (rw not_may at e)))
            (rw (at, calm not_may) refl)
    ]

refused_completed : (c : AgentState) → transition_allowed c completed ≡ false → is_active c ≡ false
unfolding transition_allowed
refused_completed dispatched e = cc
refused_completed running e = cc
refused_completed blocked e = cc
refused_completed _ e = refl

refused_failed : (c : AgentState) → transition_allowed c failed ≡ false → is_active c ≡ false
unfolding transition_allowed
refused_failed dispatched e = cc
refused_failed running e = cc
refused_failed blocked e = cc
refused_failed _ e = refl

missing-rests : (id : ℕ) (t : Table Node) → lookup id t ≡ none → IsResting id t
missing-rests id t e = rw e refl

pub complete-rests :
    (id now : ℕ) (s t : Scheduler) (v : Verdict)
    → complete id now s ≡ some (t, v)
    → IsResting id t.nodes
unfolding complete
complete-rests id now s t v e = elim (Option-cases (lookup id s.nodes)) [
  | inl nothing ↦
      subst (λ u. IsResting id u.nodes) (ap (λ p. p.0) (some-inj (rw (nothing, complete) at e)))
        (missing-rests id s.nodes nothing)
  | inr (node, found) ↦
      let moved = lookup-adjust_self id (with_state completed) s.nodes found in
      let s1 = update id (with_state completed) s in
      let stamped = lookup-adjust_self id (with_snapshot (set_finished now)) s1.nodes moved in
      let s2 = update id (with_snapshot (set_finished now)) s1 in
      let done : status id (release_resources_locked id node s2).nodes ≡ some completed =
        status-release id id node _ s2 stamped ∙ ap status_of stamped in
      transition-rests id node completed s t v (after_completion id node now) (ap status_of found)
        (refused_completed node.snapshot.state)
        (λ u g. resolve_each-rests id node.successors _ u (ap is_idle done) g)
        (rw (found, complete) at e)
]

fail_for_good-rests :
    (id : ℕ) (node : Node) (message : Bytes) (now : ℕ) (s t : Scheduler) (v : Verdict)
    → status id s.nodes ≡ some node.snapshot.state
    → contains id s.nodes ≡ true
    → fail_for_good id node message now s ≡ some (t, v)
    → IsResting id t.nodes
unfolding fail_for_good
fail_for_good-rests id node message now s t v at there e =
    let (n, found) = contains-lookup id s.nodes there in
    let s1 = update id (with_state failed) s in
    let moved = lookup-adjust_self id (with_state failed) s.nodes found in
    let stamped = lookup-adjust_self id (with_snapshot (set_failed message now)) s1.nodes moved in
    transition-rests id node failed s t v (after_failure id message now) at
      (refused_failed node.snapshot.state)
      (λ u g.
        cascade-rests id _ now dependency_failed id _ u (ap (λ o. is_idle (status_of o)) stamped) g)
      e

pub fail-rests :
    (id : ℕ) (message : Bytes) (now : ℕ) (s t : Scheduler) (v : Verdict)
    → fail id message now s ≡ some (t, v)
    → IsResting id t.nodes
unfolding fail retry
fail-rests id message now s t v e = elim (Option-cases (lookup id s.nodes)) [
  | inl nothing ↦
      subst (λ u. IsResting id u.nodes) (ap (λ p. p.0) (some-inj (rw (nothing, fail) at e)))
        (missing-rests id s.nodes nothing)
  | inr (node, found) ↦
      let g = rw (found, fail) at e in
      let same = status-release id id node node s found in
      let (n, there, alike) = lookup-release id node node s found unchanged in
      elim (Bool-cases (ltb node.snapshot.retry_count node.snapshot.spec.retry_limit)) [
        | inl again ↦
            subst (λ u. IsResting id u.nodes) (ap (λ p. p.0) (some-inj (rw again at g)))
              (ap (λ o. is_idle (status_of o))
                (lookup-adjust_self id _ (release_resources_locked id node s).nodes there))
        | inr over ↦
            fail_for_good-rests id node message now (release_resources_locked id node s) t v
              (same ∙ ap status_of found) (ground (arith, there)) (rw over at g)
      ]
]
