-- ===== src/Scheduler/Answers.antt =====
-- What single operations of agent-runtime/src/scheduler.cpp answer: a failure with retries left, and a
-- submission that is turned down.
use agent_nucleus.Prelude.{
  ℕ, ◌+◌, ◌≡◌, refl, sym, ap, some-inj, true, false, some, List, arith, member, member-insert, ltb,
  inl, inr, Bool-cases, Option-cases, Bytes, >>=-eq-some,
}
use agent_nucleus.Table.{Table, lookup, lookup-adjust_self}
use agent_nucleus.Types.{ready, AgentTaskSpec}
use agent_nucleus.Scheduler.State.{
  Node, Scheduler, accepted, rejected, rejected≢accepted, Error, release_resources_locked,
  clear_reserved,
}
use agent_nucleus.Scheduler.Lifecycle.{retry, fail}
use agent_nucleus.Scheduler.Submit.{
  batch_error, link_all, emplace_all, admit, submit_checked, submit_batch, graph_has_cycle_locked,
  enqueue_all,
}

-- The agent `id` waits for another dispatch: `node` is its record before the failure.
abbrev pub IsRetried : ℕ → Node → Scheduler → Type 0
IsRetried id node t =
    (k : Node) × (lookup id t.nodes ≡ some k)
    × (k.snapshot.state ≡ ready)
    × (k.snapshot.retry_count ≡ node.snapshot.retry_count + 1)
    × (k.resources_reserved ≡ false)
    × (member id t.ready_set ≡ true)

-- A release clears the mark of the agent and leaves its snapshot.
release-own :
    (id : ℕ) (node : Node) (s : Scheduler)
    → lookup id s.nodes ≡ some node
    → (k : Node) × (lookup id (release_resources_locked id node s).nodes ≡ some k)
      × (k.snapshot ≡ node.snapshot)
      × (k.resources_reserved ≡ false)
unfolding release_resources_locked
release-own id node s e = elim (Bool-cases node.resources_reserved) [
  | inl held ↦
      rw held (clear_reserved node, lookup-adjust_self id clear_reserved s.nodes e, refl, refl)
  | inr free ↦ rw free (node, e, refl, free)
]

-- A failure reported for an agent with retries left is accepted whatever state the agent is in, a
-- finished one included: the agent is READY, in the ready set, without a reservation, and one retry
-- is counted.
pub fail-retries :
    (id : ℕ) (message : Bytes) (now : ℕ) (s : Scheduler) (node : Node)
    → lookup id s.nodes ≡ some node
    → ltb node.snapshot.retry_count node.snapshot.spec.retry_limit ≡ true
    → (t : Scheduler) × (fail id message now s ≡ some (t, accepted)) × IsRetried id node t
unfolding fail retry
fail-retries id message now s node e left =
    let (k, found, same, free) = release-own id node s e in
    (
      retry id message (release_resources_locked id node s),
      rw (e, fail, left) refl,
      (
        _,
        lookup-adjust_self id _ (release_resources_locked id node s).nodes found,
        refl,
        ap (λ n. n.retry_count + 1) same,
        free,
        ground (arith, member-insert id id (release_resources_locked id node s).ready_set),
      ),
    )

admit-rejected :
    (tasks : List AgentTaskSpec) (s t : Scheduler) (nodes : Table Node) (r : Error)
    → admit tasks s nodes ≡ some (t, rejected r)
    → t ≡ s
unfolding admit
admit-rejected tasks s t nodes r e =
    let (cycle, e1, e2) = >>=-eq-some (graph_has_cycle_locked nodes) _ e in
    elim (Bool-cases cycle) [
      | inl cyclic ↦ sym (ap (λ p. p.0) (some-inj (rw cyclic at e2)))
      | inr acyclic ↦
          let (u, e3, e4) = >>=-eq-some (enqueue_all tasks _) _ (rw acyclic at e2) in
          absurd (rejected≢accepted (sym (ap (λ p. p.1) (some-inj e4))))
    ]

-- A batch that is turned down, for whatever reason, leaves the scheduler as it was.
pub submit_batch-unchanged :
    (tasks : List AgentTaskSpec) (now : ℕ) (s t : Scheduler) (r : Error)
    → submit_batch tasks now s ≡ some (t, rejected r)
    → t ≡ s
unfolding submit_batch submit_checked
submit_batch-unchanged tasks now s t r e = elim (Option-cases (batch_error tasks s)) [
  | inl fine ↦
      let (nodes, e1, e2) =
        >>=-eq-some (link_all tasks (emplace_all now tasks s.nodes)) _
          (rw (fine, submit_checked) at e) in
      admit-rejected tasks s t nodes r e2
  | inr (x, bad) ↦ sym (ap (λ p. p.0) (some-inj (rw (bad, submit_checked) at e)))
]
