-- ===== src/Scheduler/Cancel/Whole.antt =====
-- The operation cancel as a whole.
use agent_nucleus.Prelude.{
  ℕ, suc, ◌≡◌, refl, sym, ◌∙◌, ap, subst, some-inj, true, false, Option, some, member, ◌==◌, ==_iff,
  if◌then◌else◌, ◌⊎◌, inl, inr, Bool-cases, Option-cases, length, remove, none≢some, ==_refl,
}
use agent_nucleus.Table.{Table, lookup, lookup-adjust_self}
use agent_nucleus.Types.{AgentState, cancelled}
use agent_nucleus.Scheduler.State.{
  Node, Scheduler, accepted, rejected≢accepted, and_try, with_state, with_snapshot, update,
  transition_allowed, transition_locked, release_resources_locked,
}
use agent_nucleus.Scheduler.Cascade.{set_finished}
use agent_nucleus.Scheduler.Lifecycle.{cancel, after_cancellation, dependency_cancelled}
use agent_nucleus.Scheduler.Refine.Agent.{cancelled_alone}
use agent_nucleus.Scheduler.Refine.Cascade.{lookup-release}
use agent_nucleus.Scheduler.Cancel.Settle.{
  status, successors, status_of, is_live, status-adjust, successors-adjust, status-release,
  successors-release, Settled, Settles,
}
use agent_nucleus.Scheduler.Cancel.Reach.{
  cancel_descendants_locked-Settles, Descends, child, below, Descends-cancelled,
}

and_try-answered :
    (u t : Scheduler) (rest : Scheduler → Option Scheduler)
    → and_try (u, accepted) rest ≡ some (t, accepted)
    → rest u ≡ some t
and_try-answered u t rest e = elim (Option-cases (rest u)) [
  | inl thrown ↦ absurd (none≢some (rw (thrown, and_try) at e))
  | inr (v, at) ↦ at ∙ ap (λ p. some p.0) (some-inj (rw (at, and_try) at e))
]

-- An operation that is accepted has made its transition and done all that follows.
pub and_try-eq :
    (id : ℕ) (node : Node) (to : AgentState) (s t : Scheduler) (rest : Scheduler → Option Scheduler)
    → and_try (transition_locked id node to s) rest ≡ some (t, accepted)
    → (transition_allowed node.snapshot.state to ≡ true)
      × (rest (update id (with_state to) s) ≡ some t)
unfolding transition_locked
and_try-eq id node to s t rest e = elim (Bool-cases (transition_allowed node.snapshot.state to)) [
  | inl may ↦ (may, and_try-answered (update id (with_state to) s) t rest (rw may at e))
  | inr not_may ↦ absurd (rejected≢accepted (ap (λ p. p.1) (some-inj (rw not_may at e))))
]

module _ (id now : ℕ) (node : Node) (s : Scheduler) (e : lookup id s.nodes ≡ some node) where
  abbrev out_of_ready : Scheduler
  out_of_ready = record (update id (with_state cancelled) s) { ready_set = remove id s.ready_set }

  -- The agent's own node after its release.
  alone_node :
      (k : Node) × (lookup id (release_resources_locked id node out_of_ready).nodes ≡ some k)
      × (k.snapshot ≡ (with_state cancelled node).snapshot)
  alone_node =
      lookup-release id node (with_state cancelled node) out_of_ready
        (lookup-adjust_self id (with_state cancelled) s.nodes e)
        (record { same_spec = refl; same_reserved = refl; same_successors = refl })

  -- The writes before the cascade touch the agent itself alone.
  status-alone :
      (j : ℕ)
      → status j (cancelled_alone id node now s).nodes
        ≡ (if id == j then some cancelled else status j s.nodes)
  status-alone j =
      let (k, found, same) = alone_node in
      let e1 = lookup-adjust_self id (with_state cancelled) s.nodes e in
      let last =
        status-adjust j id (with_snapshot (set_finished now))
          (release_resources_locked id node out_of_ready).nodes k found in
      let middle = status-release j id node (with_state cancelled node) out_of_ready e1 in
      let first = status-adjust j id (with_state cancelled) s.nodes node e in
      elim (Bool-cases (id == j)) [
        | inl hit ↦ last ∙ rw hit (ap (λ n. some n.state) same)
        | inr miss ↦ last ∙ rw miss (middle ∙ first ∙ rw miss refl)
      ]

  successors-alone :
      (j : ℕ) → successors j (cancelled_alone id node now s).nodes ≡ successors j s.nodes
  successors-alone j =
      let (k, found, same) = alone_node in
      let e1 = lookup-adjust_self id (with_state cancelled) s.nodes e in
      successors-adjust j id (with_snapshot (set_finished now))
        (release_resources_locked id node out_of_ready).nodes k found refl
      ∙ successors-release j id node (with_state cancelled node) out_of_ready e1
      ∙ successors-adjust j id (with_state cancelled) s.nodes node e refl

  -- A path in `s` to another agent is a path after those writes.
  Descends-alone :
      {j : ℕ}
      → Descends s.nodes id j
      → (id == j) ≡ false
      → Descends (cancelled_alone id node now s).nodes id j
  Descends-alone (child j m l) other =
      child j (rw (successors-alone id) m) (rw (status-alone j, other) l)
  Descends-alone (below j k d m l) other = elim (Bool-cases (id == j)) [
    | inl hit ↦
        child k
          (rw (successors-alone id)
            (subst (λ i. member k (successors i s.nodes) ≡ true) (sym ((==_iff id j).0 hit)) m))
          (rw (status-alone k, other) l)
    | inr miss ↦
        below j k (Descends-alone d miss) (rw (successors-alone j) m) (rw (status-alone k, other) l)
  ]

-- The agent and its live descendants end CANCELLED; the state of any other agent is as it was,
-- unless it was live and is CANCELLED now.
pub record CancelsAll (s t : Table Node) (id : ℕ) : Type 0 where
  pub itself : status id t ≡ some cancelled
  pub descendants : (j : ℕ) → Descends s id j → status j t ≡ some cancelled
  pub others :
      (j : ℕ)
      → (status j t ≡ status j s) ⊎ ((is_live (status j s) ≡ true) × (status j t ≡ some cancelled))

cancelled-stays :
    {s t : Table Node}
    → Settles s t
    → (j : ℕ) → status j s ≡ some cancelled
    → status j t ≡ some cancelled
cancelled-stays h j e = elim (h.moved j) [ inl same ↦ same ∙ e | inr (l, c) ↦ c ]

alone-CancelsAll :
    (id now : ℕ) (node : Node) (s t : Scheduler)
    → lookup id s.nodes ≡ some node
    → transition_allowed node.snapshot.state cancelled ≡ true
    → Settles (cancelled_alone id node now s).nodes t.nodes
    → Settled t.nodes (successors id (cancelled_alone id node now s).nodes)
    → CancelsAll s.nodes t.nodes id
unfolding transition_allowed
alone-CancelsAll id now node s t e may h d =
    let states = status-alone id now node s e in
    let own : status id t.nodes ≡ some cancelled =
      cancelled-stays h id (states id ∙ rw (==_refl id) refl) in
    record {
      itself = own;
      descendants = λ j path. elim (Bool-cases (id == j)) [
        | inl hit ↦ subst (λ i. status i t.nodes ≡ some cancelled) ((==_iff id j).0 hit) own
        | inr miss ↦ Descends-cancelled h d (Descends-alone id now node s e path miss)
      ];
      others = λ j. elim (Bool-cases (id == j)) [
        | inl hit ↦
            subst
              (λ i.
                (status i t.nodes ≡ status i s.nodes)
                ⊎ ((is_live (status i s.nodes) ≡ true) × (status i t.nodes ≡ some cancelled)))
              ((==_iff id j).0 hit) (inr (ap is_live (ap status_of e) ∙ may, own))
        | inr miss ↦
            let same : status j (cancelled_alone id node now s).nodes ≡ status j s.nodes =
              states j ∙ rw miss refl in
            elim (h.moved j) [
              | inl kept ↦ inl (kept ∙ same)
              | inr (l, c) ↦ inr (rw (sym same) l, c)
            ]
      ];
    }

-- When cancel is accepted, the agent and every agent that live agents link to it downwards are
-- CANCELLED, and nothing else has changed its state but from a live one to CANCELLED.
pub cancel-CancelsAll :
    (id now : ℕ) (s t : Scheduler)
    → cancel id now s ≡ some (t, accepted)
    → CancelsAll s.nodes t.nodes id
unfolding cancel
cancel-CancelsAll id now s t e = elim (Option-cases (lookup id s.nodes)) [
  | inl absent ↦ absurd (rejected≢accepted (ap (λ p. p.1) (some-inj (rw (absent, cancel) at e))))
  | inr (node, found) ↦
      let (may, done) =
        and_try-eq id node cancelled s t (after_cancellation id node now)
          (rw (found, cancel) at e) in
      let (h, d) =
        cancel_descendants_locked-Settles (suc (length (update id (with_state cancelled) s).nodes))
          now dependency_cancelled id (cancelled_alone id node now s) t done in
      alone-CancelsAll id now node s t found may h d
]
