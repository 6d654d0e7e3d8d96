-- ===== src/Scheduler/Returns.antt =====
-- The operations of agent-runtime/src/scheduler.cpp on stored agents return: no `nodes_.at` throws,
-- and the recursion of cancel_descendants_locked ends.
use agent_nucleus.Prelude.{
  ℕ, suc, ◌≡◌, refl, ◌∙◌, true, Option, none, some, List, [], ◌∷◌, arith, All, member, ◌==◌,
  ==_refl, if◌then◌else◌, inl, inr, Bool-cases, Option-cases, length, remove, Bytes, ltb,
}
use agent_nucleus.Table.{
  Table, lookup, contains, contains-lookup, adjust, length-adjust, lookup-adjust,
  lookup-adjust_self,
}
use agent_nucleus.Types.{completed, failed, cancelled, AgentState, invalid_agent_id}
use agent_nucleus.Scheduler.State.{
  Node, Scheduler, unreported, agent_does_not_exist, invalid_transition, accepted, rejected,
  and_try, with_snapshot, with_state, clear_reserved, update, transition_allowed, transition_locked,
  release_resources_locked,
}
use agent_nucleus.Scheduler.Dispatch.{
  MemorySnapshot, Best, no_best, fits, better, considered, consider_all, reserve_selected,
  take_selected, dispatch_locked,
}
use agent_nucleus.Scheduler.Cascade.{
  set_finished, cancel_descendants_locked, resolve_found, resolve_successor, resolve_each,
}
use agent_nucleus.Scheduler.Lifecycle.{
  after_completion, complete, retry, set_failed, after_failure, fail_for_good, fail,
  after_cancellation, cancel, dependency_failed, dependency_cancelled,
}
use agent_nucleus.Scheduler.Changes.{release, one}
use agent_nucleus.Scheduler.Invariants.{ReadyMatches}
use agent_nucleus.Scheduler.Refine.Agent.{
  unchanged, completion_steps, cancelled_alone, cancellation_steps,
}
use agent_nucleus.Scheduler.Closed.{
  Closed, adjust-Closed, All-map, Changes-Closed, Changes-contains,
}
use agent_nucleus.Scheduler.Cancel.Total.{live-le-length, cancel_descendants_locked-Ends}
use agent_nucleus.Scheduler.Refine.Cascade.{resolve_found-Changes, lookup-release}
use agent_nucleus.Scheduler.Refine.Dispatch.{Chosen, consider_all-Changes}

-- The call returns.
abbrev pub IsReturned {ℓ} : {A : Type ℓ} → Option A → Type ℓ
IsReturned {A = A} r = (a : A) × (r ≡ some a)

resolve_each-IsReturned :
    (ids : List ℕ) (s : Scheduler)
    → Closed s.nodes
    → All (λ j. contains j s.nodes ≡ true) ids
    → IsReturned (resolve_each ids s)
unfolding resolve_each resolve_successor
resolve_each-IsReturned [] s c there = (s, refl)
resolve_each-IsReturned (id ∷ ids) s c there =
    let (node, e) = contains-lookup id s.nodes there.0 in
    let steps = resolve_found-Changes id node s e in
    let (t, rest) =
      resolve_each-IsReturned ids (resolve_found id node s) (Changes-Closed steps c)
        (All-map ids (λ j h. Changes-contains j steps h) there.1) in
    (t, rw e rest)

and_try-accepted :
    (s t : Scheduler) (rest : Scheduler → Option Scheduler)
    → rest s ≡ some t
    → and_try (s, accepted) rest ≡ some (t, accepted)
and_try-accepted s t rest e = rw (e, and_try) refl

-- An operation returns where what follows its transition does.
transition_returns :
    (id : ℕ) (node : Node) (to : AgentState) (s : Scheduler) (rest : Scheduler → Option Scheduler)
    → (transition_allowed node.snapshot.state to ≡ true
        → IsReturned (rest (update id (with_state to) s)))
    → IsReturned (and_try (transition_locked id node to s) rest)
unfolding transition_locked
transition_returns id node to s rest go =
    elim (Bool-cases (transition_allowed node.snapshot.state to)) [
      | inl may ↦
          let (t, e) = go may in
          ((t, accepted), rw may (and_try-accepted (update id (with_state to) s) t rest e))
      | inr not_may ↦ ((s, rejected (invalid_transition node.snapshot.state to)), rw not_may refl)
    ]

length-release :
    (id : ℕ) (n : Node) (s : Scheduler)
    → length (release_resources_locked id n s).nodes ≡ length s.nodes
unfolding release_resources_locked
length-release id n s = ground (arith, length-adjust id clear_reserved s.nodes)

adjust-contains :
    (id : ℕ) (f : Node → Node) (n : Node) (t : Table Node)
    → lookup id t ≡ some n
    → contains id (adjust id f t) ≡ true
adjust-contains id f n t e = ground (arith, lookup-adjust_self id f t e)

-- The cascade from an agent that is stored, with the fuel that the operations give it.
cascade-IsReturned :
    (now : ℕ) (reason : Bytes) (id size : ℕ) (s : Scheduler)
    → Closed s.nodes
    → contains id s.nodes ≡ true
    → length s.nodes ≡ size
    → IsReturned (cancel_descendants_locked (suc size) now reason id s)
cascade-IsReturned now reason id size s c there same =
    let (t, e, le) =
      cancel_descendants_locked-Ends (suc size) now reason id s c there
        (omega (arith, live-le-length s.nodes)) in
    (t, e)

pub complete-IsReturned :
    (id now : ℕ) (s : Scheduler) → Closed s.nodes → IsReturned (complete id now s)
unfolding complete
complete-IsReturned id now s c = elim (Option-cases (lookup id s.nodes)) [
  | inl e ↦ ((s, rejected unreported), rw (e, complete) refl)
  | inr (node, e) ↦
      rw (e, IsReturned, complete)
        (transition_returns id node completed s (after_completion id node now) (λ may.
          let steps = completion_steps id node now s e may in
          resolve_each-IsReturned node.successors
            (release_resources_locked id node
              (update id (with_snapshot (set_finished now)) (update id (with_state completed) s)))
            (Changes-Closed steps c)
            (All-map node.successors (λ j h. Changes-contains j steps h) (c id node e))))
]

pub cancel-IsReturned : (id now : ℕ) (s : Scheduler) → Closed s.nodes → IsReturned (cancel id now s)
unfolding cancel
cancel-IsReturned id now s c = elim (Option-cases (lookup id s.nodes)) [
  | inl e ↦ ((s, rejected unreported), rw (e, cancel) refl)
  | inr (node, e) ↦
      let steps = cancellation_steps id node now s e in
      let t = record (update id (with_state cancelled) s) { ready_set = remove id s.ready_set } in
      rw (e, IsReturned, cancel)
        (transition_returns id node cancelled s (after_cancellation id node now) (λ may.
          cascade-IsReturned now dependency_cancelled id
            (length (update id (with_state cancelled) s).nodes) (cancelled_alone id node now s)
            (Changes-Closed steps c) (Changes-contains id steps (ground (arith, e)))
            (length-adjust id (with_snapshot (set_finished now))
                (release_resources_locked id node t).nodes
              ∙ length-release id node t)))
]

-- The agent whose failure is final: the writes before the cascade keep the table closed.
fail_for_good-IsReturned :
    (id : ℕ) (node n : Node) (message : Bytes) (now : ℕ) (s : Scheduler)
    → lookup id s.nodes ≡ some n
    → Closed s.nodes
    → IsReturned (fail_for_good id node message now s)
unfolding fail_for_good
fail_for_good-IsReturned id node n message now s e c =
    transition_returns id node failed s (after_failure id message now) (λ may.
      let t = update id (with_state failed) s in
      let found = lookup-adjust_self id (with_state failed) s.nodes e in
      let closed = adjust-Closed id (with_state failed) n s.nodes e (c id n e) c in
      cascade-IsReturned now dependency_failed id (length t.nodes)
        (update id (with_snapshot (set_failed message now)) t)
        (adjust-Closed id (with_snapshot (set_failed message now)) (with_state failed n) t.nodes
          found (closed id (with_state failed n) found) closed)
        (adjust-contains id (with_snapshot (set_failed message now)) (with_state failed n) t.nodes
          found)
        (length-adjust id (with_snapshot (set_failed message now)) t.nodes))

pub fail-IsReturned :
    (id : ℕ) (message : Bytes) (now : ℕ) (s : Scheduler)
    → Closed s.nodes
    → IsReturned (fail id message now s)
unfolding fail
fail-IsReturned id message now s c = elim (Option-cases (lookup id s.nodes)) [
  | inl e ↦ ((s, rejected agent_does_not_exist), rw (e, fail) refl)
  | inr (node, e) ↦
      let (n, found, same) = lookup-release id node node s e unchanged in
      let given_back = one (release id node node e unchanged) in
      rw (e, IsReturned, fail)
        (elim (Bool-cases (ltb node.snapshot.retry_count node.snapshot.spec.retry_limit)) [
          | inl again ↦
              ((retry id message (release_resources_locked id node s), accepted), rw again refl)
          | inr over ↦ rw over (
              fail_for_good-IsReturned id node n message now (release_resources_locked id node s)
                found (Changes-Closed given_back c))
        ])
]

-- The loop of dispatch_locked finds every agent of the ready set.
consider_all-IsReturned :
    (m : MemorySnapshot) (now : ℕ) (ids : List ℕ) (s : Scheduler) (b : Best)
    → All (λ j. contains j s.nodes ≡ true) ids
    → IsReturned (consider_all m now ids s b)
unfolding consider_all
consider_all-IsReturned m now [] s b there = ((s, b), refl)
consider_all-IsReturned m now (id ∷ ids) s b there =
    let (n, e) = contains-lookup id s.nodes there.0 in
    let (r, rest) =
      consider_all-IsReturned m now ids (update id (considered (fits m n s)) s)
        (if fits m n s then better now id n b else b)
        (All-map ids
          (λ j h. ground (arith, lookup-adjust j id (considered (fits m n s)) s.nodes, h))
          there.1) in
    (r, rw e rest)

take_selected-IsReturned :
    (m : MemorySnapshot) (s : Scheduler) (b : Best)
    → Chosen m s b
    → IsReturned (take_selected (s, b))
unfolding take_selected
take_selected-IsReturned m s b chosen = elim (Bool-cases (b.selected == invalid_agent_id)) [
  | inl unset ↦ ((s, none), rw unset refl)
  | inr set ↦ elim chosen [
    | inl zero_id ↦ absurd (ground arith)
    | inr (n, e, fit) ↦ ((reserve_selected b.selected n s, some b.selected), rw (set, e) refl)
  ]
]

-- Every member of a set is stored where all its members are.
stored-All :
    (xs : List ℕ) (t : Table Node)
    → ((j : ℕ) → member j xs ≡ true → contains j t ≡ true)
    → All (λ j. contains j t ≡ true) xs
stored-All [] t h = tt
stored-All (x ∷ xs) t h =
    (h x (rw ==_refl refl), stored-All xs t (λ j listed. h j (ground (arith, listed))))

pub dispatch_locked-IsReturned :
    (m : MemorySnapshot) (now : ℕ) (s : Scheduler)
    → ReadyMatches s
    → IsReturned (dispatch_locked m now s)
unfolding dispatch_locked
dispatch_locked-IsReturned m now s matches =
    let there = stored-All s.ready_set s.nodes (λ j listed. ground (arith, matches j, listed)) in
    let ((t, b), e) = consider_all-IsReturned m now s.ready_set s no_best there in
    let (c, chosen) =
      consider_all-Changes m now s.ready_set s no_best t b e (λ j h. h) (inl refl) in
    let (r, e') = take_selected-IsReturned m t b chosen in (r, rw e e')
