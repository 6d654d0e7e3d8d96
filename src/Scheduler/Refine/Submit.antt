-- ===== src/Scheduler/Refine/Submit.antt =====
-- submit_batch and spawn as changes.
use agent_nucleus.Prelude.{
  ℕ, ◌≡◌, refl, sym, ◌∙◌, ap, true, false, Option, none, some, List, [], ◌∷◌, arith, All, member,
  insert, member-insert, ◌==◌, ==_refl, inl, inr, Option-cases, Bool-cases, >>=-eq-some,
}
use agent_nucleus.Table.{Table, lookup, contains}
use agent_nucleus.Types.{AgentTaskSpec, ready, waiting_dependency}
use agent_nucleus.Scheduler.State.{Node, Scheduler, Error, with_state, enqueue_ready_locked}
use agent_nucleus.Scheduler.Submit.{
  check_tasks, emplace_all, link_all, graph_has_cycle_locked, enqueue_one, enqueue_all, admit,
  submit_checked, batch_error, submit_batch, spawn,
}
use agent_nucleus.Scheduler.Changes.{Change, quiet, enter, Changes, here, one, Changes-trans}
use agent_nucleus.Scheduler.Invariants.{queued, queued-adjust, is_queued?}
use agent_nucleus.Scheduler.Refine.Cascade.{eq-Changes}
use agent_nucleus.Scheduler.Refine.Agent.{Returns}
use agent_nucleus.Scheduler.Refine.Fresh.{
  with_nodes, Fresh, check_tasks-Fresh, Fresh-ne, emplace_all-Changes, queued-emplace_all,
}
use agent_nucleus.Scheduler.Refine.Linked.{Linked, Linked-trans, link_all-Linked}

enqueue_one-Change :
    (id : ℕ) (n : Node) (s : Scheduler)
    → lookup id s.nodes ≡ some n
    → queued id s.nodes ≡ false
    → Change s (enqueue_one id n s)
unfolding enqueue_one enqueue_ready_locked
enqueue_one-Change id n s e idle = elim (Bool-cases (n.snapshot.unresolved_dependencies == 0)) [
  | inl free ↦
      rw (free, enqueue_one)
        (enter id (with_state ready) n e
          (record { same_spec = refl; same_reserved = refl; same_successors = refl }) refl)
  | inr waits ↦
      rw (waits, enqueue_one)
        (quiet id (with_state waiting_dependency) n e
          (record { same_spec = refl; same_reserved = refl; same_successors = refl })
          (sym idle ∙ ap is_queued? e))
]

-- The queueing of one task leaves the others as they are.
queued-enqueue_one :
    (j id : ℕ) (n : Node) (s : Scheduler)
    → lookup id s.nodes ≡ some n
    → (id == j) ≡ false
    → queued j (enqueue_one id n s).nodes ≡ queued j s.nodes
unfolding enqueue_one enqueue_ready_locked
queued-enqueue_one j id n s e other = ground (
  arith,
  queued-adjust j id (with_state ready) s.nodes n e,
  queued-adjust j id (with_state waiting_dependency) s.nodes n e,
)

idle_rest :
    (id : ℕ) (n : Node) (s : Scheduler) (tasks : List AgentTaskSpec)
    → lookup id s.nodes ≡ some n
    → All (λ t. (id == t.id) ≡ false) tasks
    → All (λ t. queued t.id s.nodes ≡ false) tasks
    → All (λ t. queued t.id (enqueue_one id n s).nodes ≡ false) tasks
idle_rest id n s [] e others idle = tt
idle_rest id n s (task ∷ tasks) e others idle = (
  queued-enqueue_one task.id id n s e others.0 ∙ idle.0,
  idle_rest id n s tasks e others.1 idle.1,
)

enqueue_all-Changes :
    (nodes : Table Node) (incoming : List ℕ) (tasks : List AgentTaskSpec) (s t : Scheduler)
    → Fresh nodes incoming tasks
    → All (λ t. queued t.id s.nodes ≡ false) tasks
    → enqueue_all tasks s ≡ some t
    → Changes s t
unfolding enqueue_all
enqueue_all-Changes nodes incoming [] s t f idle e = eq-Changes e
enqueue_all-Changes nodes incoming (task ∷ tasks) s t f idle e =
    let (n, found, e') = >>=-eq-some (lookup task.id s.nodes) _ e in
    let present : member task.id (insert task.id incoming) ≡ true =
      rw (member-insert task.id task.id incoming, ==_refl task.id) refl in
    let others = Fresh-ne task.id nodes (insert task.id incoming) tasks present f.3 in
    Changes-trans (one (enqueue_one-Change task.id n s found idle.0)) (
      enqueue_all-Changes nodes (insert task.id incoming) tasks (enqueue_one task.id n s) t f.3
        (idle_rest task.id n s tasks found others idle.1) e')

-- An id that the table does not contain is not queued in a table with the same queue.
Fresh-idle :
    (nodes after : Table Node) (incoming : List ℕ) (tasks : List AgentTaskSpec)
    → ((j : ℕ) → queued j after ≡ queued j nodes)
    → Fresh nodes incoming tasks
    → All (λ t. queued t.id after ≡ false) tasks
Fresh-idle nodes after incoming [] same f = tt
Fresh-idle nodes after incoming (task ∷ tasks) same f = (
  ground (arith, same task.id, f.1),
  Fresh-idle nodes after (insert task.id incoming) tasks same f.3,
)

admit-Returns :
    (s : Scheduler) (tasks : List AgentTaskSpec) (after : Table Node)
    → Fresh s.nodes [] tasks
    → Linked s s.nodes after
    → Returns s (admit tasks s after)
unfolding admit
admit-Returns s tasks after f l = elim (Option-cases (graph_has_cycle_locked after)) [
  | inl thrown ↦ rw (Returns, admit, thrown) tt
  | inr (true, found) ↦ rw (Returns, admit, found) here
  | inr (false, found) ↦ elim (Option-cases (enqueue_all tasks (with_nodes s after))) [
    | inl thrown ↦ rw (Returns, admit, found, thrown) tt
    | inr (t, queue) ↦
        rw (Returns, admit, found, queue)
          (Changes-trans l.changes (
            enqueue_all-Changes s.nodes [] tasks (with_nodes s after) t f
              (Fresh-idle s.nodes after [] tasks l.same_queue f) queue))
  ]
]

submit_checked-Returns :
    (tasks : List AgentTaskSpec) (now : ℕ) (s : Scheduler) (e : Option Error)
    → (e ≡ none → Fresh s.nodes [] tasks)
    → Returns s (submit_checked tasks now s e)
unfolding submit_checked
submit_checked-Returns tasks now s (some x) f = here
submit_checked-Returns tasks now s none f =
    elim (Option-cases (link_all tasks (emplace_all now tasks s.nodes))) [
      | inl thrown ↦ rw (Returns, thrown) tt
      | inr (after, linked) ↦
          rw (Returns, linked)
            (admit-Returns s tasks after (f refl) (
              Linked-trans
                (record {
                  changes = emplace_all-Changes now s.nodes [] tasks s s.nodes (f refl);
                  same_queue = λ j. queued-emplace_all j now tasks s.nodes;
                })
                (link_all-Linked s tasks _ after linked)))
    ]

batch_error-Fresh :
    (tasks : List AgentTaskSpec) (s : Scheduler)
    → batch_error tasks s ≡ none
    → Fresh s.nodes [] tasks
batch_error-Fresh tasks s e =
    check_tasks-Fresh s.nodes [] tasks (elim (Option-cases (check_tasks s.nodes [] tasks).0) [
      | inl ok ↦ ok
      | inr (x, bad) ↦ absurd (ground arith)
    ])

pub submit_batch-Changes :
    (tasks : List AgentTaskSpec) (now : ℕ) (s : Scheduler) → Returns s (submit_batch tasks now s)
unfolding submit_batch
submit_batch-Changes tasks now s =
    submit_checked-Returns tasks now s (batch_error tasks s) (batch_error-Fresh tasks s)

pub spawn-Changes :
    (parent : ℕ) (task : AgentTaskSpec) (now : ℕ) (s : Scheduler)
    → Returns s (spawn parent task now s)
unfolding spawn
spawn-Changes parent task now s = elim (Bool-cases (contains parent s.nodes)) [
  | inl present ↦ rw (Returns, spawn, present) (submit_batch-Changes _ now s)
  | inr absent ↦ rw (Returns, spawn, absent) here
]
