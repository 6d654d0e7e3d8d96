-- ===== src/Scheduler/Refine/Fresh.antt =====
-- The tasks of a batch that passed the first loop, stored as new nodes.
use agent_nucleus.Prelude.{
  ℕ, ◌≡◌, refl, ◌∙◌, true, false, ◌||◌, none, List, [], ◌∷◌, arith, All, member, insert,
  member-insert, ◌==◌, inl, inr, Option-cases,
}
use agent_nucleus.Table.{Table, lookup, contains, emplace, emplace-contains}
use agent_nucleus.Types.{AgentTaskSpec, invalid_agent_id}
use agent_nucleus.Scheduler.State.{Node, Scheduler}
use agent_nucleus.Scheduler.Submit.{task_error, check_tasks, new_node, emplace_all}
use agent_nucleus.Scheduler.Changes.{is_queued, add, Changes, here, one, Changes-trans}
use agent_nucleus.Scheduler.Invariants.{queued, queued-emplace, member-at}

-- A scheduler with another node table.
abbrev pub with_nodes : Scheduler → Table Node → Scheduler
with_nodes s t = record s { nodes = t }

-- What the first loop checks: the ids are new, and differ from one another.
abbrev pub Fresh : Table Node → List ℕ → List AgentTaskSpec → Type 0
Fresh nodes incoming [] = Unit {0}
Fresh nodes incoming (task ∷ tasks) =
    ((task.id == invalid_agent_id) ≡ false)
    × (contains task.id nodes ≡ false)
    × (member task.id incoming ≡ false)
    × Fresh nodes (insert task.id incoming) tasks

pub task_error-none :
    (nodes : Table Node) (incoming : List ℕ) (task : AgentTaskSpec)
    → task_error nodes incoming task ≡ none
    → ((task.id == invalid_agent_id) ≡ false)
      × ((contains task.id nodes || member task.id incoming) ≡ false)
unfolding task_error
task_error-none nodes incoming task e = ground arith

pub check_tasks-Fresh :
    (nodes : Table Node) (incoming : List ℕ) (tasks : List AgentTaskSpec)
    → (check_tasks nodes incoming tasks).0 ≡ none
    → Fresh nodes incoming tasks
unfolding check_tasks
check_tasks-Fresh nodes incoming [] e = tt
check_tasks-Fresh nodes incoming (task ∷ tasks) e =
    elim (Option-cases (task_error nodes incoming task)) [
      | inl ok ↦
          let free = task_error-none nodes incoming task ok in
          (
            free.0,
            ground (arith, free.1),
            ground (arith, free.1),
            check_tasks-Fresh nodes (insert task.id incoming) tasks (rw (ok, check_tasks) at e),
          )
      | inr (x, bad) ↦ absurd (ground arith)
    ]

-- No later task has the id of an earlier one.
pub Fresh-ne :
    (id : ℕ) (nodes : Table Node) (incoming : List ℕ) (tasks : List AgentTaskSpec)
    → member id incoming ≡ true
    → Fresh nodes incoming tasks
    → All (λ t. (id == t.id) ≡ false) tasks
Fresh-ne id nodes incoming [] m f = tt
Fresh-ne id nodes incoming (task ∷ tasks) m f = (
  ground (arith, member-at task.id id incoming, m, f.2),
  Fresh-ne id nodes (insert task.id incoming) tasks
      (rw (member-insert id task.id incoming, m) (ground arith)) f.3,
)

pub emplace-Changes :
    (s : Scheduler) (nodes : Table Node) (id : ℕ) (n : Node)
    → (id == invalid_agent_id) ≡ false
    → is_queued n.snapshot.state ≡ false
    → n.resources_reserved ≡ false
    → n.successors ≡ []
    → Changes (with_nodes s nodes) (with_nodes s (emplace id n nodes))
emplace-Changes s nodes id n nz idle free alone = elim (Option-cases (lookup id nodes)) [
  | inl absent ↦ one (add id n nz absent idle free alone)
  | inr (w, present) ↦ rw (emplace-contains id n nodes w present) here
]

pub emplace_all-Changes :
    (now : ℕ) (old : Table Node) (incoming : List ℕ) (tasks : List AgentTaskSpec) (s : Scheduler)
    (nodes : Table Node)
    → Fresh old incoming tasks
    → Changes (with_nodes s nodes) (with_nodes s (emplace_all now tasks nodes))
unfolding emplace_all
emplace_all-Changes now old incoming [] s nodes f = here
emplace_all-Changes now old incoming (task ∷ tasks) s nodes f =
    Changes-trans (emplace-Changes s nodes task.id (new_node now task) f.0 refl refl refl) (
      emplace_all-Changes now old (insert task.id incoming) tasks s
        (emplace task.id (new_node now task) nodes) f.3)

-- New nodes are in the state CREATED, so no agent joins the ready set yet.
pub queued-emplace_all :
    (j now : ℕ) (tasks : List AgentTaskSpec) (nodes : Table Node)
    → queued j (emplace_all now tasks nodes) ≡ queued j nodes
unfolding emplace_all
queued-emplace_all j now [] nodes = refl
queued-emplace_all j now (task ∷ tasks) nodes =
    queued-emplace_all j now tasks (emplace task.id (new_node now task) nodes)
    ∙ queued-emplace j task.id (new_node now task) nodes refl
