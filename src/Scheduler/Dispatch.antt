-- ===== src/Scheduler/Dispatch.antt =====
-- agent-runtime/src/scheduler.cpp: dispatch_locked, which try_dispatch and wait_dispatch call under
-- the mutex. What wait_dispatch adds is a wait of at most 100 ms in which other operations may run.
use agent_nucleus.Prelude.{
  ℕ, ◌-◌, ◌/◌, ◌^◌, Bool, true, not, ◌||◌, Option, none, some, List, [], ◌∷◌, ltb, ◌==◌,
  if◌then◌else◌, ◌>>=◌, remove,
}
use agent_nucleus.Prelude.Int.{ℤ, pos, negsuc, ◌+ℤ◌, ◌*ℤ◌, ltb_ℤ}
use agent_nucleus.Table.{lookup}
use agent_nucleus.Types.{ready, waiting_resource, dispatched, state_eq, invalid_agent_id}
use agent_nucleus.Scheduler.State.{Node, Scheduler, with_state, update, add64}

-- The members of MemorySnapshot that the scheduler reads.
pub record MemorySnapshot : Type 0 where
  pub available_cpu_threads : ℕ
  pub available_bytes : ℕ

-- The locals `selected` and `best_score`.
pub record Best : Type 0 where
  pub selected : ℕ
  pub best_score : ℤ

abbrev pub no_best : Best
no_best = record { selected = invalid_agent_id; best_score = negsuc (2 ^ 63 - 1) }

-- `available > reserved ? available - reserved : 0`
abbrev pub allocatable : ℕ → ℕ → ℕ
allocatable available reserved = if ltb reserved available then available - reserved else 0

abbrev pub fits : MemorySnapshot → Node → Scheduler → Bool
fits m node s = not (
    ltb (allocatable m.available_cpu_threads s.reserved_cpu_threads)
      node.snapshot.spec.resources.cpu_threads
    || ltb (allocatable m.available_bytes s.reserved_memory_bytes)
        node.snapshot.spec.resources.memory_bytes)

-- The priority outweighs the wait in milliseconds; neither factor can leave the int64_t range.
unfoldable pub score : ℕ → Node → ℤ
score now node =
    node.snapshot.spec.priority *ℤ pos 1_000_000
    +ℤ pos ((now - node.snapshot.created_at) / 1_000_000)

unfoldable pub better : ℕ → ℕ → Node → Best → Best
better now id node b =
    if b.selected == invalid_agent_id || ltb_ℤ b.best_score (score now node)
    then record { selected = id; best_score = score now node }
    else b

-- The state that the body of the loop leaves in a node it looks at.
unfoldable pub considered : Bool → Node → Node
considered enough node =
    if not enough
    then with_state waiting_resource node
    else if state_eq node.snapshot.state waiting_resource
    then with_state ready node
    else node

-- The loop over `ready_`.
unfoldable pub consider_all :
    MemorySnapshot → ℕ → List ℕ → Scheduler → Best → Option (Scheduler × Best)
consider_all m now [] s b = some (s, b)
consider_all m now (id ∷ ids) s b = lookup id s.nodes >>= λ node.
    consider_all m now ids (update id (considered (fits m node s)) s)
      (if fits m node s then better now id node b else b)

abbrev pub mark_dispatched : Node → Node
mark_dispatched n = record (with_state dispatched n) { resources_reserved = true }

unfoldable pub reserve_selected : ℕ → Node → Scheduler → Scheduler
reserve_selected id node s = record (update id mark_dispatched s) {
  reserved_cpu_threads = add64 s.reserved_cpu_threads node.snapshot.spec.resources.cpu_threads;
  reserved_memory_bytes = add64 s.reserved_memory_bytes node.snapshot.spec.resources.memory_bytes;
  ready_set = remove id s.ready_set;
}

unfoldable pub take_selected : Scheduler × Best → Option (Scheduler × Option ℕ)
take_selected (s, b) =
    if b.selected == invalid_agent_id
    then some (s, none)
    else lookup b.selected s.nodes >>= λ node.
        some (reserve_selected b.selected node s, some b.selected)

unfoldable pub dispatch_locked : MemorySnapshot → ℕ → Scheduler → Option (Scheduler × Option ℕ)
dispatch_locked m now s = consider_all m now s.ready_set s no_best >>= take_selected
