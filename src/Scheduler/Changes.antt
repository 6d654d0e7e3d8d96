-- ===== src/Scheduler/Changes.antt =====
-- The operations of agent-runtime/src/scheduler.cpp taken apart into atomic changes of the state.
-- An invariant is proved once for each kind of change, and holds then after every operation.
use agent_nucleus.Prelude.{
  ℕ, ◌<◌, ◌≡◌, refl, Bool, true, false, none, some, [], member, insert, remove, u64_mod, ◌==◌,
}
use agent_nucleus.Table.{lookup, contains, emplace}
use agent_nucleus.Types.{
  AgentState, ready, waiting_resource, running, blocked, completed, failed, invalid_agent_id,
}
use agent_nucleus.Scheduler.State.{
  Node, Scheduler, update, transition_allowed, release_resources_locked,
}
use agent_nucleus.Scheduler.Submit.{add_successor}
use agent_nucleus.Scheduler.Dispatch.{MemorySnapshot, fits, reserve_selected}

-- The states of an agent that waits in the ready set.
abbrev pub is_queued : AgentState → Bool
is_queued ready = true
is_queued waiting_resource = true
is_queued s = false

-- What a change of one node leaves alone.
pub record Keeps (n m : Node) : Type 0 where
  pub same_spec : m.snapshot.spec ≡ n.snapshot.spec
  pub same_reserved : m.resources_reserved ≡ n.resources_reserved
  pub same_successors : m.successors ≡ n.successors

pub data Change (s : Scheduler) : Scheduler → Type 0 where
  quiet :
      (id : ℕ) (f : Node → Node) (n : Node)
      → lookup id s.nodes ≡ some n
      → Keeps n (f n)
      → is_queued (f n).snapshot.state ≡ is_queued n.snapshot.state
      → Change s (update id f s)
  add :
      (id : ℕ) (n : Node)
      → (id == invalid_agent_id) ≡ false
      → lookup id s.nodes ≡ none
      → is_queued n.snapshot.state ≡ false
      → n.resources_reserved ≡ false
      → n.successors ≡ []
      → Change s (record s { nodes = emplace id n s.nodes })
  connect :
      (id successor : ℕ) (n : Node)
      → lookup id s.nodes ≡ some n
      → contains successor s.nodes ≡ true
      → Change s (update id (add_successor successor) s)
  requeue :
      (id : ℕ) (f : Node → Node) (n : Node)
      → lookup id s.nodes ≡ some n
      → Keeps n (f n)
      → member id s.ready_set ≡ true
      → is_queued (f n).snapshot.state ≡ true
      → Change s (update id f s)
  enter :
      (id : ℕ) (f : Node → Node) (n : Node)
      → lookup id s.nodes ≡ some n
      → Keeps n (f n)
      → is_queued (f n).snapshot.state ≡ true
      → Change s (record (update id f s) { ready_set = insert id s.ready_set })
  leave :
      (id : ℕ) (f : Node → Node) (n : Node)
      → lookup id s.nodes ≡ some n
      → Keeps n (f n)
      → is_queued (f n).snapshot.state ≡ false
      → Change s (record (update id f s) { ready_set = remove id s.ready_set })
  release :
      (id : ℕ) (n m : Node)
      → lookup id s.nodes ≡ some m
      → Keeps n m
      → Change s (release_resources_locked id n s)
  reserve :
      (id : ℕ) (n : Node) (m : MemorySnapshot)
      → lookup id s.nodes ≡ some n
      → m.available_cpu_threads < u64_mod
      → m.available_bytes < u64_mod
      → fits m n s ≡ true
      → Change s (reserve_selected id n s)

-- A sequence of changes.
pub data Changes (s : Scheduler) : Scheduler → Type 0 where
  here : Changes s s
  next : {t u : Scheduler} → Changes s t → Change t u → Changes s u

pub one : {s t : Scheduler} → Change s t → Changes s t
one c = next here c

pub Changes-trans : {s t u : Scheduler} → Changes s t → Changes t u → Changes s u
Changes-trans c here = c
Changes-trans c (next d e) = next (Changes-trans c d) e

-- A property that every change keeps is kept by a sequence.
pub Changes-keep {ℓ} :
    (P : Scheduler → Type ℓ)
    → ((s t : Scheduler) → Change s t → P s → P t)
    → {s t : Scheduler} → Changes s t
    → P s
    → P t
Changes-keep P keep here p = p
Changes-keep P keep (next c e) p = keep _ _ e (Changes-keep P keep c p)

pub not_queued_of_running :
    (c : AgentState) → transition_allowed c running ≡ true → is_queued c ≡ false
unfolding transition_allowed
not_queued_of_running ready e = cc
not_queued_of_running waiting_resource e = cc
not_queued_of_running _ e = refl

pub not_queued_of_blocked :
    (c : AgentState) → transition_allowed c blocked ≡ true → is_queued c ≡ false
unfolding transition_allowed
not_queued_of_blocked ready e = cc
not_queued_of_blocked waiting_resource e = cc
not_queued_of_blocked _ e = refl

pub not_queued_of_completed :
    (c : AgentState) → transition_allowed c completed ≡ true → is_queued c ≡ false
unfolding transition_allowed
not_queued_of_completed ready e = cc
not_queued_of_completed waiting_resource e = cc
not_queued_of_completed _ e = refl

pub not_queued_of_failed :
    (c : AgentState) → transition_allowed c failed ≡ true → is_queued c ≡ false
unfolding transition_allowed
not_queued_of_failed ready e = cc
not_queued_of_failed waiting_resource e = cc
not_queued_of_failed _ e = refl
