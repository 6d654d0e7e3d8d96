-- ===== src/Scheduler/Invariants.antt =====
-- Two invariants of AgentScheduler, kept by every change: the ready set, and the reservations.
use agent_nucleus.Prelude.{
  ℕ, ◌≤◌, ◌<◌, ◌≡◌, refl, sym, ap, ◌∙◌, Bool, true, false, Option, none, some, List, arith, member,
  member-insert, member-remove, u64_mod, if◌then◌else◌, ==_iff, Bool-cases, inl, inr, ◌==◌,
}
use agent_nucleus.Table.{
  Table, lookup, adjust, emplace, lookup-adjust, lookup-adjust_self, lookup-emplace, weigh,
  weigh-adjust, weigh-emplace, weigh-le,
}
use agent_nucleus.Types.{invalid_agent_id}
use agent_nucleus.Scheduler.State.{
  Node, Scheduler, clear_reserved, update, release_resources_locked,
}
use agent_nucleus.Scheduler.Dispatch.{MemorySnapshot, fits, mark_dispatched, reserve_selected}
use agent_nucleus.Scheduler.Submit.{add_successor}
use agent_nucleus.Scheduler.Changes.{
  is_queued, Keeps, Change, quiet, add, connect, requeue, enter, leave, release, reserve,
}

-- Whether the state of an agent is READY or WAITING_RESOURCE.
abbrev pub is_queued? : Option Node → Bool
is_queued? none = false
is_queued? (some n) = is_queued n.snapshot.state

abbrev pub queued : ℕ → Table Node → Bool
queued j t = is_queued? (lookup j t)

-- The ready set holds exactly the agents whose state is READY or WAITING_RESOURCE.
abbrev pub ReadyMatches : Scheduler → Type 0
ReadyMatches s = (j : ℕ) → member j s.ready_set ≡ queued j s.nodes

pub queued-adjust :
    (j k : ℕ) (f : Node → Node) (t : Table Node) (n : Node)
    → lookup k t ≡ some n
    → queued j (adjust k f t) ≡ (if k == j then is_queued (f n).snapshot.state else queued j t)
queued-adjust j k f t n e = elim (Bool-cases (k == j)) [
  | inl hit ↦ rw (hit, ← (==_iff k j).0 hit) (ap is_queued? (lookup-adjust_self k f t e))
  | inr miss ↦ rw (lookup-adjust j k f t, miss) refl
]

pub queued-emplace :
    (j k : ℕ) (n : Node) (t : Table Node)
    → is_queued n.snapshot.state ≡ false
    → queued j (emplace k n t) ≡ queued j t
queued-emplace j k n t idle = rw (lookup-emplace j k n t) (ground arith)

pub queued-at :
    (j k : ℕ) (t : Table Node) (n : Node)
    → lookup k t ≡ some n
    → (k == j) ≡ true
    → queued j t ≡ is_queued n.snapshot.state
queued-at j k t n e hit = rw (← (==_iff k j).0 hit) (ap is_queued? e)

pub member-at : (j k : ℕ) (xs : List ℕ) → (k == j) ≡ true → member j xs ≡ member k xs
member-at j k xs hit = ap (λ i. member i xs) (sym ((==_iff k j).0 hit))

pub Change-ReadyMatches : (s t : Scheduler) → Change s t → ReadyMatches s → ReadyMatches t
unfolding release_resources_locked reserve_selected
Change-ReadyMatches s _ (quiet id f n e k q) m j =
    ground (arith, m j, queued-adjust j id f s.nodes n e, queued-at j id s.nodes n e)
Change-ReadyMatches s _ (add id n nz e idle free alone) m j =
    m j ∙ sym (queued-emplace j id n s.nodes idle)
Change-ReadyMatches s _ (connect id d n e there) m j =
    ground
      (arith, m j, queued-adjust j id (add_successor d) s.nodes n e, queued-at j id s.nodes n e)
Change-ReadyMatches s _ (requeue id f n e k i q) m j =
    ground (arith, m j, queued-adjust j id f s.nodes n e, member-at j id s.ready_set)
Change-ReadyMatches s _ (enter id f n e k q) m j =
    ground (arith, m j, queued-adjust j id f s.nodes n e, member-insert j id s.ready_set)
Change-ReadyMatches s _ (leave id f n e k q) m j =
    ground (arith, m j, queued-adjust j id f s.nodes n e, member-remove j id s.ready_set)
Change-ReadyMatches s _ (release id n c e k) m j =
    ground (arith, m j, queued-adjust j id clear_reserved s.nodes c e, queued-at j id s.nodes c e)
Change-ReadyMatches s _ (reserve id n r e hc hm fit) m j =
    ground
      (arith, m j, queued-adjust j id mark_dispatched s.nodes n e, member-remove j id s.ready_set)

-- What a node holds of each resource.
abbrev pub cpu_held : Node → ℕ
cpu_held n = if n.resources_reserved then n.snapshot.spec.resources.cpu_threads else 0

abbrev pub memory_held : Node → ℕ
memory_held n = if n.resources_reserved then n.snapshot.spec.resources.memory_bytes else 0

-- The two totals cover what the nodes hold, and stay in the range of uint64_t.
pub record Covered (s : Scheduler) : Type 0 where
  pub cpu_in_range : s.reserved_cpu_threads < u64_mod
  pub memory_in_range : s.reserved_memory_bytes < u64_mod
  pub cpu_covered : weigh cpu_held s.nodes ≤ s.reserved_cpu_threads
  pub memory_covered : weigh memory_held s.nodes ≤ s.reserved_memory_bytes

-- The weight of the table after a write to one node.
weigh-Keeps :
    (w : Node → ℕ) (id : ℕ) (f : Node → Node) (t : Table Node) (n : Node)
    → lookup id t ≡ some n
    → w (f n) ≡ w n
    → weigh w (adjust id f t) ≡ weigh w t
weigh-Keeps w id f t n e same = omega (arith, weigh-adjust w id f t n e)

cpu-Keeps : (n m : Node) → Keeps n m → cpu_held m ≡ cpu_held n
cpu-Keeps n m k = ground arith

memory-Keeps : (n m : Node) → Keeps n m → memory_held m ≡ memory_held n
memory-Keeps n m k = ground arith

update-Covered :
    (s : Scheduler) (id : ℕ) (f : Node → Node) (n : Node)
    → lookup id s.nodes ≡ some n
    → cpu_held (f n) ≡ cpu_held n
    → memory_held (f n) ≡ memory_held n
    → Covered s
    → Covered (update id f s)
update-Covered s id f n e same_cpu same_memory c = record {
  cpu_in_range = c.cpu_in_range;
  memory_in_range = c.memory_in_range;
  cpu_covered = omega (arith, weigh-Keeps cpu_held id f s.nodes n e same_cpu, c.cpu_covered);
  memory_covered =
      omega (arith, weigh-Keeps memory_held id f s.nodes n e same_memory, c.memory_covered);
}

release-Covered :
    (s : Scheduler) (id : ℕ) (n m : Node)
    → lookup id s.nodes ≡ some m
    → Keeps n m
    → Covered s
    → Covered (release_resources_locked id n s)
unfolding release_resources_locked
release-Covered s id n m e k c = ground (
  arith,
  cpu-Keeps n m k,
  memory-Keeps n m k,
  weigh-adjust cpu_held id clear_reserved s.nodes m e,
  weigh-adjust memory_held id clear_reserved s.nodes m e,
  weigh-le cpu_held id s.nodes m e,
  weigh-le memory_held id s.nodes m e,
)

reserve-Covered :
    (s : Scheduler) (id : ℕ) (n : Node) (r : MemorySnapshot)
    → lookup id s.nodes ≡ some n
    → r.available_cpu_threads < u64_mod
    → r.available_bytes < u64_mod
    → fits r n s ≡ true
    → Covered s
    → Covered (reserve_selected id n s)
unfolding reserve_selected
reserve-Covered s id n r e hc hm fit c = ground (
  arith,
  weigh-adjust cpu_held id mark_dispatched s.nodes n e,
  weigh-adjust memory_held id mark_dispatched s.nodes n e,
)

pub Change-Covered : (s t : Scheduler) → Change s t → Covered s → Covered t
Change-Covered s _ (quiet id f n e k q) c =
    update-Covered s id f n e (cpu-Keeps n (f n) k) (memory-Keeps n (f n) k) c
Change-Covered s _ (add id n nz e idle free alone) c =
    ground (arith, weigh-emplace cpu_held id n s.nodes e, weigh-emplace memory_held id n s.nodes e)
Change-Covered s _ (connect id d n e there) c =
    update-Covered s id (add_successor d) n e refl refl c
Change-Covered s _ (requeue id f n e k i q) c =
    update-Covered s id f n e (cpu-Keeps n (f n) k) (memory-Keeps n (f n) k) c
Change-Covered s _ (enter id f n e k q) c =
    ground (arith, update-Covered s id f n e (cpu-Keeps n (f n) k) (memory-Keeps n (f n) k) c)
Change-Covered s _ (leave id f n e k q) c =
    ground (arith, update-Covered s id f n e (cpu-Keeps n (f n) k) (memory-Keeps n (f n) k) c)
Change-Covered s _ (release id n m e k) c = release-Covered s id n m e k c
Change-Covered s _ (reserve id n r e hc hm fit) c = reserve-Covered s id n r e hc hm fit c

-- No agent is stored under the reserved id.
abbrev pub NoInvalidId : Scheduler → Type 0
NoInvalidId s = lookup invalid_agent_id s.nodes ≡ none

lookup-adjust-none :
    (j k : ℕ) (f : Node → Node) (t : Table Node)
    → lookup j t ≡ none
    → lookup j (adjust k f t) ≡ none
lookup-adjust-none j k f t e = rw (lookup-adjust j k f t, e) (ground arith)

pub Change-NoInvalidId : (s t : Scheduler) → Change s t → NoInvalidId s → NoInvalidId t
unfolding release_resources_locked reserve_selected
Change-NoInvalidId s _ (quiet id f n e k q) z = lookup-adjust-none _ id f s.nodes z
Change-NoInvalidId s _ (add id n nz e idle free alone) z =
    rw (lookup-emplace invalid_agent_id id n s.nodes, z, nz) refl
Change-NoInvalidId s _ (connect id d n e there) z =
    lookup-adjust-none _ id (add_successor d) s.nodes z
Change-NoInvalidId s _ (requeue id f n e k i q) z = lookup-adjust-none _ id f s.nodes z
Change-NoInvalidId s _ (enter id f n e k q) z = lookup-adjust-none _ id f s.nodes z
Change-NoInvalidId s _ (leave id f n e k q) z = lookup-adjust-none _ id f s.nodes z
Change-NoInvalidId s _ (release id n m e k) z =
    ground (arith, lookup-adjust-none invalid_agent_id id clear_reserved s.nodes z)
Change-NoInvalidId s _ (reserve id n r e hc hm fit) z =
    lookup-adjust-none _ id mark_dispatched s.nodes z
