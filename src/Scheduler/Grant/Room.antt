-- ===== src/Scheduler/Grant/Room.antt =====
-- What dispatch_locked reserves stays within what the memory snapshot offers.
use agent_nucleus.Prelude.{
  ℕ, ◌+◌, ◌≤◌, ◌<◌, ◌≡◌, refl, ap, subst, sym, ◌∙◌, some-inj, true, some, arith, if◌then◌else◌,
  ◌==◌, ◌⊎◌, inl, inr, Bool-cases, >>=-eq-some, u64_mod,
}
use agent_nucleus.Table.{lookup, weigh, weigh-adjust, lookup-adjust_self}
use agent_nucleus.Types.{dispatched, invalid_agent_id}
use agent_nucleus.Scheduler.State.{Node, Scheduler}
use agent_nucleus.Scheduler.Dispatch.{
  MemorySnapshot, Best, no_best, fits, mark_dispatched, reserve_selected, consider_all,
  take_selected, dispatch_locked,
}
use agent_nucleus.Scheduler.Changes.{reserve, Changes-keep}
use agent_nucleus.Scheduler.Invariants.{cpu_held, memory_held, Covered, Change-Covered}
use agent_nucleus.Scheduler.Refine.Dispatch.{Chosen, consider_all-Changes}

-- The agent `id` of `t` holds its request, and where it asks for a resource at all, all agents that
-- hold a reservation of it ask together for no more than is available.
abbrev pub IsWithin : MemorySnapshot → Scheduler → ℕ → Type 0
IsWithin m t id =
    (n : Node) × (lookup id t.nodes ≡ some n)
    × (n.snapshot.state ≡ dispatched)
    × (n.resources_reserved ≡ true)
    × ((n.snapshot.spec.resources.cpu_threads ≡ 0)
        ⊎ (weigh cpu_held t.nodes ≤ m.available_cpu_threads))
    × ((n.snapshot.spec.resources.memory_bytes ≡ 0)
        ⊎ (weigh memory_held t.nodes ≤ m.available_bytes))

reserve_selected-IsWithin :
    (m : MemorySnapshot) (id : ℕ) (n : Node) (s : Scheduler)
    → lookup id s.nodes ≡ some n
    → fits m n s ≡ true
    → m.available_cpu_threads < u64_mod
    → m.available_bytes < u64_mod
    → Covered (reserve_selected id n s)
    → IsWithin m (reserve_selected id n s) id
unfolding reserve_selected
reserve_selected-IsWithin m id n s e fit hc hm c = (
  mark_dispatched n,
  lookup-adjust_self id mark_dispatched s.nodes e,
  refl,
  refl,
  ground (arith, c.cpu_covered),
  ground (arith, c.memory_covered),
)

take_selected-IsWithin :
    (m : MemorySnapshot) (s t : Scheduler) (b : Best) (id : ℕ)
    → m.available_cpu_threads < u64_mod
    → m.available_bytes < u64_mod
    → Covered s
    → Chosen m s b
    → take_selected (s, b) ≡ some (t, some id)
    → IsWithin m t id
unfolding take_selected
take_selected-IsWithin m s t b id hc hm c chosen e =
    elim (Bool-cases (b.selected == invalid_agent_id)) [
      | inl unset ↦ absurd (ground (arith, rw unset at e))
      | inr set ↦
          let (n, at, e') = >>=-eq-some (lookup b.selected s.nodes) _ (rw set at e) in
          let same : (reserve_selected b.selected n s, some b.selected) ≡ (t, some id) =
            some-inj e' in
          elim chosen [
            | inl zero_id ↦ absurd (ground arith)
            | inr (k, at_k, fit) ↦
                let is : k ≡ n = some-inj (sym at_k ∙ at) in
                let fit_n = subst (λ x. fits m x s ≡ true) is fit in
                let covered =
                  Change-Covered s (reserve_selected b.selected n s)
                    (reserve b.selected n m at hc hm fit_n) c in
                subst (IsWithin m t) (some-inj (ap (λ p. p.1) same)) (
                  subst (λ u. IsWithin m u b.selected) (ap (λ p. p.0) same)
                    (reserve_selected-IsWithin m b.selected n s at fit_n hc hm covered))
          ]
    ]

-- Where the reservation totals cover what is held, as they do after any history, and the memory
-- snapshot is in the range of its types, an agent that dispatch_locked selects is DISPATCHED and
-- holds its reservation; and the agents that hold a reservation of a resource that it asks for
-- ask together for no more of it than is available.
pub dispatch_locked-IsWithin :
    (m : MemorySnapshot) (now : ℕ) (s t : Scheduler) (id : ℕ)
    → m.available_cpu_threads < u64_mod
    → m.available_bytes < u64_mod
    → Covered s
    → dispatch_locked m now s ≡ some (t, some id)
    → IsWithin m t id
unfolding dispatch_locked
dispatch_locked-IsWithin m now s t id hc hm c e =
    let (p, e1, e2) = >>=-eq-some (consider_all m now s.ready_set s no_best) take_selected e in
    let (steps, chosen) =
      consider_all-Changes m now s.ready_set s no_best p.0 p.1 e1 (λ j h. h) (inl refl) in
    take_selected-IsWithin m p.0 t p.1 id hc hm (Changes-keep Covered Change-Covered steps c) chosen
      e2

-- Where the agent `id` fits, dispatching it raises the totals by its request without a wrap, while
-- what the agents hold together rises by the request only if `id` does not hold it already: an agent
-- that is dispatched a second time, after a wake, is counted twice.
pub reserve_selected-accounts :
    (m : MemorySnapshot) (id : ℕ) (n : Node) (s : Scheduler)
    → lookup id s.nodes ≡ some n
    → fits m n s ≡ true
    → m.available_cpu_threads < u64_mod
    → m.available_bytes < u64_mod
    → Covered s
    → let t = reserve_selected id n s in
      let r = n.snapshot.spec.resources in
      (t.reserved_cpu_threads ≡ s.reserved_cpu_threads + r.cpu_threads)
      × (t.reserved_memory_bytes ≡ s.reserved_memory_bytes + r.memory_bytes)
      × (weigh cpu_held t.nodes
          ≡ weigh cpu_held s.nodes + (if n.resources_reserved then 0 else r.cpu_threads))
      × (weigh memory_held t.nodes
          ≡ weigh memory_held s.nodes + (if n.resources_reserved then 0 else r.memory_bytes))
unfolding reserve_selected
reserve_selected-accounts m id n s e fit hc hm c = (
  ground arith,
  ground arith,
  ground (arith, weigh-adjust cpu_held id mark_dispatched s.nodes n e),
  ground (arith, weigh-adjust memory_held id mark_dispatched s.nodes n e),
)
