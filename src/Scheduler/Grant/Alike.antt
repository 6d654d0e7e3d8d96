-- ===== src/Scheduler/Grant/Alike.antt =====
-- The loop of dispatch_locked changes nothing that its choice depends on.
use agent_nucleus.Prelude.{
  ℕ, ◌-◌, ◌/◌, ◌≡◌, refl, sym, ◌∙◌, ap, subst, some-inj, Bool, true, false, not, ◌||◌, some, ◌==◌,
  ==_iff, if◌then◌else◌, ltb, inl, inr, Bool-cases,
}
use agent_nucleus.Prelude.Int.{pos, ◌+ℤ◌, ◌*ℤ◌, ltb_ℤ}
use agent_nucleus.Table.{lookup, lookup-adjust, lookup-adjust_self}
use agent_nucleus.Types.{AgentTaskSpec, waiting_resource, state_eq, invalid_agent_id}
use agent_nucleus.Scheduler.State.{Node, Scheduler, update}
use agent_nucleus.Scheduler.Dispatch.{
  MemorySnapshot, Best, allocatable, fits, score, better, considered,
}

-- What the loop reads of a node and never writes.
pub record Essence : Type 0 where
  pub spec : AgentTaskSpec
  pub created_at : ℕ

abbrev pub essence : Node → Essence
essence n = record { spec = n.snapshot.spec; created_at = n.snapshot.created_at }

-- Two schedulers that dispatch alike: the same reservations, the same nodes up to their states.
pub record Alike (s t : Scheduler) : Type 0 where
  pub cpu : t.reserved_cpu_threads ≡ s.reserved_cpu_threads
  pub memory : t.reserved_memory_bytes ≡ s.reserved_memory_bytes
  pub there :
      (j : ℕ) (n : Node)
      → lookup j t.nodes ≡ some n
      → (k : Node) × (lookup j s.nodes ≡ some k) × (essence n ≡ essence k)

essence-considered : (enough : Bool) (n : Node) → essence (considered enough n) ≡ essence n
unfolding considered
essence-considered false n = refl
essence-considered true n = elim (Bool-cases (state_eq n.snapshot.state waiting_resource)) [
  | inl waits ↦ rw (waits, considered) refl
  | inr other ↦ rw (other, considered) refl
]

pub Alike-update :
    (s t : Scheduler) (id : ℕ) (enough : Bool) (m : Node)
    → lookup id t.nodes ≡ some m
    → Alike s t
    → Alike s (update id (considered enough) t)
Alike-update s t id enough m e a = record {
  cpu = a.cpu;
  memory = a.memory;
  there = λ j n found. elim (Bool-cases (id == j)) [
    | inl hit ↦
        let same : id ≡ j = (==_iff id j).0 hit in
        let (k, at, alike) = a.there id m e in
        let is : considered enough m ≡ n = some-inj (
          sym (lookup-adjust_self id (considered enough) t.nodes e)
          ∙ subst (λ i. lookup i (update id (considered enough) t).nodes ≡ some n) (sym same)
              found) in
        (
          k,
          subst (λ i. lookup i s.nodes ≡ some k) same at,
          ap essence (sym is) ∙ essence-considered enough m ∙ alike,
        )
    | inr miss ↦ a.there j n (rw (lookup-adjust j id (considered enough) t.nodes, miss) at found)
  ];
}

pub score-essence : (now : ℕ) (n k : Node) → essence n ≡ essence k → score now n ≡ score now k
unfolding score
score-essence now n k e =
    ap (λ (x : Essence). x.spec.priority *ℤ pos 1_000_000 +ℤ pos ((now - x.created_at) / 1_000_000))
      e

pub fits-essence :
    (m : MemorySnapshot) (s t : Scheduler) (n k : Node)
    → Alike s t
    → essence n ≡ essence k
    → fits m n t ≡ fits m k s
fits-essence m s t n k a e =
    rw (a.cpu, a.memory)
      (ap
        (λ (x : Essence). not (
          ltb (allocatable m.available_cpu_threads s.reserved_cpu_threads)
            x.spec.resources.cpu_threads
          || ltb (allocatable m.available_bytes s.reserved_memory_bytes)
              x.spec.resources.memory_bytes))
        e)

pub better-essence :
    (now id : ℕ) (n k : Node) (b : Best)
    → essence n ≡ essence k
    → better now id n b ≡ better now id k b
unfolding better
better-essence now id n k b e =
    ap
      (λ points.
        if b.selected == invalid_agent_id || ltb_ℤ b.best_score points
        then record { selected = id; best_score = points }
        else b)
      (score-essence now n k e)
