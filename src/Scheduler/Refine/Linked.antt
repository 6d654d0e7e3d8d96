-- ===== src/Scheduler/Refine/Linked.antt =====
-- The loop of a batch that links the tasks to their dependencies.
use agent_nucleus.Prelude.{
  ℕ, ◌≡◌, refl, sym, ◌∙◌, ap, subst, some-inj, true, some, List, [], ◌∷◌, arith, inl, inr,
  Option-cases, >>=-eq-some,
}
use agent_nucleus.Table.{Table, lookup, contains, adjust, lookup-adjust, adjust-missing}
use agent_nucleus.Types.{AgentTaskSpec}
use agent_nucleus.Scheduler.State.{Node, Scheduler}
use agent_nucleus.Scheduler.Submit.{add_successor, link, set_unresolved, store_unresolved, link_all}
use agent_nucleus.Scheduler.Changes.{
  is_queued, Keeps, quiet, connect, Changes, here, one, Changes-trans,
}
use agent_nucleus.Scheduler.Invariants.{queued, queued-adjust, queued-at}
use agent_nucleus.Scheduler.Refine.Fresh.{with_nodes}

-- Two tables that differ in successors and counters only.
pub record Linked (s : Scheduler) (nodes after : Table Node) : Type 0 where
  pub changes : Changes (with_nodes s nodes) (with_nodes s after)
  pub same_queue : (j : ℕ) → queued j after ≡ queued j nodes

pub Linked-trans : {s : Scheduler} {a b c : Table Node} → Linked s a b → Linked s b c → Linked s a c
Linked-trans l k = record {
  changes = Changes-trans l.changes k.changes;
  same_queue = λ j. k.same_queue j ∙ l.same_queue j;
}

pub Linked-adjust :
    (s : Scheduler) (nodes : Table Node) (id : ℕ) (f : Node → Node) (n : Node)
    → lookup id nodes ≡ some n
    → Keeps n (f n)
    → (f n).snapshot.state ≡ n.snapshot.state
    → Linked s nodes (adjust id f nodes)
Linked-adjust s nodes id f n e k same = record {
  changes = one (quiet id f n e k (ap is_queued same));
  same_queue = λ j.
      ground (arith, queued-adjust j id f nodes n e, queued-at j id nodes n e, ap is_queued same);
}

pub Linked-eq : {s : Scheduler} {a b : Table Node} → a ≡ b → Linked s a b
Linked-eq {s} {a} e = subst (Linked s a) e (record { changes = here; same_queue = λ j. refl })

pub contains-adjust :
    (j k : ℕ) (f : Node → Node) (t : Table Node)
    → contains j t ≡ true
    → contains j (adjust k f t) ≡ true
contains-adjust j k f t e = ground (arith, lookup-adjust j k f t)

pub Linked-connect :
    (s : Scheduler) (nodes : Table Node) (d id : ℕ) (n : Node)
    → lookup d nodes ≡ some n
    → contains id nodes ≡ true
    → Linked s nodes (adjust d (add_successor id) nodes)
Linked-connect s nodes d id n e there = record {
  changes = one (connect d id n e there);
  same_queue =
      λ j. ground (arith, queued-adjust j d (add_successor id) nodes n e, queued-at j d nodes n e);
}

pub link-Linked :
    (s : Scheduler) (id : ℕ) (ds : List ℕ) (unresolved : ℕ) (nodes : Table Node)
    (r : Table Node × ℕ)
    → contains id nodes ≡ true
    → link id ds unresolved nodes ≡ some r
    → Linked s nodes r.0
unfolding link
link-Linked s id [] unresolved nodes r there e = Linked-eq (ap (λ p. p.0) (some-inj e))
link-Linked s id (d ∷ ds) unresolved nodes r there e =
    let (n, found, e') = >>=-eq-some (lookup d nodes) _ e in
    Linked-trans (Linked-connect s nodes d id n found there) (
      link-Linked s id ds _ (adjust d (add_successor id) nodes) r
        (contains-adjust id d (add_successor id) nodes there) e')

pub store-Linked :
    (s : Scheduler) (id count : ℕ) (nodes : Table Node)
    → Linked s nodes (adjust id (set_unresolved count) nodes)
store-Linked s id count nodes = elim (Option-cases (lookup id nodes)) [
  | inl absent ↦ Linked-eq (sym (adjust-missing id (set_unresolved count) nodes absent))
  | inr (n, e) ↦
      Linked-adjust s nodes id (set_unresolved count) n e
        (record { same_spec = refl; same_reserved = refl; same_successors = refl }) refl
]

pub link_all-Linked :
    (s : Scheduler) (tasks : List AgentTaskSpec) (nodes after : Table Node)
    → link_all tasks nodes ≡ some after
    → Linked s nodes after
unfolding link_all
link_all-Linked s [] nodes after e = Linked-eq (some-inj e)
link_all-Linked s (task ∷ tasks) nodes after e =
    let (n, found, e1) = >>=-eq-some (lookup task.id nodes) _ e in
    let (r, e2, e3) = >>=-eq-some (link task.id task.dependencies 0 nodes) _ e1 in
    Linked-trans (link-Linked s task.id task.dependencies 0 nodes r (ground (arith, found)) e2) (
      Linked-trans (store-Linked s task.id r.1 r.0)
        (link_all-Linked s tasks (store_unresolved task.id r) after e3))
