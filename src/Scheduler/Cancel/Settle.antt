-- ===== src/Scheduler/Cancel/Settle.antt =====
-- What cancel_descendants_locked leaves behind: it only turns live agents into CANCELLED ones, and
-- the successors of each agent that it cancels are terminal in the end.
use agent_nucleus.Prelude.{
  ℕ, ◌≡◌, refl, sym, ◌∙◌, ap, subst, Bool, true, false, not, Option, none, some, List, [], ◌∷◌, All,
  ◌==◌, ==_iff, if◌then◌else◌, ◌⊎◌, inl, inr, Bool-cases,
}
use mathlib.Core.Bool.{false≢true}
use agent_nucleus.Table.{Table, lookup, adjust, lookup-adjust, lookup-adjust_self}
use agent_nucleus.Types.{AgentState, cancelled, is_terminal, Message}
use agent_nucleus.Scheduler.State.{Node, Scheduler, clear_reserved, release_resources_locked}
use agent_nucleus.Scheduler.Cascade.{cancel_node}
use agent_nucleus.Scheduler.Refine.Cascade.{set_cancelled, cancel_node-eq, lookup-release}
use agent_nucleus.Scheduler.Refine.Agent.{unchanged}

abbrev pub status_of : Option Node → Option AgentState
status_of none = none
status_of (some n) = some n.snapshot.state

abbrev pub successors_of : Option Node → List ℕ
successors_of none = []
successors_of (some n) = n.successors

-- The state of an agent, none where it is not stored.
abbrev pub status : ℕ → Table Node → Option AgentState
status id t = status_of (lookup id t)

abbrev pub successors : ℕ → Table Node → List ℕ
successors id t = successors_of (lookup id t)

-- The agent is stored and its state is not terminal.
abbrev pub is_live : Option AgentState → Bool
is_live none = false
is_live (some s) = not (is_terminal s)

-- Writes to one node, seen through the two views.
pub status-adjust :
    (j k : ℕ) (f : Node → Node) (t : Table Node) (n : Node)
    → lookup k t ≡ some n
    → status j (adjust k f t) ≡ (if k == j then some (f n).snapshot.state else status j t)
status-adjust j k f t n e = elim (Bool-cases (k == j)) [
  | inl hit ↦ rw (hit, ← (==_iff k j).0 hit) (ap status_of (lookup-adjust_self k f t e))
  | inr miss ↦ rw (lookup-adjust j k f t, miss) refl
]

pub successors-adjust :
    (j k : ℕ) (f : Node → Node) (t : Table Node) (n : Node)
    → lookup k t ≡ some n
    → (f n).successors ≡ n.successors
    → successors j (adjust k f t) ≡ successors j t
successors-adjust j k f t n e same = elim (Bool-cases (k == j)) [
  | inl hit ↦
      rw (← (==_iff k j).0 hit)
        (ap successors_of (lookup-adjust_self k f t e) ∙ same ∙ sym (ap successors_of e))
  | inr miss ↦ rw (lookup-adjust j k f t, miss) refl
]

-- A release changes neither view.
pub status-release :
    (j id : ℕ) (n m : Node) (s : Scheduler)
    → lookup id s.nodes ≡ some m
    → status j (release_resources_locked id n s).nodes ≡ status j s.nodes
unfolding release_resources_locked
status-release j id n m s e = elim (Bool-cases n.resources_reserved) [
  | inl held ↦ rw held (
      status-adjust j id clear_reserved s.nodes m e ∙ elim (Bool-cases (id == j)) [
        | inl hit ↦ rw (hit, ← (==_iff id j).0 hit) (sym (ap status_of e))
        | inr miss ↦ rw miss refl
      ])
  | inr free ↦ rw free refl
]

pub successors-release :
    (j id : ℕ) (n m : Node) (s : Scheduler)
    → lookup id s.nodes ≡ some m
    → successors j (release_resources_locked id n s).nodes ≡ successors j s.nodes
unfolding release_resources_locked
successors-release j id n m s e = elim (Bool-cases n.resources_reserved) [
  | inl held ↦ rw held (successors-adjust j id clear_reserved s.nodes m e refl)
  | inr free ↦ rw free refl
]

module _ (now : ℕ) (message : Message) (id : ℕ) (node : Node) (s : Scheduler)
    (e : lookup id s.nodes ≡ some node) where
  pub status-cancel_node :
      (j : ℕ)
      → status j (cancel_node now message id node s).nodes
        ≡ (if id == j then some cancelled else status j s.nodes)
  status-cancel_node j =
      let (k, found, same) = lookup-release id node node s e unchanged in
      rw (cancel_node-eq now message id node s) (
        status-adjust j id (set_cancelled now message) (release_resources_locked id node s).nodes k
          found
        ∙ ap (λ o. if id == j then some cancelled else o) (status-release j id node node s e))

  pub successors-cancel_node :
      (j : ℕ) → successors j (cancel_node now message id node s).nodes ≡ successors j s.nodes
  successors-cancel_node j =
      let (k, found, same) = lookup-release id node node s e unchanged in
      rw (cancel_node-eq now message id node s) (
        successors-adjust j id (set_cancelled now message)
          (release_resources_locked id node s).nodes k found refl
        ∙ successors-release j id node node s e)

-- No agent of the list is live.
abbrev pub Settled : Table Node → List ℕ → Type 0
Settled t = All (λ j. is_live (status j t) ≡ false)

-- What a part of the cascade does from `s` to `t`.
pub record Settles (s t : Table Node) : Type 0 where
  pub same_successors : (x : ℕ) → successors x t ≡ successors x s
  pub moved :
      (x : ℕ)
      → (status x t ≡ status x s) ⊎ ((is_live (status x s) ≡ true) × (status x t ≡ some cancelled))
  pub settled :
      (x : ℕ)
      → is_live (status x s) ≡ true
      → status x t ≡ some cancelled
      → Settled t (successors x s)

-- An agent that is not live stays so.
pub Settles-dead :
    {s t : Table Node}
    → Settles s t
    → (j : ℕ) → is_live (status j s) ≡ false
    → is_live (status j t) ≡ false
Settles-dead h j dead = elim (h.moved j) [ inl same ↦ rw same dead | inr (alive, c) ↦ rw c refl ]

Settled-map : {s t : Table Node} → Settles s t → (xs : List ℕ) → Settled s xs → Settled t xs
Settled-map h [] d = tt
Settled-map h (x ∷ xs) d = (Settles-dead h x d.0, Settled-map h xs d.1)

pub live-cancelled : {o : Option AgentState} → is_live o ≡ true → o ≡ some cancelled → ⊥
live-cancelled {o} alive c = false≢true (subst (λ x. is_live x ≡ true) c alive)

pub Settles-refl : (s : Table Node) → Settles s s
Settles-refl s = record {
  same_successors = λ x. refl;
  moved = λ x. inl refl;
  settled = λ x alive c. absurd (live-cancelled alive c);
}

pub Settles-trans : {s u t : Table Node} → Settles s u → Settles u t → Settles s t
Settles-trans {s} {u} {t} h k = record {
  same_successors = λ x. k.same_successors x ∙ h.same_successors x;
  moved = λ x. elim (h.moved x) [
    | inl same ↦ elim (k.moved x) [
      | inl same' ↦ inl (same' ∙ same)
      | inr (alive, c) ↦ inr (rw (sym same) alive, c)
    ]
    | inr (alive, c) ↦ elim (k.moved x) [
      | inl same' ↦ inr (alive, same' ∙ c)
      | inr (alive', c') ↦ inr (alive, c')
    ]
  ];
  settled = λ x alive c. elim (h.moved x) [
    | inl same ↦ subst (Settled t) (h.same_successors x) (k.settled x (rw same alive) c)
    | inr (alive', c') ↦ Settled-map k (successors x s) (h.settled x alive c')
  ];
}
