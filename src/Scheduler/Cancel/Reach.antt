-- ===== src/Scheduler/Cancel/Reach.antt =====
-- The cascade reaches every live descendant.
use agent_nucleus.Prelude.{
  ℕ, zero, suc, ◌≡◌, refl, sym, ◌∙◌, ap, subst, some-inj, true, false, Option, some, List, [], ◌∷◌,
  arith, member, ◌==◌, ==_iff, inl, inr, Bool-cases, >>=-eq-some, Bytes,
}
use agent_nucleus.Table.{Table, lookup}
use agent_nucleus.Types.{cancelled, is_terminal, Message, because}
use agent_nucleus.Scheduler.State.{Node, Scheduler}
use agent_nucleus.Scheduler.Cascade.{
  cancel_node, cancel_successor, cancel_each, cancel_descendants_locked,
}
use agent_nucleus.Scheduler.Cancel.Settle.{
  status, successors, successors_of, status_of, is_live, status-cancel_node, successors-cancel_node,
  Settled, Settles, Settles-dead, Settles-refl, Settles-trans,
}

-- What a recursive call does.
abbrev Cascades : (ℕ → Scheduler → Option Scheduler) → Type 0
Cascades recurse =
    (id : ℕ) (s t : Scheduler)
    → recurse id s ≡ some t
    → Settles s.nodes t.nodes × Settled t.nodes (successors id s.nodes)

module _ (now : ℕ) (message : Message) (recurse : ℕ → Scheduler → Option Scheduler)
    (cascades : Cascades recurse) where
  -- One agent is cancelled, and then what follows it.
  Settles-cancel_node :
      (id : ℕ) (node : Node) (s t : Scheduler)
      → lookup id s.nodes ≡ some node
      → is_terminal node.snapshot.state ≡ false
      → Settles (cancel_node now message id node s).nodes t.nodes
      → Settled t.nodes (successors id (cancel_node now message id node s).nodes)
      → Settles s.nodes t.nodes × (is_live (status id t.nodes) ≡ false)
  Settles-cancel_node id node s t e alive h below =
      let states = status-cancel_node now message id node s e in
      let links = successors-cancel_node now message id node s e in
      let here_live : is_live (status id s.nodes) ≡ true =
        ap is_live (ap status_of e) ∙ ground (arith, alive) in
      (
        record {
          same_successors = λ x. h.same_successors x ∙ links x;
          moved = λ x. elim (Bool-cases (id == x)) [
            | inl hit ↦
                let at : status x (cancel_node now message id node s).nodes ≡ some cancelled =
                  states x ∙ rw hit refl in
                inr (
                  subst (λ i. is_live (status i s.nodes) ≡ true) ((==_iff id x).0 hit) here_live,
                  elim (h.moved x) [ inl same ↦ same ∙ at | inr (l, c) ↦ c ],
                )
            | inr miss ↦
                let at : status x (cancel_node now message id node s).nodes ≡ status x s.nodes =
                  states x ∙ rw miss refl in
                elim (h.moved x) [
                  | inl same ↦ inl (same ∙ at)
                  | inr (l, c) ↦ inr (rw (sym at) l, c)
                ]
          ];
          settled = λ x l c. elim (Bool-cases (id == x)) [
            | inl hit ↦
                subst (λ i. Settled t.nodes (successors i s.nodes)) ((==_iff id x).0 hit)
                  (subst (Settled t.nodes) (links id) below)
            | inr miss ↦
                let at : status x (cancel_node now message id node s).nodes ≡ status x s.nodes =
                  states x ∙ rw miss refl in
                subst (Settled t.nodes) (links x) (h.settled x (rw at l) c)
          ];
        },
        Settles-dead h id (ap is_live (states id) ∙ ground arith),
      )

  cancel_successor-Settles :
      (id : ℕ) (s t : Scheduler)
      → cancel_successor recurse now message id s ≡ some t
      → Settles s.nodes t.nodes × (is_live (status id t.nodes) ≡ false)
  unfolding cancel_successor
  cancel_successor-Settles id s t e =
      let (node, found, e') = >>=-eq-some (lookup id s.nodes) _ e in
      elim (Bool-cases (is_terminal node.snapshot.state)) [
        | inl over ↦
            subst (λ u. Settles s.nodes u.nodes × (is_live (status id u.nodes) ≡ false))
              (some-inj (rw over at e'))
              (Settles-refl s.nodes, ap is_live (ap status_of found) ∙ ground (arith, over))
        | inr alive ↦
            let (h, below) = cascades id (cancel_node now message id node s) t (rw alive at e') in
            Settles-cancel_node id node s t found alive h below
      ]

  cancel_each-Settles :
      (ids : List ℕ) (s t : Scheduler)
      → cancel_each recurse now message ids s ≡ some t
      → Settles s.nodes t.nodes × Settled t.nodes ids
  unfolding cancel_each
  cancel_each-Settles [] s t e =
      (subst (λ u. Settles s.nodes u.nodes) (some-inj e) (Settles-refl s.nodes), tt)
  cancel_each-Settles (id ∷ ids) s t e =
      let (u, first, rest) = >>=-eq-some (cancel_successor recurse now message id s) _ e in
      let (h, dead) = cancel_successor-Settles id s u first in
      let (k, deads) = cancel_each-Settles ids u t rest in
      (Settles-trans h k, (Settles-dead k id dead, deads))

pub cancel_descendants_locked-Settles :
    (fuel now : ℕ) (reason : Bytes) → Cascades (cancel_descendants_locked fuel now reason)
unfolding cancel_descendants_locked
cancel_descendants_locked-Settles zero now reason id s t e = absurd (cc)
cancel_descendants_locked-Settles (suc fuel) now reason id s t e =
    let (node, found, e') = >>=-eq-some (lookup id s.nodes) _ e in
    let (h, dead) =
      cancel_each-Settles now (because reason id) (cancel_descendants_locked fuel now reason)
        (cancel_descendants_locked-Settles fuel now reason) node.successors s t e' in
    (h, subst (Settled t.nodes) (sym (ap successors_of found)) dead)

-- `Descends t id j`: live agents lead from `id` to `j`, each a recorded successor of the one before.
pub data Descends (t : Table Node) (id : ℕ) : ℕ → Type 0 where
  child :
      (j : ℕ) → member j (successors id t) ≡ true → is_live (status j t) ≡ true → Descends t id j
  below :
      (j k : ℕ)
      → Descends t id j
      → member k (successors j t) ≡ true
      → is_live (status k t) ≡ true
      → Descends t id k

Descends-live : {t : Table Node} {id j : ℕ} → Descends t id j → is_live (status j t) ≡ true
Descends-live (child j m l) = l
Descends-live (below j k d m l) = l

Settled-member :
    (t : Table Node) (xs : List ℕ) (j : ℕ)
    → Settled t xs
    → member j xs ≡ true
    → is_live (status j t) ≡ false
Settled-member t [] j d m = absurd (cc)
Settled-member t (x ∷ xs) j d m = elim (Bool-cases (x == j)) [
  | inl hit ↦ subst (λ i. is_live (status i t) ≡ false) ((==_iff x j).0 hit) d.0
  | inr miss ↦ Settled-member t xs j d.1 (ground (arith, m))
]

-- A live agent that is not live in the end was cancelled.
Settles-cancelled :
    {s t : Table Node}
    → Settles s t
    → (j : ℕ) → is_live (status j s) ≡ true
    → is_live (status j t) ≡ false
    → status j t ≡ some cancelled
Settles-cancelled h j alive dead = elim (h.moved j) [
  | inl same ↦ absurd (ground (arith, rw same at dead, alive))
  | inr (l, c) ↦ c
]

pub Descends-cancelled :
    {s t : Table Node} {id : ℕ}
    → Settles s t
    → Settled t (successors id s)
    → {j : ℕ} → Descends s id j
    → status j t ≡ some cancelled
Descends-cancelled {s} {t} {id} h d (child j m l) =
    Settles-cancelled h j l (Settled-member t (successors id s) j d m)
Descends-cancelled {s} {t} {id} h d (below j k p m l) = Settles-cancelled h k l (
    Settled-member t (successors j s) k (h.settled j (Descends-live p) (Descends-cancelled h d p))
      m)
