-- ===== src/Scheduler/Refine/Cascade.antt =====
-- cancel_descendants_locked and the loop of complete as changes.
use agent_nucleus.Prelude.{
  ℕ, zero, suc, ◌≡◌, refl, subst, some-inj, Option, some, List, [], ◌∷◌, remove, Bool-cases, inl,
  inr, >>=-eq-some, ◌&&◌, ◌==◌, Bytes,
}
use agent_nucleus.Table.{lookup, lookup-adjust_self}
use agent_nucleus.Types.{
  is_terminal, Message, because, cancelled, state_eq, waiting_dependency, ready,
}
use agent_nucleus.Scheduler.State.{
  Node, Scheduler, with_snapshot, with_state, update, enqueue_ready_locked,
  release_resources_locked,
}
use agent_nucleus.Scheduler.Cascade.{
  cancel_node, cancel_successor, cancel_each, cancel_descendants_locked, resolve_one, resolve_node,
  resolve_found, resolve_successor, resolve_each,
}
use agent_nucleus.Scheduler.Changes.{
  Keeps, quiet, enter, leave, release, Changes, here, next, one, Changes-trans,
}

abbrev pub set_cancelled : ℕ → Message → Node → Node
set_cancelled now message =
    with_snapshot (λ n. record n { state = cancelled; error = message; finished_at = now })

-- The removal from the ready set commutes with the release.
pub cancel_node-eq :
    (now : ℕ) (message : Message) (id : ℕ) (node : Node) (s : Scheduler)
    → cancel_node now message id node s
      ≡ record (update id (set_cancelled now message) (release_resources_locked id node s)) {
        ready_set = remove id (release_resources_locked id node s).ready_set;
      }
unfolding cancel_node release_resources_locked
cancel_node-eq now message id node s = elim (Bool-cases node.resources_reserved) [
  | inl held ↦ rw held refl
  | inr free ↦ rw free refl
]

-- The node that stands under a key after its resources are given back.
pub lookup-release :
    (id : ℕ) (n m : Node) (s : Scheduler)
    → lookup id s.nodes ≡ some m
    → Keeps n m
    → (k : Node) × (lookup id (release_resources_locked id n s).nodes ≡ some k)
      × (k.snapshot ≡ m.snapshot)
unfolding release_resources_locked
lookup-release id n m s e k = elim (Bool-cases n.resources_reserved) [
  | inl held ↦ rw held (_, lookup-adjust_self id _ s.nodes e, refl)
  | inr free ↦ rw free (m, e, refl)
]

pub cancel_node-Changes :
    (now : ℕ) (message : Message) (id : ℕ) (node : Node) (s : Scheduler)
    → lookup id s.nodes ≡ some node
    → Changes s (cancel_node now message id node s)
cancel_node-Changes now message id node s e =
    let kept : Keeps node node = record {
      same_spec = refl;
      same_reserved = refl;
      same_successors = refl;
    } in
    let (k, found, same) = lookup-release id node node s e kept in
    rw (cancel_node-eq now message id node s) (
      next (one (release id node node e kept)) (
        leave id (set_cancelled now message) k found
          (record { same_spec = refl; same_reserved = refl; same_successors = refl }) refl))

pub eq-Changes : {s t : Scheduler} → some s ≡ some t → Changes s t
eq-Changes {s} e = subst (Changes s) (some-inj e) here

pub cancel_successor-Changes :
    (recurse : ℕ → Scheduler → Option Scheduler) (now : ℕ) (message : Message)
    → ((id : ℕ) (s t : Scheduler) → recurse id s ≡ some t → Changes s t)
    → (id : ℕ) (s t : Scheduler) → cancel_successor recurse now message id s ≡ some t
    → Changes s t
unfolding cancel_successor
cancel_successor-Changes recurse now message rec id s t e =
    let (node, found, e') = >>=-eq-some (lookup id s.nodes) _ e in
    elim (Bool-cases (is_terminal node.snapshot.state)) [
      | inl over ↦ eq-Changes (rw over at e')
      | inr live ↦
          Changes-trans (cancel_node-Changes now message id node s found)
            (rec id _ t (rw live at e'))
    ]

pub cancel_each-Changes :
    (recurse : ℕ → Scheduler → Option Scheduler) (now : ℕ) (message : Message)
    → ((id : ℕ) (s t : Scheduler) → recurse id s ≡ some t → Changes s t)
    → (ids : List ℕ) (s t : Scheduler) → cancel_each recurse now message ids s ≡ some t
    → Changes s t
unfolding cancel_each
cancel_each-Changes recurse now message rec [] s t e = eq-Changes e
cancel_each-Changes recurse now message rec (id ∷ ids) s t e =
    let (u, e1, e2) = >>=-eq-some (cancel_successor recurse now message id s) _ e in
    Changes-trans (cancel_successor-Changes recurse now message rec id s u e1)
      (cancel_each-Changes recurse now message rec ids u t e2)

pub cancel_descendants_locked-Changes :
    (fuel now : ℕ) (reason : Bytes) (id : ℕ) (s t : Scheduler)
    → cancel_descendants_locked fuel now reason id s ≡ some t
    → Changes s t
unfolding cancel_descendants_locked
cancel_descendants_locked-Changes zero now reason id s t e = cc
cancel_descendants_locked-Changes (suc fuel) now reason id s t e =
    let (node, found, e') = >>=-eq-some (lookup id s.nodes) _ e in
    cancel_each-Changes (cancel_descendants_locked fuel now reason) now (because reason id)
      (cancel_descendants_locked-Changes fuel now reason) node.successors s t e'

pub resolve_found-Changes :
    (id : ℕ) (node : Node) (s : Scheduler)
    → lookup id s.nodes ≡ some node
    → Changes s (resolve_found id node s)
unfolding resolve_found enqueue_ready_locked
resolve_found-Changes id node s e =
    let resolved = one (
      quiet id resolve_node node e
        (record { same_spec = refl; same_reserved = refl; same_successors = refl }) refl) in
    elim (Bool-cases (
      resolve_one node.snapshot.unresolved_dependencies == 0
      && state_eq node.snapshot.state waiting_dependency)) [
        | inl last ↦ rw last (
            next resolved (
              enter id (with_state ready) (resolve_node node)
                (lookup-adjust_self id resolve_node s.nodes e)
                (record { same_spec = refl; same_reserved = refl; same_successors = refl }) refl))
        | inr more ↦ rw more resolved
      ]

pub resolve_each-Changes :
    (ids : List ℕ) (s t : Scheduler) → resolve_each ids s ≡ some t → Changes s t
unfolding resolve_each resolve_successor
resolve_each-Changes [] s t e = eq-Changes e
resolve_each-Changes (id ∷ ids) s t e =
    let (u, e1, e2) = >>=-eq-some (resolve_successor id s) (resolve_each ids) e in
    let (node, found, e3) = >>=-eq-some (lookup id s.nodes) _ e1 in
    Changes-trans (resolve_found-Changes id node s found)
      (Changes-trans (eq-Changes e3) (resolve_each-Changes ids u t e2))
