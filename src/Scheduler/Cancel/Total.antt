-- ===== src/Scheduler/Cancel/Total.antt =====
-- The recursion ends without an exception: each level cancels an agent that was not terminal.
use agent_nucleus.Prelude.{
  ℕ, zero, suc, ◌+◌, ◌≤◌, ◌<◌, ◌≡◌, refl, true, false, Option, some, List, [], ◌∷◌, arith, All,
  if◌then◌else◌, inl, inr, Bool-cases, Option-cases, length, Bytes,
}
use agent_nucleus.Table.{
  Table, lookup, contains, contains-lookup, lookup-adjust_self, weigh, weigh-adjust,
}
use agent_nucleus.Types.{is_terminal, Message, because}
use agent_nucleus.Scheduler.State.{Node, Scheduler, clear_reserved, release_resources_locked}
use agent_nucleus.Scheduler.Cascade.{
  cancel_node, cancel_successor, cancel_each, cancel_descendants_locked,
}
use agent_nucleus.Scheduler.Changes.{Changes}
use agent_nucleus.Scheduler.Closed.{Closed, All-map, Changes-Closed, Changes-contains}
use agent_nucleus.Scheduler.Refine.Cascade.{
  set_cancelled, cancel_node-eq, cancel_node-Changes, cancel_successor-Changes,
  cancel_descendants_locked-Changes,
}

-- The number of agents that are not terminal.
abbrev pub is_live : Node → ℕ
is_live n = if is_terminal n.snapshot.state then 0 else 1

abbrev pub live : Table Node → ℕ
live = weigh is_live

pub live-le-length : (t : Table Node) → live t ≤ length t
live-le-length [] = omega arith
live-le-length ((j, n) ∷ t) = ground (arith, live-le-length t)

release-live :
    (id : ℕ) (n m : Node) (s : Scheduler)
    → lookup id s.nodes ≡ some m
    → live (release_resources_locked id n s).nodes ≡ live s.nodes
unfolding release_resources_locked
release-live id n m s e = ground (arith, weigh-adjust is_live id clear_reserved s.nodes m e)

release-lookup :
    (id : ℕ) (n m : Node) (s : Scheduler)
    → lookup id s.nodes ≡ some m
    → (k : Node) × (lookup id (release_resources_locked id n s).nodes ≡ some k)
      × (k.snapshot ≡ m.snapshot)
unfolding release_resources_locked
release-lookup id n m s e = elim (Bool-cases n.resources_reserved) [
  | inl held ↦ rw held (clear_reserved m, lookup-adjust_self id clear_reserved s.nodes e, refl)
  | inr free ↦ rw free (m, e, refl)
]

cancel_node-live :
    (now : ℕ) (message : Message) (id : ℕ) (node : Node) (s : Scheduler)
    → lookup id s.nodes ≡ some node
    → is_terminal node.snapshot.state ≡ false
    → live (cancel_node now message id node s).nodes + 1 ≡ live s.nodes
cancel_node-live now message id node s e alive =
    let (k, found, same) = release-lookup id node node s e in
    rw (cancel_node-eq now message id node s) (
      ground (
        arith,
        same,
        release-live id node node s e,
        weigh-adjust is_live id (set_cancelled now message)
            (release_resources_locked id node s).nodes k found,
      ))

-- The call returns, and makes no agent live.
abbrev pub Ends : Scheduler → Option Scheduler → Type 0
Ends s r = (t : Scheduler) × (r ≡ some t) × (live t.nodes ≤ live s.nodes)

-- What is known of the recursive call.
abbrev Recurses : ℕ → (ℕ → Scheduler → Option Scheduler) → Type 0
Recurses fuel recurse =
    (id : ℕ) (s : Scheduler)
    → Closed s.nodes
    → contains id s.nodes ≡ true
    → live s.nodes < fuel
    → Ends s (recurse id s)

module _ (fuel now : ℕ) (message : Message) (recurse : ℕ → Scheduler → Option Scheduler)
    (total : Recurses fuel recurse)
    (changes : (id : ℕ) (s t : Scheduler) → recurse id s ≡ some t → Changes s t) where
  cancel_successor-Ends :
      (id : ℕ) (s : Scheduler)
      → Closed s.nodes
      → contains id s.nodes ≡ true
      → live s.nodes ≤ fuel
      → Ends s (cancel_successor recurse now message id s)
  unfolding cancel_successor
  cancel_successor-Ends id s c there enough =
      let (node, e) = contains-lookup id s.nodes there in
      elim (Bool-cases (is_terminal node.snapshot.state)) [
        | inl over ↦ (s, rw (e, over) refl, omega arith)
        | inr alive ↦
            let step = cancel_node-Changes now message id node s e in
            let fewer = cancel_node-live now message id node s e alive in
            let (t, r, le) =
              total id (cancel_node now message id node s) (Changes-Closed step c)
                (Changes-contains id step there) (omega arith) in
            (t, rw (e, alive) r, omega arith)
      ]

  cancel_each-Ends :
      (ids : List ℕ) (s : Scheduler)
      → Closed s.nodes
      → All (λ j. contains j s.nodes ≡ true) ids
      → live s.nodes ≤ fuel
      → Ends s (cancel_each recurse now message ids s)
  unfolding cancel_each
  cancel_each-Ends [] s c there enough = (s, refl, omega arith)
  cancel_each-Ends (id ∷ ids) s c there enough =
      let (u, first, le) = cancel_successor-Ends id s c there.0 enough in
      let steps = cancel_successor-Changes recurse now message changes id s u first in
      let (t, rest, le') =
        cancel_each-Ends ids u (Changes-Closed steps c)
          (All-map ids (λ j h. Changes-contains j steps h) there.1) (omega arith) in
      (t, rw first rest, omega arith)

-- With more fuel than there are live agents the cascade from an agent that is stored returns, where
-- every recorded successor is stored too.
pub cancel_descendants_locked-Ends :
    (fuel now : ℕ) (reason : Bytes) (id : ℕ) (s : Scheduler)
    → Closed s.nodes
    → contains id s.nodes ≡ true
    → live s.nodes < fuel
    → Ends s (cancel_descendants_locked fuel now reason id s)
unfolding cancel_descendants_locked
cancel_descendants_locked-Ends zero now reason id s c there enough = absurd (omega arith)
cancel_descendants_locked-Ends (suc fuel) now reason id s c there enough =
    elim (Option-cases (lookup id s.nodes)) [
      | inl absent ↦ absurd (ground arith)
      | inr (node, e) ↦
          rw (e, Ends)
            (cancel_each-Ends fuel now (because reason id)
              (cancel_descendants_locked fuel now reason)
              (cancel_descendants_locked-Ends fuel now reason)
              (cancel_descendants_locked-Changes fuel now reason) node.successors s c (c id node e)
              (omega arith))
    ]
