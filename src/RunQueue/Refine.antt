-- ===== src/RunQueue/Refine.antt =====
-- agent_runtime_top/src/scheduler.c refines the bounded queue of RunQueue/Queue.
use agent_nucleus.Prelude.{
  ℕ, suc, ◌-◌, ◌<◌, ◌≡◌, refl, sym, ap, subst, true, false, Option, none, some, List, [], leb, ◌==◌,
  inl, inr, Bool-cases, Option-cases, arith,
}
use agent_nucleus.Arrays.{Status, success, failure, get_or}
use agent_nucleus.RunQueue.State.{
  RunQueue, find_from, scheduler_add_agent, scheduler_remove_agent, scheduler_update_agent,
  scheduler_pick_next,
}
use agent_nucleus.RunQueue.Queue.{join, depart, promote, next}
use agent_nucleus.RunQueue.Window.{window, length-window}
use agent_nucleus.RunQueue.Search.{find_from-none, find_from-Found}
use agent_nucleus.RunQueue.Valid.{
  IsValid, contents, Holds, added, added-Holds, removed, removed-Holds, promoted, promoted-Holds,
  picked, picked-Holds,
}

-- An answer and a state of a given capacity against an answer and a queue.
abbrev pub Agrees : ℕ → Status × RunQueue → Status × List ℕ → Type 0
Agrees size (status, t) (answer, xs) = (status ≡ answer) × ((t.queue_size ≡ size) × Holds t xs)

Agrees-eq :
    (size : ℕ) {r r' : Status × RunQueue} {s s' : Status × List ℕ}
    → r ≡ r'
    → s ≡ s'
    → Agrees size r' s'
    → Agrees size r s
Agrees-eq size {r} {r'} {s} {s'} e f h =
    subst (λ t. Agrees size t s) (sym e) (subst (Agrees size r') (sym f) h)

-- A call that is turned down by both.
refused : (q : RunQueue) → IsValid q → Agrees q.queue_size (failure, q) (failure, contents q)
refused q v = (refl, (refl, (v, refl)))

-- scheduler_add_agent is join: it answers the same, and the array holds the queue that join gives.
pub scheduler_add_agent_refines :
    (id : ℕ) (q : RunQueue)
    → IsValid q
    → Agrees q.queue_size (scheduler_add_agent id q) (join q.queue_size id (contents q))
unfolding scheduler_add_agent join
scheduler_add_agent_refines id q v =
    let same_length = length-window q q.queue 0 q.count in
    elim (Bool-cases (id == 0)) [
      | inl zero_id ↦ Agrees-eq q.queue_size (ground arith) (rw zero_id refl) (refused q v)
      | inr some_id ↦ elim (Bool-cases (leb q.queue_size q.count)) [
        | inl full ↦
            Agrees-eq q.queue_size (ground arith) (rw (some_id, same_length, full) refl)
              (refused q v)
        | inr room ↦
            let less : q.count < q.queue_size = ground arith in
            Agrees-eq q.queue_size {r' = (success, added q id)} (ground arith)
              (rw (some_id, same_length, room) refl) (refl, (refl, added-Holds q id v less))
      ]
    ]

-- scheduler_remove_agent is depart: it answers the same, and the array holds what depart leaves.
pub scheduler_remove_agent_refines :
    (id : ℕ) (q : RunQueue)
    → IsValid q
    → Agrees q.queue_size (scheduler_remove_agent id q) (depart id (contents q))
unfolding scheduler_remove_agent depart
scheduler_remove_agent_refines id q v = elim (Bool-cases (id == 0)) [
  | inl zero_id ↦ Agrees-eq q.queue_size (ground arith) (rw zero_id refl) (refused q v)
  | inr some_id ↦ elim (Option-cases (find_from id q q.count 0)) [
    | inl nowhere ↦
        Agrees-eq q.queue_size (simp (v.initialized, some_id, nowhere))
          (rw (some_id, find_from-none id q q.count 0 nowhere) refl) (refused q v)
    | inr (k, at) ↦
        let f = find_from-Found id q q.count 0 k at in
        Agrees-eq q.queue_size {r' = (success, removed q k)} (simp (v.initialized, some_id, at))
          (rw (some_id, f.present) refl) (refl, (refl, removed-Holds q id k v f))
  ]
]

-- scheduler_update_agent is promote: it answers the same, and the array holds the queue with the
-- agent at its front.
pub scheduler_update_agent_refines :
    (id : ℕ) (q : RunQueue)
    → IsValid q
    → Agrees q.queue_size (scheduler_update_agent id q) (promote id (contents q))
unfolding scheduler_update_agent promote
scheduler_update_agent_refines id q v = elim (Bool-cases (id == 0)) [
  | inl zero_id ↦ Agrees-eq q.queue_size (ground arith) (rw zero_id refl) (refused q v)
  | inr some_id ↦ elim (Option-cases (find_from id q q.count 0)) [
    | inl nowhere ↦
        Agrees-eq q.queue_size (simp (v.initialized, some_id, nowhere))
          (rw (some_id, find_from-none id q q.count 0 nowhere) refl) (refused q v)
    | inr (k, at) ↦
        let f = find_from-Found id q q.count 0 k at in
        Agrees-eq q.queue_size {r' = (success, promoted q k)} (simp (v.initialized, some_id, at))
          (rw (some_id, f.present) refl) (refl, (refl, promoted-Holds q id k v f))
  ]
]

-- A call that does not wait, against the queue; a call waits where the queue is empty and the
-- scheduler runs.
abbrev pub Picks : RunQueue → Option (ℕ × RunQueue) → ℕ × List ℕ → Type 0
Picks q none (id, xs) = (contents q ≡ []) × (q.running ≡ true)
Picks q (some (agent, t)) (id, xs) = (agent ≡ id) × ((t.queue_size ≡ q.queue_size) × Holds t xs)

-- What a call answers with, where the queue holds an agent.
pick_next-picked :
    (q : RunQueue)
    → q.initialized ≡ true
    → (q.count == 0) ≡ false
    → scheduler_pick_next q ≡ some (get_or q.queue q.head 0, picked q)
unfolding scheduler_pick_next
pick_next-picked q started some_count = ground arith

pick_next-empty :
    (q : RunQueue)
    → q.initialized ≡ true
    → (q.count == 0) ≡ true
    → q.running ≡ false
    → scheduler_pick_next q ≡ some (0, q)
unfolding scheduler_pick_next
pick_next-empty q started empty stopped = ground arith

pick_next-waits :
    (q : RunQueue)
    → q.initialized ≡ true
    → (q.count == 0) ≡ true
    → q.running ≡ true
    → scheduler_pick_next q ≡ none
unfolding scheduler_pick_next
pick_next-waits q started empty runs = ground arith

contents-empty : (q : RunQueue) → (q.count == 0) ≡ true → contents q ≡ []
contents-empty q empty =
    let none_there : q.count ≡ 0 = ground arith in ap (window q q.queue 0) none_there

Picks-eq :
    (q : RunQueue) {r r' : Option (ℕ × RunQueue)} {s s' : ℕ × List ℕ}
    → r ≡ r'
    → s ≡ s'
    → Picks q r' s'
    → Picks q r s
Picks-eq q {r} {r'} {s} {s'} e f h = subst (λ t. Picks q t s) (sym e) (subst (Picks q r') (sym f) h)

-- scheduler_pick_next is next: it answers with the agent at the front, or 0 where there is none, and
-- the array holds the others; it waits exactly where the queue is empty and the scheduler runs.
pub scheduler_pick_next_refines :
    (q : RunQueue) → IsValid q → Picks q (scheduler_pick_next q) (next (contents q))
unfolding next
scheduler_pick_next_refines q v = elim (Bool-cases (q.count == 0)) [
  | inl empty ↦ elim (Bool-cases q.running) [
    | inl runs ↦
        Picks-eq q (pick_next-waits q v.initialized empty runs) refl (contents-empty q empty, runs)
    | inr stopped ↦
        Picks-eq q (pick_next-empty q v.initialized empty stopped)
          (ap next (contents-empty q empty)) (refl, (refl, (v, contents-empty q empty)))
  ]
  | inr more ↦
      let one : q.count ≡ suc (q.count - 1) = ground arith in
      let p = picked-Holds q (q.count - 1) v one in
      Picks-eq q (pick_next-picked q v.initialized more) (ap next p.0) (refl, (refl, (p.1, refl)))
]
