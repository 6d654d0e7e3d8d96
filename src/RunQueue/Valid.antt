-- ===== src/RunQueue/Valid.antt =====
-- The states that the functions of agent_runtime_top/src/scheduler.c leave, and the queues that they hold.
use agent_nucleus.Prelude.{
  ℕ, suc, ◌+◌, ◌-◌, ◌%◌, ◌≤◌, ◌<◌, ◌≡◌, refl, sym, ◌∙◌, ap, true, List, [], ◌∷◌, ◌++◌, length, inr,
  arith, u32_mod, u64_mod,
}
use mathlib.Core.Path.{ap₂}
use agent_nucleus.RunQueue.Places.{slot-suc, slot-pred, slot-shift, window-same, window-shift}
use agent_nucleus.Arrays.{get_or, set, length-set, get_or-set_self}
use agent_nucleus.RunQueue.State.{RunQueue, slot, move_forward, move_to_front}
use agent_nucleus.RunQueue.Queue.{remove_first}
use agent_nucleus.RunQueue.Window.{
  IsRing, slot-value, wrap_cases, window, from_zero, window-append, window-set_out, slot-lt,
}
use agent_nucleus.RunQueue.Moves.{
  length-move_forward, window-move_forward, window-move_forward_before, length-move_to_front,
  window-move_to_front, window-move_to_front_after,
}
use agent_nucleus.RunQueue.Search.{Found}

-- A queue that scheduler_init made, and what the functions leave of it.
pub record IsValid (q : RunQueue) : Type 0 where
  pub initialized : q.initialized ≡ true
  pub ring : IsRing q
  pub full_array : length q.queue ≡ q.queue_size
  pub count_in : q.count ≤ q.queue_size
  pub tail_at : q.tail ≡ slot q q.count

-- The agents that wait, the next one first.
abbrev pub contents : RunQueue → List ℕ
contents q = window q q.queue 0 q.count

-- The state after an operation is valid and holds the queue `xs`.
abbrev pub Holds : RunQueue → List ℕ → Type 0
Holds q xs = IsValid q × (contents q ≡ xs)

abbrev pub added : (q : RunQueue) (id : ℕ) → RunQueue
added q id = record q {
  queue = set q.queue q.tail id;
  tail = (q.tail + 1) % u32_mod % q.queue_size;
  count = (q.count + 1) % u32_mod;
}

pub added-Holds :
    (q : RunQueue) (id : ℕ)
    → IsValid q
    → q.count < q.queue_size
    → Holds (added q id) (contents q ++ (id ∷ []))
added-Holds q id v room =
    let fits = v.ring.size_fits in
    let one_more : (q.count + 1) % u32_mod ≡ q.count + 1 = omega arith in
    let next_tail : (q.tail + 1) % u32_mod % q.queue_size ≡ slot q (q.count + 1) =
      rw v.tail_at (slot-suc q q.count v.ring room) in
    let at_tail : slot q q.count < length q.queue =
      rw v.full_array (slot-lt q q.count v.ring room) in
    let last : get_or (set q.queue q.tail id) (slot q q.count) 0 ≡ id =
      rw v.tail_at (get_or-set_self q.queue (slot q q.count) id 0 at_tail) in
    let before : window q (set q.queue q.tail id) 0 q.count ≡ contents q = rw v.tail_at (
      window-set_out q v.ring q.queue q.count id 0 q.count room (omega arith)
        (inr (omega arith))) in
    (
      record {
        initialized = v.initialized;
        ring = record { size_fits = v.ring.size_fits; head_in = v.ring.head_in };
        full_array = length-set q.queue q.tail id ∙ v.full_array;
        count_in = omega arith;
        tail_at = next_tail ∙ ap (slot q) (sym one_more);
      },
      window-same q (added q id) (set q.queue q.tail id) 0 ((q.count + 1) % u32_mod) refl refl
          ∙ ap (window q (set q.queue q.tail id) 0) one_more
          ∙ window-append q (set q.queue q.tail id) 0 q.count 1
          ∙ ap₂ ◌++◌ before (from_zero q (set q.queue q.tail id) q.count 1 ∙ ap (λ x. x ∷ []) last),
    )

abbrev pub removed : RunQueue → ℕ → RunQueue
removed q i = record q {
  queue = move_forward q (q.count - 1 - i) i q.queue;
  tail = ((q.tail + u32_mod - 1) % u32_mod + q.queue_size) % u32_mod % q.queue_size;
  count = q.count - 1;
}

pub removed-Holds :
    (q : RunQueue) (id k : ℕ)
    → IsValid q
    → Found id q 0 q.count k
    → Holds (removed q k) (remove_first id (contents q))
removed-Holds q id k v f =
    let count_in = v.count_in in
    let to = f.to in
    let n = q.count - 1 - k in
    let moved = move_forward q n k q.queue in
    let last : q.count ≡ q.count - 1 + 1 = omega arith in
    let split : q.count - 1 ≡ k + n = omega arith in
    let tail_back : ((q.tail + u32_mod - 1) % u32_mod + q.queue_size) % u32_mod % q.queue_size
        ≡ slot q (q.count - 1) =
      ap (λ k. ((k + u32_mod - 1) % u32_mod + q.queue_size) % u32_mod % q.queue_size)
        (v.tail_at ∙ ap (slot q) last)
      ∙ slot-pred q (q.count - 1) v.ring (omega arith) in
    let none_before : k - 0 ≡ k = omega arith in
    let others : 0 + q.count - 1 - k ≡ n = omega arith in
    (
      record {
        initialized = v.initialized;
        ring = record { size_fits = v.ring.size_fits; head_in = v.ring.head_in };
        full_array = length-move_forward q v.ring n k q.queue ∙ v.full_array;
        count_in = omega arith;
        tail_at = tail_back;
      },
      window-same q (removed q k) moved 0 (q.count - 1) refl refl
          ∙ ap (window q moved 0) split
          ∙ window-append q moved 0 k n
          ∙ ap₂ ◌++◌
              (window-move_forward_before q v.ring n k 0 k q.queue (omega arith) (omega arith)
                ∙ ap (window q q.queue 0) (sym none_before))
              (from_zero q moved k n
                ∙ window-move_forward q v.ring n k q.queue v.full_array (omega arith)
                ∙ ap (window q q.queue (k + 1)) (sym others))
          ∙ sym f.without,
    )

abbrev pub promoted : RunQueue → ℕ → RunQueue
promoted q i = record q { queue = move_to_front q i q.queue }

pub promoted-Holds :
    (q : RunQueue) (id k : ℕ)
    → IsValid q
    → Found id q 0 q.count k
    → Holds (promoted q k) (id ∷ remove_first id (contents q))
promoted-Holds q id k v f =
    let count_in = v.count_in in
    let to = f.to in
    let n = q.count - 1 - k in
    let moved = move_to_front q k q.queue in
    let split : q.count ≡ suc k + n = omega arith in
    let next_place : suc k ≡ k + 1 = omega arith in
    let none_before : k - 0 ≡ k = omega arith in
    let others : 0 + q.count - 1 - k ≡ n = omega arith in
    (
      record {
        initialized = v.initialized;
        ring = record { size_fits = v.ring.size_fits; head_in = v.ring.head_in };
        full_array = length-move_to_front q v.ring k q.queue ∙ v.full_array;
        count_in = v.count_in;
        tail_at = v.tail_at;
      },
      window-same q (promoted q k) moved 0 q.count refl refl
          ∙ ap (window q moved 0) split
          ∙ window-append q moved 0 (suc k) n
          ∙ ap₂ ◌++◌
              (window-move_to_front q v.ring k q.queue v.full_array (omega arith)
                ∙ ap₂ ◌∷◌ f.here (ap (window q q.queue 0) (sym none_before)))
              (from_zero q moved (suc k) n
                ∙ window-move_to_front_after q v.ring k (suc k) n q.queue (omega arith)
                    (omega arith)
                ∙ ap₂ (window q q.queue) next_place (sym others))
          ∙ ap (λ t. id ∷ t) (sym f.without),
    )

abbrev pub picked : RunQueue → RunQueue
picked q = record q {
  head = (q.head + 1) % u32_mod % q.queue_size;
  count = q.count - 1;
  stats = record q.stats {
    total_schedules = (q.stats.total_schedules + 1) % u64_mod;
    context_switches = (q.stats.context_switches + 1) % u64_mod;
  };
}

pub picked-Holds :
    (q : RunQueue) (n : ℕ)
    → IsValid q
    → q.count ≡ suc n
    → (contents q ≡ get_or q.queue q.head 0 ∷ contents (picked q)) × IsValid (picked q)
picked-Holds q n v more =
    let count_in = v.count_in in
    let fits = v.ring.size_fits in
    let head_in = v.ring.head_in in
    let less : q.count - 1 ≡ n = omega arith in
    let first : slot q 0 ≡ q.head = ground (arith, slot-value q 0 v.ring (omega arith)) in
    (
      ap (window q q.queue 0) more
          ∙ ap₂ ◌∷◌ (ap (λ k. get_or q.queue k 0) first) (
              sym (window-shift q (picked q) q.queue 0 n v.ring refl refl (omega arith))
              ∙ ap (window (picked q) q.queue 0) (sym less)),
      record {
        initialized = v.initialized;
        ring = record {
          size_fits = v.ring.size_fits;
          head_in =
              ground (arith, wrap_cases (q.head + 1) q.queue_size (omega arith) (omega arith));
        };
        full_array = v.full_array;
        count_in = omega arith;
        tail_at =
            v.tail_at
            ∙ ap (slot q) (sym last_place)
            ∙ sym (slot-shift q (picked q) (q.count - 1) v.ring refl refl (omega arith));
      },
    )
  where
    last_place : q.count - 1 + 1 ≡ q.count
    last_place = omega arith
