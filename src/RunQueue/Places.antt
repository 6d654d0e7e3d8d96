-- ===== src/RunQueue/Places.antt =====
-- How the places of the circular array of agent_runtime_top/src/scheduler.c move with head and tail.
use agent_nucleus.Prelude.{
  ℕ, zero, suc, ◌+◌, ◌-◌, ◌%◌, ◌<◌, ◌≡◌, refl, sym, ap, ◌∙◌, List, ◌∷◌, arith, u32_mod,
}
use mathlib.Core.Path.{ap₂}
use agent_nucleus.Arrays.{get_or}
use agent_nucleus.RunQueue.State.{RunQueue, slot}
use agent_nucleus.RunQueue.Window.{IsRing, window, wrap_cases, slot-value, slot-lt}

-- The place after a place, as the code computes it.
pub slot-suc :
    (q : RunQueue) (i : ℕ)
    → IsRing q
    → i < q.queue_size
    → (slot q i + 1) % u32_mod % q.queue_size ≡ slot q (i + 1)
slot-suc q i r h =
    let inside = slot-lt q i r h in
    let fits = r.size_fits in
    let head_in = r.head_in in
    ground (
      arith,
      wrap_cases (slot q i + 1) q.queue_size (omega arith) (omega arith),
      slot-value q i r (omega arith),
      slot-value q (i + 1) r (omega arith),
    )

-- The place before a place.
pub slot-pred :
    (q : RunQueue) (i : ℕ)
    → IsRing q
    → i < q.queue_size
    → ((slot q (i + 1) + u32_mod - 1) % u32_mod + q.queue_size) % u32_mod % q.queue_size ≡ slot q i
slot-pred q i r h =
    let inside = slot-lt q i r h in
    let fits = r.size_fits in
    let head_in = r.head_in in
    let here : slot q (i + 1) < q.queue_size =
      ground (arith, slot-value q (i + 1) r (omega arith)) in
    let back = ((slot q (i + 1) + u32_mod - 1) % u32_mod + q.queue_size) % u32_mod in
    let whole : back % u32_mod ≡ back = omega arith in
    sym (ap (λ n. n % q.queue_size) whole)
    ∙ ground (
      arith,
      wrap_cases back q.queue_size (omega arith) (omega arith),
      slot-value q i r (omega arith),
      slot-value q (i + 1) r (omega arith),
    )

-- The places of a queue whose head has moved on by one.
pub slot-shift :
    (q p : RunQueue) (i : ℕ)
    → IsRing q
    → p.queue_size ≡ q.queue_size
    → p.head ≡ (q.head + 1) % u32_mod % q.queue_size
    → i < q.queue_size
    → slot p i ≡ slot q (i + 1)
slot-shift q p i r same moved h =
    let fits = r.size_fits in
    let head_in = r.head_in in
    let first : p.head < q.queue_size =
      rw moved (ground (arith, wrap_cases (q.head + 1) q.queue_size (omega arith) (omega arith))) in
    ground (
      arith,
      same,
      moved,
      wrap_cases (q.head + 1) q.queue_size (omega arith) (omega arith),
      slot-value q (i + 1) r (omega arith),
      wrap_cases (p.head + i) q.queue_size (omega arith) (omega arith),
    )

pub window-same :
    (q p : RunQueue) (queue : List ℕ) (i n : ℕ)
    → p.queue_size ≡ q.queue_size
    → p.head ≡ q.head
    → window p queue i n ≡ window q queue i n
window-same q p queue i zero size head = refl
window-same q p queue i (suc n) size head =
    ap₂ ◌∷◌ (rw (size, head) refl) (window-same q p queue (i + 1) n size head)

pub window-shift :
    (q p : RunQueue) (queue : List ℕ) (i n : ℕ)
    → IsRing q
    → p.queue_size ≡ q.queue_size
    → p.head ≡ (q.head + 1) % u32_mod % q.queue_size
    → i + n < q.queue_size
    → window p queue i n ≡ window q queue (i + 1) n
window-shift q p queue i zero r size head h = refl
window-shift q p queue i (suc n) r size head h =
    ap₂ ◌∷◌ (ap (λ k. get_or queue k 0) (slot-shift q p i r size head (omega arith)))
      (window-shift q p queue (i + 1) n r size head (omega arith))
