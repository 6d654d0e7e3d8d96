-- ===== src/RunQueue/Moves.antt =====
-- The loops of agent_runtime_top/src/scheduler.c that move the elements of the array.
use agent_nucleus.Prelude.{
  ℕ, zero, suc, ◌+◌, ◌≤◌, ◌<◌, ◌≡◌, refl, sym, ◌∙◌, ap, List, [], ◌∷◌, ◌++◌, length, ◌⊎◌, inl, inr,
  arith,
}
use mathlib.Core.Path.{ap₂}
use agent_nucleus.Arrays.{get_or, set, length-set, get_or-set_self, get_or-set_ne}
use agent_nucleus.RunQueue.State.{RunQueue, slot, move_forward, move_to_front}
use agent_nucleus.RunQueue.Window.{
  IsRing, slot-lt, slot-ne, window, window-append, from_zero, window-set_out, head_of,
}

-- One round of move_to_front.
abbrev exchanged : RunQueue → ℕ → List ℕ → List ℕ
exchanged q j queue =
    set (set queue (slot q (suc j)) (get_or queue (slot q j) 0)) (slot q j)
      (get_or queue (slot q (suc j)) 0)

module _ (q : RunQueue) (r : IsRing q) where
  -- After the loop of move_forward the window is the one that stood a place further on.
  pub window-move_forward_before :
      (n j i m : ℕ) (queue : List ℕ)
      → j + n < q.queue_size
      → i + m ≤ j
      → window q (move_forward q n j queue) i m ≡ window q queue i m
  unfolding move_forward
  window-move_forward_before zero j i m queue h out = refl
  window-move_forward_before (suc n) j i m queue h out =
      window-move_forward_before n (j + 1) i m
        (set queue (slot q j) (get_or queue (slot q (j + 1)) 0)) (omega arith) (omega arith)
      ∙ window-set_out q r queue j (get_or queue (slot q (j + 1)) 0) i m (omega arith) (omega arith)
          (inr out)

  pub length-move_forward :
      (n j : ℕ) (queue : List ℕ) → length (move_forward q n j queue) ≡ length queue
  unfolding move_forward
  length-move_forward zero j queue = refl
  length-move_forward (suc n) j queue =
      length-move_forward n (j + 1) (set queue (slot q j) (get_or queue (slot q (j + 1)) 0))
      ∙ length-set queue (slot q j) (get_or queue (slot q (j + 1)) 0)

  pub window-move_forward :
      (n j : ℕ) (queue : List ℕ)
      → length queue ≡ q.queue_size
      → j + n < q.queue_size
      → window q (move_forward q n j queue) j n ≡ window q queue (j + 1) n
  unfolding move_forward
  window-move_forward zero j queue full h = refl
  window-move_forward (suc n) j queue full h =
      let moved = set queue (slot q j) (get_or queue (slot q (j + 1)) 0) in
      let in_array : slot q j < length queue = rw full (slot-lt q j r (omega arith)) in
      let kept : length moved ≡ q.queue_size =
        length-set queue (slot q j) (get_or queue (slot q (j + 1)) 0) ∙ full in
      let first : get_or (move_forward q n (j + 1) moved) (slot q j) 0
          ≡ get_or queue (slot q (j + 1)) 0 =
        head_of (window-move_forward_before n (j + 1) j 1 moved (omega arith) (omega arith))
        ∙ get_or-set_self queue (slot q j) (get_or queue (slot q (j + 1)) 0) 0 in_array in
      ap₂ ◌∷◌ first (
        window-move_forward n (j + 1) moved kept (omega arith)
        ∙ window-set_out q r queue j (get_or queue (slot q (j + 1)) 0) (j + 1 + 1) n (omega arith)
            (omega arith) (inl (omega arith)))

  window-exchanged :
      (queue : List ℕ) (j i n : ℕ)
      → suc j < q.queue_size
      → i + n ≤ q.queue_size
      → (i + n ≤ j) ⊎ (suc j < i)
      → window q (exchanged q j queue) i n ≡ window q queue i n
  window-exchanged queue j i n next h out = elim out [
    | inl before ↦
        window-set_out q r (set queue (slot q (suc j)) (get_or queue (slot q j) 0)) j
          (get_or queue (slot q (suc j)) 0) i n (omega arith) h (inr before)
        ∙ window-set_out q r queue (suc j) (get_or queue (slot q j) 0) i n next h
            (inr (omega arith))
    | inr after ↦
        window-set_out q r (set queue (slot q (suc j)) (get_or queue (slot q j) 0)) j
          (get_or queue (slot q (suc j)) 0) i n (omega arith) h (inl (omega arith))
        ∙ window-set_out q r queue (suc j) (get_or queue (slot q j) 0) i n (omega arith) h
            (inl (omega arith))
  ]

  length-exchanged : (queue : List ℕ) (j : ℕ) → length (exchanged q j queue) ≡ length queue
  length-exchanged queue j =
      length-set (set queue (slot q (suc j)) (get_or queue (slot q j) 0)) (slot q j)
        (get_or queue (slot q (suc j)) 0)
      ∙ length-set queue (slot q (suc j)) (get_or queue (slot q j) 0)

  -- After the loop of move_to_front the element comes first, and the ones before it follow.
  pub window-move_to_front_after :
      (j i m : ℕ) (queue : List ℕ)
      → i + m ≤ q.queue_size
      → j < i
      → window q (move_to_front q j queue) i m ≡ window q queue i m
  unfolding move_to_front
  window-move_to_front_after zero i m queue h out = refl
  window-move_to_front_after (suc j) zero m queue h out = absurd (omega arith)
  window-move_to_front_after (suc j) i m queue h out =
      window-move_to_front_after j i m (exchanged q j queue) h (omega arith)
      ∙ window-exchanged queue j i m (omega arith) h (inr out)

  pub length-move_to_front :
      (j : ℕ) (queue : List ℕ) → length (move_to_front q j queue) ≡ length queue
  unfolding move_to_front
  length-move_to_front zero queue = refl
  length-move_to_front (suc j) queue =
      length-move_to_front j (exchanged q j queue) ∙ length-exchanged queue j

  pub window-move_to_front :
      (j : ℕ) (queue : List ℕ)
      → length queue ≡ q.queue_size
      → j < q.queue_size
      → window q (move_to_front q j queue) 0 (suc j)
        ≡ get_or queue (slot q j) 0 ∷ window q queue 0 j
  unfolding move_to_front
  window-move_to_front zero queue full h = refl
  window-move_to_front (suc j) queue full h =
      let other = exchanged q j queue in
      let moved = move_to_front q j other in
      let two : suc (suc j) ≡ suc j + 1 = omega arith in
      let one_more : j + 1 ≡ suc j = omega arith in
      let at_j : slot q j < length (set queue (slot q (suc j)) (get_or queue (slot q j) 0)) =
        rw (length-set queue (slot q (suc j)) (get_or queue (slot q j) 0), full)
          (slot-lt q j r (omega arith)) in
      let at_next : slot q (suc j) < length queue = rw full (slot-lt q (suc j) r h) in
      let front : get_or other (slot q j) 0 ≡ get_or queue (slot q (suc j)) 0 =
        get_or-set_self (set queue (slot q (suc j)) (get_or queue (slot q j) 0)) (slot q j)
          (get_or queue (slot q (suc j)) 0) 0 at_j in
      let back : get_or other (slot q (suc j)) 0 ≡ get_or queue (slot q j) 0 =
        get_or-set_ne (set queue (slot q (suc j)) (get_or queue (slot q j) 0)) (slot q j)
          (slot q (suc j)) (get_or queue (slot q (suc j)) 0) 0
          (slot-ne q j (suc j) r (omega arith) h (λ e. omega arith))
        ∙ get_or-set_self queue (slot q (suc j)) (get_or queue (slot q j) 0) 0 at_next in
      let before : window q moved 0 (suc j) ≡ get_or queue (slot q (suc j)) 0 ∷ window q queue 0 j =
        window-move_to_front j other (length-exchanged queue j ∙ full) (omega arith)
        ∙ ap₂ ◌∷◌ front (window-exchanged queue j 0 j h (omega arith) (inl (omega arith))) in
      let last : window q moved (suc j) 1 ≡ get_or queue (slot q j) 0 ∷ [] =
        window-move_to_front_after j (suc j) 1 other (omega arith) (omega arith)
        ∙ ap (λ x. x ∷ []) back in
      ap (window q moved 0) two
      ∙ window-append q moved 0 (suc j) 1
      ∙ ap₂ ◌++◌ before (from_zero q moved (suc j) 1 ∙ last)
      ∙ ap (λ t. get_or queue (slot q (suc j)) 0 ∷ t)
          (ap (λ t. window q queue 0 j ++ t) (sym (from_zero q queue j 1))
            ∙ sym (window-append q queue 0 j 1)
            ∙ ap (window q queue 0) one_more)
