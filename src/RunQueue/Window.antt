-- ===== src/RunQueue/Window.antt =====
-- The elements of the circular array of agent_runtime_top/src/scheduler.c, in the queue's order.
use agent_nucleus.Prelude.{
  ℕ, zero, suc, ◌+◌, ◌-◌, ◌%◌, ◌^◌, ◌≤◌, ◌<◌, ◌≡◌, ◌≢◌, refl, ◌∙◌, ap, List, [], ◌∷◌, ◌++◌, length,
  ◌⊎◌, inl, inr, arith, u32_mod,
}
use mathlib.Core.Path.{ap₂}
use native.Mathlib.Nat.{mod-eq_of_lt, mod-eq-sub-mod}
use native.Mathlib.Decide.{dec_lt}
use agent_nucleus.Arrays.{get_or, set, get_or-set_ne}
use agent_nucleus.RunQueue.State.{RunQueue, slot}

-- The array has its size, the head is in it, and no index sum wraps.
pub record IsRing (q : RunQueue) : Type 0 where
  pub size_fits : q.queue_size ≤ 2 ^ 31
  pub head_in : q.head < q.queue_size

-- An index that has gone round at most once.
pub wrap_cases :
    (x size : ℕ)
    → x < u32_mod
    → x < size + size
    → ((x < size) × (x % u32_mod % size ≡ x)) ⊎ ((size ≤ x) × (x % u32_mod % size ≡ x - size))
wrap_cases x size small once =
    let whole : x % u32_mod ≡ x = omega arith in
    elim (dec_lt x size) [
      | yes p ↦ inl (p, ap (λ n. n % size) whole ∙ mod-eq_of_lt p)
      | no p ↦ inr (
        omega arith,
        ap (λ n. n % size) whole
            ∙ mod-eq-sub-mod {n = x} {m = size} (omega arith)
            ∙ mod-eq_of_lt {n = x - size} {m = size} (omega arith),
      )
    ]

pub slot-value :
    (q : RunQueue) (i : ℕ)
    → IsRing q
    → i ≤ q.queue_size
    → ((q.head + i < q.queue_size) × (slot q i ≡ q.head + i))
      ⊎ ((q.queue_size ≤ q.head + i) × (slot q i ≡ q.head + i - q.queue_size))
slot-value q i r h =
    wrap_cases (q.head + i) q.queue_size (omega (arith, r.size_fits, r.head_in))
      (omega (arith, r.head_in))

pub slot-lt : (q : RunQueue) (i : ℕ) → IsRing q → i < q.queue_size → slot q i < q.queue_size
slot-lt q i r h = elim (slot-value q i r (omega arith)) [
  | inl p ↦ omega (arith, p.0, p.1)
  | inr p ↦ omega (arith, p.0, p.1, r.head_in)
]

pub slot-ne :
    (q : RunQueue) (i j : ℕ)
    → IsRing q
    → i < q.queue_size
    → j < q.queue_size
    → i ≢ j
    → slot q i ≢ slot q j
slot-ne q i j r hi hj ne e = elim (slot-value q i r (omega arith)) [
  | inl p ↦ elim (slot-value q j r (omega arith)) [
    | inl s ↦ ne (omega (arith, p.1, s.1, e))
    | inr s ↦ absurd (omega (arith, p.0, p.1, s.0, s.1, e, r.head_in))
  ]
  | inr p ↦ elim (slot-value q j r (omega arith)) [
    | inl s ↦ absurd (omega (arith, p.0, p.1, s.0, s.1, e, r.head_in))
    | inr s ↦ ne (omega (arith, p.0, p.1, s.0, s.1, e))
  ]
]

-- The `n` elements from the place `i` on.
abbrev pub first_of : List ℕ → ℕ
first_of [] = 0
first_of (x ∷ xs) = x

pub head_of : {x y : ℕ} {xs ys : List ℕ} → x ∷ xs ≡ y ∷ ys → x ≡ y
head_of e = ap first_of e

abbrev pub window : RunQueue → List ℕ → ℕ → ℕ → List ℕ
window q queue i zero = []
window q queue i (suc n) = get_or queue (slot q i) 0 ∷ window q queue (i + 1) n

pub length-window : (q : RunQueue) (queue : List ℕ) (i n : ℕ) → length (window q queue i n) ≡ n
length-window q queue i zero = refl
length-window q queue i (suc n) = ap suc (length-window q queue (i + 1) n)

pub window-append :
    (q : RunQueue) (queue : List ℕ) (i n m : ℕ)
    → window q queue i (n + m) ≡ window q queue i n ++ window q queue (i + n) m
window-append q queue i zero m =
    let none_before : 0 + m ≡ m = omega arith in
    let here : i ≡ i + 0 = omega arith in ap₂ (window q queue) here none_before
window-append q queue i (suc n) m =
    let shift : i + 1 + n ≡ i + suc n = omega arith in
    let same : suc n + m ≡ suc (n + m) = omega arith in
    ap (window q queue i) same
    ∙ ap (λ t. get_or queue (slot q i) 0 ∷ t) (window-append q queue (i + 1) n m)
    ∙ ap (λ k. get_or queue (slot q i) 0 ∷ (window q queue (i + 1) n ++ window q queue k m)) shift

pub from_zero :
    (q : RunQueue) (queue : List ℕ) (i n : ℕ) → window q queue (0 + i) n ≡ window q queue i n
from_zero q queue i n = let same : 0 + i ≡ i = omega arith in ap (λ k. window q queue k n) same

module _ (q : RunQueue) (r : IsRing q) where
  -- A write at a place outside a window leaves the window.
  pub window-set_out :
      (queue : List ℕ) (k v i n : ℕ)
      → k < q.queue_size
      → i + n ≤ q.queue_size
      → (k < i) ⊎ (i + n ≤ k)
      → window q (set queue (slot q k) v) i n ≡ window q queue i n
  window-set_out queue k v i zero hk hn out = refl
  window-set_out queue k v i (suc n) hk hn out =
      ap₂ ◌∷◌
        (get_or-set_ne queue (slot q k) (slot q i) v 0
          (slot-ne q k i r hk (omega arith) (apart out)))
        (window-set_out queue k v (i + 1) n hk (omega arith) (later out))
    where
      apart : (k < i) ⊎ (i + suc n ≤ k) → k ≢ i
      apart (inl a) e = omega arith
      apart (inr a) e = omega arith

      later : (k < i) ⊎ (i + suc n ≤ k) → (k < i + 1) ⊎ (i + 1 + n ≤ k)
      later (inl a) = inl (omega arith)
      later (inr a) = inr (omega arith)
