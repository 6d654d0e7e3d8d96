-- ===== src/Prelude/Lists.antt =====
-- Lists measured and indexed by native numbers, and sets of numbers kept as lists.
use Prim.Native.Nat.{ℕ, suc, ◌+◌}
use mathlib.Core.Path.{◌≡◌, ap}
use mathlib.Core.Bool.{Bool, true, false, ◌||◌}
use mathlib.Core.List.{List, [], ◌∷◌, ◌++◌}
use native.Mathlib.Omega.{arith}
use agent_nucleus.Prelude.Tests.{◌==◌, if◌then◌else◌}

module _ {ℓ} {A : Type ℓ} where
  abbrev pub length : List A → ℕ
  length [] = 0
  length (x ∷ xs) = suc (length xs)

  pub length-append : (xs ys : List A) → length (xs ++ ys) ≡ length xs + length ys
  length-append [] ys = omega arith
  length-append (x ∷ xs) ys = omega (arith, length-append xs ys)

  abbrev pub is_empty : List A → Bool
  is_empty [] = true
  is_empty (x ∷ xs) = false

  abbrev pub All {κ} : (A → Type κ) → List A → Type κ
  All P [] = Unit {κ}
  All P (x ∷ xs) = P x × All P xs

-- A std::unordered_set of identifiers: the list is one order in which it may be iterated.
abbrev pub member : ℕ → List ℕ → Bool
member j [] = false
member j (x ∷ xs) = x == j || member j xs

abbrev pub insert : ℕ → List ℕ → List ℕ
insert k xs = if member k xs then xs else k ∷ xs

abbrev pub remove : ℕ → List ℕ → List ℕ
remove k [] = []
remove k (x ∷ xs) = if x == k then remove k xs else x ∷ remove k xs

pub member-insert : (j k : ℕ) (xs : List ℕ) → member j (insert k xs) ≡ (k == j || member j xs)
member-insert j k xs = ground (arith, hit)
  where
    hit : (k == j) ≡ true → member k xs ≡ member j xs
    hit e = ap (λ i. member i xs) (ground arith)

pub member-remove :
    (j k : ℕ) (xs : List ℕ) → member j (remove k xs) ≡ (if k == j then false else member j xs)
member-remove j k [] = ground arith
member-remove j k (x ∷ xs) = ground (arith, member-remove j k xs)

-- The sum of a weight over a list.
abbrev pub total {ℓ} : {A : Type ℓ} → (A → ℕ) → List A → ℕ
total w [] = 0
total w (x ∷ xs) = w x + total w xs

pub total-append {ℓ} :
    {A : Type ℓ} (w : A → ℕ) (xs ys : List A) → total w (xs ++ ys) ≡ total w xs + total w ys
total-append w [] ys = omega arith
total-append w (x ∷ xs) ys = omega (arith, total-append w xs ys)
