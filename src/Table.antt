-- ===== src/Table.antt =====
-- A std::unordered_map keyed by uint64_t identifiers, as an association list. The order of the list
-- is one of the orders in which the map may be iterated. `none` is a missing key.
use agent_nucleus.Prelude.{
  ℕ, ◌+◌, ◌≤◌, ◌≡◌, refl, Bool, true, false, Option, none, some, List, [], ◌∷◌, arith, ◌==◌,
  ==_refl, if◌then◌else◌, length, total, inl, inr, Option-cases,
}
use mathlib.Core.Option

abbrev pub Table {ℓ} : Type ℓ → Type ℓ
Table V = List (ℕ × V)

module _ {ℓ} {V : Type ℓ} where
  -- find
  unfoldable pub lookup : ℕ → Table V → Option V
  lookup k [] = none
  lookup k ((j, v) ∷ t) = if j == k then some v else lookup k t

  abbrev pub contains : ℕ → Table V → Bool
  contains k t = elim (lookup k t) [ none ↦ false | some v ↦ true ]

  -- A write through a reference to the entry of a key.
  unfoldable pub adjust : ℕ → (V → V) → Table V → Table V
  adjust k f [] = []
  adjust k f ((j, v) ∷ t) = if j == k then (j, f v) ∷ t else (j, v) ∷ adjust k f t

  -- emplace: a key that is there keeps its value.
  unfoldable pub emplace : ℕ → V → Table V → Table V
  emplace k v [] = (k, v) ∷ []
  emplace k v ((j, w) ∷ t) = if j == k then (j, w) ∷ t else (j, w) ∷ emplace k v t

  unfoldable pub erase : ℕ → Table V → Table V
  erase k [] = []
  erase k ((j, w) ∷ t) = if j == k then t else (j, w) ∷ erase k t

  pub lookup-adjust :
      (j k : ℕ) (f : V → V) (t : Table V)
      → lookup j (adjust k f t) ≡ (if k == j then Option.map f (lookup j t) else lookup j t)
  unfolding lookup adjust
  lookup-adjust j k f [] = ground arith
  lookup-adjust j k f ((i, w) ∷ t) = ground (arith, lookup-adjust j k f t)

  pub lookup-emplace :
      (j k : ℕ) (v : V) (t : Table V)
      → lookup j (emplace k v t)
        ≡ elim (lookup j t) [ some w ↦ some w | none ↦ if k == j then some v else none ]
  unfolding lookup emplace
  lookup-emplace j k v [] = ground arith
  lookup-emplace j k v ((i, w) ∷ t) = ground (arith, lookup-emplace j k v t)

  pub lookup-adjust_self :
      (k : ℕ) (f : V → V) (t : Table V) {v : V}
      → lookup k t ≡ some v
      → lookup k (adjust k f t) ≡ some (f v)
  lookup-adjust_self k f t e = rw (lookup-adjust k k f t, ==_refl k, e)

  pub length-adjust : (k : ℕ) (f : V → V) (t : Table V) → length (adjust k f t) ≡ length t
  unfolding adjust
  length-adjust k f [] = refl
  length-adjust k f ((j, v) ∷ t) = ground (arith, length-adjust k f t)

  -- The sum of a weight over the values.
  abbrev pub weigh : (V → ℕ) → Table V → ℕ
  weigh w = total (λ e. w e.1)

  pub weigh-adjust :
      (w : V → ℕ) (k : ℕ) (f : V → V) (t : Table V) (v : V)
      → lookup k t ≡ some v
      → weigh w (adjust k f t) + w v ≡ weigh w t + w (f v)
  unfolding lookup adjust
  weigh-adjust w k f [] v e = ground arith
  weigh-adjust w k f ((j, x) ∷ t) v e = ground (arith, weigh-adjust w k f t v)

  pub weigh-emplace :
      (w : V → ℕ) (k : ℕ) (v : V) (t : Table V)
      → lookup k t ≡ none
      → weigh w (emplace k v t) ≡ weigh w t + w v
  unfolding lookup emplace
  weigh-emplace w k v [] e = ground arith
  weigh-emplace w k v ((j, x) ∷ t) e = ground (arith, weigh-emplace w k v t)

  pub weigh-le : (w : V → ℕ) (k : ℕ) (t : Table V) (v : V) → lookup k t ≡ some v → w v ≤ weigh w t
  unfolding lookup
  weigh-le w k [] v e = ground arith
  weigh-le w k ((j, x) ∷ t) v e = ground (arith, weigh-le w k t v)

  -- emplace of a key that is there changes nothing.
  pub emplace-contains :
      (k : ℕ) (v : V) (t : Table V) (w : V) → lookup k t ≡ some w → emplace k v t ≡ t
  unfolding lookup emplace
  emplace-contains k v [] w e = cc
  emplace-contains k v ((j, x) ∷ t) w e = ground (arith, emplace-contains k v t w)

  -- A write to a key that is not there changes nothing.
  pub adjust-missing : (k : ℕ) (f : V → V) (t : Table V) → lookup k t ≡ none → adjust k f t ≡ t
  unfolding lookup adjust
  adjust-missing k f [] e = refl
  adjust-missing k f ((j, x) ∷ t) e = ground (arith, adjust-missing k f t)

  pub contains-lookup :
      (k : ℕ) (t : Table V) → contains k t ≡ true → (v : V) × (lookup k t ≡ some v)
  contains-lookup k t e = elim (Option-cases (lookup k t)) [
    | inl absent ↦ absurd (ground arith)
    | inr found ↦ found
  ]

  pub length-emplace :
      (k : ℕ) (v : V) (t : Table V) → lookup k t ≡ none → length (emplace k v t) ≡ length t + 1
  unfolding lookup emplace
  length-emplace k v [] e = omega arith
  length-emplace k v ((j, x) ∷ t) e = ground (arith, length-emplace k v t)

  pub length-erase :
      (k : ℕ) (t : Table V) (v : V) → lookup k t ≡ some v → length (erase k t) + 1 ≡ length t
  unfolding lookup erase
  length-erase k [] v e = ground arith
  length-erase k ((j, x) ∷ t) v e = ground (arith, length-erase k t v)

  pub weigh-erase :
      (w : V → ℕ) (k : ℕ) (t : Table V) (v : V)
      → lookup k t ≡ some v
      → weigh w (erase k t) + w v ≡ weigh w t
  unfolding lookup erase
  weigh-erase w k [] v e = ground arith
  weigh-erase w k ((j, x) ∷ t) v e = ground (arith, weigh-erase w k t v)

  pub erase-missing : (j k : ℕ) (t : Table V) → lookup j t ≡ none → lookup j (erase k t) ≡ none
  unfolding lookup erase
  erase-missing j k [] e = refl
  erase-missing j k ((i, x) ∷ t) e = ground (arith, erase-missing j k t)
