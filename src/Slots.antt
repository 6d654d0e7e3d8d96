-- ===== src/Slots.antt =====
-- Tables of slots in an array: the loops that look for the first slot that passes a test.
use agent_nucleus.Prelude.{
  ℕ, zero, suc, ◌+◌, ◌≤◌, ◌≡◌, refl, sym, ◌∙◌, ap, subst, Bool, true, false, Option, none, some,
  List, [], ◌∷◌, length, if◌then◌else◌, inl, inr, Bool-cases, some-inj, none≢some, arith,
}
use mathlib.Core.Logic.{Lift}
use agent_nucleus.Arrays.{set, replicate}

abbrev pub bit : Bool → ℕ
bit true = 1
bit false = 0

module _ {ℓ} {A : Type ℓ} where
  abbrev pub moved_on : Option (ℕ × A) → Option (ℕ × A)
  moved_on none = none
  moved_on (some (i, x)) = some (suc i, x)

  -- The first slot that passes the test, with its index.
  unfoldable pub find_slot : (A → Bool) → List A → Option (ℕ × A)
  find_slot f [] = none
  find_slot f (x ∷ xs) = let rest = find_slot f xs in if f x then some (0, x) else moved_on rest

  -- How many slots pass the test.
  unfoldable pub count_if : (A → Bool) → List A → ℕ
  count_if f [] = 0
  count_if f (x ∷ xs) = bit (f x) + count_if f xs

  -- The slot at the index passes the test, and no earlier one does.
  abbrev pub IsFirst : (A → Bool) → List A → ℕ → A → Type ℓ
  IsFirst f [] i a = Lift ⊥
  IsFirst f (x ∷ xs) zero a = (f x ≡ true) × (x ≡ a)
  IsFirst f (x ∷ xs) (suc i) a = (f x ≡ false) × IsFirst f xs i a

  moved_on-IsFirst :
      (f : A → Bool) (x : A) (xs : List A) (r : Option (ℕ × A)) (i : ℕ) (a : A)
      → f x ≡ false
      → ((j : ℕ) → r ≡ some (j, a) → IsFirst f xs j a)
      → moved_on r ≡ some (i, a)
      → IsFirst f (x ∷ xs) i a
  moved_on-IsFirst f x xs none i a fails later e = absurd (none≢some e)
  moved_on-IsFirst f x xs (some (j, b)) i a fails later e =
      let pair = some-inj e in
      subst (λ k. IsFirst f (x ∷ xs) k a) (ap (λ p. p.0) pair)
        (fails, later j (ap (λ p. some (j, p.1)) pair))

  pub find_slot-IsFirst :
      (f : A → Bool) (xs : List A) (i : ℕ) (a : A) → find_slot f xs ≡ some (i, a) → IsFirst f xs i a
  unfolding find_slot
  find_slot-IsFirst f [] i a e = absurd (none≢some e)
  find_slot-IsFirst f (x ∷ xs) i a e = elim (Bool-cases (f x)) [
    | inl passes ↦
        let pair : (0, x) ≡ (i, a) = some-inj (
          subst (λ b. (if b then some (0, x) else moved_on (find_slot f xs)) ≡ some (i, a)) passes
            e) in
        subst (λ k. IsFirst f (x ∷ xs) k a) (ap (λ p. p.0) pair) (passes, ap (λ p. p.1) pair)
    | inr fails ↦
        moved_on-IsFirst f x xs (find_slot f xs) i a fails (λ j. find_slot-IsFirst f xs j a)
          (subst (λ b. (if b then some (0, x) else moved_on (find_slot f xs)) ≡ some (i, a)) fails
            e)
  ]

  pub moved_on-none : (r : Option (ℕ × A)) → moved_on r ≡ none → r ≡ none
  moved_on-none none e = refl
  moved_on-none (some (j, b)) e = absurd (none≢some (sym e))

  pub find_slot-none : (f : A → Bool) (xs : List A) → find_slot f xs ≡ none → count_if f xs ≡ 0
  unfolding find_slot count_if
  find_slot-none f [] e = refl
  find_slot-none f (x ∷ xs) e = elim (Bool-cases (f x)) [
    | inl passes ↦ absurd (
        none≢some (
          sym
            (subst (λ b. (if b then some (0, x) else moved_on (find_slot f xs)) ≡ none) passes e)))
    | inr fails ↦
        let rest = find_slot-none f xs (
          moved_on-none (find_slot f xs)
            (subst (λ b. (if b then some (0, x) else moved_on (find_slot f xs)) ≡ none) fails e)) in
        ground (arith, rest)
  ]

  pub IsFirst-test : (f : A → Bool) (xs : List A) (i : ℕ) (a : A) → IsFirst f xs i a → f a ≡ true
  IsFirst-test f [] i a h = absurd (h.lower)
  IsFirst-test f (x ∷ xs) zero a (passes, same) = subst (λ y. f y ≡ true) same passes
  IsFirst-test f (x ∷ xs) (suc i) a (fails, later) = IsFirst-test f xs i a later

  -- What a write to the slot does to a count.
  pub count_if-set :
      (f p : A → Bool) (xs : List A) (i : ℕ) (a b : A)
      → IsFirst f xs i a
      → count_if p (set xs i b) + bit (p a) ≡ count_if p xs + bit (p b)
  unfolding count_if
  count_if-set f p [] i a b h = absurd (h.lower)
  count_if-set f p (x ∷ xs) zero a b (passes, same) =
      let same_bit = ap (λ y. bit (p y)) same in omega arith
  count_if-set f p (x ∷ xs) (suc i) a b (fails, later) =
      let rest = count_if-set f p xs i a b later in omega arith

  -- The search finds what was written where the first slot stood.
  pub find_slot-set_same :
      (f : A → Bool) (xs : List A) (i : ℕ) (a b : A)
      → IsFirst f xs i a
      → f b ≡ true
      → find_slot f (set xs i b) ≡ some (i, b)
  unfolding find_slot
  find_slot-set_same f [] i a b h e = absurd (h.lower)
  find_slot-set_same f (x ∷ xs) zero a b (passes, same) e = rw e refl
  find_slot-set_same f (x ∷ xs) (suc i) a b (fails, later) e =
      rw (fails, find_slot-set_same f xs i a b later e) refl

  -- Another search does not see a write to a slot that it passes over.
  pub find_slot-set_other :
      (f g : A → Bool) (xs : List A) (i : ℕ) (a b : A)
      → IsFirst f xs i a
      → g a ≡ false
      → g b ≡ false
      → find_slot g (set xs i b) ≡ find_slot g xs
  unfolding find_slot
  find_slot-set_other f g [] i a b h e d = refl
  find_slot-set_other f g (x ∷ xs) zero a b (passes, same) e d = rw (d, ap g same ∙ e) refl
  find_slot-set_other f g (x ∷ xs) (suc i) a b (fails, later) e d =
      rw (find_slot-set_other f g xs i a b later e d) refl

  pub count_if-length : (f : A → Bool) (xs : List A) → count_if f xs ≤ length xs
  unfolding count_if
  count_if-length f [] = omega arith
  count_if-length f (x ∷ xs) = let rest = count_if-length f xs in ground (arith, rest)

  pub count_if-replicate :
      (f : A → Bool) (n : ℕ) (x : A) → f x ≡ false → count_if f (replicate n x) ≡ 0
  unfolding count_if
  count_if-replicate f zero x e = refl
  count_if-replicate f (suc n) x e =
      let rest = count_if-replicate f n x e in let first = ap bit e in omega arith

  pub IsFirst-find_slot :
      (f : A → Bool) (xs : List A) (i : ℕ) (a : A) → IsFirst f xs i a → find_slot f xs ≡ some (i, a)
  unfolding find_slot
  IsFirst-find_slot f [] i a h = absurd (h.lower)
  IsFirst-find_slot f (x ∷ xs) zero a (passes, same) = rw passes (ap (λ y. some (0, y)) same)
  IsFirst-find_slot f (x ∷ xs) (suc i) a (fails, later) =
      rw (fails, IsFirst-find_slot f xs i a later) refl
