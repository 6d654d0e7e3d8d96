-- ===== src/Contexts/Keyed.antt =====
-- The table of ContextManager of agent_runtime_top/src/context_manager.cpp: every entry stands
-- under its id, the ids are given once, and a context that is leased is resident.
use agent_nucleus.Prelude.{
  ℕ, ◌+◌, ◌<◌, ◌≡◌, refl, sym, subst, true, false, not, ◌||◌, ◌&&◌, Option, none, some, [], ◌∷◌,
  ◌∙◌, is_empty, arith, ◌==◌, if◌then◌else◌, ◌⊎◌, inl, inr, Bool-cases, some-inj, none≢some,
}
use agent_nucleus.Table.{Table, lookup, adjust, emplace, erase, erase-missing}
use agent_nucleus.Contexts.State.{Entry}
use agent_nucleus.Contexts.Residency.{is_kept, is_older, find_candidate}
use agent_nucleus.Contexts.Acquire.{find_for_agent_locked}
use agent_nucleus.Prelude.{member}

-- A context that is not resident has no lease, and every context has an owner.
abbrev pub IsSound : Entry → Type 0
IsSound e = ((e.resident || e.pin_count == 0) && not (is_empty e.owners)) ≡ true

abbrev pub IsKeyed : ℕ → Table Entry → Type 0
IsKeyed bound [] = Unit {0}
IsKeyed bound ((k, e) ∷ t) =
    (e.id ≡ k) × (0 < k) × (k < bound) × (lookup k t ≡ none) × IsSound e × IsKeyed bound t

-- What is known of the entry of a key.
pub record IsEntry (bound k : ℕ) (e : Entry) : Type 0 where
  pub own_id : e.id ≡ k
  pub positive : 0 < k
  pub below : k < bound
  pub sound : IsSound e

pub lookup-IsEntry :
    (bound k : ℕ) (t : Table Entry) (e : Entry)
    → IsKeyed bound t
    → lookup k t ≡ some e
    → IsEntry bound k e
unfolding lookup
lookup-IsEntry bound k [] e h found = absurd (none≢some found)
lookup-IsEntry bound k ((j, x) ∷ t) e (own, pos_j, below, fresh, sound, h) found =
    elim (Bool-cases (j == k)) [
      | inl hit ↦
          let same : j ≡ k = ground arith in
          subst (λ i. IsEntry bound i e) same
            (subst (λ y. IsEntry bound j y) (some-inj (rw hit at found))
              (record { own_id = own; positive = pos_j; below = below; sound = sound }))
      | inr miss ↦ lookup-IsEntry bound k t e h (rw miss at found)
    ]

-- The next id is free.
pub lookup-bound : (bound : ℕ) (t : Table Entry) → IsKeyed bound t → lookup bound t ≡ none
unfolding lookup
lookup-bound bound [] h = refl
lookup-bound bound ((j, x) ∷ t) (own, pos_j, below, fresh, sound, h) =
    ground (arith, lookup-bound bound t h)

adjust-fresh :
    (j k : ℕ) (f : Entry → Entry) (t : Table Entry)
    → lookup j t ≡ none
    → lookup j (adjust k f t) ≡ none
unfolding lookup adjust
adjust-fresh j k f [] e = refl
adjust-fresh j k f ((i, x) ∷ t) e = ground (arith, adjust-fresh j k f t)

pub IsKeyed-adjust :
    (bound k : ℕ) (f : Entry → Entry) (t : Table Entry) (e : Entry)
    → ((x : Entry) → (f x).id ≡ x.id)
    → IsSound (f e)
    → lookup k t ≡ some e
    → IsKeyed bound t
    → IsKeyed bound (adjust k f t)
unfolding lookup adjust
IsKeyed-adjust bound k f [] e ids fine found h = tt
IsKeyed-adjust bound k f ((j, x) ∷ t) e ids fine found (own, pos_j, below, fresh, sound, h) =
    elim (Bool-cases (j == k)) [
      | inl hit ↦ rw hit (
        ids x ∙ own,
        pos_j,
        below,
        fresh,
        subst (λ y. IsSound (f y)) (sym (some-inj (rw hit at found))) fine,
        h,
      )
      | inr miss ↦ rw miss (
        own,
        pos_j,
        below,
        adjust-fresh j k f t fresh,
        sound,
        IsKeyed-adjust bound k f t e ids fine (rw miss at found) h,
      )
    ]

emplace-fresh :
    (j k : ℕ) (e : Entry) (t : Table Entry)
    → j < k
    → lookup j t ≡ none
    → lookup j (emplace k e t) ≡ none
unfolding lookup emplace
emplace-fresh j k e [] lt h = ground arith
emplace-fresh j k e ((i, x) ∷ t) lt h = ground (arith, emplace-fresh j k e t)

-- A new entry under the next id.
pub IsKeyed-emplace :
    (bound : ℕ) (e : Entry) (t : Table Entry)
    → e.id ≡ bound
    → 0 < bound
    → IsSound e
    → IsKeyed bound t
    → IsKeyed (bound + 1) (emplace bound e t)
unfolding lookup emplace
IsKeyed-emplace bound e [] own pos sound h = (own, pos, omega arith, refl, sound, tt)
IsKeyed-emplace bound e ((j, x) ∷ t) own pos sound (own_x, pos_j, below, fresh, sound_x, h) =
    let miss : (j == bound) ≡ false = ground arith in
    rw miss (
      own_x,
      pos_j,
      omega arith,
      emplace-fresh j bound e t below fresh,
      sound_x,
      IsKeyed-emplace bound e t own pos sound h,
    )

pub IsKeyed-erase : (bound k : ℕ) (t : Table Entry) → IsKeyed bound t → IsKeyed bound (erase k t)
unfolding lookup erase
IsKeyed-erase bound k [] h = tt
IsKeyed-erase bound k ((j, x) ∷ t) (own, pos_j, below, fresh, sound, h) =
    elim (Bool-cases (j == k)) [
      | inl hit ↦ rw hit h
      | inr miss ↦
          rw miss (own, pos_j, below, erase-missing j k t fresh, sound, IsKeyed-erase bound k t h)
    ]

-- An entry that is found later stands under its id there too.
later-lookup :
    (bound k : ℕ) (x e : Entry) (t : Table Entry)
    → lookup k t ≡ none
    → lookup e.id t ≡ some e
    → lookup e.id ((k, x) ∷ t) ≡ some e
unfolding lookup
later-lookup bound k x e t fresh found = elim (Bool-cases (k == e.id)) [
  | inl hit ↦
      let same : k ≡ e.id = ground arith in
      absurd (none≢some (sym (subst (λ i. lookup i t ≡ none) same fresh) ∙ found))
  | inr miss ↦ rw miss found
]

head-lookup : (k : ℕ) (e : Entry) (t : Table Entry) → e.id ≡ k → lookup e.id ((k, e) ∷ t) ≡ some e
unfolding lookup
head-lookup k e t own = ground arith

-- The loop's choice is an entry of the table, unless it is the candidate it began with.
pub find_candidate-lookup :
    (bound excluded : ℕ) (t : Table Entry) (c : Option Entry) (e : Entry)
    → IsKeyed bound t
    → find_candidate excluded t c ≡ some e
    → (lookup e.id t ≡ some e) ⊎ (c ≡ some e)
unfolding find_candidate
find_candidate-lookup bound excluded [] c e h chosen = inr chosen
find_candidate-lookup bound excluded ((k, x) ∷ t) c e (own, pos_k, below, fresh, sound, h) chosen =
    let d = if is_kept excluded x then c else if is_older x c then some x else c in
    elim (find_candidate-lookup bound excluded t d e h chosen) [
      | inl later ↦ inl (later-lookup bound k x e t fresh later)
      | inr is_d ↦ elim (Bool-cases (is_kept excluded x)) [
        | inl kept ↦ inr (rw kept at is_d)
        | inr free ↦ elim (Bool-cases (is_older x c)) [
          | inl older ↦
              let same : x ≡ e = some-inj (rw (free, older) at is_d) in
              inl (subst (λ y. lookup y.id ((k, x) ∷ t) ≡ some y) same (head-lookup k x t own))
          | inr younger ↦ inr (rw (free, younger) at is_d)
        ]
      ]
    ]

pub find_for_agent_locked-lookup :
    (bound agent_id : ℕ) (t : Table Entry) (e : Entry)
    → IsKeyed bound t
    → find_for_agent_locked agent_id t ≡ some e
    → (lookup e.id t ≡ some e) × (member agent_id e.owners ≡ true)
unfolding find_for_agent_locked
find_for_agent_locked-lookup bound agent_id [] e h chosen = absurd (none≢some chosen)
find_for_agent_locked-lookup bound agent_id ((k, x) ∷ t) e (own, pos_k, below, fresh, sound, h)
      chosen =
    elim (Bool-cases (member agent_id x.owners)) [
      | inl owner ↦
          let same : x ≡ e = some-inj (rw owner at chosen) in
          (
            subst (λ y. lookup y.id ((k, x) ∷ t) ≡ some y) same (head-lookup k x t own),
            subst (λ y. member agent_id y.owners ≡ true) same owner,
          )
      | inr other ↦
          let (found, owner) =
            find_for_agent_locked-lookup bound agent_id t e h (rw other at chosen) in
          (later-lookup bound k x e t fresh found, owner)
    ]
