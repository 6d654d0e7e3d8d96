-- ===== src/Contexts/Eviction.antt =====
-- Which context obtain_sequence_locked of agent_runtime_top/src/context_manager.cpp swaps out.
use agent_nucleus.Prelude.{
  ℕ, ◌≤◌, ◌≡◌, refl, sym, ◌∙◌, some-inj, none≢some, true, false, Option, none, some, [], ◌∷◌, arith,
  ◌==◌, if◌then◌else◌, ◌⊎◌, inl, inr, Bool-cases,
}
use agent_nucleus.Prelude.Int.{ℤ}
use agent_nucleus.Table.{Table, lookup}
use agent_nucleus.Contexts.State.{Entry, ContextManager}
use agent_nucleus.Contexts.Residency.{is_kept, is_older, find_candidate, evict}

-- `e` is what the loop over `t` makes of the candidate `c`.
record Leads (excluded : ℕ) (t : Table Entry) (c : Option Entry) (e : Entry) : Type 0 where
  real : (is_kept excluded e ≡ false) ⊎ (c ≡ some e)
  first : (k : Entry) → c ≡ some k → e.last_access ≤ k.last_access
  rest :
      (j : ℕ) (x : Entry)
      → lookup j t ≡ some x
      → is_kept excluded x ≡ false
      → e.last_access ≤ x.last_access

older-le : (x k : Entry) → is_older x (some k) ≡ true → x.last_access ≤ k.last_access
older-le x k h = ground arith

module _ (excluded key : ℕ) (x : Entry) (t : Table Entry) where
  Leads-kept :
      (c : Option Entry) (e : Entry)
      → is_kept excluded x ≡ true
      → Leads excluded t c e
      → Leads excluded ((key, x) ∷ t) c e
  unfolding lookup
  Leads-kept c e kept h = record {
    real = h.real;
    first = h.first;
    rest = λ j y found free. elim (Bool-cases (key == j)) [
      | inl hit ↦ absurd (ground (arith, some-inj (rw hit at found)))
      | inr miss ↦ h.rest j y (rw miss at found) free
    ];
  }

  Leads-older :
      (c : Option Entry) (e : Entry)
      → is_kept excluded x ≡ false
      → is_older x c ≡ true
      → Leads excluded t (some x) e
      → Leads excluded ((key, x) ∷ t) c e
  unfolding lookup
  Leads-older c e free older h = record {
    real = elim h.real [ inl fine ↦ inl fine | inr same ↦ inl (ground (arith, some-inj same)) ];
    first = λ k is. ground (arith, h.first x refl);
    rest = λ j y found free_y. elim (Bool-cases (key == j)) [
      | inl hit ↦ ground (arith, some-inj (rw hit at found), h.first x refl)
      | inr miss ↦ h.rest j y (rw miss at found) free_y
    ];
  }

  Leads-younger :
      (k e : Entry)
      → is_older x (some k) ≡ false
      → Leads excluded t (some k) e
      → Leads excluded ((key, x) ∷ t) (some k) e
  unfolding lookup
  Leads-younger k e younger h = record {
    real = h.real;
    first = h.first;
    rest = λ j y found free_y. elim (Bool-cases (key == j)) [
      | inl hit ↦ ground (arith, some-inj (rw hit at found), h.first k refl)
      | inr miss ↦ h.rest j y (rw miss at found) free_y
    ];
  }

  -- A context that may go, against what is known of the rest of the loop.
  Leads-candidate :
      (c : Option Entry) (e : Entry)
      → is_kept excluded x ≡ false
      → ((d : Option Entry) → find_candidate excluded t d ≡ some e → Leads excluded t d e)
      → find_candidate excluded t (if is_older x c then some x else c) ≡ some e
      → Leads excluded ((key, x) ∷ t) c e
  Leads-candidate none e free known h = Leads-older none e free refl (known (some x) h)
  Leads-candidate (some k) e free known h = elim (Bool-cases (is_older x (some k))) [
    | inl older ↦ Leads-older (some k) e free older (known (some x) (rw older at h))
    | inr younger ↦ Leads-younger k e younger (known (some k) (rw younger at h))
  ]

find_candidate-Leads :
    (excluded : ℕ) (t : Table Entry) (c : Option Entry) (e : Entry)
    → find_candidate excluded t c ≡ some e
    → Leads excluded t c e
unfolding find_candidate lookup
find_candidate-Leads excluded [] c e h = record {
  real = inr h;
  first = λ k is. ground (arith, some-inj (sym h ∙ is));
  rest = λ j x found free. absurd (none≢some found);
}
find_candidate-Leads excluded ((key, x) ∷ t) c e h = elim (Bool-cases (is_kept excluded x)) [
  | inl kept ↦
      Leads-kept excluded key x t c e kept (find_candidate-Leads excluded t c e (rw kept at h))
  | inr free ↦
      Leads-candidate excluded key x t c e free (λ d g. find_candidate-Leads excluded t d e g)
        (rw free at h)
]

-- The context that the loop chooses for a swap is resident, not pinned and not the one to be
-- loaded, and no other such context was used less recently.
pub find_candidate-oldest :
    (excluded : ℕ) (t : Table Entry) (e : Entry)
    → find_candidate excluded t none ≡ some e
    → (is_kept excluded e ≡ false)
      × ((j : ℕ) (x : Entry)
          → lookup j t ≡ some x
          → is_kept excluded x ≡ false
          → e.last_access ≤ x.last_access)
find_candidate-oldest excluded t e h =
    let l = find_candidate-Leads excluded t none e h in
    (elim l.real [ inl fine ↦ fine | inr none_is ↦ absurd (none≢some none_is) ], l.rest)

-- The context `e` of `m` made room for `sequence`, which gave `n`.
pub record Evicts (excluded : ℕ) (m n : ContextManager) (sequence : ℤ) (e : Entry) : Type 0 where
  pub may_go : is_kept excluded e ≡ false
  pub oldest :
      (j : ℕ) (x : Entry)
      → lookup j m.contexts ≡ some x
      → is_kept excluded x ≡ false
      → e.last_access ≤ x.last_access
  pub same_sequence : e.sequence_id ≡ sequence
  pub evicted : n ≡ evict e m
