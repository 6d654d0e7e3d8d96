-- ===== src/Scheduler/Grant/Best.antt =====
-- The choice of dispatch_locked is the best of the agents that fit.
use agent_nucleus.Prelude.{
  ℕ, ◌≡◌, refl, sym, ◌∙◌, ap, subst, some-inj, Bool, true, false, ◌||◌, Option, none, some, List,
  [], ◌∷◌, arith, member, ◌==◌, ==_refl, ==_iff, if◌then◌else◌, ◌⊎◌, inl, inr, Bool-cases,
  >>=-eq-some, none≢some,
}
use mathlib.Core.Bool.{false≢true}
use agent_nucleus.Prelude.Int.{ℤ, ltb_ℤ, ltb_ℤ-chain, neg_ltb_self}
use agent_nucleus.Table.{lookup}
use agent_nucleus.Types.{invalid_agent_id}
use agent_nucleus.Scheduler.State.{Node, Scheduler, update}
use agent_nucleus.Scheduler.Dispatch.{
  MemorySnapshot, Best, no_best, fits, score, better, considered, consider_all, take_selected,
  dispatch_locked,
}
use agent_nucleus.Scheduler.Invariants.{NoInvalidId}
use agent_nucleus.Scheduler.Grant.Alike.{Alike, Alike-update, fits-essence, better-essence}

-- The choice `b` is set, and no node of this score beats it.
abbrev Wins : Best → ℤ → Type 0
Wins b points = ((b.selected == invalid_agent_id) ≡ false) × (ltb_ℤ b.best_score points ≡ false)

-- The loop has `rest` before it: the choice is an agent of the set that fits, and wins over all
-- that fit and have been looked at.
record Leads (m : MemorySnapshot) (now : ℕ) (s : Scheduler) (rest : List ℕ) (b : Best)
    : Type 0 where
  wins :
      (j : ℕ) (n : Node)
      → member j s.ready_set ≡ true
      → lookup j s.nodes ≡ some n
      → fits m n s ≡ true
      → (member j rest ≡ true) ⊎ Wins b (score now n)
  real :
      (b.selected == invalid_agent_id) ≡ false
      → (k : Node) × (lookup b.selected s.nodes ≡ some k)
        × (fits m k s ≡ true)
        × (b.best_score ≡ score now k)
        × (member b.selected s.ready_set ≡ true)

-- The two outcomes of the test of one round.
better_cases {ℓ} :
    (P : Best → Type ℓ) (now id : ℕ) (n : Node) (b : Best)
    → ((b.selected == invalid_agent_id || ltb_ℤ b.best_score (score now n)) ≡ true
        → P (record { selected = id; best_score = score now n }))
    → ((b.selected == invalid_agent_id || ltb_ℤ b.best_score (score now n)) ≡ false → P b)
    → P (better now id n b)
unfolding better
better_cases P now id n b new old =
    elim (Bool-cases (b.selected == invalid_agent_id || ltb_ℤ b.best_score (score now n))) [
      | inl wins ↦ rw (wins, better) (new wins)
      | inr loses ↦ rw (loses, better) (old loses)
    ]

or-false : (a b : Bool) → (a || b) ≡ false → (a ≡ false) × (b ≡ false)
or-false a b h = ground arith

or-left : (a b : Bool) → (a || b) ≡ true → a ≡ false → b ≡ true
or-left a b h k = ground arith

better-Wins :
    (now id : ℕ) (n : Node) (b : Best) (points : ℤ)
    → (id == invalid_agent_id) ≡ false
    → Wins b points
    → Wins (better now id n b) points
better-Wins now id n b points nz w =
    better_cases (λ c. Wins c points) now id n b
      (λ new. (nz, ltb_ℤ-chain b.best_score (score now n) points w.1 (or-left _ _ new w.0)))
      (λ _. w)

better-Wins_self :
    (now id : ℕ) (n : Node) (b : Best)
    → (id == invalid_agent_id) ≡ false
    → Wins (better now id n b) (score now n)
better-Wins_self now id n b nz =
    better_cases (λ c. Wins c (score now n)) now id n b (λ _. (nz, neg_ltb_self (score now n)))
      (λ old. or-false _ _ old)

module _ (m : MemorySnapshot) (now : ℕ) (s : Scheduler) (no_zero : NoInvalidId s) where
  -- A stored id is not the reserved one.
  nonzero : (id : ℕ) (n : Node) → lookup id s.nodes ≡ some n → (id == invalid_agent_id) ≡ false
  nonzero id n e = elim (Bool-cases (id == invalid_agent_id)) [
    | inl hit ↦ absurd (
        none≢some (
          sym no_zero
          ∙ subst (λ i. lookup i s.nodes ≡ some n) ((==_iff id invalid_agent_id).0 hit) e))
    | inr miss ↦ miss
  ]

  Leads-skip :
      (id : ℕ) (ids : List ℕ) (k : Node) (b : Best)
      → lookup id s.nodes ≡ some k
      → fits m k s ≡ false
      → Leads m now s (id ∷ ids) b
      → Leads m now s ids b
  Leads-skip id ids k b e no_fit l = record {
    wins = λ j n listed found fit. elim (l.wins j n listed found fit) [
      | inl waits ↦ elim (Bool-cases (id == j)) [
        | inl hit ↦
            let same : n ≡ k =
              some-inj
                (sym found ∙ subst (λ i. lookup i s.nodes ≡ some k) ((==_iff id j).0 hit) e) in
            absurd (false≢true (sym no_fit ∙ subst (λ x. fits m x s ≡ true) same fit))
        | inr miss ↦ inl (ground (arith, waits))
      ]
      | inr won ↦ inr won
    ];
    real = l.real;
  }

  Leads-better :
      (id : ℕ) (ids : List ℕ) (k : Node) (b : Best)
      → lookup id s.nodes ≡ some k
      → member id s.ready_set ≡ true
      → fits m k s ≡ true
      → Leads m now s (id ∷ ids) b
      → Leads m now s ids (better now id k b)
  Leads-better id ids k b e listed fit l = record {
    wins = λ j n listed_j found fit_j. elim (Bool-cases (id == j)) [
      | inl hit ↦
          let same : n ≡ k =
            some-inj (sym found ∙ subst (λ i. lookup i s.nodes ≡ some k) ((==_iff id j).0 hit) e) in
          inr (rw same (better-Wins_self now id k b (nonzero id k e)))
      | inr miss ↦ elim (l.wins j n listed_j found fit_j) [
        | inl waits ↦ inl (ground (arith, waits))
        | inr won ↦ inr (better-Wins now id k b (score now n) (nonzero id k e) won)
      ]
    ];
    real =
        better_cases
          (λ c.
            (c.selected == invalid_agent_id) ≡ false
            → (n : Node) × (lookup c.selected s.nodes ≡ some n)
              × (fits m n s ≡ true)
              × (c.best_score ≡ score now n)
              × (member c.selected s.ready_set ≡ true))
          now id k b (λ _ _. (k, e, fit, refl, listed)) (λ _. l.real);
  }

  consider_all-Leads :
      (ids : List ℕ) (t : Scheduler) (b : Best) (u : Scheduler) (c : Best)
      → consider_all m now ids t b ≡ some (u, c)
      → ((j : ℕ) → member j ids ≡ true → member j s.ready_set ≡ true)
      → Alike s t
      → Leads m now s ids b
      → Alike s u × Leads m now s [] c
  unfolding consider_all
  consider_all-Leads [] t b u c e sub a l =
      let p : (t, b) ≡ (u, c) = some-inj e in
      (subst (λ r. Alike s r.0) p a, subst (λ r. Leads m now s [] r.1) p l)
  consider_all-Leads (id ∷ ids) t b u c e sub a l =
      let (n, found, e') = >>=-eq-some (lookup id t.nodes) _ e in
      let (k, at, alike) = a.there id n found in
      let listed = sub id (rw ==_refl refl) in
      consider_all-Leads ids (update id (considered (fits m n t)) t)
        (if fits m n t then better now id n b else b) u c e' (λ j h. sub j (ground (arith, h)))
        (Alike-update s t id (fits m n t) n found a)
        (elim (Bool-cases (fits m n t)) [
          | inl fit ↦ rw fit (
              subst (Leads m now s ids) (better-essence now id k n b (sym alike))
                (Leads-better id ids k b at listed (sym (fits-essence m s t n k a alike) ∙ fit) l))
          | inr no_fit ↦
              rw no_fit (Leads-skip id ids k b at (sym (fits-essence m s t n k a alike) ∙ no_fit) l)
        ])

-- What dispatch_locked answers on the scheduler `s`: an agent of the ready set that fits and whose
-- score no other agent of the ready set that fits exceeds, or none where none fits.
abbrev pub IsBest : MemorySnapshot → ℕ → Scheduler → Option ℕ → Type 0
IsBest m now s none =
    (j : ℕ) (n : Node)
    → member j s.ready_set ≡ true
    → lookup j s.nodes ≡ some n
    → fits m n s ≡ false
IsBest m now s (some id) =
    (k : Node) × (lookup id s.nodes ≡ some k)
    × (member id s.ready_set ≡ true)
    × (fits m k s ≡ true)
    × ((j : ℕ) (n : Node)
        → member j s.ready_set ≡ true
        → lookup j s.nodes ≡ some n
        → fits m n s ≡ true
        → ltb_ℤ (score now k) (score now n) ≡ false)

-- The invariant at the end of the loop, read as the answer.
Leads-IsBest :
    (m : MemorySnapshot) (now : ℕ) (s t u : Scheduler) (b : Best) (r : Option ℕ)
    → Leads m now s [] b
    → take_selected (t, b) ≡ some (u, r)
    → IsBest m now s r
unfolding take_selected
Leads-IsBest m now s t u b r l e = elim (Bool-cases (b.selected == invalid_agent_id)) [
  | inl unset ↦
      subst (IsBest m now s) (ap (λ p. p.1) (some-inj (rw unset at e))) (λ j n listed found.
        elim (Bool-cases (fits m n s)) [
          | inl fit ↦ elim (l.wins j n listed found fit) [
            | inl waits ↦ absurd (cc)
            | inr won ↦ absurd (false≢true (sym won.0 ∙ unset))
          ]
          | inr no_fit ↦ no_fit
        ])
  | inr set ↦
      let (n, found, e') = >>=-eq-some (lookup b.selected t.nodes) _ (rw set at e) in
      let (k, at, fit, points, listed) = l.real set in
      subst (IsBest m now s) (ap (λ p. p.1) (some-inj e')) (
        k,
        at,
        listed,
        fit,
        λ j x listed_j found_j fit_j. elim (l.wins j x listed_j found_j fit_j) [
          | inl waits ↦ absurd (cc)
          | inr won ↦ rw points at won.1
        ],
      )
]

-- On a scheduler that stores no agent under the reserved id, dispatch_locked selects an agent of
-- the ready set whose request fits and whose score is greatest among those; it selects none
-- exactly where no agent of the ready set fits.
pub dispatch_locked-IsBest :
    (m : MemorySnapshot) (now : ℕ) (s t : Scheduler) (r : Option ℕ)
    → NoInvalidId s
    → dispatch_locked m now s ≡ some (t, r)
    → IsBest m now s r
unfolding dispatch_locked
dispatch_locked-IsBest m now s t r nz e =
    let (p, e1, e2) = >>=-eq-some (consider_all m now s.ready_set s no_best) take_selected e in
    let (a, l) =
      consider_all-Leads m now s nz s.ready_set s no_best p.0 p.1 e1 (λ j h. h)
        (record { cpu = refl; memory = refl; there = λ j n found. (n, found, refl) })
        (record { wins = λ j n listed found fit. inl listed; real = λ set. absurd (cc) }) in
    Leads-IsBest m now s p.0 t p.1 r l e2
