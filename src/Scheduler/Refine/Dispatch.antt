-- ===== src/Scheduler/Refine/Dispatch.antt =====
-- dispatch_locked as changes.
use agent_nucleus.Prelude.{
  ℕ, ◌<◌, ◌≡◌, refl, sym, ◌∙◌, ap, subst, some-inj, Bool, true, false, not, ◌||◌, Option, none,
  some, List, [], ◌∷◌, arith, member, ◌==◌, ==_refl, if◌then◌else◌, ltb, ◌⊎◌, inl, inr,
  Option-cases, Bool-cases, >>=-eq-some, ◌>>=◌, u64_mod,
}
use agent_nucleus.Table.{lookup, lookup-adjust}
use agent_nucleus.Types.{AgentState, waiting_resource, state_eq, invalid_agent_id}
use agent_nucleus.Scheduler.State.{Node, Scheduler, update}
use agent_nucleus.Scheduler.Dispatch.{
  MemorySnapshot, Best, no_best, fits, score, better, considered, consider_all, take_selected,
  dispatch_locked,
}
use agent_nucleus.Scheduler.Changes.{
  Keeps, Change, quiet, requeue, reserve, Changes, here, one, Changes-trans,
}

-- The choice so far is none, or a node that fits.
abbrev pub Chosen : MemorySnapshot → Scheduler → Best → Type 0
Chosen m s b =
    (b.selected ≡ invalid_agent_id)
    ⊎ ((n : Node) × (lookup b.selected s.nodes ≡ some n) × (fits m n s ≡ true))

considered-Keeps : (enough : Bool) (n : Node) → Keeps n (considered enough n)
unfolding considered
considered-Keeps enough n = ground arith

state_eq-waiting : (a : AgentState) → state_eq a waiting_resource ≡ true → a ≡ waiting_resource
state_eq-waiting waiting_resource e = refl
state_eq-waiting _ e = cc

considered-Change :
    (enough : Bool) (id : ℕ) (n : Node) (s : Scheduler)
    → lookup id s.nodes ≡ some n
    → member id s.ready_set ≡ true
    → Change s (update id (considered enough) s)
unfolding considered
considered-Change false id n s e listed =
    requeue id (considered false) n e (considered-Keeps false n) listed refl
considered-Change true id n s e listed =
    elim (Bool-cases (state_eq n.snapshot.state waiting_resource)) [
      | inl waits ↦
          requeue id (considered true) n e (considered-Keeps true n) listed
            (rw (waits, considered) refl)
      | inr other ↦
          quiet id (considered true) n e (considered-Keeps true n) (rw (other, considered) refl)
    ]

fits-considered :
    (m : MemorySnapshot) (enough : Bool) (id : ℕ) (n : Node) (s : Scheduler)
    → fits m (considered enough n) (update id (considered enough) s) ≡ fits m n s
unfolding considered
fits-considered m true id n s = elim (Bool-cases (state_eq n.snapshot.state waiting_resource)) [
  | inl waits ↦ rw (waits, considered) refl
  | inr other ↦ rw (other, considered) refl
]
fits-considered m false id n s = refl

-- What was chosen stays a node that fits when another, or the same, node is looked at.
Chosen-update :
    (m : MemorySnapshot) (enough : Bool) (id : ℕ) (s : Scheduler) (b : Best)
    → Chosen m s b
    → Chosen m (update id (considered enough) s) b
Chosen-update m enough id s b (inl e) = inl e
Chosen-update m enough id s b (inr (n, found, fit)) = elim (Bool-cases (id == b.selected)) [
  | inl hit ↦ inr (
    considered enough n,
    rw (lookup-adjust b.selected id (considered enough) s.nodes, hit, found) refl,
    fits-considered m enough id n s ∙ fit,
  )
  | inr miss ↦
      inr (n, rw (lookup-adjust b.selected id (considered enough) s.nodes, miss) found, fit)
]

Chosen-better :
    (m : MemorySnapshot) (now id : ℕ) (n : Node) (s : Scheduler) (b : Best)
    → lookup id s.nodes ≡ some n
    → fits m n s ≡ true
    → Chosen m s b
    → Chosen m s (better now id n b)
unfolding better
Chosen-better m now id n s b e fit c =
    elim (Bool-cases (
      b.selected == invalid_agent_id
      || agent_nucleus.Prelude.Int.ltb_ℤ b.best_score (score now n))) [
        | inl wins ↦ rw (wins, better) (inr (n, e, fit))
        | inr loses ↦ rw (loses, better) c
      ]

-- The choice after one round of the loop.
abbrev pub chosen_next : MemorySnapshot → ℕ → ℕ → Node → Scheduler → Best → Best
chosen_next m now id n s b = if fits m n s then better now id n b else b

Chosen-next :
    (m : MemorySnapshot) (now id : ℕ) (n : Node) (s : Scheduler) (b : Best)
    → lookup id s.nodes ≡ some n
    → Chosen m s b
    → Chosen m (update id (considered (fits m n s)) s) (chosen_next m now id n s b)
Chosen-next m now id n s b e c =
    Chosen-update m (fits m n s) id s (chosen_next m now id n s b) (elim (Bool-cases (fits m n s)) [
      | inl fit ↦ rw fit (Chosen-better m now id n s b e fit c)
      | inr no_fit ↦ rw no_fit c
    ])

pub consider_all-Changes :
    (m : MemorySnapshot) (now : ℕ) (ids : List ℕ) (s : Scheduler) (b : Best) (t : Scheduler)
    (c : Best)
    → consider_all m now ids s b ≡ some (t, c)
    → ((j : ℕ) → member j ids ≡ true → member j s.ready_set ≡ true)
    → Chosen m s b
    → Changes s t × Chosen m t c
unfolding consider_all
consider_all-Changes m now [] s b t c e sub chosen =
    let p : (s, b) ≡ (t, c) = some-inj e in
    (subst (Changes s) (ap (λ r. r.0) p) here, subst (λ r. Chosen m r.0 r.1) p chosen)
consider_all-Changes m now (id ∷ ids) s b t c e sub chosen =
    let (n, found, e') = >>=-eq-some (lookup id s.nodes) _ e in
    let listed = sub id (rw ==_refl refl) in
    let (rest, good) =
      consider_all-Changes m now ids (update id (considered (fits m n s)) s)
        (chosen_next m now id n s b) t c e' (λ j h. sub j (ground (arith, h)))
        (Chosen-next m now id n s b found chosen) in
    (Changes-trans (one (considered-Change (fits m n s) id n s found listed)) rest, good)

take_selected-Changes :
    (m : MemorySnapshot) (s t : Scheduler) (b : Best) (r : Option ℕ)
    → m.available_cpu_threads < u64_mod
    → m.available_bytes < u64_mod
    → Chosen m s b
    → take_selected (s, b) ≡ some (t, r)
    → Changes s t
unfolding take_selected
take_selected-Changes m s t b r hc hm chosen e =
    elim (Bool-cases (b.selected == invalid_agent_id)) [
      | inl none_fits ↦ subst (Changes s) (ap (λ p. p.0) (some-inj (rw none_fits at e))) here
      | inr found ↦
          let (n, at, e') = >>=-eq-some (lookup b.selected s.nodes) _ (rw found at e) in
          elim chosen [
            | inl zero_id ↦ absurd (ground arith)
            | inr (k, at_k, fit) ↦
                let same : k ≡ n = some-inj (sym at_k ∙ at) in
                subst (Changes s) (ap (λ p. p.0) (some-inj e'))
                  (one (reserve b.selected n m at hc hm (subst (λ x. fits m x s ≡ true) same fit)))
          ]
    ]

pub dispatch_locked-Changes :
    (m : MemorySnapshot) (now : ℕ) (s t : Scheduler) (r : Option ℕ)
    → m.available_cpu_threads < u64_mod
    → m.available_bytes < u64_mod
    → dispatch_locked m now s ≡ some (t, r)
    → Changes s t
unfolding dispatch_locked
dispatch_locked-Changes m now s t r hc hm e =
    let (p, e1, e2) = >>=-eq-some (consider_all m now s.ready_set s no_best) take_selected e in
    let (c, chosen) =
      consider_all-Changes m now s.ready_set s no_best p.0 p.1 e1 (λ j h. h) (inl refl) in
    Changes-trans c (take_selected-Changes m p.0 t p.1 r hc hm chosen e2)
