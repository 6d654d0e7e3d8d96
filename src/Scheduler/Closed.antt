-- ===== src/Scheduler/Closed.antt =====
-- The successors that agent-runtime/src/scheduler.cpp records are agents that it stores, so that
-- `nodes_.at` finds them.
use agent_nucleus.Prelude.{
  ℕ, ◌≡◌, refl, sym, ◌∙◌, subst, some-inj, true, none, some, List, [], ◌∷◌, ◌++◌, arith, All, ◌==◌,
  ==_iff, inl, inr, Bool-cases,
}
use agent_nucleus.Table.{
  Table, lookup, contains, adjust, emplace, lookup-adjust, lookup-adjust_self, lookup-emplace,
}
use agent_nucleus.Scheduler.State.{Node, Scheduler, clear_reserved, release_resources_locked}
use agent_nucleus.Scheduler.Dispatch.{mark_dispatched, reserve_selected}
use agent_nucleus.Scheduler.Submit.{add_successor}
use agent_nucleus.Scheduler.Changes.{
  Keeps, Change, quiet, add, connect, requeue, enter, leave, release, reserve, Changes,
  Changes-keep,
}

-- Every recorded successor is stored.
abbrev pub Closed : Table Node → Type 0
Closed t = (id : ℕ) (n : Node) → lookup id t ≡ some n → All (λ j. contains j t ≡ true) n.successors

pub All-map {ℓ κ μ} :
    {A : Type ℓ} {P : A → Type κ} {Q : A → Type μ} (xs : List A)
    → ((x : A) → P x → Q x)
    → All P xs
    → All Q xs
All-map [] f h = tt
All-map (x ∷ xs) f h = (f x h.0, All-map xs f h.1)

All-snoc {ℓ κ} :
    {A : Type ℓ} (P : A → Type κ) (xs : List A) (y : A) → All P xs → P y → All P (xs ++ y ∷ [])
All-snoc P [] y h p = (p, tt)
All-snoc P (x ∷ xs) y h p = (h.0, All-snoc P xs y h.1 p)

contains-adjust :
    (k : ℕ) (f : Node → Node) (t : Table Node) (j : ℕ)
    → contains j t ≡ true
    → contains j (adjust k f t) ≡ true
contains-adjust k f t j e = ground (arith, lookup-adjust j k f t)

contains-emplace :
    (k : ℕ) (v : Node) (t : Table Node) (j : ℕ)
    → contains j t ≡ true
    → contains j (emplace k v t) ≡ true
contains-emplace k v t j e = ground (arith, lookup-emplace j k v t)

pub adjust-Closed :
    (id : ℕ) (f : Node → Node) (n : Node) (t : Table Node)
    → lookup id t ≡ some n
    → All (λ j. contains j t ≡ true) (f n).successors
    → Closed t
    → Closed (adjust id f t)
adjust-Closed id f n t e stored c j k found = elim (Bool-cases (id == j)) [
  | inl hit ↦
      let same : f n ≡ k = some-inj (
        sym (lookup-adjust_self id f t e)
        ∙ subst (λ i. lookup i (adjust id f t) ≡ some k) (sym ((==_iff id j).0 hit)) found) in
      All-map k.successors (contains-adjust id f t)
        (subst (λ m. All (λ i. contains i t ≡ true) m.successors) same stored)
  | inr miss ↦
      All-map k.successors (contains-adjust id f t)
        (c j k (rw (lookup-adjust j id f t, miss) at found))
]

Keeps-Closed :
    (id : ℕ) (f : Node → Node) (n : Node) (t : Table Node)
    → lookup id t ≡ some n
    → Keeps n (f n)
    → Closed t
    → Closed (adjust id f t)
Keeps-Closed id f n t e k c =
    adjust-Closed id f n t e
      (subst (All (λ j. contains j t ≡ true)) (sym k.same_successors) (c id n e)) c

emplace-Closed :
    (id : ℕ) (n : Node) (t : Table Node)
    → lookup id t ≡ none
    → n.successors ≡ []
    → Closed t
    → Closed (emplace id n t)
emplace-Closed id n t absent alone c j k found = elim (Bool-cases (id == j)) [
  | inl hit ↦
      let missing : lookup j t ≡ none =
        subst (λ i. lookup i t ≡ none) ((==_iff id j).0 hit) absent in
      let same : n ≡ k = some-inj (sym (rw (lookup-emplace j id n t, missing, hit) refl) ∙ found) in
      subst (λ m. All (λ i. contains i (emplace id n t) ≡ true) m.successors) same
        (subst (All (λ i. contains i (emplace id n t) ≡ true)) (sym alone) tt)
  | inr miss ↦
      All-map k.successors (contains-emplace id n t)
        (c j k (ground (arith, lookup-emplace j id n t, found)))
]

pub Change-Closed : (s t : Scheduler) → Change s t → Closed s.nodes → Closed t.nodes
unfolding release_resources_locked reserve_selected
Change-Closed s _ (quiet id f n e k q) c = Keeps-Closed id f n s.nodes e k c
Change-Closed s _ (add id n nz e idle free alone) c = emplace-Closed id n s.nodes e alone c
Change-Closed s _ (connect id d n e there) c =
    adjust-Closed id (add_successor d) n s.nodes e
      (All-snoc (λ j. contains j s.nodes ≡ true) n.successors d (c id n e) there) c
Change-Closed s _ (requeue id f n e k i q) c = Keeps-Closed id f n s.nodes e k c
Change-Closed s _ (enter id f n e k q) c = Keeps-Closed id f n s.nodes e k c
Change-Closed s _ (leave id f n e k q) c = Keeps-Closed id f n s.nodes e k c
Change-Closed s _ (release id n m e k) c = elim (Bool-cases n.resources_reserved) [
  | inl held ↦
      rw (held, release_resources_locked) (adjust-Closed id clear_reserved m s.nodes e (c id m e) c)
  | inr free ↦ rw (free, release_resources_locked) c
]
Change-Closed s _ (reserve id n r e hc hm fit) c =
    adjust-Closed id mark_dispatched n s.nodes e (c id n e) c

pub Change-contains :
    (j : ℕ) (s t : Scheduler) → Change s t → contains j s.nodes ≡ true → contains j t.nodes ≡ true
unfolding release_resources_locked reserve_selected
Change-contains j s _ (quiet id f n e k q) c = contains-adjust id f s.nodes j c
Change-contains j s _ (add id n nz e idle free alone) c = contains-emplace id n s.nodes j c
Change-contains j s _ (connect id d n e there) c = contains-adjust id (add_successor d) s.nodes j c
Change-contains j s _ (requeue id f n e k i q) c = contains-adjust id f s.nodes j c
Change-contains j s _ (enter id f n e k q) c = contains-adjust id f s.nodes j c
Change-contains j s _ (leave id f n e k q) c = contains-adjust id f s.nodes j c
Change-contains j s _ (release id n m e k) c =
    ground (arith, contains-adjust id clear_reserved s.nodes j c)
Change-contains j s _ (reserve id n r e hc hm fit) c =
    contains-adjust id mark_dispatched s.nodes j c

pub Changes-Closed : {s t : Scheduler} → Changes s t → Closed s.nodes → Closed t.nodes
Changes-Closed c h = Changes-keep (λ s. Closed s.nodes) Change-Closed c h

pub Changes-contains :
    (j : ℕ) {s t : Scheduler} → Changes s t → contains j s.nodes ≡ true → contains j t.nodes ≡ true
Changes-contains j c h = Changes-keep (λ s. contains j s.nodes ≡ true) (Change-contains j) c h
