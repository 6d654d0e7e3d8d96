-- ===== src/Resources/Accounts.antt =====
-- What the loop of resource_allocate of agent_runtime_top/src/resource.c leaves.
use agent_nucleus.Prelude.{
  ℕ, ◌+◌, ◌-◌, ◌%◌, ◌≤◌, ◌<◌, ◌≡◌, ◌≢◌, refl, sym, ◌∙◌, ap, subst, true, false, not, if◌then◌else◌,
  Option, none, some, none≢some, List, [], ◌∷◌, ◌==◌, inl, inr, ◌⊎◌, Bool-cases, All, member, arith,
  u64_mod,
}
use mathlib.Core.Path.{ap₂}
use agent_nucleus.Arrays.{set}
use agent_nucleus.Slots.{find_slot, moved_on, moved_on-none}
use agent_nucleus.Resources.State.{
  Resource, ResourceDesc, ResourceOps, ResourceRequest, ResourceHandle, ResourceState, idle, busy,
  error, offline, names, is_idle, may_serve, run_allocate, run_release, give_back, later,
  allocate_from,
}

-- What resource_allocate writes to the descriptor after the callback.
abbrev pub charge : ResourceDesc → ℕ → ResourceDesc
charge d size = record d { used = (d.used + size) % u64_mod; state = busy }

-- The callbacks of a resource may write to its descriptor. The allocate callback does not change the
-- id, and the release callback gives back what an allocate callback that succeeded has taken, with
-- what resource_allocate itself has written in place.
pub record IsPaired (ops : Option ResourceOps) : Type 0 where
  pub same_id :
      (d : ResourceDesc) (size : ℕ)
      → (run_allocate (record { desc = d; ops = ops }) size).1.id ≡ d.id
  pub undone :
      (d : ResourceDesc) (size : ℕ)
      → size < u64_mod
      → (run_allocate (record { desc = d; ops = ops }) size).0 ≡ true
      → run_release
          (record {
            desc = charge (run_allocate (record { desc = d; ops = ops }) size).1 size;
            ops = ops;
          })
          size
        ≡ charge d size

-- The resources as a request leaves them that no allocate callback accepts, or before the first
-- that accepts it: each that was asked and refused has the descriptor that its callback left.
abbrev pub tried : ResourceRequest → List Resource → List Resource
tried q [] = []
tried q (r ∷ resources) =
    let rest = tried q resources in
    if not (may_serve q r)
    then r ∷ rest
    else if (run_allocate r q.size).0
    then r ∷ resources
    else record r { desc = (run_allocate r q.size).1 } ∷ rest

-- A resource in use by at most its capacity, and not at all where it is idle.
pub record IsOrderly (r : Resource) : Type 0 where
  pub within : r.desc.used ≤ r.desc.capacity
  pub fits : r.desc.capacity < u64_mod
  pub rested : is_idle r.desc.state ≡ true → r.desc.used ≡ 0
  pub paired : IsPaired r.ops

abbrev pub ids : List Resource → List ℕ
ids [] = []
ids (r ∷ resources) = r.desc.id ∷ ids resources

-- No two resources have the same id.
abbrev pub IsApart : List Resource → Type 0
IsApart [] = Unit {0}
IsApart (r ∷ resources) =
    ((r.desc.id ≡ 0) ⊎ (member r.desc.id (ids resources) ≡ false)) × IsApart resources

-- The slots after resource_release of a handle that finds its resource.
abbrev pub put_back : ResourceHandle → List Resource → Option (ℕ × Resource) → List Resource
put_back h resources none = resources
put_back h resources (some (i, r)) =
    set resources i
      (record r { desc = give_back (run_release r h.allocated_size) h.allocated_size })

abbrev pub found : ResourceHandle → List Resource → Option (ℕ × Resource)
found h resources = find_slot (names h.id) resources

-- What the loop of resource_allocate answers, against the slots before it.
abbrev pub Returned :
    ResourceRequest → List Resource → Option ResourceHandle × List Resource → Type 0
Returned q before (none, after) = after ≡ tried q before
Returned q before (some h, after) =
    ((h.id ≢ 0) × (member h.id (ids before) ≡ true))
    × ((found h after ≢ none) × (put_back h after (found h after) ≡ tried q before))

found-later :
    (h : ResourceHandle) (r : Resource) (after : List Resource)
    → names h.id r ≡ false
    → found h (r ∷ after) ≡ moved_on (found h after)
unfolding find_slot
found-later h r after other = rw other refl

put_back-later :
    (h : ResourceHandle) (r : Resource) (after : List Resource) (o : Option (ℕ × Resource))
    → put_back h (r ∷ after) (moved_on o) ≡ r ∷ put_back h after o
put_back-later h r after none = refl
put_back-later h r after (some (i, r')) = refl

another :
    (h : ResourceHandle) (r : Resource) (before : List Resource)
    → ((r.desc.id ≡ 0) ⊎ (member r.desc.id (ids before) ≡ false))
    → h.id ≢ 0
    → member h.id (ids before) ≡ true
    → names h.id r ≡ false
another h r before (inl free) some_id known = ground arith
another h r before (inr apart) some_id known = elim (Bool-cases (r.desc.id == h.id)) [
  | inl same ↦
      let equal : r.desc.id ≡ h.id = ground arith in
      let both : true ≡ false = sym known ∙ ap (λ k. member k (ids before)) (sym equal) ∙ apart in
      absurd (ground arith)
  | inr other ↦ other
]

-- A resource that does not serve the request, `r'` being what is left of it.
Returned-later :
    (q : ResourceRequest) (r r' : Resource) (before : List Resource)
    (x : Option ResourceHandle × List Resource)
    → ((r.desc.id ≡ 0) ⊎ (member r.desc.id (ids before) ≡ false))
    → r'.desc.id ≡ r.desc.id
    → tried q (r ∷ before) ≡ r' ∷ tried q before
    → Returned q before x
    → Returned q (r ∷ before) (later r' x)
Returned-later q r r' before (none, after) apart same_id left same =
    ap (λ l. r' ∷ l) same ∙ sym left
Returned-later q r r' before (some h, after) apart same_id left ((some_id, known), (there, back)) =
    let other : names h.id r' ≡ false =
      ap (λ i. i == h.id) same_id ∙ another h r before apart some_id known in
    let e = found-later h r' after other in
    (
      (some_id, ground arith),
      (
        (λ nowhere. there (moved_on-none (found h after) (sym e ∙ nowhere))),
        ap (put_back h (r' ∷ after)) e
            ∙ put_back-later h r' after (found h after)
            ∙ ap (λ l. r' ∷ l) back
            ∙ sym left,
      ),
    )

idle-eq : (s : ResourceState) → is_idle s ≡ true → idle ≡ s
idle-eq idle e = refl
idle-eq busy e = absurd (ground arith)
idle-eq error e = absurd (ground arith)
idle-eq offline e = absurd (ground arith)

give_back-taken :
    (d : ResourceDesc) (size : ℕ)
    → d.used ≡ 0
    → is_idle d.state ≡ true
    → size < u64_mod
    → give_back (charge d size) size ≡ d
give_back-taken d size unused rested fits =
    let left : ((d.used + size) % u64_mod + u64_mod - size) % u64_mod ≡ 0 = omega arith in
    let none_left : (((d.used + size) % u64_mod + u64_mod - size) % u64_mod == 0) ≡ true =
      ground arith in
    let given : give_back (charge d size) size
        ≡ record d { used = ((d.used + size) % u64_mod + u64_mod - size) % u64_mod; state = idle } =
      rw none_left refl in
    given
    ∙ ap₂ (λ u s. record d { used = u; state = s }) (left ∙ sym unused) (idle-eq d.state rested)

found-here :
    (h : ResourceHandle) (r : Resource) (after : List Resource)
    → h.id ≡ r.desc.id
    → found h (r ∷ after) ≡ some (0, r)
unfolding find_slot
found-here h r after same = let here : names h.id r ≡ true = ground arith in rw here refl

Returned-served :
    (q : ResourceRequest) (i : ℕ) (r : Resource) (resources : List Resource)
    → IsOrderly r
    → may_serve q r ≡ true
    → (run_allocate r q.size).0 ≡ true
    → Returned q (r ∷ resources) (
      some (record { id = (run_allocate r q.size).1.id; slot = i; allocated_size = q.size }),
      record r { desc = charge (run_allocate r q.size).1 q.size } ∷ resources,
    )
Returned-served q i r resources o serves accepts =
    let within = o.within in
    let fits = o.fits in
    let rested : is_idle r.desc.state ≡ true = ground arith in
    let unused = o.rested rested in
    let room : q.size ≤ (r.desc.capacity + u64_mod - r.desc.used) % u64_mod = ground arith in
    let small : q.size < u64_mod = omega arith in
    let d = (run_allocate r q.size).1 in
    let same_id : d.id ≡ r.desc.id = o.paired.same_id r.desc q.size in
    let some_id : d.id ≢ 0 = ground arith in
    let h : ResourceHandle = record { id = d.id; slot = i; allocated_size = q.size } in
    let r' = record r { desc = charge d q.size } in
    let e = found-here h r' resources refl in
    let left : tried q (r ∷ resources) ≡ r ∷ resources = rw (serves, accepts) refl in
    (
      (some_id, ground arith),
      (
        (λ nowhere. absurd (none≢some (sym nowhere ∙ e))),
        ap (put_back h (r' ∷ resources)) e
            ∙ ap (λ x. record r { desc = x } ∷ resources)
                (ap (λ x. give_back x q.size) (o.paired.undone r.desc q.size small accepts)
                  ∙ give_back-taken r.desc q.size unused rested small)
            ∙ sym left,
      ),
    )

pub allocate_from-Returned :
    (q : ResourceRequest) (i : ℕ) (resources : List Resource)
    → All IsOrderly resources
    → IsApart resources
    → Returned q resources (allocate_from q i resources)
unfolding allocate_from
allocate_from-Returned q i [] orderly apart = refl
allocate_from-Returned q i (r ∷ resources) (o, orderly) (alone, apart) =
    let rest = allocate_from-Returned q (i + 1) resources orderly apart in
    let tail = allocate_from q (i + 1) resources in
    elim (Bool-cases (may_serve q r)) [
      | inr other ↦
          let left : tried q (r ∷ resources) ≡ r ∷ tried q resources = rw other refl in
          let is : allocate_from q i (r ∷ resources) ≡ later r tail = rw other refl in
          subst (Returned q (r ∷ resources)) (sym is)
            (Returned-later q r r resources tail alone refl left rest)
      | inl serves ↦ elim (Bool-cases (run_allocate r q.size).0) [
        | inl accepts ↦
            let answer : Option ResourceHandle × List Resource = (
              some
                  (record { id = (run_allocate r q.size).1.id; slot = i; allocated_size = q.size }),
              record r { desc = charge (run_allocate r q.size).1 q.size } ∷ resources,
            ) in
            let is : allocate_from q i (r ∷ resources) ≡ answer = rw (serves, accepts) refl in
            subst (Returned q (r ∷ resources)) (sym is)
              (Returned-served q i r resources o serves accepts)
        | inr refuses ↦
            let r' = record r { desc = (run_allocate r q.size).1 } in
            let left : tried q (r ∷ resources) ≡ r' ∷ tried q resources =
              rw (serves, refuses) refl in
            let is : allocate_from q i (r ∷ resources) ≡ later r' tail =
              rw (serves, refuses) refl in
            subst (Returned q (r ∷ resources)) (sym is) (
              Returned-later q r r' resources tail alone (o.paired.same_id r.desc q.size) left rest)
      ]
    ]
