-- ===== src/Contexts/Releases.antt =====
-- What finish and release of agent_runtime_top/src/context_manager.cpp keep.
use agent_nucleus.Prelude.{
  ℕ, ◌+◌, ◌<◌, ◌≤◌, ◌≡◌, refl, sym, subst, Bool, true, false, not, ◌&&◌, none, some, List, [], ◌∷◌,
  length, is_empty, member, remove, total, arith, if◌then◌else◌, u64_mod, ◌==◌, Bool-cases,
  Option-cases, inl, inr,
}
use agent_nucleus.Prelude.Int.{ℤ}
use agent_nucleus.Table.{lookup, adjust}
use agent_nucleus.Contexts.State.{
  Entry, ContextManager, Answer, refused, does_not_exist, is_not_owner, is_not_pinned, is_busy,
  decrement,
}
use agent_nucleus.Contexts.Release.{unpin, finish, Released, owner_to_release, drop_owner, release}
use agent_nucleus.Contexts.Keyed.{lookup-IsEntry}
use agent_nucleus.Contexts.Held.{Holds, Holds-written, Holds-erased}
use agent_nucleus.Contexts.Swaps.{Holds-Room, decrement-small}

pub finish-Holds : (k now : ℕ) (m : ContextManager) → Holds [] m → Holds [] (finish k now m).0
unfolding finish
finish-Holds k now m h = elim (Option-cases (lookup k m.contexts)) [
  | inl nothing ↦
      let is : finish k now m ≡ (m, some does_not_exist) = rw (nothing, finish) refl in
      subst (λ r. Holds [] r.0) (sym is) h
  | inr (e, found) ↦ elim (Bool-cases (e.pin_count == 0)) [
    | inl free ↦
        let is : finish k now m ≡ (m, some is_not_pinned) = rw (found, finish, free) refl in
        subst (λ r. Holds [] r.0) (sym is) h
    | inr leased ↦
        let is : finish k now m ≡ (record m { contexts = adjust k (unpin now) m.contexts }, none) =
          rw (found, finish, leased) refl in
        let own = lookup-IsEntry m.next_context_id k m.contexts e h.keyed found in
        subst (λ r. Holds [] r.0) (sym is)
          (Holds-written [] m k e h found (unpin now) _ _ _ (λ x. refl) (ground (arith, own.sound))
            (record { same_active = refl; moved = refl; moved_out = refl }) (λ w. refl))
  ]
]

-- The counters after the last owner is dropped, one of the first two by the residence.
last_in :
    (b : Bool) (a : ℕ)
    → (if b then 1 else 0) ≤ a
    → a < u64_mod
    → (if b then decrement a else a) + (if b then 1 else 0) ≡ a
last_in true a le lt = decrement-small a le lt
last_in false a le lt = omega arith

last_out :
    (b : Bool) (a : ℕ)
    → (if b then 0 else 1) ≤ a
    → a < u64_mod
    → (if b then a else decrement a) + (if b then 0 else 1) ≡ a
last_out true a le lt = omega arith
last_out false a le lt = decrement-small a le lt

given_back :
    (b : Bool) (w : ℤ → ℕ) (s : ℤ) (free : List ℤ)
    → total w (if b then s ∷ free else free) ≡ total w free + (if b then w s else 0)
given_back true w s free = omega arith
given_back false w s free = omega arith

drop_owner-Holds :
    (owner k now : ℕ) (e : Entry) (m : ContextManager)
    → Holds [] m
    → lookup k m.contexts ≡ some e
    → Holds [] (drop_owner owner k now e m).0
unfolding drop_owner
drop_owner-Holds owner k now e m h found =
    let left = remove owner e.owners in
    let own = lookup-IsEntry m.next_context_id k m.contexts e h.keyed found in
    let room = Holds-Room [] m k e h found in
    elim (Bool-cases (is_empty left)) [
      | inr some_left ↦ rw some_left (
          Holds-written [] m k e h found
            (λ (x : Entry). record x { owners = left; last_access = now }) _ _ _ (λ x. refl)
            (ground (arith, own.sound, some_left))
            (record { same_active = refl; moved = refl; moved_out = refl }) (λ w. refl))
      | inl last ↦ rw last (
          Holds-erased [] m k e h found _ _
            (decrement-small m.stats.active_contexts room.not_empty (omega (arith, room.in_room)))
            (last_in e.resident m.stats.resident_contexts room.in_le
              (omega (arith, room.together, room.in_room)))
            (last_out e.resident m.stats.swapped_contexts room.out_le
              (omega (arith, room.together, room.in_room)))
            (λ w. given_back e.resident w e.sequence_id m.free_sequences))
    ]

pub release-Holds :
    (agent_id parent_id k now : ℕ) (m : ContextManager)
    → Holds [] m
    → Holds [] (release agent_id parent_id k now m).0
unfolding release
release-Holds agent_id parent_id k now m h = elim (Option-cases (lookup k m.contexts)) [
  | inl nothing ↦
      let is : release agent_id parent_id k now m ≡ (m, refused does_not_exist) =
        rw (nothing, release) refl in
      subst (λ r. Holds [] r.0) (sym is) h
  | inr (e, found) ↦
      let owner = owner_to_release e agent_id parent_id in
      let dropped = drop_owner owner k now e m in
      let busy = length e.owners == 1 && not (e.pin_count == 0) in
      let last : ContextManager × Answer Released =
        if busy then (m, refused is_busy) else dropped in
      let is : release agent_id parent_id k now m
          ≡ (if not (member owner e.owners) then (m, refused is_not_owner) else last) =
        rw (found, release) refl in
      subst (λ r. Holds [] r.0) (sym is)
        (elim (Bool-cases (member owner e.owners)) [
          | inr other ↦ rw other h
          | inl owns ↦ elim (Bool-cases busy) [
            | inl is_leased ↦ rw (owns, is_leased) h
            | inr free ↦ rw (owns, free) (drop_owner-Holds owner k now e m h found)
          ]
        ])
]
