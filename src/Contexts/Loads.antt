-- ===== src/Contexts/Loads.antt =====
-- What make_resident_locked of agent_runtime_top/src/context_manager.cpp keeps.
use agent_nucleus.Prelude.{
  ℕ, ◌≡◌, refl, sym, ap, ◌∙◌, subst, Bool, false, some, [], ◌∷◌, arith, Bool-cases, Option-cases,
  inl, inr,
}
use agent_nucleus.Prelude.Int.{ℤ}
use agent_nucleus.Table.{lookup, lookup-adjust_self}
use agent_nucleus.Contexts.State.{
  Entry, ContextManager, ContextSwapCallbacks, Answer, answered, refused, is_swapped_out,
}
use agent_nucleus.Contexts.Residency.{
  swap_in, obtain_sequence_locked, restore, make_resident_locked,
}
use agent_nucleus.Contexts.Keyed.{lookup-IsEntry}
use agent_nucleus.Contexts.Held.{is_in, is_out, held, Holds, Holds-written, Holds-moved}
use agent_nucleus.Contexts.Swaps.{
  increment-small, decrement-small, Holds-Room, IsObtained, obtain_sequence_locked-IsObtained,
}

-- What make_resident_locked leaves: the context has the sequence that it answers, and is otherwise
-- as it was.
abbrev pub IsResident : Entry → ContextManager × Answer ℤ → Type 0
IsResident e (n, refused error) = Holds [] n
IsResident e (n, answered sequence) =
    Holds [] n × (lookup e.id n.contexts ≡ some (swap_in sequence e))

restore-IsResident :
    (e : Entry) (load : ℕ → ℤ → Bool) (m : ContextManager) (r : ContextManager × Answer ℤ)
    → Holds [] m
    → lookup e.id m.contexts ≡ some e
    → e.resident ≡ false
    → IsObtained e.id m r
    → IsResident e (restore e.id load r)
unfolding restore
restore-IsResident e load m (n, refused error) h found outside same = subst (Holds []) (sym same) h
restore-IsResident e load m (n, answered sequence) h found outside (g, keeps) =
    let there = keeps.same_entry ∙ found in
    let own = lookup-IsEntry n.next_context_id e.id n.contexts e g.keyed there in
    let room = Holds-Room (sequence ∷ []) n e.id e g there in
    let none_in : is_in e ≡ 0 = rw outside in
    let one_out : is_out e ≡ 1 = rw outside in
    let nothing : (w : ℤ → ℕ) → held w e ≡ 0 = λ w. rw outside in
    let more =
      increment-small n.stats.resident_contexts
        (omega (arith, one_out, room.out_le, room.together, room.in_room)) in
    let less =
      decrement-small n.stats.swapped_contexts (omega (arith, one_out, room.out_le))
        (omega (arith, room.together, room.in_room)) in
    elim (Bool-cases (load e.id sequence)) [
      | inl loaded ↦ rw loaded (
        Holds-written (sequence ∷ []) n e.id e g there (swap_in sequence) _ _ _ (λ x. refl)
            (ground (arith, own.sound))
            (record {
              same_active = refl;
              moved = omega (arith, more, none_in);
              moved_out = omega (arith, less, one_out);
            })
            (λ w. omega (arith, nothing w)),
        lookup-adjust_self e.id (swap_in sequence) n.contexts there,
      )
      | inr failed ↦ rw failed (Holds-moved (sequence ∷ []) _ _ n g (λ w. omega arith))
    ]

pub make_resident_locked-IsResident :
    (e : Entry) (swap : ContextSwapCallbacks) (m : ContextManager)
    → Holds [] m
    → lookup e.id m.contexts ≡ some e
    → IsResident e (make_resident_locked e swap m)
unfolding make_resident_locked
make_resident_locked-IsResident e swap m h found = elim (Bool-cases e.resident) [
  | inl inside ↦
      let is : make_resident_locked e swap m ≡ (m, answered e.sequence_id) = simp inside in
      subst (IsResident e) (sym is) (h, found ∙ ap (λ b. some (record e { resident = b })) inside)
  | inr outside ↦ elim (Option-cases swap.load) [
    | inl nothing ↦
        let is : make_resident_locked e swap m ≡ (m, refused is_swapped_out) =
          simp (outside, nothing) in
        subst (IsResident e) (sym is) h
    | inr (load, given) ↦
        let is : make_resident_locked e swap m
            ≡ restore e.id load (obtain_sequence_locked e.id swap m) =
          simp (outside, given) in
        subst (IsResident e) (sym is) (
          restore-IsResident e load m (obtain_sequence_locked e.id swap m) h found outside
            (obtain_sequence_locked-IsObtained e.id swap m h))
  ]
]
