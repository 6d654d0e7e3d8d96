-- ===== src/Contexts/Swaps.antt =====
-- What obtain_sequence_locked and make_resident_locked of
-- agent_runtime_top/src/context_manager.cpp keep.
use agent_nucleus.Prelude.{
  ℕ, ◌+◌, ◌<◌, ◌≤◌, ◌≡◌, refl, sym, subst, Bool, true, false, Option, none, some, List, [], ◌∷◌,
  length, total, arith, u64_mod, ◌==◌, Bool-cases, Option-cases, inl, inr, none≢some,
}
use agent_nucleus.Prelude.Int.{ℤ}
use agent_nucleus.Table.{lookup, length-adjust, length-erase, weigh-le, lookup-adjust}
use agent_nucleus.Contexts.State.{
  Entry, ContextManager, ContextSwapCallbacks, Answer, answered, refused, increment, decrement,
  all_pinned, cannot_swap_out,
}
use agent_nucleus.Contexts.Residency.{
  is_kept, find_candidate, swap_out, evict, obtain_by_eviction, obtain_sequence_locked,
}
use agent_nucleus.Contexts.Eviction.{find_candidate-oldest}
use agent_nucleus.Contexts.Keyed.{lookup-IsEntry, find_candidate-lookup}
use agent_nucleus.Contexts.Held.{is_in, is_out, held, Holds, in-or-out, Holds-written, Holds-moved}

pub increment-small : (n : ℕ) → n + 1 < u64_mod → increment n ≡ n + 1
increment-small n h = omega arith

pub decrement-small : (n : ℕ) → 0 < n → n < u64_mod → decrement n + 1 ≡ n
decrement-small n p h = omega arith

-- The entry is found in a table whose counters have room.
pub record Room (m : ContextManager) (e : Entry) : Type 0 where
  pub in_le : is_in e ≤ m.stats.resident_contexts
  pub out_le : is_out e ≤ m.stats.swapped_contexts
  pub together : m.stats.resident_contexts + m.stats.swapped_contexts ≡ m.stats.active_contexts
  pub not_empty : 0 < m.stats.active_contexts
  pub in_room : m.stats.active_contexts + 1 < u64_mod

pub Holds-Room :
    (hand : List ℤ) (m : ContextManager) (k : ℕ) (e : Entry)
    → Holds hand m
    → lookup k m.contexts ≡ some e
    → Room m e
Holds-Room hand m k e h found = record {
  in_le = omega (arith, h.counts.resident, weigh-le is_in k m.contexts e found);
  out_le = omega (arith, h.counts.swapped, weigh-le is_out k m.contexts e found);
  together =
      omega (arith, h.counts.resident, h.counts.swapped, h.counts.active, in-or-out m.contexts);
  not_empty = omega (arith, h.counts.active, length-erase k m.contexts e found);
  in_room = omega (arith, h.counts.active, h.short, h.small);
}

-- Swapping a context out that may go, with its sequence in hand.
evict-Holds :
    (excluded : ℕ) (m : ContextManager) (e : Entry)
    → Holds [] m
    → lookup e.id m.contexts ≡ some e
    → is_kept excluded e ≡ false
    → Holds (e.sequence_id ∷ []) (evict e m)
unfolding evict
evict-Holds excluded m e h found free =
    let own = lookup-IsEntry m.next_context_id e.id m.contexts e h.keyed found in
    let room = Holds-Room [] m e.id e h found in
    let resident : e.resident ≡ true = ground arith in
    let one_in : is_in e ≡ 1 = rw resident in
    let none_out : is_out e ≡ 0 = rw resident in
    let less =
      decrement-small m.stats.resident_contexts (omega (arith, one_in, room.in_le))
        (omega (arith, room.together, room.in_room)) in
    let more =
      increment-small m.stats.swapped_contexts
        (omega (arith, one_in, room.in_le, room.together, room.in_room)) in
    Holds-written [] m e.id e h found swap_out _ _ _ (λ x. refl) (ground (arith, own.sound))
      (record {
        same_active = refl;
        moved = omega (arith, less, one_in);
        moved_out = omega (arith, more, none_out);
      })
      (λ w. let its : held w e ≡ w e.sequence_id = rw resident in omega (arith, its))

-- What a call that looks for a sequence keeps besides: the context `k` and the sizes.
pub record Keeps (k : ℕ) (m n : ContextManager) : Type 0 where
  pub same_entry : lookup k n.contexts ≡ lookup k m.contexts
  pub same_length : length n.contexts ≡ length m.contexts
  pub same_next : n.next_context_id ≡ m.next_context_id
  pub same_limit : n.max_logical_contexts ≡ m.max_logical_contexts

evict-Keeps :
    (excluded : ℕ) (m : ContextManager) (e : Entry)
    → is_kept excluded e ≡ false
    → Keeps excluded m (evict e m)
unfolding evict
evict-Keeps excluded m e free =
    let other : (e.id == excluded) ≡ false = ground arith in
    record {
      same_entry = rw (lookup-adjust excluded e.id swap_out m.contexts, other);
      same_length = length-adjust e.id swap_out m.contexts;
      same_next = refl;
      same_limit = refl;
    }

-- The manager a search for a sequence leaves, with the sequence in hand if it found one.
abbrev pub IsObtained : ℕ → ContextManager → ContextManager × Answer ℤ → Type 0
IsObtained k m (n, refused error) = n ≡ m
IsObtained k m (n, answered sequence) = Holds (sequence ∷ []) n × Keeps k m n

obtain_by_eviction-IsObtained :
    (excluded : ℕ) (save : Option (ℕ → ℤ → Bool)) (m : ContextManager)
    → Holds [] m
    → IsObtained excluded m (obtain_by_eviction excluded save m)
unfolding obtain_by_eviction
obtain_by_eviction-IsObtained excluded none m h = refl
obtain_by_eviction-IsObtained excluded (some save) m h =
    elim (Option-cases (find_candidate excluded m.contexts none)) [
      | inl nobody ↦
          let is : obtain_by_eviction excluded (some save) m ≡ (m, refused all_pinned) =
            rw (nobody, obtain_by_eviction) refl in
          subst (IsObtained excluded m) (sym is) refl
      | inr (e, chosen) ↦
          let (free, oldest) = find_candidate-oldest excluded m.contexts e chosen in
          elim (find_candidate-lookup m.next_context_id excluded m.contexts none e h.keyed chosen) [
            | inl found ↦ elim (Bool-cases (save e.id e.sequence_id)) [
              | inl saved ↦
                  let is : obtain_by_eviction excluded (some save) m
                      ≡ (evict e m, answered e.sequence_id) =
                    rw (chosen, obtain_by_eviction, saved) refl in
                  subst (IsObtained excluded m) (sym is)
                    (evict-Holds excluded m e h found free, evict-Keeps excluded m e free)
              | inr failed ↦
                  let is : obtain_by_eviction excluded (some save) m
                      ≡ (m, refused cannot_swap_out) =
                    rw (chosen, obtain_by_eviction, failed) refl in
                  subst (IsObtained excluded m) (sym is) refl
            ]
            | inr started ↦ absurd (none≢some started)
          ]
    ]

pub obtain_sequence_locked-IsObtained :
    (excluded : ℕ) (swap : ContextSwapCallbacks) (m : ContextManager)
    → Holds [] m
    → IsObtained excluded m (obtain_sequence_locked excluded swap m)
unfolding obtain_sequence_locked
obtain_sequence_locked-IsObtained excluded swap m h = by_vector m.free_sequences refl
  where
    by_vector :
        (free : List ℤ)
        → m.free_sequences ≡ free
        → IsObtained excluded m (obtain_sequence_locked excluded swap m)
    by_vector [] is_free =
        let is : obtain_sequence_locked excluded swap m ≡ obtain_by_eviction excluded swap.save m =
          simp (is_free, obtain_sequence_locked) in
        subst (IsObtained excluded m) (sym is)
          (obtain_by_eviction-IsObtained excluded swap.save m h)
    by_vector (s ∷ rest) is_free =
        let sums : (w : ℤ → ℕ) → total w m.free_sequences ≡ w s + total w rest =
          λ w. rw is_free refl in
        let is : obtain_sequence_locked excluded swap m
            ≡ (record m { free_sequences = rest }, answered s) =
          rw (is_free, obtain_sequence_locked) refl in
        subst (IsObtained excluded m) (sym is) (
          Holds-moved [] (s ∷ []) rest m h (λ w. omega (arith, sums w)),
          record { same_entry = refl; same_length = refl; same_next = refl; same_limit = refl },
        )
