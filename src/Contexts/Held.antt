-- ===== src/Contexts/Held.antt =====
-- The invariant of ContextManager of agent_runtime_top/src/context_manager.cpp, and the writes to
-- its state that keep it.
use agent_nucleus.Prelude.{
  ℕ, ◌+◌, ◌<◌, ◌≤◌, ◌≡◌, sym, subst, true, some, List, [], ◌∷◌, length, total, arith, if◌then◌else◌,
  u64_mod,
}
use agent_nucleus.Prelude.Int.{ℤ}
use agent_nucleus.Table.{
  Table, lookup, adjust, emplace, erase, length-adjust, length-emplace, length-erase, weigh,
  weigh-adjust, weigh-emplace, weigh-erase,
}
use agent_nucleus.Contexts.State.{Entry, ContextManager, ContextManagerStats, push_sequences}
use agent_nucleus.Contexts.Keyed.{
  IsSound, IsKeyed, IsEntry, lookup-IsEntry, lookup-bound, IsKeyed-adjust, IsKeyed-emplace,
  IsKeyed-erase,
}

abbrev pub is_in : Entry → ℕ
is_in e = if e.resident then 1 else 0

abbrev pub is_out : Entry → ℕ
is_out e = if e.resident then 0 else 1

-- What the sequence of a resident context weighs.
abbrev pub held : (ℤ → ℕ) → Entry → ℕ
held w e = if e.resident then w e.sequence_id else 0

-- The counters of contexts are those of the table.
pub record Counts (s : ContextManagerStats) (t : Table Entry) : Type 0 where
  pub active : s.active_contexts ≡ length t
  pub resident : s.resident_contexts ≡ weigh is_in t
  pub swapped : s.swapped_contexts ≡ weigh is_out t

-- The invariant, while a call has the sequences `hand` out of the vector: those in hand, those of
-- the vector and those of the resident contexts are the sequences of the constructor, each as often.
pub record Holds (hand : List ℤ) (m : ContextManager) : Type 0 where
  pub keyed : IsKeyed m.next_context_id m.contexts
  pub short : length m.contexts < m.next_context_id
  pub small : m.next_context_id < u64_mod
  pub bounded : length m.contexts ≤ m.max_logical_contexts
  pub counts : Counts m.stats m.contexts
  pub conserved :
      (w : ℤ → ℕ)
      → total w hand + total w m.free_sequences + weigh (held w) m.contexts
        ≡ total w (push_sequences m.max_resident_contexts [])

pub in-or-out : (t : Table Entry) → weigh is_in t + weigh is_out t ≡ length t
in-or-out [] = omega arith
in-or-out ((k, e) ∷ t) = ground (arith, in-or-out t)

-- How the counters follow a write to one entry.
pub record Follows (s s' : ContextManagerStats) (e e' : Entry) : Type 0 where
  pub same_active : s'.active_contexts ≡ s.active_contexts
  pub moved : s.resident_contexts + is_in e' ≡ s'.resident_contexts + is_in e
  pub moved_out : s.swapped_contexts + is_out e' ≡ s'.swapped_contexts + is_out e

module _ (hand : List ℤ) (m : ContextManager) (k : ℕ) (e : Entry) (h : Holds hand m)
    (found : lookup k m.contexts ≡ some e) where
  entry : IsEntry m.next_context_id k e
  entry = lookup-IsEntry m.next_context_id k m.contexts e h.keyed found

  -- A write to one entry, with the sequences and the counters that go with it.
  pub Holds-written :
      (f : Entry → Entry) (hand' free : List ℤ) (stats : ContextManagerStats)
      → ((x : Entry) → (f x).id ≡ x.id)
      → IsSound (f e)
      → Follows m.stats stats e (f e)
      → ((w : ℤ → ℕ)
          → total w hand' + total w free + held w (f e)
            ≡ total w hand + total w m.free_sequences + held w e)
      → Holds hand'
          (record m { contexts = adjust k f m.contexts; free_sequences = free; stats = stats })
  Holds-written f hand' free stats ids fine follows sums = record {
    keyed = IsKeyed-adjust m.next_context_id k f m.contexts e ids fine found h.keyed;
    short = omega (arith, h.short, length-adjust k f m.contexts);
    small = h.small;
    bounded = omega (arith, h.bounded, length-adjust k f m.contexts);
    counts = record {
      active = omega (arith, follows.same_active, h.counts.active, length-adjust k f m.contexts);
      resident =
          omega
            (arith, follows.moved, h.counts.resident, weigh-adjust is_in k f m.contexts e found);
      swapped =
          omega (
            arith,
            follows.moved_out,
            h.counts.swapped,
            weigh-adjust is_out k f m.contexts e found,
          );
    };
    conserved =
        λ w. omega (arith, sums w, h.conserved w, weigh-adjust (held w) k f m.contexts e found);
  }

  -- An entry is erased, and its sequence is in the vector again.
  pub Holds-erased :
      (free : List ℤ) (stats : ContextManagerStats)
      → stats.active_contexts + 1 ≡ m.stats.active_contexts
      → stats.resident_contexts + is_in e ≡ m.stats.resident_contexts
      → stats.swapped_contexts + is_out e ≡ m.stats.swapped_contexts
      → ((w : ℤ → ℕ) → total w free ≡ total w m.free_sequences + held w e)
      → Holds hand
          (record m { contexts = erase k m.contexts; free_sequences = free; stats = stats })
  Holds-erased free stats fewer less_in less_out sums = record {
    keyed = IsKeyed-erase m.next_context_id k m.contexts h.keyed;
    short = omega (arith, h.short, length-erase k m.contexts e found);
    small = h.small;
    bounded = omega (arith, h.bounded, length-erase k m.contexts e found);
    counts = record {
      active = omega (arith, fewer, h.counts.active, length-erase k m.contexts e found);
      resident = omega (arith, less_in, h.counts.resident, weigh-erase is_in k m.contexts e found);
      swapped = omega (arith, less_out, h.counts.swapped, weigh-erase is_out k m.contexts e found);
    };
    conserved =
        λ w. omega (arith, sums w, h.conserved w, weigh-erase (held w) k m.contexts e found);
  }

-- The sequences move between the hand and the vector.
pub Holds-moved :
    (hand hand' free : List ℤ) (m : ContextManager)
    → Holds hand m
    → ((w : ℤ → ℕ) → total w hand' + total w free ≡ total w hand + total w m.free_sequences)
    → Holds hand' (record m { free_sequences = free })
Holds-moved hand hand' free m h sums = record {
  keyed = h.keyed;
  short = h.short;
  small = h.small;
  bounded = h.bounded;
  counts = record {
    active = h.counts.active;
    resident = h.counts.resident;
    swapped = h.counts.swapped;
  };
  conserved = λ w. omega (arith, sums w, h.conserved w);
}

-- Another entry is added under the next id, with the sequence in hand.
pub Holds-created :
    (m : ContextManager) (e : Entry) (next : ℕ) (stats : ContextManagerStats)
    → Holds (e.sequence_id ∷ []) m
    → next ≡ m.next_context_id + 1
    → next < u64_mod
    → length m.contexts < m.max_logical_contexts
    → e.id ≡ m.next_context_id
    → e.resident ≡ true
    → IsSound e
    → stats.active_contexts ≡ m.stats.active_contexts + 1
    → stats.resident_contexts ≡ m.stats.resident_contexts + 1
    → stats.swapped_contexts ≡ m.stats.swapped_contexts
    → Holds [] (record m {
      contexts = emplace m.next_context_id e m.contexts;
      next_context_id = next;
      stats = stats;
    })
Holds-created m e next stats h one_more small below own resident sound more more_in same_out =
    let t = m.contexts in
    let k = m.next_context_id in
    let fresh = lookup-bound k t h.keyed in
    let longer = length-emplace k e t fresh in
    let one_in : is_in e ≡ 1 = rw resident in
    let none_out : is_out e ≡ 0 = rw resident in
    let its : (w : ℤ → ℕ) → held w e ≡ w e.sequence_id = λ w. rw resident in
    record {
      keyed =
          subst (λ i. IsKeyed i (emplace k e t)) (sym one_more)
            (IsKeyed-emplace k e t own (omega (arith, h.short)) sound h.keyed);
      short = omega (arith, h.short, longer, one_more);
      small = small;
      bounded = omega (arith, below, longer);
      counts = record {
        active = omega (arith, more, h.counts.active, longer);
        resident =
            omega (arith, more_in, one_in, h.counts.resident, weigh-emplace is_in k e t fresh);
        swapped =
            omega (arith, same_out, none_out, h.counts.swapped, weigh-emplace is_out k e t fresh);
      };
      conserved = λ w. omega (arith, its w, h.conserved w, weigh-emplace (held w) k e t fresh);
    }
