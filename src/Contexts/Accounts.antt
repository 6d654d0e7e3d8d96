-- ===== src/Contexts/Accounts.antt =====
-- The managers that the calls of agent_runtime_top/src/context_manager.cpp lead to, and where their
-- sequences are.
use agent_nucleus.Prelude.{
  ℕ, zero, suc, ◌+◌, ◌<◌, ◌≤◌, ◌≡◌, refl, ap, ◌^◌, false, ◌&&◌, some, List, [], ◌∷◌, length, total,
  ltb, leb, arith, if◌then◌else◌, u64_mod, ◌==◌,
}
use agent_nucleus.Prelude.Int.{ℤ, pos, negsuc}
use agent_nucleus.Table.{lookup, weigh}
use agent_nucleus.Contexts.State.{
  Entry, ContextLease, ContextManager, ContextSwapCallbacks, Answer, answered, refused, to_int,
  push_sequences, new_context_manager,
}
use agent_nucleus.Contexts.Acquire.{acquire}
use agent_nucleus.Contexts.Release.{finish, release}
use agent_nucleus.Contexts.Keyed.{lookup-IsEntry}
use agent_nucleus.Contexts.Held.{held, Counts, Holds}
use agent_nucleus.Contexts.Leases.{IsLeased}
use agent_nucleus.Contexts.Grants.{acquire-IsLeased}
use agent_nucleus.Contexts.Releases.{finish-Holds, release-Holds}

-- The managers that are left by calls, acquire while there are ids.
pub data Reachable (max_resident max_logical : ℕ) : ContextManager → Type 0 where
  made : Reachable max_resident max_logical (new_context_manager max_resident max_logical)
  acquired :
      (m : ContextManager) (agent_id parent_id requested now : ℕ) (swap : ContextSwapCallbacks)
      → m.next_context_id + 1 < u64_mod
      → Reachable max_resident max_logical m
      → Reachable max_resident max_logical (acquire agent_id parent_id requested now swap m).0
  finished :
      (m : ContextManager) (context_id now : ℕ)
      → Reachable max_resident max_logical m
      → Reachable max_resident max_logical (finish context_id now m).0
  released :
      (m : ContextManager) (agent_id parent_id context_id now : ℕ)
      → Reachable max_resident max_logical m
      → Reachable max_resident max_logical (release agent_id parent_id context_id now m).0

abbrev pub is_number : ℕ → ℤ → ℕ
is_number n (pos i) = if i == n then 1 else 0
is_number n (negsuc i) = 0

abbrev one : ℤ → ℕ
one z = 1

to_int-small : (n : ℕ) → n < 2 ^ 31 → to_int n ≡ pos n
to_int-small n small = ground arith

push_sequences-number :
    (n k : ℕ) (free : List ℤ)
    → k < 2 ^ 31
    → total (is_number n) (push_sequences k free)
      ≡ total (is_number n) free + (if ltb 0 n && leb n k then 1 else 0)
push_sequences-number n zero free small = ground arith
push_sequences-number n (suc k) free small =
    let cast : to_int (suc k) ≡ pos (suc k) = to_int-small (suc k) small in
    let counts : is_number n (to_int (suc k)) ≡ (if suc k == n then 1 else 0) =
      ap (is_number n) cast in
    let rest = push_sequences-number n k (to_int (suc k) ∷ free) (omega arith) in
    ground (arith, counts, rest)

push_sequences-one :
    (k : ℕ) (free : List ℤ) → total one (push_sequences k free) ≡ total one free + k
push_sequences-one zero free = omega arith
push_sequences-one (suc k) free = omega (arith, push_sequences-one k (to_int (suc k) ∷ free))

new_context_manager-Holds :
    (max_resident max_logical : ℕ) → Holds [] (new_context_manager max_resident max_logical)
unfolding new_context_manager
new_context_manager-Holds max_resident max_logical = record {
  keyed = tt;
  short = omega arith;
  small = omega arith;
  bounded = omega arith;
  counts = record { active = refl; resident = refl; swapped = refl };
  conserved = λ w. omega arith;
}

leased-Holds :
    (agent_id : ℕ) (m : ContextManager) (r : ContextManager × Answer ContextLease)
    → IsLeased agent_id m r
    → Holds [] r.0
leased-Holds agent_id m (n, refused error) h = h
leased-Holds agent_id m (n, answered lease) (h, named) = h

pub Reachable-Holds :
    (max_resident max_logical : ℕ) (m : ContextManager)
    → Reachable max_resident max_logical m
    → Holds [] m
Reachable-Holds max_resident max_logical m made = new_context_manager-Holds max_resident max_logical
Reachable-Holds max_resident max_logical m
      (acquired before agent_id parent_id requested now swap small h) =
    leased-Holds agent_id before (acquire agent_id parent_id requested now swap before) (
      acquire-IsLeased agent_id parent_id requested now swap before
        (Reachable-Holds max_resident max_logical before h) small)
Reachable-Holds max_resident max_logical m (finished before context_id now h) =
    finish-Holds context_id now before (Reachable-Holds max_resident max_logical before h)
Reachable-Holds max_resident max_logical m (released before agent_id parent_id context_id now h) =
    release-Holds agent_id parent_id context_id now before
      (Reachable-Holds max_resident max_logical before h)

-- Where the sequences and the contexts of a manager are.
pub record IsAccounted (m : ContextManager) : Type 0 where
  pub placed :
      (n : ℕ)
      → total (is_number n) m.free_sequences + weigh (held (is_number n)) m.contexts
        ≡ (if ltb 0 n && leb n m.max_resident_contexts then 1 else 0)
  pub within : m.stats.resident_contexts ≤ m.max_resident_contexts
  pub limited : length m.contexts ≤ m.max_logical_contexts
  pub counted : Counts m.stats m.contexts
  pub named : (k : ℕ) (e : Entry) → lookup k m.contexts ≡ some e → e.id ≡ k
  pub leased_in :
      (k : ℕ) (e : Entry) → lookup k m.contexts ≡ some e → e.resident ≡ false → e.pin_count ≡ 0

Holds-IsAccounted :
    (m : ContextManager) → m.max_resident_contexts < 2 ^ 31 → Holds [] m → IsAccounted m
Holds-IsAccounted m small h = record {
  placed = λ n.
      omega (
        arith,
        h.conserved (is_number n),
        push_sequences-number n m.max_resident_contexts [] small,
      );
  within =
      omega
        (arith, h.conserved one, h.counts.resident, push_sequences-one m.max_resident_contexts []);
  limited = h.bounded;
  counted = h.counts;
  named = λ k e found. (lookup-IsEntry m.next_context_id k m.contexts e h.keyed found).own_id;
  leased_in = λ k e found outside.
      ground (arith, (lookup-IsEntry m.next_context_id k m.contexts e h.keyed found).sound);
}

-- After any calls of acquire, finish and release on a new manager with `max_resident_contexts` below
-- 2^31, the numbers that an int has, acquire being called while the next id is below the last one:
-- each of the sequences 1 to `max_resident_contexts` is either once in the vector of free sequences
-- or held by one resident context, and no other sequence from 0 on is anywhere; at most
-- `max_resident_contexts` contexts are resident and at most `max_logical_contexts` exist; the
-- counters of active, resident and swapped contexts are those of the table; every entry stands under
-- its id; and a context that is swapped out has no lease.
pub Reachable-IsAccounted :
    (max_resident max_logical : ℕ) (m : ContextManager)
    → m.max_resident_contexts < 2 ^ 31
    → Reachable max_resident max_logical m
    → IsAccounted m
Reachable-IsAccounted max_resident max_logical m small h =
    Holds-IsAccounted m small (Reachable-Holds max_resident max_logical m h)
