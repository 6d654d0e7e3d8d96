-- ===== src/Contexts/Leases.antt =====
-- What a lease names, and what taking one on a resident context keeps, in
-- agent_runtime_top/src/context_manager.cpp.
use agent_nucleus.Prelude.{
  ℕ, ◌≡◌, refl, sym, ap, true, false, none, some, List, [], insert, member, member-insert, is_empty,
  arith, ==_refl, Bool-cases, inl, inr,
}
use agent_nucleus.Prelude.Int.{ℤ}
use agent_nucleus.Table.{lookup, lookup-adjust_self}
use agent_nucleus.Contexts.State.{
  Entry, ContextLease, ContextManager, Answer, answered, refused, increment,
}
use agent_nucleus.Contexts.Residency.{swap_in}
use agent_nucleus.Contexts.Acquire.{pin, lease_resident, share}
use agent_nucleus.Contexts.Keyed.{lookup-IsEntry}
use agent_nucleus.Contexts.Held.{Holds, Holds-written}
use agent_nucleus.Contexts.Loads.{IsResident}

-- The leases of a context.
abbrev pub pins : ℕ → ContextManager → ℕ
pins k m = elim (lookup k m.contexts) [ none ↦ 0 | some e ↦ e.pin_count ]

-- The context `x` of the id `k` is resident with `sequence`, `agent_id` owns it, and it has `count`
-- leases.
pub record Names (agent_id k : ℕ) (sequence : ℤ) (count : ℕ) (m : ContextManager) (x : Entry)
    : Type 0 where
  pub there : lookup k m.contexts ≡ some x
  pub resident : x.resident ≡ true
  pub same_sequence : x.sequence_id ≡ sequence
  pub owner : member agent_id x.owners ≡ true
  pub leased : x.pin_count ≡ count

-- A manager that `acquire` left: if there is a lease, its context is resident with the lease's
-- sequence, the agent owns it, and it has one lease more than in `m`.
abbrev pub IsLeased : ℕ → ContextManager → ContextManager × Answer ContextLease → Type 0
IsLeased agent_id m (n, refused error) = Holds [] n
IsLeased agent_id m (n, answered lease) =
    Holds [] n
    × ((x : Entry) × Names agent_id lease.context_id lease.sequence_id
          (increment (pins lease.context_id m)) n x)

-- The entry with its sequence and other owners.
abbrev pub with_owners : ℤ → List ℕ → Entry → Entry
with_owners sequence owners e = record e {
  sequence_id = sequence;
  resident = true;
  owners = owners;
}

abbrev pub IsOwned : ℕ → Entry → ContextManager × Answer ℤ → Type 0
IsOwned agent_id e (n, refused error) = Holds [] n
IsOwned agent_id e (n, answered sequence) =
    Holds [] n
    × ((owners : List ℕ) × (member agent_id owners ≡ true)
        × (lookup e.id n.contexts ≡ some (with_owners sequence owners e)))

pub owned :
    (agent_id : ℕ) (e : Entry) (r : ContextManager × Answer ℤ)
    → member agent_id e.owners ≡ true
    → IsResident e r
    → IsOwned agent_id e r
owned agent_id e (n, refused error) owner h = h
owned agent_id e (n, answered sequence) owner (h, there) = (h, (e.owners, owner, there))

insert-nonempty : (k : ℕ) (xs : List ℕ) → is_empty xs ≡ false → is_empty (insert k xs) ≡ false
insert-nonempty k xs h = ground arith

pub share-IsOwned :
    (agent_id : ℕ) (e : Entry) (r : ContextManager × Answer ℤ)
    → IsResident e r
    → IsOwned agent_id e (share agent_id e r)
unfolding share
share-IsOwned agent_id e (n, refused error) h = h
share-IsOwned agent_id e (n, answered sequence) (h, there) =
    elim (Bool-cases (member agent_id e.owners)) [
      | inl owner ↦ rw owner (h, (e.owners, owner, there))
      | inr other ↦
          let x = swap_in sequence e in
          let own = lookup-IsEntry n.next_context_id e.id n.contexts x h.keyed there in
          let add : Entry → Entry = λ x. record x { owners = insert agent_id x.owners } in
          rw other (
            Holds-written [] n e.id x h there add _ _ _ (λ x. refl)
                (ground (arith, own.sound, insert-nonempty agent_id e.owners))
                (record { same_active = refl; moved = refl; moved_out = refl }) (λ w. refl),
            (
              insert agent_id e.owners,
              rw (member-insert agent_id agent_id e.owners, ==_refl agent_id) refl,
              lookup-adjust_self e.id add n.contexts there,
            ),
          )
    ]

pub lease_resident-IsLeased :
    (agent_id now : ℕ) (e : Entry) (m : ContextManager) (r : ContextManager × Answer ℤ)
    → lookup e.id m.contexts ≡ some e
    → IsOwned agent_id e r
    → IsLeased agent_id m (lease_resident now e r)
unfolding lease_resident
lease_resident-IsLeased agent_id now e m (n, refused error) found h = h
lease_resident-IsLeased agent_id now e m (n, answered sequence) found (h, (owners, owner, there)) =
    let x = with_owners sequence owners e in
    let own = lookup-IsEntry n.next_context_id e.id n.contexts x h.keyed there in
    let had : pins e.id m ≡ e.pin_count = rw (found, pins) refl in
    (
      Holds-written [] n e.id x h there (pin now) _ _ _ (λ x. refl) (ground (arith, own.sound))
          (record { same_active = refl; moved = refl; moved_out = refl }) (λ w. refl),
      (
        pin now x,
        record {
          there = lookup-adjust_self e.id (pin now) n.contexts there;
          resident = refl;
          same_sequence = refl;
          owner = owner;
          leased = ap increment (sym had);
        },
      ),
    )
