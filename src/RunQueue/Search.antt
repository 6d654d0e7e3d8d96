-- ===== src/RunQueue/Search.antt =====
-- The loop of agent_runtime_top/src/scheduler.c that looks for an agent.
use agent_nucleus.Prelude.{
  ℕ, zero, suc, ◌+◌, ◌-◌, ◌≤◌, ◌<◌, ◌≡◌, refl, sym, ap, subst, true, false, none, some, some-inj,
  none≢some, ◌∷◌, ◌++◌, member, ◌==◌, ==_iff, inl, inr, Bool-cases, arith,
}
use agent_nucleus.Arrays.{get_or}
use agent_nucleus.RunQueue.State.{RunQueue, slot, find_from}
use agent_nucleus.RunQueue.Queue.{remove_first}
use agent_nucleus.RunQueue.Window.{window}

-- The place where the search stops, and what is left without it.
pub record Found (id : ℕ) (q : RunQueue) (i n k : ℕ) : Type 0 where
  pub from : i ≤ k
  pub to : k < i + n
  pub here : get_or q.queue (slot q k) 0 ≡ id
  pub present : member id (window q q.queue i n) ≡ true
  pub without :
      remove_first id (window q q.queue i n)
      ≡ window q q.queue i (k - i) ++ window q q.queue (k + 1) (i + n - 1 - k)

pub find_from-none :
    (id : ℕ) (q : RunQueue) (n i : ℕ)
    → find_from id q n i ≡ none
    → member id (window q q.queue i n) ≡ false
unfolding find_from
find_from-none id q zero i e = refl
find_from-none id q (suc n) i e = elim (Bool-cases (get_or q.queue (slot q i) 0 == id)) [
  | inl hit ↦ absurd (none≢some (sym (rw hit at e)))
  | inr miss ↦ rw miss (find_from-none id q n (i + 1) (rw miss at e))
]

Found-first :
    (id : ℕ) (q : RunQueue) (i n : ℕ)
    → (get_or q.queue (slot q i) 0 == id) ≡ true
    → Found id q i (suc n) i
Found-first id q i n hit =
    let nothing : i - i ≡ 0 = omega arith in
    let others : i + suc n - 1 - i ≡ n = omega arith in
    record {
      from = omega arith;
      to = omega arith;
      here = (==_iff _ id).0 hit;
      present = rw hit refl;
      without = rw (hit, nothing, others) refl;
    }

Found-later :
    (id : ℕ) (q : RunQueue) (i n k : ℕ)
    → (get_or q.queue (slot q i) 0 == id) ≡ false
    → Found id q (i + 1) n k
    → Found id q i (suc n) k
Found-later id q i n k miss f =
    let low = f.from in
    let high = f.to in
    let steps : k - i ≡ suc (k - (i + 1)) = omega arith in
    let others : i + suc n - 1 - k ≡ i + 1 + n - 1 - k = omega arith in
    record {
      from = omega arith;
      to = omega arith;
      here = f.here;
      present = rw (miss, f.present) refl;
      without = rw (miss, steps, others) (ap (λ t. get_or q.queue (slot q i) 0 ∷ t) f.without);
    }

pub find_from-Found :
    (id : ℕ) (q : RunQueue) (n i k : ℕ) → find_from id q n i ≡ some k → Found id q i n k
unfolding find_from
find_from-Found id q zero i k e = absurd (none≢some e)
find_from-Found id q (suc n) i k e = elim (Bool-cases (get_or q.queue (slot q i) 0 == id)) [
  | inl hit ↦ subst (Found id q i (suc n)) (some-inj (rw hit at e)) (Found-first id q i n hit)
  | inr miss ↦ Found-later id q i n k miss (find_from-Found id q n (i + 1) k (rw miss at e))
]
