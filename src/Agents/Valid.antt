-- ===== src/Agents/Valid.antt =====
-- The tables that the functions of agent_runtime_top/src/agent.c leave.
use agent_nucleus.Prelude.{
  ℕ, ◌+◌, ◌≤◌, ◌<◌, ◌≡◌, ◌≢◌, refl, sym, ◌∙◌, ap, subst, Bool, true, false, not, length, ◌==◌, inl,
  inr, Bool-cases, arith, u64_mod,
}
use agent_nucleus.Arrays.{set, replicate, length-replicate, length-set}
use agent_nucleus.Slots.{
  bit, count_if, IsFirst, IsFirst-test, count_if-set, count_if-length, count_if-replicate,
}
use agent_nucleus.Agents.Changes.{
  Call, destroy, call, call-Change, Change, unchanged, written, added, removed, write, with_new,
  without,
}
use agent_nucleus.Agents.State.{
  Agent, AgentTable, created, no_agent, max_agents, zero_agents, has_id, agent_runtime_init,
}

abbrev pub is_used : Agent → Bool
is_used a = not (a.id == 0)

-- `count` counts the agents, and each id below next_id but 0 has one agent at most.
pub record IsValid (t : AgentTable) : Type 0 where
  pub initialized : t.initialized ≡ true
  pub all_slots : length t.agents ≡ max_agents
  pub counted : t.count ≡ count_if is_used t.agents
  pub fresh : (id : ℕ) → t.next_id ≤ id → count_if (has_id id) t.agents ≡ 0
  pub once : (id : ℕ) → id ≢ 0 → count_if (has_id id) t.agents ≤ 1
  pub from_one : 0 < t.next_id

bit-le : (b : Bool) → bit b ≤ 1
bit-le true = omega arith
bit-le false = omega arith

-- A write that keeps the agent's id.
pub write-IsValid :
    (f : Agent → Bool) (t : AgentTable) (i : ℕ) (a b : Agent)
    → IsValid t
    → IsFirst f t.agents i a
    → b.id ≡ a.id
    → IsValid (write t i b)
write-IsValid f t i a b v first same = record {
  initialized = v.initialized;
  all_slots = length-set t.agents i b ∙ v.all_slots;
  counted = v.counted ∙ sym (kept is_used (ap (λ k. not (k == 0)) same));
  fresh = λ id h. kept (has_id id) (ap (λ k. k == id) same) ∙ v.fresh id h;
  once = λ id h. subst (λ n. n ≤ 1) (sym (kept (has_id id) (ap (λ k. k == id) same))) (v.once id h);
  from_one = v.from_one;
}
  where
    kept : (p : Agent → Bool) → p b ≡ p a → count_if p (set t.agents i b) ≡ count_if p t.agents
    kept p e =
        let change = count_if-set f p t.agents i a b first in let bits = ap bit e in omega arith

no_ids : (id : ℕ) → 0 < id → count_if (has_id id) (replicate max_agents no_agent) ≡ 0
no_ids id later = count_if-replicate (has_id id) max_agents no_agent (ground arith)

empty-IsValid : IsValid (record zero_agents { next_id = 1; initialized = true })
unfolding zero_agents
empty-IsValid = record {
  initialized = refl;
  all_slots = length-replicate max_agents no_agent;
  counted = sym (count_if-replicate is_used max_agents no_agent refl);
  fresh = λ id later. no_ids id (omega arith);
  once = λ id some_id. subst (λ n. n ≤ 1) (sym (no_ids id (omega arith))) (omega arith);
  from_one = omega arith;
}

-- agent_runtime_init makes a valid table.
pub agent_runtime_init-IsValid :
    (t : AgentTable) → t.initialized ≡ false → IsValid (agent_runtime_init t).1
unfolding agent_runtime_init
agent_runtime_init-IsValid t fresh_table = subst IsValid (sym (rw fresh_table refl)) empty-IsValid

-- A free slot that takes the next id.
created-IsValid :
    (t : AgentTable) (i : ℕ) (a b : Agent)
    → IsValid t
    → t.next_id + 1 < u64_mod
    → IsFirst (has_id 0) t.agents i a
    → b.id ≡ t.next_id
    → IsValid (with_new t i b)
created-IsValid t i a b v h first new =
    let all_slots = v.all_slots in
    let counted = v.counted in
    let from_one = v.from_one in
    let free : a.id ≡ 0 = ground (arith, IsFirst-test (has_id 0) t.agents i a first) in
    let not_used : is_used a ≡ false = ground arith in
    let now_used : is_used b ≡ true = ground arith in
    let used = count_if-set (has_id 0) is_used t.agents i a b first in
    let bits_a = ap bit not_used in
    let bits_b = ap bit now_used in
    let bound = count_if-length is_used (set t.agents i b) in
    let same_length = length-set t.agents i b in
    record {
      initialized = v.initialized;
      all_slots = length-set t.agents i b ∙ v.all_slots;
      counted = omega arith;
      fresh = λ id later.
          let change = count_if-set (has_id 0) (has_id id) t.agents i a b first in
          let none_there = v.fresh id (omega arith) in
          let not_a : has_id id a ≡ false = ground arith in
          let not_b : has_id id b ≡ false = ground arith in
          let bit_a = ap bit not_a in let bit_b = ap bit not_b in omega arith;
      once = λ id some_id.
          let change = count_if-set (has_id 0) (has_id id) t.agents i a b first in
          elim (Bool-cases (id == t.next_id)) [
            | inl newest ↦
                let none_there = v.fresh id (ground arith) in
                let at_most_b = bit-le (has_id id b) in omega arith
            | inr older ↦
                let at_most = v.once id some_id in
                let not_b : has_id id b ≡ false = ground arith in
                let bit_b = ap bit not_b in omega arith
          ];
      from_one = omega arith;
    }

-- A slot in use that becomes free.
destroyed-IsValid :
    (t : AgentTable) (id i : ℕ) (a : Agent)
    → IsValid t
    → id ≢ 0
    → IsFirst (has_id id) t.agents i a
    → IsValid (without t i a)
destroyed-IsValid t id i a v some_id first =
    let all_slots = v.all_slots in
    let counted = v.counted in
    let here : a.id ≡ id = ground (arith, IsFirst-test (has_id id) t.agents i a first) in
    let was_used : is_used a ≡ true = ground arith in
    let used = count_if-set (has_id id) is_used t.agents i a gone first in
    let bit_a = ap bit was_used in
    let bound = count_if-length is_used t.agents in
    record {
      initialized = v.initialized;
      all_slots = length-set t.agents i gone ∙ v.all_slots;
      counted = omega arith;
      fresh = λ k later.
          let from_one = v.from_one in
          let change = count_if-set (has_id id) (has_id k) t.agents i a gone first in
          let none_there = v.fresh k later in
          let not_gone : has_id k gone ≡ false = ground arith in
          let bit_gone = ap bit not_gone in omega arith;
      once = λ k some_k.
          let change = count_if-set (has_id id) (has_id k) t.agents i a gone first in
          let at_most = v.once k some_k in
          let not_gone : has_id k gone ≡ false = ground arith in
          let bit_gone = ap bit not_gone in omega arith;
      from_one = v.from_one;
    }
  where
    gone : Agent
    gone = record a { id = 0; context = 0; state = created }

Change-IsValid :
    (c : Call) (t u : AgentTable)
    → IsValid t
    → t.next_id + 1 < u64_mod
    → c ≢ destroy 0
    → Change t c u
    → IsValid u
Change-IsValid c t u v h some_id unchanged = v
Change-IsValid c t u v h some_id (written id i a b first same move) =
    write-IsValid (has_id id) t i a b v first same
Change-IsValid c t u v h some_id (added i a b first new) = created-IsValid t i a b v h first new
Change-IsValid c t u v h some_id (removed id i a target first) =
    destroyed-IsValid t id i a v (λ e. some_id (target ∙ ap destroy e)) first

-- Every call but agent_destroy of the id 0 leaves a table valid, below the last id: the count is the
-- number of agents, and no two agents have the same id.
pub call-IsValid :
    (c : Call) (t : AgentTable)
    → IsValid t
    → t.next_id + 1 < u64_mod
    → c ≢ destroy 0
    → IsValid (call c t)
call-IsValid c t v h some_id =
    Change-IsValid c t (call c t) v h some_id (call-Change t v.initialized c)
