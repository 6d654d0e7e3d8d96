-- ===== src/Agents/Lifecycle.antt =====
-- The lifecycle of the agents of agent_runtime_top/src/agent.c.
use agent_nucleus.Prelude.{
  ℕ, ◌+◌, ◌<◌, ◌≤◌, ◌≡◌, ◌≢◌, refl, sym, ◌∙◌, ap, subst, true, false, some, List, [], ◌∷◌, length,
  ◌==◌, inl, inr, Bool-cases, u64_mod, arith,
}
use agent_nucleus.Slots.{
  find_slot, IsFirst, IsFirst-test, find_slot-set_same, find_slot-set_other, IsFirst-find_slot,
}
use agent_nucleus.Agents.State.{Agent, AgentTable, AgentState, created, has_id, agent_get_state}
use agent_nucleus.Agents.Changes.{
  Call, destroy, call, call-Change, Change, unchanged, written, added, removed, write, with_new,
  without, Move, IsMove,
}

-- What agent_get_state answers where it finds the agent.
get_state-found :
    (t : AgentTable) (id i : ℕ) (a : Agent)
    → t.initialized ≡ true
    → find_slot (has_id id) t.agents ≡ some (i, a)
    → agent_get_state id t ≡ a.state
unfolding agent_get_state
get_state-found t id i a on found = simp (on, found)

-- It reads nothing but the first agent with the id.
get_state-same :
    (t u : AgentTable) (id : ℕ)
    → t.initialized ≡ u.initialized
    → find_slot (has_id id) t.agents ≡ find_slot (has_id id) u.agents
    → agent_get_state id t ≡ agent_get_state id u
unfolding agent_get_state
get_state-same t u id on found = simp (on, found)

written-IsMove :
    (t : AgentTable) (id i j : ℕ) (a b : Agent)
    → t.initialized ≡ true
    → IsFirst (has_id id) t.agents i a
    → b.id ≡ a.id
    → IsMove a.state b.state
    → IsMove (agent_get_state j t) (agent_get_state j (write t i b))
written-IsMove t id i j a b on first same move =
    let here : a.id ≡ id = ground (arith, IsFirst-test (has_id id) t.agents i a first) in
    elim (Bool-cases (id == j)) [
      | inl this ↦
          let same_id : id ≡ j = ground arith in
          let at : IsFirst (has_id j) t.agents i a =
            subst (λ k. IsFirst (has_id k) t.agents i a) same_id first in
          let b_passes : has_id j b ≡ true = ground arith in
          subst (λ s. IsMove s (agent_get_state j (write t i b)))
            (sym (get_state-found t j i a on (IsFirst-find_slot (has_id j) t.agents i a at)))
            (subst (IsMove a.state)
              (sym (
                get_state-found (write t i b) j i b on
                  (find_slot-set_same (has_id j) t.agents i a b at b_passes)))
              move)
      | inr other ↦
          let not_a : has_id j a ≡ false = ground arith in
          let not_b : has_id j b ≡ false = ground arith in
          inl (
            get_state-same t (write t i b) j refl
              (sym (find_slot-set_other (has_id id) (has_id j) t.agents i a b first not_a not_b)))
    ]

Change-IsMove :
    (c : Call) (t u : AgentTable) (j : ℕ)
    → t.initialized ≡ true
    → 0 < j
    → j < t.next_id
    → c ≢ destroy j
    → Change t c u
    → IsMove (agent_get_state j t) (agent_get_state j u)
Change-IsMove c t u j on some_id given spared unchanged = inl refl
Change-IsMove c t u j on some_id given spared (written id i a b first same move) =
    written-IsMove t id i j a b on first same move
Change-IsMove c t u j on some_id given spared (added i a b first new) =
    let free : a.id ≡ 0 = ground (arith, IsFirst-test (has_id 0) t.agents i a first) in
    let not_a : has_id j a ≡ false = ground arith in
    let not_b : has_id j b ≡ false = ground arith in
    inl (
      get_state-same t (with_new t i b) j refl
        (sym (find_slot-set_other (has_id 0) (has_id j) t.agents i a b first not_a not_b)))
Change-IsMove c t u j on some_id given spared (removed id i a target first) =
    let here : a.id ≡ id = ground (arith, IsFirst-test (has_id id) t.agents i a first) in
    let another : id ≢ j = λ e. spared (target ∙ ap destroy e) in
    let not_a : has_id j a ≡ false = ground arith in
    let not_gone : has_id j (record a { id = 0; context = 0; state = created }) ≡ false =
      ground arith in
    inl (
      get_state-same t (without t i a) j refl (
        sym (
          find_slot-set_other (has_id id) (has_id j) t.agents i a
            (record a { id = 0; context = 0; state = created }) first not_a not_gone)))

-- A call that does not destroy the agent leaves its state or takes it along one move of the
-- lifecycle.
pub call-IsMove :
    (c : Call) (t : AgentTable) (j : ℕ)
    → t.initialized ≡ true
    → 0 < j
    → j < t.next_id
    → c ≢ destroy j
    → IsMove (agent_get_state j t) (agent_get_state j (call c t))
call-IsMove c t j on some_id given spared =
    Change-IsMove c t (call c t) j on some_id given spared (call-Change t on c)

-- The moves of a run.
pub data Leads : AgentState → AgentState → Type 0 where
  here : {s : AgentState} → Leads s s
  after : {s s' s'' : AgentState} → Move s s' → Leads s' s'' → Leads s s''

abbrev pub calls : List Call → AgentTable → AgentTable
calls [] t = t
calls (c ∷ cs) t = calls cs (call c t)

-- No call of the run destroys the agent.
abbrev pub IsSpared : ℕ → List Call → Type 0
IsSpared j [] = Unit {0}
IsSpared j (c ∷ cs) = (c ≢ destroy j) × IsSpared j cs

-- What a call leaves of the table's own fields.
Change-ids :
    (c : Call) (t u : AgentTable)
    → t.next_id + 1 < u64_mod
    → Change t c u
    → (u.initialized ≡ t.initialized) × ((t.next_id ≤ u.next_id) × (u.next_id ≤ t.next_id + 1))
Change-ids c t u h unchanged = (refl, (omega arith, omega arith))
Change-ids c t u h (written id i a b first same move) = (refl, (omega arith, omega arith))
Change-ids c t u h (added i a b first new) = (refl, (omega arith, omega arith))
Change-ids c t u h (removed id i a target first) = (refl, (omega arith, omega arith))

IsMove-Leads : {s s' s'' : AgentState} → IsMove s s' → Leads s' s'' → Leads s s''
IsMove-Leads {s} {s'} {s''} (inl same) rest = subst (λ x. Leads x s'') (sym same) rest
IsMove-Leads (inr move) rest = after move rest

-- Over a run of calls that does not destroy an agent and does not use up the ids, the agent's state
-- goes along the moves CREATED to READY or ERROR, READY to RUNNING, RUNNING or WAITING to COMPLETED.
pub calls-Leads :
    (cs : List Call) (t : AgentTable) (j : ℕ)
    → t.initialized ≡ true
    → 0 < j
    → j < t.next_id
    → t.next_id + length cs < u64_mod
    → IsSpared j cs
    → Leads (agent_get_state j t) (agent_get_state j (calls cs t))
calls-Leads [] t j on some_id given ids spared = here
calls-Leads (c ∷ cs) t j on some_id given ids (spared, others) =
    let own = Change-ids c t (call c t) (omega arith) (call-Change t on c) in
    let more = own.1.0 in
    let at_most = own.1.1 in
    IsMove-Leads (call-IsMove c t j on some_id given spared)
      (calls-Leads cs (call c t) j (own.0 ∙ on) some_id (omega arith) (omega arith) others)
