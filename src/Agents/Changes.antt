-- ===== src/Agents/Changes.antt =====
-- What a call of agent_runtime_top/src/agent.c does to the table.
use agent_nucleus.Prelude.{
  ℕ, ◌+◌, ◌-◌, ◌%◌, ◌≡◌, refl, sym, subst, true, false, not, ◌&&◌, Option, none, some, inl, inr,
  ◌⊎◌, Bool-cases, Option-cases, u32_mod, u64_mod, arith,
}
use agent_nucleus.Arrays.{set}
use agent_nucleus.Slots.{find_slot, IsFirst, find_slot-IsFirst}
use agent_nucleus.Agents.State.{
  Agent, AgentConfig, AgentTable, AgentState, created, ready, running, waiting, completed, error,
  has_id, new_agent, run_init, is_ok, is_created, is_ready, is_running, is_waiting, agent_create,
  agent_destroy, agent_init, agent_start, agent_stop, agent_set_priority,
}

-- The moves of an agent's state.
pub data Move : AgentState → AgentState → Type 0 where
  made_ready : Move created ready
  init_failed : Move created error
  started : Move ready running
  stopped : Move running completed
  stopped_waiting : Move waiting completed

abbrev pub IsMove : AgentState → AgentState → Type 0
IsMove s s' = (s ≡ s') ⊎ Move s s'

abbrev pub write : AgentTable → ℕ → Agent → AgentTable
write t i b = record t { agents = set t.agents i b }

abbrev pub with_new : AgentTable → ℕ → Agent → AgentTable
with_new t i b = record t {
  agents = set t.agents i b;
  next_id = (t.next_id + 1) % u64_mod;
  count = (t.count + 1) % u32_mod;
}

abbrev pub without : AgentTable → ℕ → Agent → AgentTable
without t i a = record t {
  agents = set t.agents i (record a { id = 0; context = 0; state = created });
  count = (t.count + u32_mod - 1) % u32_mod;
}

-- The calls.
pub data Call : Type 0 where
  create : ℕ → Option AgentConfig → Call
  destroy : ℕ → Call
  init start stop : ℕ → ℕ → Call
  set_priority : ℕ → ℕ → Call

pub data Change (t : AgentTable) (c : Call) : AgentTable → Type 0 where
  unchanged : Change t c t
  written :
      (id i : ℕ) (a b : Agent)
      → IsFirst (has_id id) t.agents i a
      → b.id ≡ a.id
      → IsMove a.state b.state
      → Change t c (write t i b)
  added :
      (i : ℕ) (a b : Agent)
      → IsFirst (has_id 0) t.agents i a
      → b.id ≡ t.next_id
      → Change t c (with_new t i b)
  removed :
      (id i : ℕ) (a : Agent)
      → c ≡ destroy id
      → IsFirst (has_id id) t.agents i a
      → Change t c (without t i a)

abbrev pub call : Call → AgentTable → AgentTable
call (create now config) t = (agent_create now config t).1
call (destroy id) t = (agent_destroy id t).1.1
call (init now id) t = (agent_init now id t).1
call (start now id) t = (agent_start now id t).1
call (stop now id) t = (agent_stop now id t).1
call (set_priority id priority) t = (agent_set_priority id priority t).1

made_ready-from : (s : AgentState) → is_created s ≡ true → Move s ready
made_ready-from created e = made_ready
made_ready-from ready e = absurd (ground arith)
made_ready-from running e = absurd (ground arith)
made_ready-from waiting e = absurd (ground arith)
made_ready-from completed e = absurd (ground arith)
made_ready-from error e = absurd (ground arith)

init_failed-from : (s : AgentState) → is_created s ≡ true → Move s error
init_failed-from created e = init_failed
init_failed-from ready e = absurd (ground arith)
init_failed-from running e = absurd (ground arith)
init_failed-from waiting e = absurd (ground arith)
init_failed-from completed e = absurd (ground arith)
init_failed-from error e = absurd (ground arith)

started-from : (s : AgentState) → is_ready s ≡ true → Move s running
started-from ready e = started
started-from created e = absurd (ground arith)
started-from running e = absurd (ground arith)
started-from waiting e = absurd (ground arith)
started-from completed e = absurd (ground arith)
started-from error e = absurd (ground arith)

stopped-from :
    (s : AgentState) → (not (is_running s) && not (is_waiting s)) ≡ false → Move s completed
stopped-from running e = stopped
stopped-from waiting e = stopped_waiting
stopped-from created e = absurd (ground arith)
stopped-from ready e = absurd (ground arith)
stopped-from completed e = absurd (ground arith)
stopped-from error e = absurd (ground arith)

module _ (t : AgentTable) (on : t.initialized ≡ true) where
  to : {c : Call} {u u' : AgentTable} → u ≡ u' → Change t c u' → Change t c u
  to {c} e h = subst (Change t c) (sym e) h

  create-Change :
      (now : ℕ) (config : Option AgentConfig)
      → Change t (create now config) (agent_create now config t).1
  unfolding agent_create
  create-Change now none = unchanged
  create-Change now (some config) = elim (Option-cases (find_slot (has_id 0) t.agents)) [
    | inl full ↦
        let e : (agent_create now (some config) t).1 ≡ t = simp (on, full) in to e unchanged
    | inr ((i, a), found) ↦
        let e : (agent_create now (some config) t).1
            ≡ with_new t i (new_agent now t.next_id config) =
          simp (on, found) in
        to e (
          added i a (new_agent now t.next_id config)
            (find_slot-IsFirst (has_id 0) t.agents i a found) refl)
  ]

  start-Change : (now id : ℕ) → Change t (start now id) (agent_start now id t).1
  unfolding agent_start
  start-Change now id = elim (Option-cases (find_slot (has_id id) t.agents)) [
    | inl nowhere ↦ let e : (agent_start now id t).1 ≡ t = simp (on, nowhere) in to e unchanged
    | inr ((i, a), found) ↦ elim (Bool-cases (is_ready a.state)) [
      | inl before ↦
          let b = record a { state = running; last_active = now } in
          let e : (agent_start now id t).1 ≡ write t i b = simp (on, found, before) in
          to e (
            written id i a b (find_slot-IsFirst (has_id id) t.agents i a found) refl
              (inr (started-from a.state before)))
      | inr other ↦ let e : (agent_start now id t).1 ≡ t = simp (on, found, other) in to e unchanged
    ]
  ]

  init-Change : (now id : ℕ) → Change t (init now id) (agent_init now id t).1
  unfolding agent_init
  init-Change now id = elim (Option-cases (find_slot (has_id id) t.agents)) [
    | inl nowhere ↦ let e : (agent_init now id t).1 ≡ t = simp (on, nowhere) in to e unchanged
    | inr ((i, a), found) ↦ elim (Bool-cases (is_created a.state)) [
      | inl before ↦ elim (Bool-cases (is_ok (run_init a a.ops))) [
        | inl fine ↦
            let b = record a { state = ready; last_active = now } in
            let e : (agent_init now id t).1 ≡ write t i b = simp (on, found, before, fine) in
            to e (
              written id i a b (find_slot-IsFirst (has_id id) t.agents i a found) refl
                (inr (made_ready-from a.state before)))
        | inr bad ↦
            let b = record a { state = error } in
            let e : (agent_init now id t).1 ≡ write t i b = simp (on, found, before, bad) in
            to e (
              written id i a b (find_slot-IsFirst (has_id id) t.agents i a found) refl
                (inr (init_failed-from a.state before)))
      ]
      | inr other ↦ let e : (agent_init now id t).1 ≡ t = simp (on, found, other) in to e unchanged
    ]
  ]

  stop-Change : (now id : ℕ) → Change t (stop now id) (agent_stop now id t).1
  unfolding agent_stop
  stop-Change now id = elim (Option-cases (find_slot (has_id id) t.agents)) [
    | inl nowhere ↦ let e : (agent_stop now id t).1 ≡ t = simp (on, nowhere) in to e unchanged
    | inr ((i, a), found) ↦
        elim (Bool-cases (not (is_running a.state) && not (is_waiting a.state))) [
          | inl other ↦
              let e : (agent_stop now id t).1 ≡ t = simp (on, found, other) in to e unchanged
          | inr before ↦
              let b = record a { state = completed; last_active = now } in
              let e : (agent_stop now id t).1 ≡ write t i b = simp (on, found, before) in
              to e (
                written id i a b (find_slot-IsFirst (has_id id) t.agents i a found) refl
                  (inr (stopped-from a.state before)))
        ]
  ]

  set_priority-Change :
      (id priority : ℕ) → Change t (set_priority id priority) (agent_set_priority id priority t).1
  unfolding agent_set_priority
  set_priority-Change id priority = elim (Option-cases (find_slot (has_id id) t.agents)) [
    | inl nowhere ↦
        let e : (agent_set_priority id priority t).1 ≡ t = simp (on, nowhere) in to e unchanged
    | inr ((i, a), found) ↦
        let b = record a { priority = priority } in
        let e : (agent_set_priority id priority t).1 ≡ write t i b = simp (on, found) in
        to e (written id i a b (find_slot-IsFirst (has_id id) t.agents i a found) refl (inl refl))
  ]

  destroy-Change : (id : ℕ) → Change t (destroy id) (agent_destroy id t).1.1
  unfolding agent_destroy
  destroy-Change id = elim (Option-cases (find_slot (has_id id) t.agents)) [
    | inl nowhere ↦ let e : (agent_destroy id t).1.1 ≡ t = simp (on, nowhere) in to e unchanged
    | inr ((i, a), found) ↦
        let e : (agent_destroy id t).1.1 ≡ without t i a = simp (on, found) in
        to e (removed id i a refl (find_slot-IsFirst (has_id id) t.agents i a found))
  ]

  pub call-Change : (c : Call) → Change t c (call c t)
  call-Change (create now config) = create-Change now config
  call-Change (destroy id) = destroy-Change id
  call-Change (init now id) = init-Change now id
  call-Change (start now id) = start-Change now id
  call-Change (stop now id) = stop-Change now id
  call-Change (set_priority id priority) = set_priority-Change id priority
