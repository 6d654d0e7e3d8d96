-- ===== src/Agents/Wait.antt =====
-- agent_wait of agent_runtime_top/src/agent.c.
use agent_nucleus.Prelude.{
  ℕ, suc, ◌≤◌, ◌≡◌, refl, true, false, some, List, [], ◌∷◌, ◌++◌, inl, inr, Bool-cases,
  Option-cases, arith, leb, ◌==◌,
}
use agent_nucleus.Prelude.Int.{ℤ, pos}
use agent_nucleus.Slots.{find_slot}
use agent_nucleus.Agents.State.{AgentTable, has_id, is_over, poll, polls, agent_wait, ok, failed}

-- A poll that reads a time past the timeout is the last one.
poll-late :
    (id n elapsed : ℕ) (t : AgentTable)
    → suc n ≤ elapsed
    → (r : ℤ) × (poll id (pos (suc n)) elapsed t ≡ some r)
unfolding poll
poll-late id n elapsed t late = elim (Option-cases (find_slot (has_id id) t.agents)) [
  | inl nowhere ↦
      let e : poll id (pos (suc n)) elapsed t ≡ some failed = rw (nowhere, poll) refl in (failed, e)
  | inr ((i, a), found) ↦ elim (Bool-cases (is_over a.state)) [
    | inl over ↦
        let e : poll id (pos (suc n)) elapsed t ≡ some ok = rw (found, poll) (rw over refl) in
        (ok, e)
    | inr alive ↦
        let past : leb (suc n) elapsed ≡ true = ground arith in
        let positive : (suc n == 0) ≡ false = ground arith in
        let e : poll id (pos (suc n)) elapsed t ≡ some failed =
          rw (found, poll) (rw alive (rw (positive, past) refl)) in
        (failed, e)
  ]
]

polls-late :
    (id n elapsed : ℕ) (u : AgentTable) (views more : List (ℕ × AgentTable))
    → suc n ≤ elapsed
    → (r : ℤ) × (polls id (pos (suc n)) (views ++ ((elapsed, u) ∷ more)) ≡ some r)
unfolding polls
polls-late id n elapsed u [] more late =
    let last = poll-late id n elapsed u late in (last.0, rw (last.1, polls) refl)
polls-late id n elapsed u ((early, t) ∷ views) more late =
    let rest = polls-late id n elapsed u views more late in
    elim (Option-cases (poll id (pos (suc n)) early t)) [
      | inl again ↦ (rest.0, rw (again, polls) rest.1)
      | inr (r, now) ↦ (r, rw (now, polls) refl)
    ]

-- A wait with a timeout has returned at the first poll that reads a time past the timeout, whatever
-- the polls before it saw.
pub agent_wait-returns :
    (id n elapsed : ℕ) (t u : AgentTable) (views more : List (ℕ × AgentTable))
    → suc n ≤ elapsed
    → (r : ℤ) × (agent_wait id (pos (suc n)) t (views ++ ((elapsed, u) ∷ more)) ≡ some r)
agent_wait-returns id n elapsed t u views more late = elim (Bool-cases t.initialized) [
  | inl on ↦ let rest = polls-late id n elapsed u views more late in (rest.0, rw on rest.1)
  | inr off ↦ (failed, rw off refl)
]
