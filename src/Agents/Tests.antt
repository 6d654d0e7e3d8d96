-- ===== src/Agents/Tests.antt =====
-- Runs of agent_runtime_top/src/agent.c at concrete inputs.
use agent_nucleus.Prelude.{◌≡◌, refl, some, List, [], ◌∷◌, ◌++◌, codes, arith}
use agent_nucleus.Prelude.Int.{ℤ, pos}
use agent_nucleus.Slots.{find_slot}
use agent_nucleus.Agents.State.{
  AgentConfig, AgentTable, created, running, zero_agents, agent_runtime_init, agent_create,
  agent_destroy, agent_init, agent_start, agent_stop, agent_set_priority, agent_get_state,
  agent_wait, poll, polls, failed,
}
use agent_nucleus.Agents.Changes.{Call, create, destroy, init, start, stop, call}
use agent_nucleus.Agents.Valid.{IsValid, agent_runtime_init-IsValid, call-IsValid}
use agent_nucleus.Agents.Lifecycle.{calls, Leads, calls-Leads}
use agent_nucleus.Agents.Wait.{agent_wait-returns}

unfoldable agent_code : Unit {0}
unfolding find_slot zero_agents agent_runtime_init agent_create agent_destroy agent_init agent_start
    agent_stop agent_set_priority agent_get_state poll polls
agent_code = tt

abbrev planner : AgentConfig
planner = record { name = codes "Planner"; priority = 5 }

abbrev initial : AgentTable
initial = (agent_runtime_init zero_agents).1

abbrev first_calls : List Call
first_calls =
    create 10 (some planner) ∷ create 11 (some planner) ∷ init 12 2 ∷ start 13 2 ∷ start 14 1 ∷ []

abbrev after_calls : AgentTable
after_calls = calls first_calls initial

second_runs : agent_get_state 2 after_calls ≡ running
unfolding agent_code
second_runs = refl

first_is_created : agent_get_state 1 after_calls ≡ created
unfolding agent_code
first_is_created = refl

counts : after_calls.count ≡ 2
unfolding agent_code
counts = refl

-- agent_destroy takes a free slot for the agent 0, and the count wraps.
destroys_none : (agent_destroy 0 initial).1.1.count ≡ 4294967295
unfolding agent_code
destroys_none = refl

times_out :
    agent_wait 2 (pos 5) after_calls ((1, after_calls) ∷ (6, after_calls) ∷ []) ≡ some failed
unfolding agent_code
times_out = refl

call-IsValid_example : IsValid (call (create 10 (some planner)) initial)
unfolding agent_code
call-IsValid_example =
    call-IsValid (create 10 (some planner)) initial (agent_runtime_init-IsValid zero_agents refl)
      (omega arith) (λ e. cc)

calls-Leads_example :
    Leads
      (agent_get_state 2 after_calls)
      (agent_get_state 2 (calls (stop 20 2 ∷ destroy 1 ∷ []) after_calls))
unfolding agent_code
calls-Leads_example =
    calls-Leads (stop 20 2 ∷ destroy 1 ∷ []) after_calls 2 refl (omega arith) (omega arith)
      (omega arith) ((λ e. cc), ((λ e. cc), tt))

agent_wait-returns_example :
    (r : ℤ) × (agent_wait 2 (pos 5) after_calls (((1, after_calls) ∷ []) ++ ((6, after_calls) ∷ []))
      ≡ some r)
agent_wait-returns_example =
    agent_wait-returns 2 4 6 after_calls after_calls ((1, after_calls) ∷ []) [] (omega arith)
