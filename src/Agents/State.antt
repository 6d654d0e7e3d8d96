-- ===== src/Agents/State.antt =====
-- agent_runtime_top/src/agent.c: the state g_agent_table and the functions on it.
use agent_nucleus.Prelude.{
  ℕ, zero, suc, ◌+◌, ◌-◌, ◌%◌, Bool, true, false, not, ◌&&◌, ◌||◌, Option, none, some, List, [],
  ◌∷◌, ◌++◌, leb, ◌==◌, if◌then◌else◌, Bytes, codes, u32_mod, u64_mod,
}
use agent_nucleus.Prelude.Int.{ℤ, pos, negsuc}
use agent_nucleus.Arrays.{set, replicate}
use agent_nucleus.Slots.{find_slot}

pub data AgentState : Type 0 where
  created ready running waiting completed error : AgentState

-- The two callbacks that agent.c calls, each with the agent's context, an address.
pub record AgentOps : Type 0 where
  pub init : Option (ℕ → ℤ)
  pub cleanup : Option (ℕ → ℤ)

pub record AgentConfig : Type 0 where
  pub name : Bytes
  pub priority : ℕ

-- `name` is the string up to its NUL; `context` is an address, 0 for NULL.
pub record Agent : Type 0 where
  pub id : ℕ
  pub name : Bytes
  pub state : AgentState
  pub priority : ℕ
  pub context : ℕ
  pub ops : Option AgentOps
  pub create_time : ℕ
  pub last_active : ℕ

pub record AgentTable : Type 0 where
  pub agents : List Agent
  pub count : ℕ
  pub next_id : ℕ
  pub initialized : Bool

-- What the functions call and free, in order.
pub data Effect : Type 0 where
  cleaned_up : ℕ → Effect
  freed : ℕ → Effect

abbrev pub no_agent : Agent
no_agent = record {
  id = 0;
  name = [];
  state = created;
  priority = 0;
  context = 0;
  ops = none;
  create_time = 0;
  last_active = 0;
}

abbrev pub max_agents : ℕ
max_agents = 256

unfoldable pub zero_agents : AgentTable
zero_agents = record {
  agents = replicate max_agents no_agent;
  count = 0;
  next_id = 0;
  initialized = false;
}

abbrev pub ok : ℤ
ok = pos 0

abbrev pub failed : ℤ
failed = negsuc 0

unfoldable pub agent_runtime_init : AgentTable → ℤ × AgentTable
unfolding zero_agents
agent_runtime_init t =
    if t.initialized
    then (failed, t)
    else (ok, record zero_agents { next_id = 1; initialized = true })

abbrev pub has_id : ℕ → Agent → Bool
has_id id a = a.id == id

-- `free` of a context that is not NULL.
abbrev free_context : Agent → List Effect
free_context a = if a.context == 0 then [] else freed a.context ∷ []

abbrev free_contexts : List Agent → List Effect
free_contexts [] = []
free_contexts (a ∷ agents) =
    let rest = free_contexts agents in
    if a.id == 0 || a.context == 0 then rest else freed a.context ∷ rest

unfoldable pub agent_runtime_destroy : AgentTable → List Effect × AgentTable
agent_runtime_destroy t =
    if not t.initialized then ([], t) else (free_contexts t.agents, zero_agents)

-- strncpy of the first 63 bytes, with a NUL after them.
abbrev first_bytes : ℕ → Bytes → Bytes
first_bytes zero s = []
first_bytes (suc n) [] = []
first_bytes (suc n) (c ∷ s) = c ∷ first_bytes n s

abbrev pub new_agent : ℕ → ℕ → AgentConfig → Agent
new_agent now id config = record {
  id = id;
  name = first_bytes 63 config.name;
  state = created;
  priority = config.priority;
  context = 0;
  ops = none;
  create_time = now;
  last_active = now;
}

-- The id, 0 for a call that fails. `now` is what get_time_ms answers.
unfoldable pub agent_create : ℕ → Option AgentConfig → AgentTable → ℕ × AgentTable
agent_create now none t = (0, t)
agent_create now (some config) t =
    if not t.initialized then (0, t) else elim (find_slot (has_id 0) t.agents) [
      | none ↦ (0, t)
      | some (i, a) ↦ (
        t.next_id,
        record t {
          agents = set t.agents i (new_agent now t.next_id config);
          next_id = (t.next_id + 1) % u64_mod;
          count = (t.count + 1) % u32_mod;
        },
      )
    ]

-- The cleanup callback, where there is one.
abbrev run_cleanup : Agent → Option AgentOps → List Effect
run_cleanup a none = []
run_cleanup a (some ops) = elim ops.cleanup [ none ↦ [] | some f ↦ cleaned_up a.context ∷ [] ]

unfoldable pub agent_destroy : ℕ → AgentTable → ℤ × (List Effect × AgentTable)
agent_destroy id t =
    if not t.initialized then (failed, ([], t)) else elim (find_slot (has_id id) t.agents) [
      | none ↦ (failed, ([], t))
      | some (i, a) ↦ (
        ok,
        (
          run_cleanup a a.ops ++ free_context a,
          record t {
            agents = set t.agents i (record a { id = 0; context = 0; state = created });
            count = (t.count + u32_mod - 1) % u32_mod;
          },
        ),
      )
    ]

-- What the init callback answers, 0 where there is none.
abbrev pub run_init : Agent → Option AgentOps → ℤ
run_init a none = ok
run_init a (some ops) = elim ops.init [ none ↦ ok | some f ↦ f a.context ]

abbrev pub is_ok : ℤ → Bool
is_ok (pos n) = n == 0
is_ok (negsuc n) = false

abbrev pub is_created : AgentState → Bool
is_created created = true
is_created s = false

unfoldable pub agent_init : ℕ → ℕ → AgentTable → ℤ × AgentTable
agent_init now id t =
    if not t.initialized then (failed, t) else elim (find_slot (has_id id) t.agents) [
      | none ↦ (failed, t)
      | some (i, a) ↦
          if not (is_created a.state)
          then (failed, t)
          else if not (is_ok (run_init a a.ops))
          then (run_init a a.ops, record t { agents = set t.agents i (record a { state = error }) })
          else (
            ok,
            record t { agents = set t.agents i (record a { state = ready; last_active = now }) },
          )
    ]

abbrev pub is_ready : AgentState → Bool
is_ready ready = true
is_ready s = false

unfoldable pub agent_start : ℕ → ℕ → AgentTable → ℤ × AgentTable
agent_start now id t =
    if not t.initialized then (failed, t) else elim (find_slot (has_id id) t.agents) [
      | none ↦ (failed, t)
      | some (i, a) ↦ if not (is_ready a.state) then (failed, t) else (
        ok,
        record t { agents = set t.agents i (record a { state = running; last_active = now }) },
      )
    ]

abbrev pub is_running : AgentState → Bool
is_running running = true
is_running s = false

abbrev pub is_waiting : AgentState → Bool
is_waiting waiting = true
is_waiting s = false

unfoldable pub agent_stop : ℕ → ℕ → AgentTable → ℤ × AgentTable
agent_stop now id t =
    if not t.initialized then (failed, t) else elim (find_slot (has_id id) t.agents) [
      | none ↦ (failed, t)
      | some (i, a) ↦
          if not (is_running a.state) && not (is_waiting a.state) then (failed, t) else (
            ok,
            record t {
              agents = set t.agents i (record a { state = completed; last_active = now });
            },
          )
    ]

abbrev pub is_over : AgentState → Bool
is_over completed = true
is_over error = true
is_over s = false

-- One poll of agent_wait: `none` sleeps and polls again. `elapsed` is the time since the start, as
-- the poll reads it, and `timeout_ms` an int.
unfoldable pub poll : ℕ → ℤ → ℕ → AgentTable → Option ℤ
poll id timeout_ms elapsed t = elim (find_slot (has_id id) t.agents) [
  | none ↦ some failed
  | some (i, a) ↦ if is_over a.state then some ok else elim timeout_ms [
    | pos n ↦ if not (n == 0) && leb n elapsed then some failed else none
    | negsuc n ↦ none
  ]
]

-- The polls, with what each of them sees; `none` has not returned at the last of them.
unfoldable pub polls : ℕ → ℤ → List (ℕ × AgentTable) → Option ℤ
polls id timeout_ms [] = none
polls id timeout_ms ((elapsed, t) ∷ views) =
    let rest = polls id timeout_ms views in
    elim (poll id timeout_ms elapsed t) [ none ↦ rest | some result ↦ some result ]

abbrev pub agent_wait : ℕ → ℤ → AgentTable → List (ℕ × AgentTable) → Option ℤ
agent_wait id timeout_ms t views =
    if not t.initialized then some failed else polls id timeout_ms views

unfoldable pub agent_get_state : ℕ → AgentTable → AgentState
agent_get_state id t =
    if not t.initialized
    then created
    else elim (find_slot (has_id id) t.agents) [ none ↦ created | some (i, a) ↦ a.state ]

abbrev pub agent_state_str : AgentState → Bytes
agent_state_str created = codes "CREATED"
agent_state_str ready = codes "READY"
agent_state_str running = codes "RUNNING"
agent_state_str waiting = codes "WAITING"
agent_state_str completed = codes "COMPLETED"
agent_state_str error = codes "ERROR"

unfoldable pub agent_set_priority : ℕ → ℕ → AgentTable → ℤ × AgentTable
agent_set_priority id priority t =
    if not t.initialized then (failed, t) else elim (find_slot (has_id id) t.agents) [
      | none ↦ (failed, t)
      | some (i, a) ↦ (ok, record t { agents = set t.agents i (record a { priority = priority }) })
    ]
