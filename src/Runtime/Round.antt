-- ===== src/Runtime/Round.antt =====
-- agent-runtime/src/runtime.cpp: one round of worker_loop.
use agent_nucleus.Prelude.{ℕ, Option, none, some, if◌then◌else◌, ◌>>=◌}
use agent_nucleus.Table.{lookup}
use agent_nucleus.Scheduler.State.{Scheduler, Verdict}
use agent_nucleus.Scheduler.Dispatch.{MemorySnapshot, dispatch_locked}
use agent_nucleus.Scheduler.Lifecycle.{complete, fail}
use agent_nucleus.Runtime.State.{AgentExecutionResult, RuntimeConfig, AgentRuntime, World}
use agent_nucleus.Runtime.Execute.{execute}

-- The call of complete or fail, the clock at `later`.
unfoldable pub report : ℕ → ℕ → AgentExecutionResult → Scheduler → Option (Scheduler × Verdict)
report id later result s =
    if result.success then complete id later s else fail id result.message later s

-- The agent that was dispatched is executed, and what came of it is reported.
unfoldable pub run_dispatched :
    RuntimeConfig → World → ℕ → Option ℕ → AgentRuntime → Option (AgentRuntime × Option ℕ)
run_dispatched config w later none rt = some (rt, none)
run_dispatched config w later (some id) rt = elim (lookup id rt.scheduler.nodes) [
  | none ↦ some (rt, none)
  | some node ↦
      let (executed, result) = execute config w node.snapshot rt in
      report id later result executed.scheduler >>= λ r.
      some (record executed { scheduler = r.0 }, some id)
]

-- A round without its sleep. The answer is the agent that was executed.
unfoldable pub worker_round :
    RuntimeConfig → World → MemorySnapshot → ℕ → ℕ → AgentRuntime → Option (AgentRuntime × Option ℕ)
worker_round config w m dispatch_time later rt =
    dispatch_locked m dispatch_time rt.scheduler >>= λ d.
    run_dispatched config w later d.1 (record rt { scheduler = d.0 })
