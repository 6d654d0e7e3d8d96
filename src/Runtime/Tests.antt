-- ===== src/Runtime/Tests.antt =====
-- Runs of agent-runtime/src/runtime.cpp at concrete inputs.
use agent_nucleus.Prelude.{
  ◌≡◌, refl, Bool, true, false, Option, none, some, List, [], ◌∷◌, ◌>>=◌, Bytes, codes, arith, map,
  ℕ, ◌≤◌,
}
use agent_nucleus.Prelude.Int.{pos, negsuc}
use agent_nucleus.Table.{lookup, erase}
use agent_nucleus.Types.{AgentState, completed, failed, no_metrics, AgentTaskSpec, new_snapshot}
use agent_nucleus.Results.Region.{SharedMemoryRegion, resize, seal_read_only}
use agent_nucleus.Results.Store.{retain, publish}
use agent_nucleus.Invocation.Data.{ok}
use agent_nucleus.Scheduler.State.{empty_scheduler}
use agent_nucleus.Scheduler.Dispatch.{dispatch_locked}
use agent_nucleus.Scheduler.Submit.{submit_batch}
use agent_nucleus.Scheduler.Samples.{running_code, task, roomy, states, from_some, after}
use agent_nucleus.Scheduler.History.{Reachable, start, call, step, submits}
use agent_nucleus.Runtime.State.{
  no_region, returned, succeeded, RuntimeConfig, ProcessResult, AgentRuntime, World,
}
use agent_nucleus.Runtime.Command.{
  digits, decimal, publish_output, on_started, exit_answer, process_answer, finish_command,
  run_command, execute_command,
}
use agent_nucleus.Runtime.Execute.{
  finish_handler, run_handler, if_running, execute_handler, execute,
}
use agent_nucleus.Runtime.Round.{report, run_dispatched, worker_round}
use agent_nucleus.Runtime.Served.{IsServed, worker_round-IsServed}
use agent_nucleus.Runtime.Outputs.{IsStored, execute-IsStored}
use agent_nucleus.Runtime.Success.{IsSuccess, execute_command-IsSuccess}

unfoldable runtime_code : Unit {0}
unfolding running_code lookup erase resize seal_read_only retain publish digits decimal
    publish_output on_started exit_answer process_answer finish_command run_command execute_command
    finish_handler run_handler if_running execute_handler execute report run_dispatched worker_round
runtime_code = tt

abbrev config : RuntimeConfig
config = record { enable_cgroups = false; max_agent_output_bytes = 64; invocation_socket = [] }

abbrev region : SharedMemoryRegion
region = record { mapped = true; size = 64; region_id = 5; read_only = false }

abbrev ended : Bool → ℕ → ProcessResult
ended started code = record {
  started = started;
  timed_out = false;
  exit_code = pos code;
  output_bytes = 3;
  output_truncated = false;
  error = codes "refused";
}

-- A process that is started if it is admitted, and exits with `code`; and a handler with a large
-- output.
abbrev world : ℕ → World
world code = record {
  handlers = λ kind.
      some (λ snapshot. returned (record succeeded { output = region; output_length = 64 }));
  created_region = region;
  create_error = [];
  create_agent_group = none;
  attach = none;
  process_id = some (pos 42);
  run = λ answer. elim answer [ none ↦ ended true code | some error ↦ ended false 0 ];
  invoke_error = λ request. some [];
  call_result = λ request. record {
    response = record {
      agent_id = 0;
      process_id = negsuc 0;
      status = ok;
      message = [];
      context_id = 0;
      metrics = no_metrics;
      output_available = false;
      output = record {
        region_id = 0;
        region_size = 0;
        offset = 0;
        len = 0;
        data_type = 0;
        flags = 0;
        version = 1;
      };
    };
    output = no_region;
  };
  resizing = record { unmap = true; truncate = true; map = true; restore = true };
  sealing = record { unmap = true; seal = true; map = true };
  publish_error = [];
  duplicated = λ id. true;
  describe = λ error. [];
  now = 10;
  meanwhile = λ s. s;
}

abbrev command : AgentTaskSpec
command = record (task 7 []) { command = codes "true" ∷ [] }

unfoldable waiting_command : AgentRuntime
unfolding running_code
waiting_command = record {
  scheduler = from_some (after (submit_batch (command ∷ []) 5 empty_scheduler));
  result_store = [];
}

-- The states and the lengths of the results after a round.
abbrev summary : Option (AgentRuntime × Option ℕ) → Option (List AgentState × List ℕ)
summary r = r >>= λ p. some (states p.0.scheduler, map (λ e. e.1.reference.len) p.0.result_store)

round-completes :
    summary (worker_round config (world 0) roomy 9 20 waiting_command)
    ≡ some (completed ∷ [], 3 ∷ [])
unfolding runtime_code waiting_command
round-completes = refl

-- The output is kept when the command fails.
round-fails :
    summary (worker_round config (world 2) roomy 9 20 waiting_command) ≡ some (failed ∷ [], 3 ∷ [])
unfolding runtime_code waiting_command
round-fails = refl

waiting-Reachable : Reachable waiting_command.scheduler
unfolding waiting_command running_code step
waiting-Reachable = call start (submits (command ∷ []) 5) tt refl

worker_round-IsServed_example : IsServed (worker_round config (world 0) roomy 9 20 waiting_command)
worker_round-IsServed_example =
    worker_round-IsServed config (world 0) roomy 9 20 waiting_command (omega arith) (omega arith)
      (λ s h. h) waiting-Reachable

buffer : (answer : Option Bytes) → ((world 0).run answer).output_bytes ≤ 64
buffer none = omega arith
buffer (some error) = omega arith

execute-IsStored_example :
    IsStored config 7 []
      (execute config (world 0) (new_snapshot (task 7 []) 5) waiting_command).0.result_store
unfolding waiting_command
execute-IsStored_example =
    execute-IsStored config (world 0) (new_snapshot (task 7 []) 5) waiting_command buffer tt

-- The agent 7 was dispatched, and its command is run.
unfoldable dispatched_command : AgentRuntime
unfolding runtime_code waiting_command
dispatched_command = record waiting_command {
  scheduler = from_some (dispatch_locked roomy 9 waiting_command.scheduler >>= λ p. some p.0);
}

command-succeeds : (execute_command config (world 0) 7 dispatched_command).1.success ≡ true
unfolding runtime_code dispatched_command waiting_command
command-succeeds = refl

execute_command-IsSuccess_example :
    IsSuccess config 7 (ended true 0) (execute_command config (world 0) 7 dispatched_command).0
execute_command-IsSuccess_example =
    execute_command-IsSuccess config (world 0) 7 (λ error. refl) dispatched_command command-succeeds
