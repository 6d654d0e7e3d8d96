-- ===== src/RunQueue/Tests.antt =====
-- Runs of agent_runtime_top/src/scheduler.c at concrete inputs.
use agent_nucleus.Prelude.{◌≡◌, refl, true, false, some, List, [], ◌∷◌, arith}
use agent_nucleus.RunQueue.State.{
  RunQueue, SchedulerConfig, fifo, zero_run_queue, scheduler_init, scheduler_add_agent, find_from,
  move_forward, scheduler_remove_agent, move_to_front, scheduler_update_agent, scheduler_pick_next,
}
use agent_nucleus.RunQueue.Valid.{contents, Holds}
use agent_nucleus.RunQueue.Run.{Call, add, remove, update, pick, calls, serves, calls_refine}

-- Room for three agents; the calls wrap around the end of the array.
abbrev three : SchedulerConfig
three = record { max_agents = 3; time_slice_ms = 10; preemptive = false; policy = fifo }

abbrev some_calls : List Call
some_calls = add 7 ∷ add 8 ∷ pick ∷ add 9 ∷ add 5 ∷ add 6 ∷ remove 9 ∷ []

abbrev after_calls : RunQueue
after_calls = calls some_calls (scheduler_init true (some three) zero_run_queue).1

runs : contents after_calls ≡ 8 ∷ 5 ∷ []
unfolding scheduler_init scheduler_add_agent scheduler_remove_agent scheduler_pick_next find_from
    move_forward
runs = refl

-- The same agent can join twice.
joins_twice :
    contents (calls (add 4 ∷ add 4 ∷ []) (scheduler_init true (some three) zero_run_queue).1)
    ≡ 4 ∷ 4 ∷ []
unfolding scheduler_init scheduler_add_agent
joins_twice = refl

updates :
    contents (
      calls
        (add 4 ∷ add 5 ∷ add 6 ∷ update 6 ∷ [])
        (scheduler_init true (some three) zero_run_queue).1)
    ≡ 6 ∷ 4 ∷ 5 ∷ []
unfolding scheduler_init scheduler_add_agent scheduler_update_agent find_from move_to_front
updates = refl

calls_refine_example : Holds after_calls (serves 3 some_calls [])
calls_refine_example = calls_refine three some_calls (omega arith) (omega arith)
