-- ===== src/RunQueue/State.antt =====
-- agent_runtime_top/src/scheduler.c: the state g_scheduler and the functions on it.
use agent_nucleus.Prelude.{
  ℕ, zero, suc, ◌+◌, ◌-◌, ◌%◌, Bool, true, false, not, ◌||◌, Option, none, some, List, [], leb,
  ◌==◌, if◌then◌else◌, u32_mod, u64_mod,
}
use agent_nucleus.Arrays.{Status, success, failure, get_or, set, replicate}

pub data Policy : Type 0 where
  fifo rr priority : Policy

pub record SchedulerConfig : Type 0 where
  pub max_agents : ℕ
  pub time_slice_ms : ℕ
  pub preemptive : Bool
  pub policy : Policy

pub record SchedulerStats : Type 0 where
  pub total_schedules : ℕ
  pub context_switches : ℕ
  pub idle_time : ℕ
  pub busy_time : ℕ

pub record RunQueue : Type 0 where
  pub queue : List ℕ
  pub queue_size : ℕ
  pub head : ℕ
  pub tail : ℕ
  pub count : ℕ
  pub config : SchedulerConfig
  pub stats : SchedulerStats
  pub running : Bool
  pub initialized : Bool

-- All zero, as in a static object and after memset.
abbrev pub zero_config : SchedulerConfig
zero_config = record { max_agents = 0; time_slice_ms = 0; preemptive = false; policy = fifo }

abbrev pub zero_stats : SchedulerStats
zero_stats = record { total_schedules = 0; context_switches = 0; idle_time = 0; busy_time = 0 }

abbrev pub zero_run_queue : RunQueue
zero_run_queue = record {
  queue = [];
  queue_size = 0;
  head = 0;
  tail = 0;
  count = 0;
  config = zero_config;
  stats = zero_stats;
  running = false;
  initialized = false;
}

-- `allocated` is whether calloc gave memory. Where it did not, the queue's size stays written.
unfoldable pub scheduler_init : Bool → Option SchedulerConfig → RunQueue → Status × RunQueue
scheduler_init allocated none q = (failure, q)
scheduler_init allocated (some config) q =
    if q.initialized || config.max_agents == 0
    then (failure, q)
    else if not allocated
    then (failure, record zero_run_queue { queue_size = config.max_agents })
    else (
      success,
      record zero_run_queue {
        queue = replicate config.max_agents 0;
        queue_size = config.max_agents;
        config = config;
        initialized = true;
      },
    )

abbrev pub scheduler_destroy : RunQueue → RunQueue
scheduler_destroy q = if not q.initialized then q else zero_run_queue

-- `(head + i) % queue_size` on uint32_t.
abbrev pub slot : RunQueue → ℕ → ℕ
slot q i = (q.head + i) % u32_mod % q.queue_size

unfoldable pub scheduler_add_agent : ℕ → RunQueue → Status × RunQueue
scheduler_add_agent id q =
    if not q.initialized || id == 0
    then (failure, q)
    else if leb q.queue_size q.count
    then (failure, q)
    else (
      success,
      record q {
        queue = set q.queue q.tail id;
        tail = (q.tail + 1) % u32_mod % q.queue_size;
        count = (q.count + 1) % u32_mod;
      },
    )

-- The loop that looks for `id`, with `n` indices before it: the index where it stands.
unfoldable pub find_from : ℕ → RunQueue → ℕ → ℕ → Option ℕ
find_from id q zero i = none
find_from id q (suc n) i =
    let rest = find_from id q n (i + 1) in
    if get_or q.queue (slot q i) 0 == id then some i else rest

-- The loop that moves the `n` elements after `j` forward by one.
unfoldable pub move_forward : RunQueue → ℕ → ℕ → List ℕ → List ℕ
move_forward q zero j queue = queue
move_forward q (suc n) j queue =
    move_forward q n (j + 1) (set queue (slot q j) (get_or queue (slot q (j + 1)) 0))

unfoldable pub scheduler_remove_agent : ℕ → RunQueue → Status × RunQueue
scheduler_remove_agent id q =
    if not q.initialized || id == 0 then (failure, q) else elim (find_from id q q.count 0) [
      | none ↦ (failure, q)
      | some i ↦ (
        success,
        record q {
          queue = move_forward q (q.count - 1 - i) i q.queue;
          tail = ((q.tail + u32_mod - 1) % u32_mod + q.queue_size) % u32_mod % q.queue_size;
          count = q.count - 1;
        },
      )
    ]

-- The exchange of the elements at `j` and `j - 1`, for `j` from the given one down to 1.
unfoldable pub move_to_front : RunQueue → ℕ → List ℕ → List ℕ
move_to_front q zero queue = queue
move_to_front q (suc j) queue =
    let temp = get_or queue (slot q (suc j)) 0 in
    move_to_front q j (set (set queue (slot q (suc j)) (get_or queue (slot q j) 0)) (slot q j) temp)

unfoldable pub scheduler_update_agent : ℕ → RunQueue → Status × RunQueue
scheduler_update_agent id q =
    if not q.initialized || id == 0 then (failure, q) else elim (find_from id q q.count 0) [
      | none ↦ (failure, q)
      | some i ↦ (success, record q { queue = move_to_front q i q.queue })
    ]

-- The agent that is picked, 0 for none; `none` is a call that waits on the condition variable.
unfoldable pub scheduler_pick_next : RunQueue → Option (ℕ × RunQueue)
scheduler_pick_next q =
    if not q.initialized
    then some (0, q)
    else if q.count == 0
    then if q.running then none else some (0, q)
    else some (
      get_or q.queue q.head 0,
      record q {
        head = (q.head + 1) % u32_mod % q.queue_size;
        count = q.count - 1;
        stats = record q.stats {
          total_schedules = (q.stats.total_schedules + 1) % u64_mod;
          context_switches = (q.stats.context_switches + 1) % u64_mod;
        };
      },
    )

abbrev pub scheduler_yield : ℕ → RunQueue → Status × RunQueue
scheduler_yield id q =
    if not q.initialized || id == 0 then (failure, q) else scheduler_add_agent id q

abbrev pub scheduler_block : ℕ → RunQueue → Status × RunQueue
scheduler_block id q =
    if not q.initialized || id == 0 then (failure, q) else scheduler_remove_agent id q

abbrev pub scheduler_unblock : ℕ → RunQueue → Status × RunQueue
scheduler_unblock id q =
    if not q.initialized || id == 0 then (failure, q) else scheduler_add_agent id q

abbrev pub scheduler_start : RunQueue → Status × RunQueue
scheduler_start q =
    if not q.initialized then (failure, q) else (success, record q { running = true })

abbrev pub scheduler_stop : RunQueue → Status × RunQueue
scheduler_stop q =
    if not q.initialized then (failure, q) else (success, record q { running = false })

abbrev pub scheduler_get_stats : RunQueue → Option SchedulerStats
scheduler_get_stats q = if not q.initialized then none else some q.stats
