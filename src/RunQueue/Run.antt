-- ===== src/RunQueue/Run.antt =====
-- Sequences of calls of agent_runtime_top/src/scheduler.c against the bounded queue.
use agent_nucleus.Prelude.{
  ℕ, ◌≤◌, ◌<◌, ◌^◌, ◌≡◌, refl, sym, ◌∙◌, ap, subst, true, false, Option, none, some, List, [], ◌∷◌,
  arith,
}
use agent_nucleus.Arrays.{Status, replicate, length-replicate}
use agent_nucleus.RunQueue.State.{
  RunQueue, SchedulerConfig, scheduler_init, scheduler_add_agent, scheduler_remove_agent,
  scheduler_update_agent, scheduler_pick_next, zero_run_queue,
}
use agent_nucleus.RunQueue.Queue.{join, depart, promote, next}
use agent_nucleus.RunQueue.Valid.{IsValid, contents, Holds}
use agent_nucleus.RunQueue.Refine.{
  Agrees, Picks, scheduler_add_agent_refines, scheduler_remove_agent_refines,
  scheduler_update_agent_refines, scheduler_pick_next_refines,
}

pub data Call : Type 0 where
  add remove update : ℕ → Call
  pick : Call

-- The state after a call; a pick that waits leaves it.
abbrev after_pick : RunQueue → Option (ℕ × RunQueue) → RunQueue
after_pick q none = q
after_pick q (some (id, t)) = t

abbrev pub call : Call → RunQueue → RunQueue
call (add id) q = (scheduler_add_agent id q).1
call (remove id) q = (scheduler_remove_agent id q).1
call (update id) q = (scheduler_update_agent id q).1
call pick q = after_pick q (scheduler_pick_next q)

abbrev pub calls : List Call → RunQueue → RunQueue
calls [] q = q
calls (c ∷ cs) q = calls cs (call c q)

-- The same on the queue.
abbrev pub serve : ℕ → Call → List ℕ → List ℕ
serve capacity (add id) xs = (join capacity id xs).1
serve capacity (remove id) xs = (depart id xs).1
serve capacity (update id) xs = (promote id xs).1
serve capacity pick xs = (next xs).1

abbrev pub serves : ℕ → List Call → List ℕ → List ℕ
serves capacity [] xs = xs
serves capacity (c ∷ cs) xs = serves capacity cs (serve capacity c xs)

abbrev HoldsAt : ℕ → RunQueue → List ℕ → Type 0
HoldsAt size q xs = (q.queue_size ≡ size) × Holds q xs

HoldsAt-Agrees :
    (size : ℕ) (r : Status × RunQueue) (s : Status × List ℕ)
    → Agrees size r s
    → HoldsAt size r.1 s.1
HoldsAt-Agrees size (status, t) (answer, xs) (e, h) = h

HoldsAt-Picks :
    (q : RunQueue) (r : Option (ℕ × RunQueue)) (s : ℕ × List ℕ)
    → IsValid q
    → s.1 ≡ (next (contents q)).1
    → Picks q r s
    → HoldsAt q.queue_size (after_pick q r) s.1
unfolding next
HoldsAt-Picks q none s v e (empty, runs) =
    (refl, (v, empty ∙ sym (e ∙ ap (λ xs. (next xs).1) empty)))
HoldsAt-Picks q (some (id, t)) (front, xs) v e (same, h) = h

-- One call.
call-HoldsAt :
    (c : Call) (q : RunQueue)
    → IsValid q
    → HoldsAt q.queue_size (call c q) (serve q.queue_size c (contents q))
call-HoldsAt (add id) q v =
    HoldsAt-Agrees q.queue_size (scheduler_add_agent id q) (join q.queue_size id (contents q))
      (scheduler_add_agent_refines id q v)
call-HoldsAt (remove id) q v =
    HoldsAt-Agrees q.queue_size (scheduler_remove_agent id q) (depart id (contents q))
      (scheduler_remove_agent_refines id q v)
call-HoldsAt (update id) q v =
    HoldsAt-Agrees q.queue_size (scheduler_update_agent id q) (promote id (contents q))
      (scheduler_update_agent_refines id q v)
call-HoldsAt pick q v =
    HoldsAt-Picks q (scheduler_pick_next q) (next (contents q)) v refl
      (scheduler_pick_next_refines q v)

calls-HoldsAt :
    (size : ℕ) (cs : List Call) (q : RunQueue) (xs : List ℕ)
    → HoldsAt size q xs
    → HoldsAt size (calls cs q) (serves size cs xs)
calls-HoldsAt size [] q xs h = h
calls-HoldsAt size (c ∷ cs) q xs (capacity, (v, holds)) =
    calls-HoldsAt size cs (call c q) (serve size c xs) (
      subst (λ n. HoldsAt n (call c q) (serve n c xs)) capacity
        (subst (λ ys. HoldsAt q.queue_size (call c q) (serve q.queue_size c ys)) holds
          (call-HoldsAt c q v)))

abbrev fresh_queue : SchedulerConfig → RunQueue
fresh_queue config = record zero_run_queue {
  queue = replicate config.max_agents 0;
  queue_size = config.max_agents;
  config = config;
  initialized = true;
}

-- A queue that scheduler_init made is empty and valid.
pub scheduler_init-HoldsAt :
    (config : SchedulerConfig) (q : RunQueue)
    → 0 < config.max_agents
    → config.max_agents ≤ 2 ^ 31
    → q.initialized ≡ false
    → HoldsAt config.max_agents (scheduler_init true (some config) q).1 []
unfolding scheduler_init
scheduler_init-HoldsAt config q some_room fits fresh =
    subst (λ t. HoldsAt config.max_agents t []) (sym made)
      (
        refl,
        (
          record {
            initialized = refl;
            ring = record { size_fits = fits; head_in = some_room };
            full_array = length-replicate config.max_agents 0;
            count_in = omega arith;
            tail_at = omega arith;
          },
          refl,
        ),
      )
  where
    made : (scheduler_init true (some config) q).1 ≡ fresh_queue config
    made = ground arith

-- After any calls of scheduler_add_agent, scheduler_remove_agent, scheduler_update_agent and
-- scheduler_pick_next on a queue that scheduler_init made (for at least 1 and at most 2 ^ 31
-- agents), the array is valid and holds the list that the bounded queue holds after the same calls.
pub calls_refine :
    (config : SchedulerConfig) (cs : List Call)
    → 0 < config.max_agents
    → config.max_agents ≤ 2 ^ 31
    → Holds
        (calls cs (scheduler_init true (some config) zero_run_queue).1)
        (serves config.max_agents cs [])
calls_refine config cs some_room fits =
    (calls-HoldsAt config.max_agents cs (scheduler_init true (some config) zero_run_queue).1 []
      (scheduler_init-HoldsAt config zero_run_queue some_room fits refl)).1
