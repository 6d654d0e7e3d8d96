-- ===== src/Lib.antt =====
-- AgentNucleus: a runtime that schedules agents on one machine.
--
-- agent-runtime is the lower runtime: a scheduler of agents with dependencies, priorities and
-- resource requests (agent-runtime/src/scheduler.cpp), which the daemon drives and which clients
-- reach over a binary protocol. agent_runtime_top is the upper runtime around a language model.
--
-- Its C modules keep a run queue (scheduler.c), a table of agents (agent.c), a table of resources
-- (resource.c) and a pool of cache blocks (kv_cache.c); context_manager.cpp shares the sequences of
-- the model among contexts.
--
-- Prelude: tests into Bool, options, native lists, sets of numbers, 64-bit sums and integers.
-- Table: an unordered_map as an association list; `find` is lookup, `at` is lookup with `none` for
--   the exception, a write through a reference is adjust.
-- Types: agent-runtime/include/agent_runtime/types.h.
-- Scheduler: the class AgentScheduler. Scheduler/State has its members and shared helpers,
--   Scheduler/Dispatch dispatch_locked, Scheduler/Cascade cancel_descendants_locked and the loop of
--   complete, Scheduler/Lifecycle the operations on one agent, Scheduler/Submit submit_batch and
--   graph_has_cycle_locked.
--   Every public operation holds the mutex, so a function from state to state models it, and
--   Scheduler/History has any sequence of calls. Scheduler/Changes is the abstract machine: small
--   changes of the state, into which Scheduler/Refine splits every operation; Scheduler/Invariants
--   shows the invariants on these changes. Scheduler/Cancel is about cancel, Scheduler/Grant about
--   dispatch, Scheduler/Returns about the lookups that could throw, Scheduler/Answers about single
--   answers, Scheduler/Tests has runs.
-- Wire: the classes Writer and Reader, whose calls are chained as the code chains them, and the
--   frame of a message. Wire/Inverse has the laws that put a round trip together from those of the
--   parts, Wire/Ensures those for what a decoder accepts.
-- Control: agent-runtime/src/control_protocol.cpp (Task, Agent, Message; RoundTrip, Decoded).
-- Invocation: agent-runtime/src/invocation_protocol.cpp (Data, Message; RoundTrip, Decoded).
-- Runtime: agent-runtime/src/runtime.cpp, where a worker takes an agent from the scheduler, executes
--   it and reports what came of it. Runtime/State has the data, Runtime/Command how an output is
--   published and a command is run, Runtime/Execute the rest of execute and execute_invocation,
--   Runtime/Round a round of worker_loop; Runtime/Kept says what an execution keeps, Runtime/Rests
--   what complete and fail leave of the agent, Runtime/Served is about a round, Runtime/Outputs and
--   Success about results. What processes, handlers, the backend, cgroups and
--   system calls answer is an argument (World), and so is what other threads do to the scheduler
--   while the agent runs, which is taken as one step where the process is let run or the agent is
--   marked RUNNING.
-- Contexts: agent_runtime_top/src/context_manager.cpp (State, Residency, Acquire, Release). Eviction is
--   about the context that is swapped out; Keyed and Held have the invariant of the table, of the
--   free sequences and of the counters, and Swaps, Loads, Leases, Grants and Releases show that the
--   operations keep it; Accounts has the managers that calls lead to. The callbacks that save and
--   load a context of the model are arguments that answer whether they succeeded.
--
-- Arrays: C arrays as lists with an index, and the results 0 and -1 of the C functions. Slots: the
--   loops that look for the first slot of a table that passes a test.
-- RunQueue: agent_runtime_top/src/scheduler.c, a circular array. RunQueue/State has the functions,
--   RunQueue/Queue the bounded queue that they implement, RunQueue/Window, Places, Moves and Search
--   what the loops do to the elements in the queue's order, RunQueue/Valid the states that are in
--   order, RunQueue/Refine and RunQueue/Run the refinement of a call and of a run.
-- Agents: agent_runtime_top/src/agent.c. Agents/State has the functions, Agents/Changes the few ways
--   in which a call changes the table, Agents/Valid, Lifecycle and Wait the properties.
-- Resources: agent_runtime_top/src/resource.c (State; Accounts and Release, Discover).
-- KvCache: agent_runtime_top/src/kv_cache.c. KvCache/State has the blocks and kv_cache_init,
--   KvCache/Blocks kv_allocate and kv_free, KvCache/Access kv_read and kv_write, KvCache/Share the
--   other functions. KvCache/Range says what the loops do to the blocks of a range, KvCache/Search
--   what find_free_block finds, KvCache/Valid, Order and Keeps are about pools in order,
--   KvCache/Allocate, Free and Bounds about kv_allocate, KvCache/Copy, Stored, Reading, Writing and
--   Roundtrip about kv_read and kv_write.
-- The module Results: agent-runtime/src/shared_memory.cpp, the regions of results (Region),
--   AgentResultStore and the tests of SharedMemoryChannel (Store; Publish). The answers of system
--   calls are arguments.
-- In the C modules a sum or a difference on uint32_t or uint64_t is written with its wrap-around; the
-- lock is held for the whole body of a function, so a function from state to state models it; what
-- calloc, malloc, the clock and the callbacks answer is an argument.
--
-- A clock reading is an argument `now` in nanoseconds, in milliseconds in the C modules. An operation
-- of the scheduler answers `none` where the code would throw, or where recursion runs out of fuel.
-- cancel_descendants_locked has one more fuel than there are agents, since each level cancels one
-- that was live; the search for a cycle has one more than there are agents, since a path of active
-- visits has no agent twice.
-- The order in which an unordered_set or unordered_map is walked is the order of the list here; no
-- theorem assumes more of it than that it lists the members.
--
-- Not modelled: the condition variables and the timed wait of wait_dispatch (a pick of the run queue
-- that would wait answers none), null pointers of results, the text of error messages (an Error says
-- which one in the scheduler and in Contexts; the protocols answer none), make_control_info, the
-- floating-point ratios of the cache's statistics, the worker threads and cancel tokens of
-- AgentRuntime, and the other files of the two runtimes, most of which do I/O: sockets, the creation
-- and mapping of shared memory, processes, cgroups and calls of the model library.
pub mod Prelude
pub mod Table
pub mod Arrays
pub mod RunQueue
pub mod Slots
pub mod Agents
pub mod Resources
pub mod KvCache
pub mod Types
pub mod Wire
pub mod Runtime
pub mod Scheduler
pub mod Control
pub mod Invocation
pub mod Results
pub mod Contexts
