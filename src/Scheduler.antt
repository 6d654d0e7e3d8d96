-- ===== src/Scheduler.antt =====
-- agent-runtime/src/scheduler.cpp: the class AgentScheduler. Each public operation holds the mutex
-- for its whole body, so an execution is a sequence of operations.
pub mod State
pub mod Dispatch
pub mod Cascade
pub mod Lifecycle
pub mod Submit
pub mod Changes
pub mod Invariants
pub mod Closed
pub mod Refine
pub mod Cancel
pub mod Returns
pub mod History
pub mod Grant
pub mod Answers
pub mod Samples
mod Tests
