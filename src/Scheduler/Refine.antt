-- ===== src/Scheduler/Refine.antt =====
-- Each operation of AgentScheduler is a sequence of atomic changes.
pub mod Cascade
pub mod Agent
pub mod Dispatch
mod Fresh
mod Linked
pub mod Submit
