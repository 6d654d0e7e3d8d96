-- ===== src/Scheduler/Grant.antt =====
-- What dispatch_locked of agent-runtime/src/scheduler.cpp grants.
pub mod Alike
pub mod Best
pub mod Room
