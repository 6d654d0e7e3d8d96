-- ===== src/Scheduler/Cancel.antt =====
-- cancel_descendants_locked of agent-runtime/src/scheduler.cpp: it ends, and what it reaches.
pub mod Total
pub mod Settle
pub mod Reach
pub mod Whole
