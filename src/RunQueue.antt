-- ===== src/RunQueue.antt =====
-- agent_runtime_top/src/scheduler.c: the ready queue of the upper runtime, a circular array of agent
-- ids. Each function holds the lock for its whole body.
pub mod State
pub mod Queue
pub mod Window
pub mod Moves
pub mod Search
pub mod Places
pub mod Valid
pub mod Refine
pub mod Run
mod Tests
