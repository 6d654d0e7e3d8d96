-- ===== src/Agents.antt =====
-- agent_runtime_top/src/agent.c: the table of agents and their lifecycle. Each function holds the
-- lock for its whole body, agent_wait for each of its polls.
pub mod State
pub mod Changes
pub mod Valid
pub mod Lifecycle
pub mod Wait
mod Tests
