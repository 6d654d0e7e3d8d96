-- ===== src/Runtime.antt =====
-- agent-runtime/src/runtime.cpp: AgentRuntime, which gives the agents that the scheduler dispatches
-- to processes, handlers and the model backend, and publishes their outputs.
pub mod State
pub mod Command
pub mod Execute
pub mod Round
pub mod Kept
pub mod Rests
pub mod Served
pub mod Outputs
pub mod Success
mod Tests
