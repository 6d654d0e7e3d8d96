-- ===== src/Contexts.antt =====
-- agent_runtime_top/src/context_manager.cpp: which agent's context of the language model occupies
-- which sequence of the model, and which contexts are swapped out.
pub mod State
pub mod Residency
pub mod Acquire
pub mod Release
pub mod Eviction
pub mod Keyed
pub mod Held
pub mod Swaps
pub mod Loads
pub mod Leases
pub mod Grants
pub mod Releases
pub mod Accounts
mod Tests
