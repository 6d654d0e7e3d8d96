-- ===== src/Resources.antt =====
-- agent_runtime_top/src/resource.c: the table of resources. Each function holds the lock for its
-- whole body.
pub mod State
pub mod Accounts
pub mod Release
pub mod Discover
mod Tests
