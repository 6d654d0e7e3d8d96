-- ===== src/KvCache.antt =====
-- agent_runtime_top/src/kv_cache.c: the pool of key-value cache blocks. Each function holds the lock
-- for its whole body.
pub mod State
pub mod Blocks
pub mod Access
pub mod Share
pub mod Valid
pub mod Range
pub mod Search
pub mod Allocate
pub mod Free
pub mod Bounds
pub mod Copy
pub mod Order
pub mod Keeps
pub mod Stored
pub mod Reading
pub mod Writing
pub mod Roundtrip
mod Tests
