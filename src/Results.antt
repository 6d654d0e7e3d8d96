-- ===== src/Results.antt =====
-- agent-runtime/src/shared_memory.cpp: the regions that an agent's results stand in, the class
-- AgentResultStore, and the tests of SharedMemoryChannel. The store's functions hold its mutex.
pub mod Region
pub mod Store
pub mod Publish
mod Tests
