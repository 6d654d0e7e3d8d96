-- ===== src/Control.antt =====
-- agent-runtime/src/control_protocol.cpp: the binary protocol between the daemon and its clients.
pub mod Task
pub mod Agent
pub mod Message
pub mod RoundTrip
pub mod Decoded
mod Tests
