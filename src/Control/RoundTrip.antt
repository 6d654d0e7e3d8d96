-- ===== src/Control/RoundTrip.antt =====
-- What is encoded is decoded again, for the messages of agent-runtime/src/control_protocol.cpp.
pub mod Task
pub mod Agent
pub mod Message
