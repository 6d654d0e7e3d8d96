-- ===== src/Invocation.antt =====
-- agent-runtime/src/invocation_protocol.cpp: the binary protocol between the runtime and the
-- services that run models and tools. The metrics and the references of shared memory are written as
-- in control_protocol.cpp.
pub mod Data
pub mod Message
pub mod RoundTrip
pub mod Decoded
mod Tests
