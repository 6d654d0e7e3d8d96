-- ===== src/Wire.antt =====
-- The classes Writer and Reader of agent-runtime/src/control_protocol.cpp, which
-- agent-runtime/src/invocation_protocol.cpp repeats. A writer appends to the bytes of the message, a
-- reader takes from the bytes that remain; `none` is the answer false. The text of an error is left
-- out.
pub mod Bytes
pub mod Writer
pub mod Reader
pub mod Inverse
pub mod Signed
pub mod Ensures
pub mod Frame
