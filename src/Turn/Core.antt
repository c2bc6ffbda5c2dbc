-- ===== src/Turn/Core.antt =====
-- `NativeCore` of turn_core.rs: a TURN allocation as a state machine with no sockets of its own.
pub mod State
pub mod Requests
pub mod Completion
pub mod Answers
pub mod Calls
pub mod Deadlines
pub mod Waiting
mod Tests
pub mod Machine
