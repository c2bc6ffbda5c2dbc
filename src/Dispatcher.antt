-- ===== src/Dispatcher.antt =====
-- dispatcher.rs: how packets are spread over the TURN workers and given back to the application.
pub mod FastPath
pub mod Queue
pub mod Return
pub mod Select
pub mod Spare
pub mod Workers
