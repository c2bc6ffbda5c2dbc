-- ===== src/Scheduler.antt =====
-- shared/striped_scheduler.rs: the class of a packet, which decides its queue.
pub mod Transport
pub mod Classes
