-- ===== src/Packet.antt =====
-- packet.rs: packet buffers with headroom, and the pool that they come from.
pub mod Buf
pub mod Pool
pub mod Channel
