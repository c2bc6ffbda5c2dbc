-- ===== src/Turn.antt =====
-- turn_core.rs: addresses on the wire, the builder of STUN requests, and the state machine of an
-- allocation.
pub mod Address
pub mod Builder
pub mod Core
