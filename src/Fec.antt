-- ===== src/Fec.antt =====
-- shared/selective_fec.rs: which packets are sent twice, and how many.
pub mod Budget
pub mod Classify
