-- ===== src/FlowFrame.antt =====
-- shared/flow_frame.rs: framing of TCP flows over several paths, and their reassembly.
pub mod Header
pub mod FlowId
pub mod Sequencer
pub mod Reassembler
