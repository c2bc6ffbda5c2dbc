-- ===== src/Lib.antt =====
-- Verification of the packet path of the CSQTT engine, the Rust library that carries an
-- application's IP packets through several TURN relays at once. All paths below are under
-- examples/modulecsqtt/native/csqtt-engine.
--
-- A packet of the application gets a class by its size and transport (Scheduler), a frame with a
-- number when it is a TCP segment (FlowFrame), a queue of one of the workers (Dispatcher), and a
-- ChannelData header (Packet.Channel) in the headroom of its buffer (Packet.Buf), which comes from
-- a shared pool (Packet.Pool). A relay over TCP or TLS is a byte stream that is cut into frames
-- (TurnStream); its control messages are STUN (Stun), and a state machine keeps the allocation on
-- the relay with its requests, timers and answers (Turn.Core). What comes back passes replay protection
-- (Replay) and is put in order by flow (FlowFrame.Reassembler). The server tells the engine which
-- workers to restart (Protocol, Repair); idle workers are parked (Idle), and a path that stands
-- still is probed (Stall); workers share TURN credentials by leases (Credentials), and messages
-- on lost workers are gathered into reports (Recovery). Short packets are sent twice, within a budget
-- (Fec, Dispatcher.Spare). At the end, the peer is asked once to close the session (Shutdown).
--
--   Prelude               tests on numbers, lists, byte slices, machine words and sorting
--   ArrayQueue            the interface of crossbeam_queue, and a bounded list that has its laws
--   FlowFrame.Header      shared/flow_frame.rs: FrameHeader::encode, decode, payload
--   FlowFrame.FlowId      shared/flow_frame.rs: tcp_flow_id, hash_bytes, mix64
--   FlowFrame.Sequencer   shared/flow_frame.rs: FlowSequencer
--   FlowFrame.Reassembler shared/flow_frame.rs: FlowReassembler::push_at and its helpers
--   Scheduler             shared/striped_scheduler.rs: packet_class, keep_under_pressure
--   Fec                   shared/selective_fec.rs: should_duplicate, Budget
--   Replay                session.rs: ReplayWindow
--   Shutdown              session.rs: ShutdownCoordinator
--   Packet.Buf, .Pool     packet.rs: PacketBuf and PacketPool
--   Packet.Channel        turn.rs: channel_data_header, encode_channel_data, is_stun
--   Stun                  stun_codec.rs: Message, Attributes
--   Turn.Address          turn_core.rs: encode_xor_address, decode_xor_address
--   Turn.Builder          turn_core.rs: MessageBuilder, verify_integrity
--   Turn.Core             turn_core.rs: NativeCore, its state (State), requests (Requests), what ends
--                         them (Completion), input_stun (Answers) and the other calls (Calls)
--   TurnStream            turn_stream.rs: frame_start, decode_frame, read_frame
--   Dispatcher.FastPath   dispatcher.rs: FastPathScheduler
--   Dispatcher.Queue      dispatcher.rs: PacketQueue, PacketSender, PacketReceiver
--   Dispatcher.Return     dispatcher.rs: frame_outbound_packet, ReturnReorder
--   Dispatcher.Select     dispatcher.rs: enqueue_selected_worker, dispatch_now, redispatch
--   Dispatcher.Spare      dispatcher.rs: udp_spare, quic_initial_spare_allow
--   Dispatcher.Workers    dispatcher.rs: interleave_turn_paths, register, unregister
--   Protocol, Repair      protocol.rs, repair.rs: stream commands and what they restart
--   Credentials, Recovery worker.rs: CredentialCache, RecoveryLogGate
--   Idle, Stall           idle.rs, and StallDetector of rebind.rs
--
-- Numbers are natural numbers; where a word can wrap, the remainder is written out, and `usize` has
-- 64 bits. A slice is a list, a `HashMap` is an association list, an atomic is a field. Where tasks
-- share state, Packet.Pool.Runs has their atomic steps as a relation, Dispatcher.Queue.Resume has a
-- sender that pushes after the queue has moved on, and Idle has note_path_lost as its atomic
-- operations, which any schedule interleaves; elsewhere an operation is one step. A call of
-- the TURN core is one step at one time of the clock, in milliseconds, and calls come in any order.
-- Clocks and random numbers are arguments; MD5, HMAC-SHA1 and CRC-32 are functions that the results
-- take as given, with the sizes of their values where a result needs them. An iterator over the
-- attributes of a decoded message never panics, so there a panic counts as a missing attribute. Sizes are those of the source: 96
-- waiting packets for a flow and 4096 over all, 4096 flows, a replay window of 16384 numbers.
--
-- Loops are recursion on a list where the source walks one, and on fuel elsewhere: the extension
-- headers of IPv6 have the 8 rounds of the source, the attributes of a STUN message have its length,
-- of which each takes 4 bytes, a queue is emptied in one step more than its capacity, the requests
-- under way are gone through with one turn for each, and the workers are dealt out in as many rounds
-- as there are workers. The results hold for the functions with that fuel
-- and none of them assumes that it is enough.
--
-- Not modelled: the sockets, TLS and TUN loops, the handshake and cipher of the session,
-- the tasks of worker.rs, logging, the texts of errors, the web requests of the login, and the copy of an HTTP client under vendor.
pub mod ArrayQueue
pub mod Credentials
pub mod Dispatcher
pub mod Fec
pub mod FlowFrame
pub mod Idle
pub mod Packet
pub mod Prelude
pub mod Protocol
pub mod Recovery
pub mod Repair
pub mod Replay
pub mod Scheduler
pub mod Shutdown
pub mod Stall
pub mod Stun
pub mod Turn
pub mod TurnStream
