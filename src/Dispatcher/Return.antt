-- ===== src/Dispatcher/Return.antt =====
-- `frame_outbound_packet` and `ReturnReorder`: what frames a packet on its way out and what takes
-- the frame off and puts packets in order on the way back. The clock is an argument.
pub mod Framed
use csqtt_antinet_module.FlowFrame.Header.{frame_len, FrameHeader, encode, decode}
use csqtt_antinet_module.FlowFrame.Reassembler.{FlowReassembler, push_at}
use csqtt_antinet_module.FlowFrame.Reassembler as Reassembler
use csqtt_antinet_module.FlowFrame.Sequencer.{FlowSequencer, next}
use csqtt_antinet_module.Packet.Buf.{PacketBuf, as_slice, overwrite, prepend, trim_front}
use csqtt_antinet_module.Prelude.{
  ℕ, ◌+◌, Option, none, some, List, [], ◌∷◌, ◌++◌, if◌then◌else◌, slice,
}

-- The prefix that `prepend` hands out, written by `encode`; `none` when that refuses.
pub write_header : FrameHeader → PacketBuf → Option PacketBuf
write_header header p =
    let (written, done) = encode header (slice p.storage p.start (p.start + frame_len)) in
    if done then some (record p { storage = overwrite p.storage p.start written }) else none

-- `none`: the packet is dropped.
pub frame_outbound_packet : FlowSequencer → PacketBuf → Option PacketBuf × FlowSequencer
frame_outbound_packet sequences packet =
    let (header, after) = next sequences (as_slice packet) in
    elim header [
      | none ↦ (some packet, after)
      | some h ↦ elim (prepend frame_len packet) [
        | none ↦ (none, after)
        | some q ↦ (write_header h q, after)
      ]
    ]

pub record ReturnReorder : Type 0 where
  pub reassembler : FlowReassembler PacketBuf
  pub ready : List PacketBuf

pub push_framed : FrameHeader → PacketBuf → (now_ms : ℕ) → ReturnReorder → ReturnReorder
push_framed header packet now_ms r =
    let (reassembler, ready) = push_at header packet now_ms r.reassembler r.ready in
    record { reassembler = reassembler; ready = ready }

pub push : PacketBuf → (now_ms : ℕ) → ReturnReorder → ReturnReorder
push packet now_ms r = elim (decode (as_slice packet)) [
  | none ↦ record r { ready = r.ready ++ (packet ∷ []) }
  | some (header, rest) ↦ elim (trim_front frame_len packet) [
    | none ↦ r
    | some q ↦ push_framed header q now_ms r
  ]
]

pub pop : ReturnReorder → Option PacketBuf × ReturnReorder
pop r = elim r.ready [ [] ↦ (none, r) | packet ∷ ready ↦ (some packet, record r { ready = ready }) ]
