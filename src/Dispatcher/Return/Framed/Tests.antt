-- ===== src/Dispatcher/Return/Framed/Tests.antt =====
-- `frame_outbound_packet-push`, applied to the first TCP segment of a flow.
use csqtt_antinet_module.Dispatcher.Return.{frame_outbound_packet, ReturnReorder, push_framed, push}
use csqtt_antinet_module.Dispatcher.Return.Framed.{frame_outbound_packet-push}
use csqtt_antinet_module.FlowFrame.FlowId.Tests.{segment, segment_id_in_range}
use csqtt_antinet_module.FlowFrame.Sequencer.{next}
use csqtt_antinet_module.FlowFrame.Sequencer.Counts.Tests.{fresh, first_header, next-first}
use csqtt_antinet_module.Packet.Buf.{PacketBuf, as_slice}
use csqtt_antinet_module.Packet.Buf.Ranges.{IsValid}
use csqtt_antinet_module.Prelude.{◌≡◌, refl, some, [], ◌++◌, arith, replicate}

abbrev packet : PacketBuf
packet = record { storage = replicate 64 0 ++ (segment ++ replicate 2196 0); start = 64; end = 108 }

packet-IsValid : IsValid packet
packet-IsValid = record { storage = refl; ordered = omega arith; inside = omega arith }

abbrev reorder : ReturnReorder
reorder = record { reassembler = record { flows = []; pending_total = 0 }; ready = [] }

frame_outbound_packet-push_example :
    (q : PacketBuf) × (t : PacketBuf) × (frame_outbound_packet fresh packet
      ≡ (some q, (next fresh segment).1))
    × (push q 5 reorder ≡ push_framed first_header t 5 reorder)
    × (as_slice t ≡ as_slice packet)
    × IsValid t
frame_outbound_packet-push_example =
    frame_outbound_packet-push fresh (next fresh segment).1 packet 5 reorder {h = first_header}
      packet-IsValid (omega arith) next-first
      (record { sender = omega arith; flow = segment_id_in_range; seq = omega arith })
