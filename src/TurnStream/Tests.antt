-- ===== src/TurnStream/Tests.antt =====
-- The theorems on the stream, applied to a control frame that comes in two reads.
use csqtt_antinet_module.ArrayQueue.Bounded.{bounded}
use csqtt_antinet_module.Packet.Pool.{PacketPool}
use csqtt_antinet_module.TurnStream.{
  TurnStreamFrame, control_frame, frame_start, decode_frame, read_frame,
}
use csqtt_antinet_module.TurnStream.Chunks.{concat, Reads, read_frame_lem}
use csqtt_antinet_module.Prelude.{refl, [], ◌∷◌, ◌++◌, arith, take, replicate, Bytes, bytes_eq}

abbrev pool : PacketPool bounded
pool = record { retained = (3, []); allocated = 0; limit = 3 }

abbrev head : Bytes
head = 0 ∷ 1 ∷ 0 ∷ 0 ∷ 0x21 ∷ 0x12 ∷ []

abbrev tail : Bytes
tail = 0xa4 ∷ (0x42 ∷ (replicate 12 7 ++ (9 ∷ 9 ∷ [])))

abbrev frame : TurnStreamFrame
frame = control_frame (take 20 (head ++ tail))

read_frame_lem_example :
    Reads bounded []
      (read_frame bounded [] head (tail ∷ []) pool)
      frame
      (decode_frame bounded [] (head ++ concat bounded [] (tail ∷ [])) pool)
unfolding decode_frame frame_start concat bytes_eq
read_frame_lem_example =
    read_frame_lem bounded [] head (tail ∷ []) pool {f = frame} (omega arith, tt) refl
