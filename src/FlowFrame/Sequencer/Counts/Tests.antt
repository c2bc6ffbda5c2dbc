-- ===== src/FlowFrame/Sequencer/Counts/Tests.antt =====
-- The theorems on the sequencer, applied.
use csqtt_antinet_module.FlowFrame.Header.{FrameHeader}
use csqtt_antinet_module.FlowFrame.FlowId.Tests.{segment, segment_id, segment-tcp_flow_id}
use csqtt_antinet_module.FlowFrame.Sequencer.{FlowSequencer, lookup_seq, next}
use csqtt_antinet_module.FlowFrame.Sequencer.Counts.{next_number, HasRoom, next_counts}
use csqtt_antinet_module.Prelude.{
  ℕ, ap, ◌∙◌, Option, ◌+◌, ◌%◌, ◌≡◌, refl, some, [], ◌∷◌, arith, ◌==◌, if◌then◌else◌, u32_mod,
}

abbrev sequencer : FlowSequencer
sequencer = record { sender_id = 7; sequences = (5, 3) ∷ [] }

sequencer-HasRoom : HasRoom sequencer segment_id
unfolding lookup_seq
sequencer-HasRoom = ground arith

next_counts_example :
    ((next sequencer segment).0
      ≡ some (record {
        sender_id = 7;
        flow_id = segment_id;
        sequence = next_number sequencer segment_id;
      }))
    × ((next sequencer segment).1.sender_id ≡ 7)
    × ((j : ℕ)
        → next_number (next sequencer segment).1 j ≡ (
            if segment_id == j
            then (next_number sequencer segment_id + 1) % u32_mod
            else next_number sequencer j))
next_counts_example = next_counts sequencer segment segment_id segment-tcp_flow_id sequencer-HasRoom

abbrev pub fresh : FlowSequencer
fresh = record { sender_id = 7; sequences = [] }

fresh-HasRoom : HasRoom fresh segment_id
unfolding lookup_seq
fresh-HasRoom = ground arith

abbrev pub first_header : FrameHeader
first_header = record { sender_id = 7; flow_id = segment_id; sequence = 0 }

first_number : next_number fresh segment_id ≡ 0
unfolding lookup_seq
first_number = refl

-- The first packet of a flow gets the number 0.
pub next-first : next fresh segment ≡ (some first_header, (next fresh segment).1)
next-first =
    ap (λ (h : Option FrameHeader). (h, (next fresh segment).1))
      ((next_counts fresh segment segment_id segment-tcp_flow_id fresh-HasRoom).0
        ∙ ap (λ (n : ℕ). some (record { sender_id = 7; flow_id = segment_id; sequence = n }))
            first_number)
