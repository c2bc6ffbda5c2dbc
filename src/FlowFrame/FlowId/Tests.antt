-- ===== src/FlowFrame/FlowId/Tests.antt =====
-- A TCP segment over IPv4, with a payload, that the sequencer frames.
use csqtt_antinet_module.FlowFrame.FlowId.{flow_hash}
use csqtt_antinet_module.FlowFrame.FlowId.{tcp_flow_id}
use csqtt_antinet_module.Prelude.{
  ℕ, ◌<◌, ◌≡◌, refl, Option, none, some, [], ◌∷◌, arith, Bytes, u64_mod,
}

abbrev pub segment : Bytes
segment =
    0x45
    ∷ 0
    ∷ 0
    ∷ 44
    ∷ 0
    ∷ 0
    ∷ 0
    ∷ 0
    ∷ 64
    ∷ 6
    ∷ 0
    ∷ 0
    ∷ 10
    ∷ 0
    ∷ 0
    ∷ 1
    ∷ 10
    ∷ 0
    ∷ 0
    ∷ 2
    ∷ (0x1f ∷ 0x90 ∷ 0 ∷ 80 ∷ 0 ∷ 0 ∷ 0 ∷ 1 ∷ 0 ∷ 0 ∷ 0 ∷ 0 ∷ 0x50 ∷ 0x18 ∷ 0 ∷ 0 ∷ 0 ∷ 0 ∷ 0 ∷ 0
        ∷ 1 ∷ 2 ∷ 3 ∷ 4 ∷ [])

abbrev id_of : Option ℕ → ℕ
id_of none = 0
id_of (some id) = id

pub segment_id : ℕ
segment_id = id_of (tcp_flow_id segment)

pub segment-tcp_flow_id : tcp_flow_id segment ≡ some segment_id
unfolding segment_id tcp_flow_id
segment-tcp_flow_id = refl

pub segment_id_in_range : segment_id < u64_mod
unfolding segment_id tcp_flow_id flow_hash
segment_id_in_range = omega arith
