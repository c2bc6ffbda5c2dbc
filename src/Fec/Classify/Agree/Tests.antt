-- ===== src/Fec/Classify/Agree/Tests.antt =====
-- The theorems on the two classifiers, applied.
use csqtt_antinet_module.Fec.Classify.{segment}
use csqtt_antinet_module.Fec.Classify.Agree.{
  is_later_fragment, as_segment, segment-eq-internet_transport,
}
use csqtt_antinet_module.Scheduler.Transport.{internet_transport}
use csqtt_antinet_module.Prelude.{◌≡◌, none, ◌∷◌, ◌++◌, if◌then◌else◌, replicate, Bytes}

-- 1200 bytes of UDP payload from port 53 to port 443.
abbrev quic_packet : Bytes
quic_packet =
    0x45
    ∷ (replicate 8 0
        ++ (17
            ∷ (replicate 10 0 ++ (0 ∷ 53 ∷ (1 ∷ (0xbb ∷ (replicate 4 0 ++ replicate 1200 0xc0)))))))

segment-eq-internet_transport_example : segment quic_packet ≡ (
    if is_later_fragment quic_packet
    then none
    else as_segment quic_packet (internet_transport quic_packet))
segment-eq-internet_transport_example = segment-eq-internet_transport quic_packet
