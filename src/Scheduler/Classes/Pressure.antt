-- ===== src/Scheduler/Classes/Pressure.antt =====
-- Which packets a full queue may drop, and what framing does to the class.
use csqtt_antinet_module.FlowFrame.Header.{FrameHeader, header_bytes, decode, InRange}
use csqtt_antinet_module.FlowFrame.Header.RoundTrip.{payload-header_bytes, payload-unframed}
use csqtt_antinet_module.Scheduler.Transport.{internet_transport}
use csqtt_antinet_module.Scheduler.Classes.{
  bulk, size_class, is_dns, is_tcp_control, transport_class, class_of, packet_class, is_small,
  is_udp, keep_under_pressure,
}
use csqtt_antinet_module.Prelude.{
  ℕ, ◌≤◌, ◌≡◌, ap, ◌≢◌, ◌⊎◌, Bool, true, false, ◌||◌, none, some, ◌++◌, arith, if◌then◌else◌,
  length, Bytes,
}

-- A UDP packet is never of the bulk class, framed or not.
pub class_of-udp :
    (packet : Bytes) (offset : ℕ)
    → internet_transport packet ≡ some (17, offset)
    → class_of packet ≢ bulk
unfolding class_of transport_class
class_of-udp packet offset e = ground arith

-- A packet that the bulk class takes is longer than 999 bytes, and is no UDP, no ICMP, no DNS and
-- no TCP handshake or bare acknowledgement.
pub class_of-bulk :
    (packet : Bytes) (transport offset : ℕ)
    → internet_transport packet ≡ some (transport, offset)
    → class_of packet ≡ bulk
    → (1000 ≤ length packet)
      × (transport ≢ 17)
      × (transport ≢ 1)
      × (transport ≢ 58)
      × (is_dns packet transport offset ≡ false)
      × ((transport ≢ 6) ⊎ (is_tcp_control packet offset ≡ false))
unfolding class_of transport_class size_class
class_of-bulk packet transport offset e b = ground arith

if_true : (a b : Bool) → (if a then true else b) ≡ (a || b)
if_true a b = ground arith

-- An unframed packet (one whose own first bytes are not a frame header) may be dropped under
-- pressure exactly when it is not small and not UDP.
keep_under_pressure-unframed :
    (packet : Bytes)
    → decode packet ≡ none
    → keep_under_pressure packet
      ≡ (is_small (class_of packet) || is_udp (internet_transport packet))
unfolding keep_under_pressure packet_class
keep_under_pressure-unframed packet e =
    rw (payload-unframed packet e, payload-unframed packet e)
      (if_true (is_small (class_of packet)) (is_udp (internet_transport packet)))

-- Framing a packet does not change its class.
pub packet_class-header_bytes :
    (h : FrameHeader) (packet : Bytes)
    → InRange h
    → packet_class (header_bytes h ++ packet) ≡ class_of packet
unfolding packet_class
packet_class-header_bytes h packet r = ap class_of (payload-header_bytes h packet r)
