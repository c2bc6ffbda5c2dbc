-- ===== src/Scheduler/Classes.antt =====
-- `PacketClass`, `packet_class` and `keep_under_pressure` of shared/striped_scheduler.rs.
pub mod Pressure
use csqtt_antinet_module.FlowFrame.Header.{payload}
use csqtt_antinet_module.Scheduler.Transport.{internet_transport}
use csqtt_antinet_module.Prelude.{
  ℕ, ◌*◌, ◌/◌, ◌^◌, bit_and, bit_or, Bool, true, false, not, ◌&&◌, ◌||◌, Option, none, some, leb,
  ◌==◌, if◌then◌else◌, length, Bytes, saturating_add, get_range, byte, be16_at,
}

pub data PacketClass : Type 0 where
  small medium bulk : PacketClass

abbrev pub small_packet_max : ℕ
small_packet_max = 164

abbrev pub medium_packet_max : ℕ
medium_packet_max = 999

unfoldable pub index : PacketClass → ℕ
index small = 0
index medium = 1
index bulk = 2

unfoldable pub stream_chunk : PacketClass → ℕ
stream_chunk small = 4
stream_chunk medium = 16
stream_chunk bulk = 32

unfoldable pub datagram_batch : PacketClass → ℕ
datagram_batch small = 16
datagram_batch medium = 64
datagram_batch bulk = 128

pub record DispatchTicket : Type 0 where
  pub start_slot : ℕ
  pub class : PacketClass

pub size_class : ℕ → PacketClass
size_class length =
    if leb length small_packet_max
    then small
    else if leb length medium_packet_max
    then medium
    else bulk

pub is_dns : Bytes → ℕ → ℕ → Bool
is_dns packet transport offset =
    if (transport == 6) || (transport == 17)
    then elim (get_range packet offset (saturating_add offset 4)) [
      | none ↦ false
      | some ports ↦ (be16_at ports 0 == 53) || (be16_at ports 2 == 53)
    ]
    else false

pub is_tcp_control : Bytes → ℕ → Bool
is_tcp_control packet offset = elim (get_range packet offset (saturating_add offset 14)) [
  | none ↦ false
  | some header ↦
      let flags = byte header 13 in
      if not (bit_and flags (bit_or (bit_or 0x02 0x01) 0x04) == 0)
      then true
      else if bit_and flags 0x10 == 0
      then false
      else let header_len = byte header 12 / 2 ^ 4 * 4 in
        leb 20 header_len && leb (length packet) (saturating_add offset header_len)
]

abbrev pub demote : PacketClass → PacketClass
demote bulk = medium
demote class = class

-- The part of `packet_class` behind the transport's search.
pub transport_class : Bytes → ℕ → ℕ → PacketClass
transport_class packet transport offset =
    if (transport == 1) || (transport == 58) || is_dns packet transport offset
    then small
    else if (transport == 6) && is_tcp_control packet offset
    then small
    else if transport == 17
    then demote (size_class (length packet))
    else size_class (length packet)

-- `packet_class` of an unframed packet.
pub class_of : Bytes → PacketClass
class_of packet = elim (internet_transport packet) [
  | none ↦ size_class (length packet)
  | some (transport, offset) ↦ transport_class packet transport offset
]

pub packet_class : Bytes → PacketClass
packet_class packet = class_of (payload packet)

abbrev pub is_small : PacketClass → Bool
is_small small = true
is_small class = false

pub is_udp : Option (ℕ × ℕ) → Bool
is_udp none = false
is_udp (some (protocol, offset)) = protocol == 17

pub keep_under_pressure : Bytes → Bool
keep_under_pressure packet =
    let inner = payload packet in
    if is_small (packet_class inner) then true else is_udp (internet_transport inner)
