-- ===== src/Packet/Channel.antt =====
-- ChannelData framing of turn.rs: `channel_data_header`, `encode_channel_data` and `is_stun`.
pub mod RoundTrip
use csqtt_antinet_module.Packet.Buf.{
  PacketBuf, packet_capacity, len, checked_add, fill_tail, fill_front,
}
use csqtt_antinet_module.Prelude.{
  ℕ, ◌-◌, ◌/◌, ◌%◌, ◌⊎◌, inl, inr, Bool, not, ◌&&◌, ◌||◌, Option, none, some, [], ◌∷◌, ◌++◌, ltb,
  leb, ◌==◌, if◌then◌else◌, length, replicate, Bytes, slice, byte, be16_at, bytes_eq,
}

abbrev pub channel_min : ℕ
channel_min = 0x4000

abbrev pub channel_max : ℕ
channel_max = 0x7fff

-- `0x4000..=0x7fff`
abbrev pub is_channel : ℕ → Bool
is_channel channel = leb channel_min channel && leb channel channel_max

-- The magic cookie's bytes.
abbrev pub magic_cookie : Bytes
magic_cookie = 0x21 ∷ 0x12 ∷ 0xa4 ∷ 0x42 ∷ []

pub channel_data_header : Bytes → Option (ℕ × ℕ)
channel_data_header wire =
    if ltb (length wire) 4 || not (byte wire 0 / 64 == 1)
    then none
    else if not (is_channel (be16_at wire 0))
    then none
    else if ltb (length wire - 4) (be16_at wire 2)
    then none
    else if ltb 3 (length wire - 4 - be16_at wire 2)
    then none
    else some (be16_at wire 0, be16_at wire 2)

pub is_stun : Bytes → Bool
is_stun wire =
    leb 20 (length wire) && (byte wire 0 / 64 == 0) && bytes_eq (slice wire 4 8) magic_cookie

pub data ChannelError : Type 0 where
  invalid_channel too_large exceeds_buffer : ChannelError

abbrev pub padding_of : ℕ → ℕ
padding_of payload_length = (4 - payload_length % 4) % 4

-- `channel_data_padding`: the padding, or why there is none.
pub channel_data_padding : PacketBuf → ℕ → ChannelError ⊎ ℕ
channel_data_padding p channel =
    if not (is_channel channel)
    then inl invalid_channel
    else if ltb 65535 (len p)
    then inl too_large
    else if ltb p.start 4
    then inl exceeds_buffer
    else elim (checked_add p.end (padding_of (len p))) [
      | none ↦ inl exceeds_buffer
      | some end ↦ if ltb packet_capacity end then inl exceeds_buffer else inr (padding_of (len p))
    ]

abbrev pub be16_bytes : ℕ → Bytes
be16_bytes v = (v / 256 % 256) ∷ (v % 256) ∷ []

-- `none` where `extend_tail` or `prepend` fail.
pub encode_channel_data : PacketBuf → ℕ → ChannelError ⊎ Option PacketBuf
encode_channel_data p channel = elim (channel_data_padding p channel) [
  | inl e ↦ inl e
  | inr padding ↦ inr (elim (fill_tail (replicate padding 0) p) [
    | none ↦ none
    | some q ↦ fill_front (be16_bytes channel ++ be16_bytes (len p)) q
  ])
]
