-- ===== src/Packet/Channel/RoundTrip.antt =====
-- A ChannelData message is read back as it was written.
mod Tests
use csqtt_antinet_module.Packet.Buf.{
  PacketBuf, packet_capacity, len, as_slice, fill_tail, fill_front,
}
use csqtt_antinet_module.Packet.Buf.Ranges.{IsValid, fill_front_lem, fill_tail_lem}
use csqtt_antinet_module.Packet.Channel.{
  is_channel, channel_data_header, invalid_channel, exceeds_buffer, padding_of,
  channel_data_padding, be16_bytes, encode_channel_data,
}
use csqtt_antinet_module.Prelude.{
  ℕ, ◌+◌, ◌≤◌, ◌≡◌, refl, sym, ap, ◌∙◌, inl, inr, Bool, true, false, some, ◌++◌, arith,
  if◌then◌else◌, Bool-cases, length, replicate, length-append, length-replicate, Bytes,
  length-slice,
}

-- The message on the wire: channel, length, payload and padding.
abbrev pub wire_of : ℕ → Bytes → Bytes
wire_of channel payload =
    (be16_bytes channel ++ be16_bytes (length payload))
    ++ (payload ++ replicate (padding_of (length payload)) 0)

-- The header of a message on the wire reads its channel and its length, for any payload of at most
-- 65535 bytes and any channel in range.
pub channel_data_header-wire_of :
    (channel : ℕ) (payload : Bytes)
    → is_channel channel ≡ true
    → length payload ≤ 65535
    → channel_data_header (wire_of channel payload) ≡ some (channel, length payload)
unfolding channel_data_header
channel_data_header-wire_of channel payload c l = ground (
  arith,
  length-append payload (replicate (padding_of (length payload)) 0),
  length-replicate {A = ℕ} (padding_of (length payload)) 0,
)

-- The buffer has headroom and tail room for a message.
abbrev pub HasSpace : PacketBuf → Type 0
HasSpace p = (4 ≤ p.start) × (p.end + padding_of (len p) ≤ packet_capacity)

channel_data_padding-fits :
    (p : PacketBuf) (channel : ℕ)
    → IsValid p
    → is_channel channel ≡ true
    → HasSpace p
    → channel_data_padding p channel ≡ inr (padding_of (len p))
unfolding channel_data_padding
channel_data_padding-fits p channel v c space = ground arith

channel_data_padding-exceeds :
    (p : PacketBuf) (channel : ℕ)
    → IsValid p
    → is_channel channel ≡ true
    → ¬ (HasSpace p)
    → channel_data_padding p channel ≡ inl exceeds_buffer
unfolding channel_data_padding
channel_data_padding-exceeds p channel v c space = ground arith

channel_data_padding-channel :
    (p : PacketBuf) (channel : ℕ)
    → is_channel channel ≡ false
    → channel_data_padding p channel ≡ inl invalid_channel
unfolding channel_data_padding
channel_data_padding-channel p channel c = rw c refl

encode-steps :
    (p : PacketBuf) {q r : PacketBuf} (channel : ℕ) {k : ℕ}
    → channel_data_padding p channel ≡ inr k
    → fill_tail (replicate k 0) p ≡ some q
    → fill_front (be16_bytes channel ++ be16_bytes (len p)) q ≡ some r
    → encode_channel_data p channel ≡ inr (some r)
unfolding encode_channel_data
encode-steps p channel d e f = rw (d, e, f, encode_channel_data) refl

-- In a buffer with space around its content, encoding for a channel in range succeeds: the buffer then
-- holds the message on the wire, whose header reads the channel and the length back.
pub encode_channel_data_lem :
    (p : PacketBuf) (channel : ℕ)
    → IsValid p
    → is_channel channel ≡ true
    → HasSpace p
    → (q : PacketBuf) × (encode_channel_data p channel ≡ inr (some q))
      × (as_slice q ≡ wire_of channel (as_slice p))
      × (channel_data_header (as_slice q) ≡ some (channel, len p))
      × IsValid q
encode_channel_data_lem p channel v c space =
    let (front, tail) = space in
    let room : p.end + length (replicate {A = ℕ} (padding_of (len p)) 0) ≤ packet_capacity =
      omega (arith, length-replicate {A = ℕ} (padding_of (len p)) 0, tail) in
    let size : length (as_slice p) ≡ len p =
      length-slice p.storage p.start p.end v.ordered (omega arith) in
    let (q, e, content, start, end, vq) =
      (fill_tail_lem (replicate (padding_of (len p)) 0) p v).0 room in
    let (r, f, content2, end2, vr) =
      (fill_front_lem (be16_bytes channel ++ be16_bytes (len p)) q vq).0
        (omega (arith, start, front)) in
    let wire : as_slice r ≡ wire_of channel (as_slice p) = content2 ∙ rw (content, size) refl in
    (
      r,
      encode-steps p channel (channel_data_padding-fits p channel v c space) e f,
      wire,
      rw wire (channel_data_header-wire_of channel (as_slice p) c (omega arith))
          ∙ ap (λ (k : ℕ). some (channel, k)) size,
      vr,
    )

-- Without space around the content nothing is written and the message is refused, for the channel if
-- that is out of range.
pub encode_channel_data-refused :
    (p : PacketBuf) (channel : ℕ)
    → IsValid p
    → ¬ (HasSpace p)
    → encode_channel_data p channel
      ≡ inl (if is_channel channel then exceeds_buffer else invalid_channel)
unfolding encode_channel_data
encode_channel_data-refused p channel v full = elim (Bool-cases (is_channel channel)) [
  | inl c ↦
      rw (channel_data_padding-exceeds p channel v c full, encode_channel_data)
        (ap (λ (b : Bool). inl (if b then exceeds_buffer else invalid_channel)) (sym c))
  | inr c ↦
      rw (channel_data_padding-channel p channel c, encode_channel_data)
        (ap (λ (b : Bool). inl (if b then exceeds_buffer else invalid_channel)) (sym c))
]
