-- ===== src/Packet/Channel/RoundTrip/Tests.antt =====
-- The theorems on ChannelData, applied.
use csqtt_antinet_module.Packet.Buf.{PacketBuf, as_slice, len}
use csqtt_antinet_module.Packet.Buf.Ranges.{IsValid}
use csqtt_antinet_module.Packet.Channel.{channel_data_header, encode_channel_data}
use csqtt_antinet_module.Packet.Channel.RoundTrip.{wire_of, encode_channel_data_lem}
use csqtt_antinet_module.Prelude.{ℕ, ◌≡◌, refl, inr, some, arith, replicate, length-replicate}

buffer : PacketBuf
buffer = record { storage = replicate 2304 0; start = 64; end = 69 }

full_buffer : PacketBuf
full_buffer = record { storage = replicate 2304 0; start = 3; end = 69 }

buffer-IsValid : IsValid buffer
unfolding buffer
buffer-IsValid = record {
  storage = length-replicate {A = ℕ} 2304 0;
  ordered = omega arith;
  inside = omega arith;
}

encode_channel_data_lem_example :
    (q : PacketBuf) × (encode_channel_data buffer 0x4001 ≡ inr (some q))
    × (as_slice q ≡ wire_of 0x4001 (as_slice buffer))
    × (channel_data_header (as_slice q) ≡ some (0x4001, len buffer))
    × IsValid q
unfolding buffer
encode_channel_data_lem_example =
    encode_channel_data_lem buffer 0x4001 buffer-IsValid refl (omega arith, omega arith)
