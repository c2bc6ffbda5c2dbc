-- ===== src/TurnStream.antt =====
-- turn_stream.rs: cutting the byte stream of a TURN connection over TCP or TLS into frames.
pub mod Chunks
mod Tests
use csqtt_antinet_module.ArrayQueue.{ArrayQueue}
use csqtt_antinet_module.Packet.Buf.{PacketBuf, set_read_len, overwrite}
use csqtt_antinet_module.Packet.Pool.{PacketPool, try_acquire, release}
use csqtt_antinet_module.Packet.Channel.{magic_cookie, padding_of}
use csqtt_antinet_module.Prelude.{
  ℕ, ◌+◌, ◌/◌, ◌%◌, ◌⊎◌, inl, inr, not, Option, none, some, List, [], ◌∷◌, ◌++◌, ltb, leb, ◌==◌,
  if◌then◌else◌, length, take, drop, Bytes, slice, byte, be16_at, bytes_eq,
}

abbrev pub max_control_frame_bytes : ℕ
max_control_frame_bytes = 4096

abbrev pub max_data_frame_bytes : ℕ
max_data_frame_bytes = 2240

abbrev pub stream_read_buffer_bytes : ℕ
stream_read_buffer_bytes = 4096

pub data StreamError : Type 0 where
  unaligned_length control_too_long invalid_cookie reserved_type data_too_long copy_failed
        hard_limit closed :
      StreamError

pub data FrameKind : Type 0 where
  control : (frame_bytes : ℕ) → FrameKind
  channel_data : (frame_bytes padding : ℕ) → FrameKind

pub data TurnStreamFrame : Type 0 where
  control_frame : Bytes → TurnStreamFrame
  data_packet : PacketBuf → TurnStreamFrame
  data_dropped : TurnStreamFrame

-- `none`: more bytes are needed.
pub frame_start : Bytes → StreamError ⊎ Option FrameKind
frame_start bytes =
    if ltb (length bytes) 4
    then inr none
    else if byte bytes 0 / 64 == 0
    then (if not (be16_at bytes 2 % 4 == 0)
        then inl unaligned_length
        else if ltb max_control_frame_bytes (20 + be16_at bytes 2)
        then inl control_too_long
        else if ltb (length bytes) 8
        then inr none
        else if not (bytes_eq (slice bytes 4 8) magic_cookie)
        then inl invalid_cookie
        else inr (some (FrameKind.control (20 + be16_at bytes 2))))
    else if not (byte bytes 0 / 64 == 1)
    then inl reserved_type
    else if ltb max_data_frame_bytes (4 + be16_at bytes 2 + padding_of (be16_at bytes 2))
    then inl data_too_long
    else inr (some (channel_data (4 + be16_at bytes 2) (padding_of (be16_at bytes 2))))

module _ (queue : ArrayQueue Bytes) (blank : Bytes) where
  -- A packet that cannot take the bytes goes back to the pool.
  pub copy_channel_data :
      Bytes → PacketPool queue → (StreamError ⊎ TurnStreamFrame) × PacketPool queue
  copy_channel_data wire pool =
      let (acquired, rest) = try_acquire queue blank pool in
      elim acquired [
        | none ↦ (inr data_dropped, rest)
        | some packet ↦ elim (set_read_len (length wire) packet) [
          | none ↦ (inl copy_failed, release queue packet.storage rest)
          | some p ↦
              (inr (data_packet (record p { storage = overwrite p.storage p.start wire })), rest)
        ]
      ]

  -- What became of the bytes read, the bytes left and the pool.
  pub record Decoded : Type 0 where
    pub result : StreamError ⊎ Option TurnStreamFrame
    pub buffer : Bytes
    pub pool : PacketPool queue

  abbrev pub copied : Bytes → (StreamError ⊎ TurnStreamFrame) × PacketPool queue → Decoded
  copied rest (inl e, pool) = record { result = inl e; buffer = rest; pool = pool }
  copied rest (inr f, pool) = record { result = inr (some f); buffer = rest; pool = pool }

  abbrev pub decode_kind : StreamError ⊎ Option FrameKind → Bytes → PacketPool queue → Decoded
  decode_kind (inl e) bytes pool = record { result = inl e; buffer = bytes; pool = pool }
  decode_kind (inr none) bytes pool = record { result = inr none; buffer = bytes; pool = pool }
  decode_kind (inr (some (FrameKind.control n))) bytes pool =
      if ltb (length bytes) n
      then record { result = inr none; buffer = bytes; pool = pool }
      else record {
        result = inr (some (control_frame (take n bytes)));
        buffer = drop n bytes;
        pool = pool;
      }
  decode_kind (inr (some (channel_data n padding))) bytes pool =
      if ltb (length bytes) (n + padding)
      then record { result = inr none; buffer = bytes; pool = pool }
      else copied (drop (n + padding) bytes) (copy_channel_data (take (n + padding) bytes) pool)

  pub decode_frame : Bytes → PacketPool queue → Decoded
  decode_frame bytes pool = decode_kind (frame_start bytes) bytes pool

  -- `read_frame`, over what the reads of the connection give: an empty read is its end, and so is
  -- the end of the list.
  pub record ReadFrame : Type 0 where
    pub result : StreamError ⊎ TurnStreamFrame
    pub buffer : Bytes
    pub reads : List Bytes
    pub pool : PacketPool queue

  unfoldable pub read_frame : Bytes → List Bytes → PacketPool queue → ReadFrame
  read_frame buffer [] pool =
      let d = decode_frame buffer pool in
      elim d.result [
        | inl e ↦ record { result = inl e; buffer = d.buffer; reads = []; pool = d.pool }
        | inr (some f) ↦ record { result = inr f; buffer = d.buffer; reads = []; pool = d.pool }
        | inr none ↦
            if leb stream_read_buffer_bytes (length d.buffer)
            then record { result = inl hard_limit; buffer = d.buffer; reads = []; pool = d.pool }
            else record { result = inl closed; buffer = d.buffer; reads = []; pool = d.pool }
      ]
  read_frame buffer (read ∷ reads) pool =
      let d = decode_frame buffer pool in
      let rest = read_frame (d.buffer ++ read) reads d.pool in
      elim d.result [
        | inl e ↦ record { result = inl e; buffer = d.buffer; reads = read ∷ reads; pool = d.pool }
        | inr (some f) ↦ record {
          result = inr f;
          buffer = d.buffer;
          reads = read ∷ reads;
          pool = d.pool;
        }
        | inr none ↦
            if leb stream_read_buffer_bytes (length d.buffer)
            then record {
              result = inl hard_limit;
              buffer = d.buffer;
              reads = read ∷ reads;
              pool = d.pool;
            }
            else if length read == 0
            then record { result = inl closed; buffer = d.buffer; reads = reads; pool = d.pool }
            else rest
      ]
