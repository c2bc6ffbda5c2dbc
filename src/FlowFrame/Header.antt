-- ===== src/FlowFrame/Header.antt =====
-- `FrameHeader` of shared/flow_frame.rs: the 24 bytes in front of a framed packet.
pub mod RoundTrip
use csqtt_antinet_module.Prelude.{
  ℕ, ◌<◌, Bool, true, false, not, ◌||◌, Option, none, some, [], ◌∷◌, ◌++◌, ltb, if◌then◌else◌,
  length, drop, Bytes, u32_mod, u64_mod, slice, from_be, bytes_eq, to_be,
}

abbrev pub frame_len : ℕ
frame_len = 24

-- b"CQF1"
abbrev pub frame_magic : Bytes
frame_magic = 0x43 ∷ 0x51 ∷ 0x46 ∷ 0x31 ∷ []

pub record FrameHeader : Type 0 where
  pub sender_id : ℕ
  pub flow_id : ℕ
  pub sequence : ℕ

-- What `encode` writes at the front of its output.
pub header_bytes : FrameHeader → Bytes
header_bytes h = frame_magic ++ (to_be 8 h.sender_id ++ (to_be 8 h.flow_id ++ to_be 4 h.sequence))

-- The output slice afterwards, and the result.
pub encode : FrameHeader → Bytes → Bytes × Bool
unfolding header_bytes
encode h output =
    if ltb (length output) frame_len
    then (output, false)
    else (header_bytes h ++ drop frame_len output, true)

unfoldable pub decode : Bytes → Option (FrameHeader × Bytes)
decode packet =
    if ltb (length packet) frame_len || not (bytes_eq (slice packet 0 4) frame_magic)
    then none
    else some (
      record {
        sender_id = from_be (slice packet 4 12);
        flow_id = from_be (slice packet 12 20);
        sequence = from_be (slice packet 20 24);
      },
      drop frame_len packet,
    )

unfoldable pub payload : Bytes → Bytes
payload packet = elim (decode packet) [ none ↦ packet | some (h, rest) ↦ rest ]

-- The ranges of the fields' types, `u64`, `u64` and `u32`.
pub record InRange (h : FrameHeader) : Type 0 where
  pub sender : h.sender_id < u64_mod
  pub flow : h.flow_id < u64_mod
  pub seq : h.sequence < u32_mod
