-- ===== src/FlowFrame/Header/RoundTrip.antt =====
-- Encoding and decoding of frame headers are inverse to each other.
mod Tests
use csqtt_antinet_module.FlowFrame.Header.{
  frame_len, frame_magic, FrameHeader, header_bytes, encode, decode, payload, InRange,
}
use csqtt_antinet_module.Prelude.{
  ℕ, zero, suc, ◌+◌, ◌-◌, ◌≤◌, ◌<◌, ◌≡◌, refl, sym, ap, ◌∙◌, ◌⊎◌, inl, inr, true, false, none, some,
  [], ◌∷◌, ◌++◌, arith, ltb, ltb→lt, ltb→le, Bool-cases, length, drop, length-append,
  take-append-drop, Bytes, IsBytes, slice, from_be, bytes_eq, All-take, All-drop, drop-nil,
  bytes_eq_sound, slice-append-drop, length-slice, to_be, from_be-to_be, to_be-from_be,
}
use mathlib.Core.List.{append-nil}
use mathlib.Core.List.{append-nil, append_assoc}

abbrev read_fields : Bytes → FrameHeader
read_fields p = record {
  sender_id = from_be (slice p 4 12);
  flow_id = from_be (slice p 12 20);
  sequence = from_be (slice p 20 24);
}

decode-magic :
    (p : Bytes)
    → frame_len ≤ length p
    → bytes_eq (slice p 0 4) frame_magic ≡ true
    → decode p ≡ some (read_fields p, drop frame_len p)
unfolding decode
decode-magic p h m = ground arith

read_fields-header_bytes :
    (h : FrameHeader) (rest : Bytes) → InRange h → read_fields (header_bytes h ++ rest) ≡ h
read_fields-header_bytes h rest r = fields ∙ values
  where
    read_back : FrameHeader
    read_back = record {
      sender_id = from_be (to_be 8 h.sender_id);
      flow_id = from_be (to_be 8 h.flow_id);
      sequence = from_be (to_be 4 h.sequence);
    }

    fields : read_fields (header_bytes h ++ rest) ≡ read_back
    fields = unfold header_bytes to_be in refl

    values : read_back ≡ h
    values =
        rw
          (
            from_be-to_be 8 h.sender_id (omega arith),
            from_be-to_be 8 h.flow_id (omega arith),
            from_be-to_be 4 h.sequence (omega arith),
          )
          refl

pub length-header_bytes : (h : FrameHeader) → length (header_bytes h) ≡ frame_len
unfolding header_bytes to_be
length-header_bytes h = refl

-- A header in front of any bytes is read back, and so are the bytes.
pub decode-header_bytes :
    (h : FrameHeader) (rest : Bytes) → InRange h → decode (header_bytes h ++ rest) ≡ some (h, rest)
decode-header_bytes h rest r =
    decode-magic (header_bytes h ++ rest) long magic
    ∙ ap (λ (f : FrameHeader). some (f, drop frame_len (header_bytes h ++ rest)))
        (read_fields-header_bytes h rest r)
    ∙ ap (λ (b : Bytes). some (h, b)) behind
  where
    long : frame_len ≤ length (header_bytes h ++ rest)
    long = omega (arith, length-append (header_bytes h) rest, length-header_bytes h)

    magic : bytes_eq (slice (header_bytes h ++ rest) 0 4) frame_magic ≡ true
    magic = unfold header_bytes bytes_eq in refl

    behind : drop frame_len (header_bytes h ++ rest) ≡ rest
    behind = unfold header_bytes to_be in refl

pub payload-header_bytes :
    (h : FrameHeader) (rest : Bytes) → InRange h → payload (header_bytes h ++ rest) ≡ rest
unfolding payload
payload-header_bytes h rest r = rw (decode-header_bytes h rest r, payload) refl

pub payload-unframed : (packet : Bytes) → decode packet ≡ none → payload packet ≡ packet
unfolding payload
payload-unframed packet e = rw (e, payload) refl

encode_lem :
    (h : FrameHeader) (output : Bytes)
    → InRange h
    → (frame_len ≤ length output
        → ((encode h output).1 ≡ true)
          × (decode (encode h output).0 ≡ some (h, drop frame_len output))
          × (payload (encode h output).0 ≡ drop frame_len output))
      × (length output < frame_len → encode h output ≡ (output, false))
unfolding encode payload
encode_lem h output r = (
  λ room.
      let b : ltb (length output) frame_len ≡ false = ground arith in
      let d : decode (header_bytes h ++ drop frame_len output) ≡ some (h, drop frame_len output) =
        decode-header_bytes h (drop frame_len output) r in
      rw b (refl, d, rw (d, payload) refl),
  λ short. let b : ltb (length output) frame_len ≡ true = ground arith in rw b refl,
)

decode-inversion :
    (p : Bytes) {h : FrameHeader} {rest : Bytes}
    → decode p ≡ some (h, rest)
    → (frame_len ≤ length p)
      × (bytes_eq (slice p 0 4) frame_magic ≡ true)
      × (read_fields p ≡ h)
      × (drop frame_len p ≡ rest)
unfolding decode
decode-inversion p e = ground arith

-- A packet of 24 bytes and more is its magic, its three fields and the bytes behind them.
split_fields :
    (p : Bytes)
    → frame_len ≤ length p
    → slice p 0 4 ++ (slice p 4 12 ++ (slice p 12 20 ++ (slice p 20 24 ++ drop frame_len p))) ≡ p
split_fields p l =
    rw
      (
        slice-append-drop p 20 24 (omega arith),
        slice-append-drop p 12 20 (omega arith),
        slice-append-drop p 4 12 (omega arith),
      )
      (take-append-drop 4 p)

field_bytes :
    (p : Bytes) (k from to : ℕ)
    → IsBytes p
    → from + k ≡ to
    → to ≤ length p
    → to_be k (from_be (slice p from to)) ≡ slice p from to
field_bytes p k from to bytes e l =
    to_be-from_be k (slice p from to) (All-take (to - from) (drop from p) (All-drop from p bytes))
      (omega (arith, length-slice p from to (omega arith) l))

header_bytes-read_fields :
    (p : Bytes) (rest : Bytes)
    → IsBytes p
    → frame_len ≤ length p
    → bytes_eq (slice p 0 4) frame_magic ≡ true
    → header_bytes (read_fields p) ++ rest
      ≡ slice p 0 4 ++ (slice p 4 12 ++ (slice p 12 20 ++ (slice p 20 24 ++ rest)))
unfolding header_bytes
header_bytes-read_fields p rest bytes l m =
    rw
      (
        field_bytes p 8 4 12 bytes refl (omega arith),
        field_bytes p 8 12 20 bytes refl (omega arith),
        field_bytes p 4 20 24 bytes refl (omega arith),
        bytes_eq_sound (slice p 0 4) frame_magic m,
      )
      (simp append_assoc)

-- A packet that `decode` accepts is the encoding of the header that it returns, followed by the
-- payload that it returns: no other packet decodes to these.
encode-decode :
    (p : Bytes) (h : FrameHeader) (rest : Bytes)
    → IsBytes p
    → decode p ≡ some (h, rest)
    → p ≡ header_bytes h ++ rest
encode-decode p h rest bytes e =
    let (l, m, fields, behind) = decode-inversion p e in
    rw (← fields, ← behind)
      (sym (header_bytes-read_fields p (drop frame_len p) bytes l m ∙ split_fields p l))

-- What `encode` writes into a buffer with room for it, `decode` reads back, with what stood behind
-- the header; a buffer without room is left alone and refused.
pub decode-encode :
    (h : FrameHeader) (output : Bytes)
    → InRange h
    → ((frame_len ≤ length output)
        × ((encode h output).1 ≡ true)
        × (decode (encode h output).0 ≡ some (h, drop frame_len output))
        × (payload (encode h output).0 ≡ drop frame_len output))
      ⊎ ((length output < frame_len) × (encode h output ≡ (output, false)))
decode-encode h output v = elim (Bool-cases (ltb (length output) frame_len)) [
  | inl short ↦
      let less = ltb→lt (length output) frame_len short in
      inr (less, (encode_lem h output v).1 less)
  | inr room ↦
      let fits = ltb→le (length output) frame_len room in
      let (written, read, behind) = (encode_lem h output v).0 fits in
      inl (fits, written, read, behind)
]

drop-all : (n : ℕ) (p : Bytes) → length p ≤ n → drop n p ≡ []
drop-all n [] h = drop-nil n
drop-all zero (b ∷ p) h = absurd (omega arith)
drop-all (suc n) (b ∷ p) h = drop-all n p (omega arith)

-- `encode` fills a buffer of its own size.
pub encode-fits :
    (h : FrameHeader) (output : Bytes)
    → length output ≡ frame_len
    → encode h output ≡ (header_bytes h, true)
unfolding encode
encode-fits h output size =
    let room : ltb (length output) frame_len ≡ false = ground (arith, size) in
    let nothing = drop-all frame_len output (omega (arith, size)) in
    rw (room, nothing, append-nil (header_bytes h), encode) refl
