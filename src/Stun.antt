-- ===== src/Stun.antt =====
-- stun_codec.rs: decoding a STUN message and walking its attributes. The CRC of the fingerprint is a
-- parameter.
pub mod Attributes
mod Tests
use csqtt_antinet_module.Prelude.{
  ℕ, zero, suc, ◌+◌, ◌-◌, ◌*◌, ◌/◌, ◌%◌, bit_and, bit_or, bit_xor, ◌⊎◌, inl, inr, Bool, false, not,
  ◌||◌, Option, none, some, List, [], ◌∷◌, ltb, leb, ◌==◌, if◌then◌else◌, length, take, Bytes,
  slice, be16_at, from_be, bytes_eq,
}

abbrev pub header_size : ℕ
header_size = 20

abbrev pub attr_fingerprint : ℕ
attr_fingerprint = 0x8028

abbrev pub fingerprint_xor : ℕ
fingerprint_xor = 0x5354554e

-- `MAGIC_COOKIE.to_be_bytes()`
abbrev pub magic_cookie : Bytes
magic_cookie = 0x21 ∷ 0x12 ∷ 0xa4 ∷ 0x42 ∷ []

pub data Class : Type 0 where
  request indication success error : Class

pub record Attribute : Type 0 where
  pub kind : ℕ
  pub value : Bytes
  pub header_start : ℕ
  pub value_end : ℕ

pub record Message : Type 0 where
  pub raw : Bytes
  pub kind : ℕ
  pub transaction : Bytes
  pub end : ℕ

pub data DecodeError : Type 0 where
  header_truncated leading_bits type_zero cookie_mismatch not_aligned length_mismatch
        attribute_header_truncated attribute_value_truncated :
      DecodeError

-- `(length + 3) & !3`
abbrev pub padded : ℕ → ℕ
padded length = (length + 3) / 4 * 4

-- The loop over the attributes: `none` when it reaches `end`.
unfoldable pub scan : (fuel : ℕ) → Bytes → (end position : ℕ) → Option DecodeError
scan zero raw end position = none
scan (suc fuel) raw end position =
    let rest = scan fuel raw end (position + 4 + padded (be16_at raw (position + 2))) in
    if leb end position
    then none
    else if ltb (end - position) 4
    then some attribute_header_truncated
    else if ltb end (position + 4 + padded (be16_at raw (position + 2)))
        || ltb end (position + 4 + be16_at raw (position + 2))
    then some attribute_value_truncated
    else rest

-- Each turn of the loop moves on by at least 4, so the bytes of the message are fuel enough.
unfoldable pub decode : Bytes → DecodeError ⊎ Message
decode raw =
    let kind = be16_at raw 0 in
    let end = header_size + be16_at raw 2 in
    if ltb (length raw) header_size
    then inl header_truncated
    else if not (kind / 0x4000 == 0)
    then inl leading_bits
    else if kind == 0
    then inl type_zero
    else if not (bytes_eq (slice raw 4 8) magic_cookie)
    then inl cookie_mismatch
    else if not (be16_at raw 2 % 4 == 0)
    then inl not_aligned
    else if not (length raw == end)
    then inl length_mismatch
    else elim (scan (length raw) raw end header_size) [
      | some e ↦ inl e
      | none ↦ inr (record { raw = raw; kind = kind; transaction = slice raw 8 20; end = end })
    ]

unfoldable pub class : Message → Class
class m =
    let bits = bit_or (bit_and (m.kind / 16) 1) (bit_and (m.kind / 128) 2) in
    if bits == 0
    then request
    else if bits == 1
    then indication
    else if bits == 2
    then success
    else error

unfoldable pub method : Message → ℕ
method m =
    bit_or (bit_or (bit_and m.kind 0x000f) (bit_and (m.kind / 2) 0x0070))
      (bit_and (m.kind / 4) 0x0f80)

-- `Attributes`: where the iterator stands in a message.
pub record Cursor : Type 0 where
  pub raw : Bytes
  pub position : ℕ
  pub end : ℕ

unfoldable pub attributes : Message → Cursor
attributes m = record { raw = m.raw; position = header_size; end = m.end }

-- What a turn of the iterator comes to: an index out of range is a panic.
pub data Next : Type 0 where
  finished panicked : Next
  item : Attribute → Cursor → Next

abbrev pub attribute_at : Cursor → Attribute
attribute_at c =
    let start = c.position + 4 in
    let end = start + be16_at c.raw (c.position + 2) in
    let kind = be16_at c.raw c.position in
    record {
      kind = if kind == 0x8020 then 0x0020 else kind;
      value = slice c.raw start end;
      header_start = c.position;
      value_end = end;
    }

abbrev pub after : Cursor → Cursor
after c = record c { position = c.position + 4 + padded (be16_at c.raw (c.position + 2)) }

unfoldable pub next : Cursor → Next
next c =
    if leb c.end c.position
    then finished
    else if ltb (length c.raw) (c.position + 4)
        || ltb (length c.raw) (c.position + 4 + be16_at c.raw (c.position + 2))
    then panicked
    else item (attribute_at c) (after c)

-- Every attribute the iterator gives, in order; `none` for a panic or for too little fuel.
unfoldable pub collect : (fuel : ℕ) → Cursor → Option (List Attribute)
collect zero c = none
collect (suc fuel) c =
    let rest = collect fuel (after c) in
    elim (next c) [
      | finished ↦ some []
      | panicked ↦ none
      | item a d ↦ elim rest [ none ↦ none | some xs ↦ some (a ∷ xs) ]
    ]

-- `find(|attribute| attribute.kind == target)`
unfoldable pub find : ℕ → List Attribute → Option Attribute
find target [] = none
find target (a ∷ xs) = if a.kind == target then some a else find target xs

-- `attribute`: the outer `none` is a panic of the iterator.
unfoldable pub attribute : ℕ → Message → Option (Option Attribute)
attribute target m = elim (collect (suc (length m.raw)) (attributes m)) [
  | none ↦ none
  | some xs ↦ some (find target xs)
]

-- `fingerprint_valid`, over the CRC-32 of `crc32fast`; the outer `none` is a panic of the iterator.
unfoldable pub fingerprint_valid : (crc32 : Bytes → ℕ) → Message → Option (Option Bool)
fingerprint_valid crc32 m = elim (attribute attr_fingerprint m) [
  | none ↦ none
  | some none ↦ some none
  | some (some a) ↦
      if not (length a.value == 4) || not (a.header_start + 8 == m.end)
      then some (some false)
      else some
          (some (from_be a.value == bit_xor (crc32 (take a.header_start m.raw)) fingerprint_xor))
]
