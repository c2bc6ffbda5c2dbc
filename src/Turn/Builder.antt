-- ===== src/Turn/Builder.antt =====
-- `MessageBuilder`, `set_message_length` and `verify_integrity` of turn_core.rs. The CRC-32 and the
-- HMAC-SHA1 are parameters.
pub mod Wire
pub mod Checks
pub mod Reads
pub mod RoundTrip
use csqtt_antinet_module.Stun.{
  magic_cookie, attr_fingerprint, fingerprint_xor, Message, Attribute, attribute,
}
use csqtt_antinet_module.Turn.Address.{SocketAddr, encode_xor_address}
use csqtt_antinet_module.Prelude.{
  ℕ, zero, suc, ◌+◌, ◌-◌, ◌%◌, bit_xor, Bool, false, not, ◌||◌, Option, none, some, [], ◌∷◌, ◌++◌,
  ltb, ◌==◌, if◌then◌else◌, length, take, drop, Bytes, bytes_eq,
}
use csqtt_antinet_module.Prelude.{to_be}

abbrev pub attr_message_integrity : ℕ
attr_message_integrity = 0x0008

pub record MessageBuilder : Type 0 where
  pub bytes : Bytes
  pub transaction : Bytes

-- The length field; `none` where the message is too large for it.
pub set_message_length : Bytes → (trailing : ℕ) → Option Bytes
set_message_length bytes trailing =
    let size = length bytes - 20 + trailing in
    if ltb 65535 size then none else some (take 2 bytes ++ (to_be 2 size ++ drop 4 bytes))

pub with_transaction : (kind : ℕ) → Bytes → MessageBuilder
with_transaction kind transaction = record {
  bytes = to_be 2 kind ++ (to_be 2 0 ++ (magic_cookie ++ transaction));
  transaction = transaction;
}

-- `while !self.bytes.len().is_multiple_of(4)`: at most 3 turns.
unfoldable pub pad : (fuel : ℕ) → Bytes → Bytes
pad zero bytes = bytes
pad (suc fuel) bytes =
    let rest = pad fuel (bytes ++ 0 ∷ []) in if length bytes % 4 == 0 then bytes else rest

pub add_attribute : (kind : ℕ) → (value : Bytes) → MessageBuilder → MessageBuilder
add_attribute kind value m = record m {
  bytes = pad 3 (m.bytes ++ (to_be 2 kind ++ (to_be 2 (length value) ++ value)));
}

pub xor_address : (kind : ℕ) → SocketAddr → MessageBuilder → MessageBuilder
xor_address kind address m = add_attribute kind (encode_xor_address address m.transaction) m

module _ (crc32 : Bytes → ℕ) where
  pub finish : MessageBuilder → Option Bytes
  finish m = elim (set_message_length m.bytes 8) [
    | none ↦ none
    | some bytes ↦
        some
          (add_attribute attr_fingerprint (to_be 4 (bit_xor (crc32 bytes) fingerprint_xor))
            (record m { bytes = bytes })).bytes
  ]

  -- `hmac` has the key as its first argument.
  pub finish_authenticated :
      (hmac : Bytes → Bytes → Bytes) → (key : Bytes) → MessageBuilder → Option Bytes
  finish_authenticated hmac key m = elim (set_message_length m.bytes 24) [
    | none ↦ none
    | some bytes ↦
        finish (add_attribute attr_message_integrity (hmac key bytes) (record m { bytes = bytes }))
  ]

-- Whether the attribute of that kind is there; the iterator's panic, which no decoded message has,
-- counts as none.
abbrev pub find_attribute : ℕ → Message → Option Attribute
find_attribute kind m = elim (attribute kind m) [ none ↦ none | some found ↦ found ]

pub signed_part : Bytes → (header_start : ℕ) → Bytes
signed_part packet header_start =
    let signed = take header_start packet in
    take 2 signed ++ (to_be 2 (header_start + 24 - 20) ++ drop 4 signed)

unfoldable pub verify_integrity :
    (hmac : Bytes → Bytes → Bytes) → (packet : Bytes) → Message → (key : Option Bytes) → Bool
verify_integrity hmac packet m none = false
verify_integrity hmac packet m (some key) = elim (find_attribute attr_message_integrity m) [
  | none ↦ false
  | some a ↦
      if not (length a.value == 20) || ltb a.header_start 20
      then false
      else if ltb 65535 (a.header_start + 24 - 20)
      then false
      else bytes_eq (hmac key (signed_part packet a.header_start)) a.value
]
