-- ===== src/Turn/Builder/RoundTrip/Tests.antt =====
-- The theorems on messages, applied to an Allocate request and a Refresh response.
use csqtt_antinet_module.Stun.{header_size, decode, attributes, collect, fingerprint_valid}
use csqtt_antinet_module.Turn.Builder.{with_transaction, finish_authenticated, verify_integrity}
use csqtt_antinet_module.Turn.Builder.Wire.{Attr, add_all, signed_attrs, wire, attr_bytes}
use csqtt_antinet_module.Turn.Builder.Reads.{IsAttr, items, message}
use csqtt_antinet_module.Turn.Builder.RoundTrip.{IsPlain, completed, verify-finish_authenticated}
use csqtt_antinet_module.Prelude.{
  ℕ, suc, ◌%◌, ◌≤◌, ◌<◌, ◌≡◌, refl, inr, true, some, List, [], ◌∷◌, arith, length, replicate, All,
  Bytes, u32_mod,
}
use csqtt_antinet_module.Prelude.{to_be}

-- Stand-ins for the digests, with their sizes.
abbrev crc32 : Bytes → ℕ
crc32 b = length b % u32_mod

crc32_range : (b : Bytes) → crc32 b < u32_mod
crc32_range b = omega arith

abbrev hmac : Bytes → Bytes → Bytes
hmac key b = replicate 20 (length b % 256)

length-hmac : (key b : Bytes) → length (hmac key b) ≡ 20
length-hmac key b = refl

abbrev id : Bytes
id = replicate 12 7

abbrev lifetime : List Attr
lifetime = (0x000d, 0 ∷ 0 ∷ 2 ∷ 88 ∷ []) ∷ []

lifetime-IsAttr : All IsAttr lifetime
lifetime-IsAttr =
    (record { kind_range = omega arith; kind_kept = omega arith; size_range = omega arith }, tt)

lifetime-IsPlain : All IsPlain lifetime
lifetime-IsPlain = (record { not_fingerprint = omega arith; not_integrity = omega arith }, tt)

lifetime_fits : length (wire lifetime) ≤ 8
unfolding wire attr_bytes to_be
lifetime_fits = omega arith

abbrev request : List Attr
request = completed crc32 crc32_range 3 id lifetime

abbrev key : Bytes
key = replicate 16 5

abbrev response : List Attr
response = completed crc32 crc32_range 0x104 id (signed_attrs hmac key 0x104 id lifetime)

verify-finish_authenticated_example :
    let m = message 0x104 id response in
    (finish_authenticated crc32 hmac key (add_all lifetime (with_transaction 0x104 id))
      ≡ some m.raw)
    × (decode m.raw ≡ inr m)
    × (collect (suc (length m.raw)) (attributes m) ≡ some (items header_size response))
    × (fingerprint_valid crc32 m ≡ some (some true))
    × (verify_integrity hmac m.raw m (some key) ≡ true)
verify-finish_authenticated_example =
    verify-finish_authenticated crc32 crc32_range hmac length-hmac key 0x104 id lifetime
      (omega arith) (omega arith) refl lifetime-IsAttr lifetime-IsPlain
      (omega (arith, lifetime_fits))
