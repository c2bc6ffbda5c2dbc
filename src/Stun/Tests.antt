-- ===== src/Stun/Tests.antt =====
-- `decode-attributes`, applied to a message with one attribute.
use csqtt_antinet_module.Stun.{header_size, Attribute, Message, scan, decode, attributes, collect}
use csqtt_antinet_module.Stun.Attributes.{Tiles, decode-attributes}
use csqtt_antinet_module.Prelude.{
  suc, ◌≡◌, refl, some, List, [], ◌∷◌, ◌++◌, length, replicate, Bytes, bytes_eq,
}

abbrev raw : Bytes
raw =
    0
    ∷ 1
    ∷ 0
    ∷ 8
    ∷ 0x21
    ∷ 0x12
    ∷ 0xa4
    ∷ 0x42
    ∷ (replicate 12 7 ++ (0 ∷ 6 ∷ 0 ∷ 3 ∷ 1 ∷ 2 ∷ 3 ∷ 0 ∷ []))

abbrev message : Message
message = record { raw = raw; kind = 1; transaction = replicate 12 7; end = 28 }

decode-attributes_example :
    (xs : List Attribute) × (collect (suc (length raw)) (attributes message) ≡ some xs)
    × Tiles header_size 28 xs
    × (raw ≡ raw)
    × (28 ≡ length raw)
unfolding decode scan bytes_eq
decode-attributes_example = decode-attributes raw {m = message} refl
