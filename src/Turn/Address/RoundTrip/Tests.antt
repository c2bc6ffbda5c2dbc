-- ===== src/Turn/Address/RoundTrip/Tests.antt =====
-- The theorem on addresses, applied.
use csqtt_antinet_module.Turn.Address.{v4, SocketAddr, encode_xor_address, decode_xor_address}
use csqtt_antinet_module.Turn.Address.RoundTrip.{decode_xor_address-encode_xor_address}
use csqtt_antinet_module.Prelude.{◌≡◌, refl, some, [], ◌∷◌, arith, replicate, Bytes}

abbrev relay : SocketAddr
relay = record { ip = v4 (127 ∷ 0 ∷ 0 ∷ 1 ∷ []); port = 50000 }

abbrev id : Bytes
id = replicate 12 7

decode_xor_address-encode_xor_address_example :
    decode_xor_address (encode_xor_address relay id) id ≡ some relay
decode_xor_address-encode_xor_address_example =
    decode_xor_address-encode_xor_address relay id
      (record { ip_octets = (refl, omega arith); port_range = omega arith })
      (record { size = refl; bytes = omega arith })
