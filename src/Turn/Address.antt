-- ===== src/Turn/Address.antt =====
-- turn_core.rs: `encode_xor_address` and `decode_xor_address`, and `SocketAddr` of the standard
-- library as far as they use it.
pub mod RoundTrip
use csqtt_antinet_module.Stun.{magic_cookie}
use csqtt_antinet_module.Prelude.{
  ℕ, ◌/◌, bit_xor, Bool, true, false, not, ◌&&◌, ◌||◌, Option, none, some, [], ◌∷◌, ◌++◌, ltb, ◌==◌,
  if◌then◌else◌, length, Bytes, slice, byte, be16_at, from_be,
}
use csqtt_antinet_module.Prelude.{to_be}

-- The octets of an address, 4 or 16.
pub data IpAddr : Type 0 where
  v4 v6 : Bytes → IpAddr

pub record SocketAddr : Type 0 where
  pub ip : IpAddr
  pub port : ℕ

abbrev pub is_ipv4 : SocketAddr → Bool
is_ipv4 a = elim a.ip [ v4 o ↦ true | v6 o ↦ false ]

-- `MAGIC_COOKIE`
abbrev pub cookie : ℕ
cookie = 0x2112a442

-- The octets of one slice, each with the octet of the mask at its place.
unfoldable pub xor_bytes : Bytes → Bytes → Bytes
xor_bytes [] mask = []
xor_bytes (b ∷ bs) [] = []
xor_bytes (b ∷ bs) (m ∷ mask) = bit_xor b m ∷ xor_bytes bs mask

abbrev pub encode_ip : IpAddr → Bytes → Bytes
encode_ip (v4 octets) transaction = to_be 4 (bit_xor (from_be octets) cookie)
encode_ip (v6 octets) transaction = xor_bytes octets (magic_cookie ++ transaction)

pub encode_xor_address : SocketAddr → Bytes → Bytes
encode_xor_address a transaction =
    0
    ∷ (if is_ipv4 a then 1 else 2)
    ∷ (to_be 2 (bit_xor a.port (cookie / 65536)) ++ encode_ip a.ip transaction)

-- `none`: the value is malformed.
pub decode_xor_address : Bytes → Bytes → Option SocketAddr
decode_xor_address value transaction =
    let port = bit_xor (be16_at value 2) (cookie / 65536) in
    if ltb (length value) 4 || not (byte value 0 == 0)
    then none
    else if (byte value 1 == 1) && (length value == 8)
    then some
        (record { ip = v4 (to_be 4 (bit_xor (from_be (slice value 4 8)) cookie)); port = port })
    else if (byte value 1 == 2) && (length value == 20)
    then some (record {
      ip = v6 (xor_bytes (slice value 4 20) (magic_cookie ++ transaction));
      port = port;
    })
    else none
