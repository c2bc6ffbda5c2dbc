-- ===== src/Turn/Address/RoundTrip.antt =====
-- Addresses are read back from their masked form.
mod Tests
use csqtt_antinet_module.Stun.{magic_cookie}
use csqtt_antinet_module.Turn.Address.{
  IpAddr, v4, v6, SocketAddr, cookie, xor_bytes, encode_xor_address, decode_xor_address,
}
use csqtt_antinet_module.Prelude.{
  ℕ, suc, ◌+◌, ◌-◌, ◌^◌, ◌≤◌, ◌<◌, bit_xor, ◌≡◌, refl, ap, ◌∙◌, some, [], ◌∷◌, ◌++◌, arith, length,
  length-append, Bytes, IsBytes, slice, be16_at, from_be, from_be-lt, take-all,
}
use csqtt_antinet_module.Prelude.{
  to_be, from_be-to_be, to_be-from_be, length-to_be, bit_xor-lt, bit_xor_twice,
}

-- The octets of an address of the standard library.
abbrev pub IsIpAddr : IpAddr → Type 0
IsIpAddr (v4 octets) = (length octets ≡ 4) × IsBytes octets
IsIpAddr (v6 octets) = (length octets ≡ 16) × IsBytes octets

pub record IsSocketAddr (a : SocketAddr) : Type 0 where
  pub ip_octets : IsIpAddr a.ip
  pub port_range : a.port < 65536

-- A transaction id: 12 bytes.
pub record IsTransaction (t : Bytes) : Type 0 where
  pub size : length t ≡ 12
  pub bytes : IsBytes t

length-xor_bytes : (p m : Bytes) → length p ≤ length m → length (xor_bytes p m) ≡ length p
unfolding xor_bytes
length-xor_bytes [] m h = refl
length-xor_bytes (b ∷ p) [] h = absurd (omega arith)
length-xor_bytes (b ∷ p) (c ∷ m) h = ap suc (length-xor_bytes p m (omega arith))

xor_bytes_twice :
    (p m : Bytes) → length p ≤ length m → IsBytes p → IsBytes m → xor_bytes (xor_bytes p m) m ≡ p
unfolding xor_bytes
xor_bytes_twice [] m h hp hm = refl
xor_bytes_twice (b ∷ p) [] h hp hm = absurd (omega arith)
xor_bytes_twice (b ∷ p) (c ∷ m) h hp hm =
    rw (bit_xor_twice 8 b c hp.0 hm.0)
      (ap (λ (t : Bytes). b ∷ t) (xor_bytes_twice p m (omega arith) hp.1 hm.1))

-- What stands in the second and third byte behind two others.
be16_at-to_be : (a b v : ℕ) (rest : Bytes) → v < 65536 → be16_at (a ∷ b ∷ (to_be 2 v ++ rest)) 2 ≡ v
unfolding to_be
be16_at-to_be a b v rest h = omega arith

length-word : (v : ℕ) (rest : Bytes) → length (to_be 2 v ++ rest) ≡ 2 + length rest
length-word v rest = omega (arith, length-append (to_be 2 v) rest, length-to_be 2 v)

slice-word :
    (a b v n : ℕ) (rest : Bytes)
    → length rest ≡ n
    → slice (a ∷ b ∷ (to_be 2 v ++ rest)) 4 (4 + n) ≡ rest
unfolding to_be
slice-word a b v n rest e = take-all (4 + n - 4) rest (omega arith)

port-twice : (port : ℕ) → port < 65536 → bit_xor (bit_xor port 0x2112) 0x2112 ≡ port
port-twice port h = bit_xor_twice 16 port 0x2112 h (omega arith)

word-lt : (o : Bytes) → length o ≡ 4 → IsBytes o → from_be o < 2 ^ 32
word-lt o l h = rw l at (from_be-lt o h)

ipv4_twice :
    (o : Bytes)
    → length o ≡ 4
    → IsBytes o
    → to_be 4 (bit_xor (from_be (to_be 4 (bit_xor (from_be o) cookie))) cookie) ≡ o
ipv4_twice o l h =
    let small : from_be o < 2 ^ 32 = word-lt o l h in
    let masked : bit_xor (from_be o) cookie < 2 ^ 32 =
      bit_xor-lt 32 (from_be o) cookie small (omega arith) in
    rw
      (
        from_be-to_be 4 (bit_xor (from_be o) cookie) (omega arith),
        bit_xor_twice 32 (from_be o) cookie small (omega arith),
      )
      (to_be-from_be 4 o h l)

length-mask : (t : Bytes) → IsTransaction t → length (magic_cookie ++ t) ≡ 16
length-mask t h = omega (arith, length-append magic_cookie t, h.size)

mask-IsBytes : (t : Bytes) → IsTransaction t → IsBytes (magic_cookie ++ t)
mask-IsBytes t h = (omega arith, (omega arith, (omega arith, (omega arith, h.bytes))))

decode_v4 :
    (port : ℕ) (masked t : Bytes)
    → port < 65536
    → length masked ≡ 4
    → decode_xor_address (0 ∷ 1 ∷ (to_be 2 port ++ masked)) t
      ≡ some (record {
        ip = v4 (to_be 4 (bit_xor (from_be masked) cookie));
        port = bit_xor port 0x2112;
      })
unfolding decode_xor_address
decode_v4 port masked t p l =
    rw (be16_at-to_be 0 1 port masked p, length-word port masked, l, slice-word 0 1 port 4 masked l)
      refl

decode_v6 :
    (port : ℕ) (masked t : Bytes)
    → port < 65536
    → length masked ≡ 16
    → decode_xor_address (0 ∷ 2 ∷ (to_be 2 port ++ masked)) t
      ≡ some (record { ip = v6 (xor_bytes masked (magic_cookie ++ t)); port = bit_xor port 0x2112 })
unfolding decode_xor_address
decode_v6 port masked t p l =
    rw
      (be16_at-to_be 0 2 port masked p, length-word port masked, l, slice-word 0 2 port 16 masked l)
      refl

decoded :
    (ip : IpAddr) (port : ℕ) (t : Bytes)
    → IsIpAddr ip
    → port < 65536
    → IsTransaction t
    → decode_xor_address (encode_xor_address (record { ip = ip; port = port }) t) t
      ≡ some (record { ip = ip; port = port })
unfolding encode_xor_address
decoded (v4 o) port t i p k =
    decode_v4 (bit_xor port 0x2112) (to_be 4 (bit_xor (from_be o) cookie)) t
      (bit_xor-lt 16 port 0x2112 p (omega arith)) (length-to_be 4 (bit_xor (from_be o) cookie))
    ∙ rw (ipv4_twice o i.0 i.1, port-twice port p) refl
decoded (v6 o) port t i p k =
    let enough : length o ≤ length (magic_cookie ++ t) = omega (arith, length-mask t k) in
    decode_v6 (bit_xor port 0x2112) (xor_bytes o (magic_cookie ++ t)) t
      (bit_xor-lt 16 port 0x2112 p (omega arith))
      (length-xor_bytes o (magic_cookie ++ t) enough ∙ i.0)
    ∙ rw (xor_bytes_twice o (magic_cookie ++ t) enough i.1 (mask-IsBytes t k), port-twice port p)
        refl

-- An address that is encoded with a transaction id is read back with it.
pub decode_xor_address-encode_xor_address :
    (a : SocketAddr) (t : Bytes)
    → IsSocketAddr a
    → IsTransaction t
    → decode_xor_address (encode_xor_address a t) t ≡ some a
decode_xor_address-encode_xor_address a t h k = decoded a.ip a.port t h.ip_octets h.port_range k
