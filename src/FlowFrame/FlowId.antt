-- ===== src/FlowFrame/FlowId.antt =====
-- `tcp_flow_id` and the hashes of shared/flow_frame.rs.
pub mod Tests
use csqtt_antinet_module.Prelude.{
  ℕ, ◌+◌, ◌*◌, ◌/◌, ◌%◌, ◌^◌, bit_and, bit_xor, not, ◌&&◌, ◌||◌, Option, none, some, [], ◌∷◌, ltb,
  ◌==◌, if◌then◌else◌, length, take, drop, Bytes, u64_mod, slice, byte,
}

-- `wrapping_mul` of `u64`
abbrev wrapping_mul : ℕ → ℕ → ℕ
wrapping_mul a b = a * b % u64_mod

abbrev mix_first : ℕ → ℕ
mix_first value = wrapping_mul (bit_xor value (value / 2 ^ 30)) 0xbf58_476d_1ce4_e5b9

abbrev mix_second : ℕ → ℕ
mix_second value = wrapping_mul (bit_xor value (value / 2 ^ 27)) 0x94d0_49bb_1331_11eb

pub mix64 : ℕ → ℕ
mix64 value =
    let first = mix_first value in let second = mix_second first in bit_xor second (second / 2 ^ 31)

pub hash_bytes : ℕ → Bytes → ℕ
hash_bytes hash [] = hash
hash_bytes hash (b ∷ bytes) = hash_bytes (wrapping_mul (bit_xor hash b) 0x1000_0000_01b3) bytes

-- The header's length, the protocol and the two addresses.
pub record IpHeader : Type 0 where
  pub header_len : ℕ
  pub protocol : ℕ
  pub source : Bytes
  pub destination : Bytes

ip_header4 : Bytes → Option IpHeader
ip_header4 packet =
    let header_len = byte packet 0 % 16 * 4 in
    if ltb (length packet) 20
    then none
    else if ltb header_len 20 || ltb (length packet) (header_len + 20)
    then none
    else some (record {
      header_len = header_len;
      protocol = byte packet 9;
      source = slice packet 12 16;
      destination = slice packet 16 20;
    })

ip_header6 : Bytes → Option IpHeader
ip_header6 packet =
    if ltb (length packet) 60
    then none
    else some (record {
      header_len = 40;
      protocol = byte packet 6;
      source = slice packet 8 24;
      destination = slice packet 24 40;
    })

-- The `match` on the version, the high half of the first byte.
pub ip_header : Bytes → Option IpHeader
unfolding ip_header4 ip_header6
ip_header [] = none
ip_header (first ∷ rest) =
    if first / 2 ^ 4 == 4
    then ip_header4 (first ∷ rest)
    else if first / 2 ^ 4 == 6
    then ip_header6 (first ∷ rest)
    else none

-- FNV-1a over the protocol, the addresses and the ports, then mixed.
pub flow_hash : IpHeader → Bytes → ℕ
unfolding hash_bytes mix64
flow_hash ip tcp = mix64 (
    hash_bytes
      (hash_bytes (hash_bytes (hash_bytes 0xcbf2_9ce4_8422_2325 (ip.protocol ∷ [])) ip.source)
        ip.destination)
      (take 4 tcp))

-- The part of `tcp_flow_id` behind the `match`.
pub tcp_flow : IpHeader → Bytes → Option ℕ
tcp_flow ip packet =
    let tcp = drop ip.header_len packet in
    let data_offset = byte tcp 12 / 2 ^ 4 * 4 in
    if not (ip.protocol == 6)
    then none
    else if ltb data_offset 20 || ltb (length tcp) data_offset
    then none
    else if (length tcp == data_offset) && (bit_and (byte tcp 13) 0x03 == 0)
    then none
    else some (flow_hash ip tcp)

pub tcp_flow_id : Bytes → Option ℕ
unfolding ip_header tcp_flow
tcp_flow_id packet = elim (ip_header packet) [ none ↦ none | some ip ↦ tcp_flow ip packet ]
