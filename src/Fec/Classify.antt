-- ===== src/Fec/Classify.antt =====
-- `should_duplicate` and `is_quic_initial_sized` of shared/selective_fec.rs, with
-- their own walk over the extension headers of IPv6. `usize` sums are plain: a slice is shorter than
-- 2 ^ 63 and a round adds at most 2056.
pub mod Agree
use csqtt_antinet_module.FlowFrame.Header.{payload}
use csqtt_antinet_module.Prelude.{
  ℕ, zero, suc, ◌+◌, get_range, ◌-◌, ◌*◌, ◌/◌, ◌%◌, ◌^◌, bit_and, Bool, true, false, not, ◌&&◌,
  ◌||◌, Option, none, some, [], ◌∷◌, ltb, leb, ◌==◌, if◌then◌else◌, length, drop, Bytes, byte,
  be16_at, starts_with, bytes_eq,
}

abbrev pub max_small_udp_payload : ℕ
max_small_udp_payload = 256

abbrev pub quic_initial_udp_min : ℕ
quic_initial_udp_min = 1200

abbrev pub quic_initial_udp_max : ℕ
quic_initial_udp_max = 1280

-- `struct Transport`
pub record Segment : Type 0 where
  pub protocol : ℕ
  pub bytes : Bytes

abbrev getconf : Bytes
getconf = 0x47 ∷ 0x45 ∷ 0x54 ∷ 0x43 ∷ 0x4f ∷ 0x4e ∷ 0x46 ∷ 0x3a ∷ []

abbrev tunconf : Bytes
tunconf = 0x54 ∷ 0x55 ∷ 0x4e ∷ 0x43 ∷ 0x4f ∷ 0x4e ∷ 0x46 ∷ 0x3a ∷ []

abbrev ready : Bytes
ready = 0x52 ∷ 0x45 ∷ 0x41 ∷ 0x44 ∷ 0x59 ∷ []

abbrev ready_ok : Bytes
ready_ok = 0x52 ∷ 0x45 ∷ 0x41 ∷ 0x44 ∷ 0x59 ∷ 0x5f ∷ 0x4f ∷ 0x4b ∷ []

abbrev denied : Bytes
denied = 0x44 ∷ 0x45 ∷ 0x4e ∷ 0x49 ∷ 0x45 ∷ 0x44 ∷ 0x3a ∷ []

abbrev disconnect : Bytes
disconnect = 0x44 ∷ 0x49 ∷ 0x53 ∷ 0x43 ∷ 0x4f ∷ 0x4e ∷ 0x4e ∷ 0x45 ∷ 0x43 ∷ 0x54 ∷ 0x3a ∷ []

pub is_control : Bytes → Bool
is_control packet =
    starts_with packet getconf
    || starts_with packet tunconf
    || bytes_eq packet ready
    || bytes_eq packet ready_ok
    || starts_with packet denied
    || starts_with packet disconnect

pub classify_transport : Segment → Bool
classify_transport t =
    let source = be16_at t.bytes 0 in
    let destination = be16_at t.bytes 2 in
    if (t.protocol == 6) && leb 14 (length t.bytes)
    then (source == 53) || (destination == 53) || not (bit_and (byte t.bytes 13) 0x02 == 0)
    else if (t.protocol == 17) && leb 8 (length t.bytes)
    then (source == 53) || (destination == 53) || leb (length t.bytes - 8) max_small_udp_payload
    else false

pub quic_initial_transport : Segment → Bool
quic_initial_transport t =
    if not (t.protocol == 17) || ltb (length t.bytes) 8
    then false
    else if not (be16_at t.bytes 2 == 443)
    then false
    else leb quic_initial_udp_min (length t.bytes - 8)
      && leb (length t.bytes - 8) quic_initial_udp_max

pub ipv4_transport : Bytes → Option Segment
ipv4_transport packet =
    let header_len = byte packet 0 % 16 * 4 in
    if ltb (length packet) 20 || not (byte packet 0 / 2 ^ 4 == 4)
    then none
    else if ltb header_len 20 || ltb (length packet) header_len
    then none
    else if not (bit_and (be16_at packet 6) 0x1fff == 0)
    then none
    else some (record { protocol = byte packet 9; bytes = drop header_len packet })

-- `packet.get(offset..)?`
abbrev tail_from : Bytes → ℕ × ℕ → Option Segment
tail_from packet (protocol, offset) =
    if leb offset (length packet)
    then some (record { protocol = protocol; bytes = drop offset packet })
    else none

-- How a round of the loop over the extension headers ends: with the next header, with `break`, or
-- with `return None`.
pub data Walk : Type 0 where
  onward : (protocol offset : ℕ) → Walk
  stop refuse : Walk

-- The test at the end of a round.
pub unless_past : Bytes → (protocol offset : ℕ) → Walk
unless_past packet protocol offset =
    if ltb (length packet) offset then refuse else onward protocol offset

-- The headers of hop-by-hop options, of routing and of destination options.
pub skip_options : Bytes → (offset : ℕ) → Walk
skip_options packet offset = elim (get_range packet offset (offset + 2)) [
  | none ↦ refuse
  | some header ↦ unless_past packet (byte header 0) (offset + (byte header 1 + 1) * 8)
]

pub skip_fragment : Bytes → (offset : ℕ) → Walk
skip_fragment packet offset = elim (get_range packet offset (offset + 8)) [
  | none ↦ refuse
  | some header ↦
      if not (bit_and (be16_at header 2) 0xfff8 == 0)
      then refuse
      else unless_past packet (byte header 0) (offset + 8)
]

pub skip_authentication : Bytes → (offset : ℕ) → Walk
skip_authentication packet offset = elim (get_range packet offset (offset + 2)) [
  | none ↦ refuse
  | some header ↦ unless_past packet (byte header 0) (offset + (byte header 1 + 2) * 4)
]

pub skip_header : Bytes → (protocol offset : ℕ) → Walk
skip_header packet protocol offset =
    if (protocol == 0) || (protocol == 43) || (protocol == 60)
    then skip_options packet offset
    else if protocol == 44
    then skip_fragment packet offset
    else if protocol == 51
    then skip_authentication packet offset
    else stop

-- `for _ in 0..8`, with the rounds that are left.
pub skip_headers : (rounds : ℕ) → Bytes → (protocol offset : ℕ) → Option (ℕ × ℕ)
skip_headers zero packet protocol offset = some (protocol, offset)
skip_headers (suc rounds) packet protocol offset = elim (skip_header packet protocol offset) [
  | stop ↦ some (protocol, offset)
  | refuse ↦ none
  | onward protocol' offset' ↦ skip_headers rounds packet protocol' offset'
]

pub ipv6_transport : Bytes → Option Segment
ipv6_transport packet =
    if ltb (length packet) 40 || not (byte packet 0 / 2 ^ 4 == 6)
    then none
    else elim (skip_headers 8 packet (byte packet 6) 40) [
      | none ↦ none
      | some at ↦ tail_from packet at
    ]

-- The `match` on the version that `should_duplicate` and `is_quic_initial_sized` share.
pub segment : Bytes → Option Segment
segment [] = none
segment (first ∷ rest) =
    if first / 2 ^ 4 == 4
    then ipv4_transport (first ∷ rest)
    else if first / 2 ^ 4 == 6
    then ipv6_transport (first ∷ rest)
    else none

abbrev is_some_and : Option Segment → (Segment → Bool) → Bool
is_some_and none test = false
is_some_and (some t) test = test t

pub duplicates : Bytes → Bool
duplicates packet =
    if is_control packet then true else is_some_and (segment packet) classify_transport

pub should_duplicate : Bytes → Bool
should_duplicate packet = duplicates (payload packet)

pub is_quic_initial_sized : Bytes → Bool
is_quic_initial_sized packet = is_some_and (segment (payload packet)) quic_initial_transport
