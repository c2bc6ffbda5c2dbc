-- ===== src/Dispatcher/Spare.antt =====
-- `udp_spare` and the count of QUIC spares for each flow: which packets a second worker gets too.
pub mod Tracker
use csqtt_antinet_module.Fec.Classify.{should_duplicate, is_quic_initial_sized}
use csqtt_antinet_module.Prelude.{
  ℕ, ◌+◌, ◌*◌, ◌/◌, ◌%◌, ◌^◌, bit_xor, Bool, true, false, not, ◌||◌, Option, none, some, List, [],
  ◌∷◌, ltb, leb, ◌==◌, if◌then◌else◌, length, Bytes, u64_mod, slice, byte, be16_at, from_be,
}

abbrev pub quic_spare_per_flow : ℕ
quic_spare_per_flow = 2

abbrev pub quic_spare_flow_cap : ℕ
quic_spare_flow_cap = 256

pub ipv4_udp_flow_key : Bytes → Option ℕ
ipv4_udp_flow_key packet =
    let ihl = byte packet 0 % 16 * 4 in
    if ltb (length packet) 28 || not (byte packet 0 / 16 == 4) || not (byte packet 9 == 17)
    then none
    else if ltb ihl 20 || ltb (length packet) (ihl + 4)
    then none
    else some (
        bit_xor
          (bit_xor
            (bit_xor (from_be (slice packet 12 16) * 2 ^ 32 % u64_mod)
              (from_be (slice packet 16 20) * 2 ^ 16 % u64_mod))
            (be16_at packet ihl * 2 ^ 8))
          (be16_at packet (ihl + 2)))

-- The map from a flow to its spares so far, one entry for each flow.
abbrev pub Tracker : Type 0
Tracker = List (ℕ × ℕ)

unfoldable pub spares : ℕ → Tracker → ℕ
spares key [] = 0
spares key ((k, n) ∷ map) = let rest = spares key map in if k == key then n else rest

unfoldable pub has_flow : ℕ → Tracker → Bool
has_flow key [] = false
has_flow key ((k, n) ∷ map) = (k == key) || has_flow key map

-- `*map.entry(key).or_insert(0) = count`
unfoldable pub set_spares : ℕ → ℕ → Tracker → Tracker
set_spares key count [] = (key, count) ∷ []
set_spares key count ((k, n) ∷ map) =
    let rest = set_spares key count map in if k == key then (k, count) ∷ map else (k, n) ∷ rest

-- `map.retain(|_, n| *n < QUIC_SPARE_PER_FLOW)`
unfoldable pub retain : Tracker → Tracker
retain [] = []
retain ((k, n) ∷ map) =
    let rest = retain map in if ltb n quic_spare_per_flow then (k, n) ∷ rest else rest

-- The map when it has outgrown its cap.
abbrev pub trimmed : ℕ → Tracker → Tracker
trimmed key map =
    if leb (length map) quic_spare_flow_cap
    then map
    else if leb (length (retain map)) quic_spare_flow_cap
    then retain map
    else (key, 1) ∷ []

pub spare_for_key : ℕ → Tracker → Bool × Tracker
spare_for_key key map =
    let count = spares key map in
    if leb quic_spare_per_flow count
    then (false, set_spares key count map)
    else (true, trimmed key (set_spares key (count + 1) map))

pub quic_initial_spare_allow : Bytes → Tracker → Bool × Tracker
quic_initial_spare_allow packet map = elim (ipv4_udp_flow_key packet) [
  | none ↦ (false, map)
  | some key ↦ spare_for_key key map
]

-- Whether `udp_spare` asks for a duplicate.
pub wants_spare : Bytes → Tracker → Bool × Tracker
wants_spare bytes map =
    if ltb (length bytes) 20 || not (byte bytes 0 / 16 == 4) || not (byte bytes 9 == 17)
    then (false, map)
    else if should_duplicate bytes
    then (true, map)
    else if not (is_quic_initial_sized bytes)
    then (false, map)
    else quic_initial_spare_allow bytes map
