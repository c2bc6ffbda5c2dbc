-- ===== src/Scheduler/Transport.antt =====
-- `internet_transport` and `ipv6_transport` of shared/striped_scheduler.rs: the transport protocol
-- of an IP packet and where its header begins. `usize` sums and products are plain: a slice is
-- shorter than 2 ^ 63 and a step adds at most 2056, so the checked forms never fail.
pub mod Bounds
use csqtt_antinet_module.Prelude.{
  ℕ, zero, suc, ◌+◌, ◌*◌, ◌/◌, ◌%◌, ◌^◌, bit_and, ◌&&◌, ◌||◌, Option, none, some, [], ◌∷◌, ltb, leb,
  ◌==◌, if◌then◌else◌, length, Bytes, get_range, byte, be16_at,
}

-- The extension header that the walk is at.
pub data Extension : Type 0 where
  options fragment authentication other : Extension

abbrev pub extension : ℕ → Extension
extension protocol =
    if (protocol == 0) || (protocol == 43) || (protocol == 60)
    then Extension.options
    else if protocol == 44
    then Extension.fragment
    else if protocol == 51
    then Extension.authentication
    else Extension.other

-- One round of the loop: the protocol and the offset behind the extension header, `none` for the
-- early return of `None`, `done` where the protocol is no extension.
pub data Round : Type 0 where
  step : ℕ → ℕ → Round
  done fail : Round

abbrev advance : Option Bytes → (Bytes → Round) → Round
advance none f = fail
advance (some header) f = f header

unfoldable pub ipv6_round : Bytes → ℕ → ℕ → Round
ipv6_round packet protocol offset = elim (extension protocol) [
  | Extension.options ↦
      advance (get_range packet offset (offset + 2))
        (λ header. step (byte header 0) (offset + (byte header 1 + 1) * 8))
  | Extension.fragment ↦ advance (get_range packet offset (offset + 8)) (λ header.
      if bit_and (be16_at header 2) 0xfff8 == 0 then step (byte header 0) (offset + 8) else fail)
  | Extension.authentication ↦
      advance (get_range packet offset (offset + 2))
        (λ header. step (byte header 0) (offset + (byte header 1 + 2) * 4))
  | Extension.other ↦ done
]

-- `for _ in 0..8`, the rounds left as fuel.
unfoldable pub ipv6_walk : ℕ → Bytes → ℕ → ℕ → Option (ℕ × ℕ)
ipv6_walk zero packet protocol offset = some (protocol, offset)
ipv6_walk (suc rounds) packet protocol offset = elim (ipv6_round packet protocol offset) [
  | done ↦ some (protocol, offset)
  | fail ↦ none
  | step protocol' offset' ↦
      let rest = ipv6_walk rounds packet protocol' offset' in
      if ltb (length packet) offset' then none else rest
]

unfoldable pub ipv6_transport : Bytes → Option (ℕ × ℕ)
ipv6_transport packet = ipv6_walk 8 packet (byte packet 6) 40

unfoldable pub ipv4_transport : Bytes → Option (ℕ × ℕ)
ipv4_transport packet =
    let header_len = byte packet 0 % 16 * 4 in
    if leb 20 header_len && leb header_len (length packet)
    then some (byte packet 9, header_len)
    else none

unfoldable pub internet_transport : Bytes → Option (ℕ × ℕ)
unfolding ipv4_transport ipv6_transport
internet_transport [] = none
internet_transport (first ∷ rest) =
    if first / 2 ^ 4 == 4
    then ipv4_transport (first ∷ rest)
    else if (first / 2 ^ 4 == 6) && leb 40 (length (first ∷ rest))
    then ipv6_transport (first ∷ rest)
    else none
