-- ===== src/Fec/Classify/Agree.antt =====
-- The two classifiers of the engine, compared, and the two ways to send a packet twice.
mod Tests
use csqtt_antinet_module.FlowFrame.Header.{payload}
use csqtt_antinet_module.Scheduler.Transport
use csqtt_antinet_module.Scheduler.Transport.{
  Round, step, done, fail, ipv6_round, ipv6_walk, internet_transport,
}
use csqtt_antinet_module.Scheduler.Transport.Bounds.{walk-bounds}
use csqtt_antinet_module.Fec.Classify.{
  Segment, Walk, unless_past, skip_options, skip_fragment, skip_authentication, skip_header,
  skip_headers, ipv4_transport, ipv6_transport, segment, is_control, classify_transport,
  quic_initial_transport, duplicates, should_duplicate, is_quic_initial_sized,
}
use csqtt_antinet_module.Prelude.{
  ℕ, ◌/◌, ◌^◌, bit_and, ◌≡◌, refl, ◌⊎◌, inl, inr, Bool, true, not, ◌&&◌, Option, none, some, [],
  ◌∷◌, arith, zero, suc, ◌+◌, ◌||◌, get_range, ltb, leb, ◌==◌, if◌then◌else◌, Bool-cases,
  Option-cases, length, drop, Bytes, byte, be16_at,
}

-- An IPv4 packet that is a fragment other than the first.
abbrev pub is_later_fragment : Bytes → Bool
is_later_fragment packet =
    (byte packet 0 / 2 ^ 4 == 4) && not (bit_and (be16_at packet 6) 0x1fff == 0)

-- What the scheduler's classifier finds, as a segment.
abbrev pub as_segment : Bytes → Option (ℕ × ℕ) → Option Segment
as_segment packet none = none
as_segment packet (some (protocol, offset)) =
    some (record { protocol = protocol; bytes = drop offset packet })

-- What a round of the scheduler's walk leaves, as a round of the other.
as_walk : Bytes → Round → Walk
as_walk packet done = Walk.stop
as_walk packet fail = Walk.refuse
as_walk packet (step protocol offset) = unless_past packet protocol offset

skip_header-ipv6_round :
    (packet : Bytes) (protocol offset : ℕ)
    → skip_header packet protocol offset ≡ as_walk packet (ipv6_round packet protocol offset)
unfolding skip_header skip_options skip_fragment skip_authentication as_walk ipv6_round
skip_header-ipv6_round packet protocol offset =
    elim (Bool-cases ((protocol == 0) || (protocol == 43) || (protocol == 60))) [
      | inl a ↦ elim (Option-cases (get_range packet offset (offset + 2))) [
        | inl e ↦ rw (skip_header, ipv6_round, skip_options, a, e) refl
        | inr (header, e) ↦ rw (skip_header, ipv6_round, skip_options, a, e) refl
      ]
      | inr a ↦ elim (Bool-cases (protocol == 44)) [
        | inl b ↦ elim (Option-cases (get_range packet offset (offset + 8))) [
          | inl e ↦ rw (skip_header, ipv6_round, skip_fragment, a, b, e) refl
          | inr (header, e) ↦ elim (Bool-cases (bit_and (be16_at header 2) 0xfff8 == 0)) [
            | inl first ↦ rw (skip_header, ipv6_round, skip_fragment, a, b, e, first) refl
            | inr later ↦ rw (skip_header, ipv6_round, skip_fragment, a, b, e, later) refl
          ]
        ]
        | inr b ↦ elim (Bool-cases (protocol == 51)) [
          | inl c ↦ elim (Option-cases (get_range packet offset (offset + 2))) [
            | inl e ↦ rw (skip_header, ipv6_round, skip_authentication, a, b, c, e) refl
            | inr (header, e) ↦ rw (skip_header, ipv6_round, skip_authentication, a, b, c, e) refl
          ]
          | inr c ↦ rw (skip_header, ipv6_round, a, b, c) refl
        ]
      ]
    ]

skip_headers-ipv6_walk :
    (rounds : ℕ) (packet : Bytes) (protocol offset : ℕ)
    → skip_headers rounds packet protocol offset ≡ ipv6_walk rounds packet protocol offset
unfolding skip_headers ipv6_walk as_walk unless_past
skip_headers-ipv6_walk zero packet protocol offset = refl
skip_headers-ipv6_walk (suc rounds) packet protocol offset =
    rw (skip_headers, skip_header-ipv6_round packet protocol offset)
      (continued (ipv6_round packet protocol offset)
        (λ p o. skip_headers-ipv6_walk rounds packet p o))
  where
    continued :
        (r : Round)
        → ((p o : ℕ) → skip_headers rounds packet p o ≡ ipv6_walk rounds packet p o)
        → elim (as_walk packet r) [
          | Walk.stop ↦ some (protocol, offset)
          | Walk.refuse ↦ none
          | Walk.onward protocol' offset' ↦ skip_headers rounds packet protocol' offset'
        ]
          ≡ elim r [
            | done ↦ some (protocol, offset)
            | fail ↦ none
            | step protocol' offset' ↦
                let rest = ipv6_walk rounds packet protocol' offset' in
                if ltb (length packet) offset' then none else rest
          ]
    continued done rest = refl
    continued fail rest = refl
    continued (step protocol' offset') rest = elim (Bool-cases (ltb (length packet) offset')) [
      | inl e ↦ rw (as_walk, unless_past, e) refl
      | inr e ↦ rw (as_walk, unless_past, e) (rest protocol' offset')
    ]

ipv6_segment :
    (packet : Bytes)
    → (byte packet 0 / 2 ^ 4 == 6) ≡ true
    → ipv6_transport packet ≡ (
        if leb 40 (length packet)
        then as_segment packet (Transport.ipv6_transport packet)
        else none)
unfolding ipv6_transport Transport.ipv6_transport
ipv6_segment packet six =
    let same = skip_headers-ipv6_walk 8 packet (byte packet 6) 40 in
    elim (Option-cases (ipv6_walk 8 packet (byte packet 6) 40)) [
      | inl nothing ↦ rw nothing (ground (arith, same))
      | inr found ↦
          ground (arith, walk-bounds 8 packet (byte packet 6) 40 found.0.0 found.0.1, found.1, same)
    ]

-- Both classifiers find the same transport header in every packet, or both find none, but for the
-- later fragments of IPv4, which only the one of the duplicates refuses.
pub segment-eq-internet_transport :
    (packet : Bytes)
    → segment packet
      ≡ (if is_later_fragment packet then none else as_segment packet (internet_transport packet))
unfolding segment internet_transport Transport.ipv4_transport ipv4_transport
segment-eq-internet_transport [] = refl
segment-eq-internet_transport (first ∷ rest) = ground (arith, ipv6_segment (first ∷ rest))

quic_source :
    (t : Segment)
    → quic_initial_transport t ≡ true
    → classify_transport t ≡ true
    → be16_at t.bytes 0 ≡ 53
unfolding quic_initial_transport classify_transport
quic_source t q c = ground arith

-- A packet of the size of a client's first QUIC datagram is sent twice on its own path only if it
-- comes from port 53 or its bytes read as a control message.
pub should_duplicate-quic :
    (packet : Bytes)
    → is_quic_initial_sized packet ≡ true
    → should_duplicate packet ≡ true
    → (is_control (payload packet) ≡ true)
      ⊎ ((t : Segment) × (segment (payload packet) ≡ some t) × (be16_at t.bytes 0 ≡ 53))
unfolding should_duplicate duplicates is_quic_initial_sized
should_duplicate-quic packet q d = elim (Bool-cases (is_control (payload packet))) [
  | inl control ↦ inl control
  | inr plain ↦ elim (Option-cases (segment (payload packet))) [
    | inl nothing ↦ absurd (ground arith)
    | inr found ↦ inr (found.0, found.1, quic_source found.0 (ground arith) (ground arith))
  ]
]
