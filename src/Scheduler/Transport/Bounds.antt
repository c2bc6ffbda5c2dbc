-- ===== src/Scheduler/Transport/Bounds.antt =====
-- The offset that the classifier reads on from lies inside the packet.
use csqtt_antinet_module.Scheduler.Transport.{
  Round, step, done, fail, ipv6_round, ipv6_walk, ipv6_transport, ipv4_transport,
  internet_transport,
}
use csqtt_antinet_module.Prelude.{
  ℕ, zero, suc, ◌≤◌, ◌<◌, ◌≡◌, refl, ◌⊎◌, inl, inr, some, [], ◌∷◌, arith, length, Bytes, byte,
}

Round-cases : (r : Round) → (r ≡ done) ⊎ (r ≡ fail) ⊎ ((p : ℕ) × (o : ℕ) × (r ≡ step p o))
Round-cases (step p o) = inr (inr (p, o, refl))
Round-cases done = inl refl
Round-cases fail = inr (inl refl)

round-grows :
    (packet : Bytes) (protocol offset p o : ℕ)
    → ipv6_round packet protocol offset ≡ step p o
    → offset < o
unfolding ipv6_round
round-grows packet protocol offset p o h = ground arith

pub walk-bounds :
    (rounds : ℕ) (packet : Bytes) (protocol offset t o : ℕ)
    → offset ≤ length packet
    → ipv6_walk rounds packet protocol offset ≡ some (t, o)
    → (offset ≤ o) × (o ≤ length packet)
unfolding ipv6_walk
walk-bounds zero packet protocol offset t o le h = ground arith
walk-bounds (suc rounds) packet protocol offset t o le h =
    elim (Round-cases (ipv6_round packet protocol offset)) [
      | inl stop ↦ ground arith
      | inr (inl failed) ↦ ground arith
      | inr (inr (p, o', moved)) ↦
          ground (
            arith,
            round-grows packet protocol offset p o' moved,
            walk-bounds rounds packet p o' t o,
          )
    ]

-- The transport header of a packet begins behind at least 20 bytes and inside the packet.
pub internet_transport_bounds :
    (packet : Bytes) (protocol offset : ℕ)
    → internet_transport packet ≡ some (protocol, offset)
    → (20 ≤ offset) × (offset ≤ length packet)
unfolding internet_transport ipv6_transport ipv4_transport
internet_transport_bounds [] protocol offset h = absurd (cc)
internet_transport_bounds (first ∷ rest) protocol offset h =
    ground (arith, walk-bounds 8 (first ∷ rest) (byte (first ∷ rest) 6) 40 protocol offset)
