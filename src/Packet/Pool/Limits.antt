-- ===== src/Packet/Pool/Limits.antt =====
-- Every buffer of a pool is in use or kept, and there are never more of them than the limit.
use csqtt_antinet_module.ArrayQueue.{ArrayQueue, IsFifo, List-cases}
use csqtt_antinet_module.Packet.Buf.{packet_capacity, fresh}
use csqtt_antinet_module.Packet.Pool.{PacketPool, new, try_acquire, uncount, release}
use csqtt_antinet_module.Prelude.{
  ℕ, suc, ◌+◌, ◌≤◌, ◌<◌, min, max, ◌≡◌, refl, sym, ap, ◌∙◌, ◌↔◌, ◌⊎◌, inl, inr, true, false, Option,
  none, some, List, [], ◌∷◌, arith, ltb, ◌==◌, ltb→lt, ltb→le, ==_iff, Bool-cases, length,
  length-append, Bytes, u64_max,
}

module _ (queue : ArrayQueue Bytes) (fifo : IsFifo queue) where
  -- `used` buffers are out.
  pub record IsCounted (p : PacketPool queue) (used : ℕ) : Type 0 where
    pub counted : p.allocated ≡ used + length (queue.contents p.retained)
    pub bounded : p.allocated ≤ p.limit
    pub word : p.limit ≤ u64_max

  -- A new pool has no buffers.
  pub new-IsCounted : (buffers : ℕ) → buffers ≤ u64_max → IsCounted (new queue buffers) 0
  unfolding new
  new-IsCounted buffers h =
      let empty : length (queue.contents (queue.with_capacity (min (max buffers 1) 2048))) ≡ 0 =
        ap length (fifo.contents-with_capacity (min (max buffers 1) 2048) (omega arith)) in
      record { counted = omega (arith, empty); bounded = omega arith; word = omega arith }

  -- Whether a buffer was handed out.
  abbrev pub out : {B : Type 0} → Option B → ℕ
  out none = 0
  out (some b) = 1

  try_acquire-reuse :
      (blank : Bytes) (p : PacketPool queue) {b : Bytes} {t : queue.Queue}
      → queue.pop p.retained ≡ some (b, t)
      → try_acquire queue blank p ≡ (some (fresh b), record p { retained = t })
  unfolding try_acquire
  try_acquire-reuse blank p e = rw (e, try_acquire) refl

  try_acquire-new :
      (blank : Bytes) (p : PacketPool queue)
      → queue.pop p.retained ≡ none
      → p.allocated < p.limit
      → try_acquire queue blank p ≡ (some (fresh blank), record p { allocated = p.allocated + 1 })
  unfolding try_acquire
  try_acquire-new blank p e h =
      let more : ltb p.allocated p.limit ≡ true = ground arith in rw (e, more, try_acquire) refl

  try_acquire-full :
      (blank : Bytes) (p : PacketPool queue)
      → queue.pop p.retained ≡ none
      → p.limit ≤ p.allocated
      → try_acquire queue blank p ≡ (none, p)
  unfolding try_acquire
  try_acquire-full blank p e h =
      let full : ltb p.allocated p.limit ≡ false = ground arith in rw (e, full, try_acquire) refl

  -- Acquiring hands out a buffer, counted as in use, unless as many as the limit are in use; then
  -- it hands out none and the pool stays as it is.
  pub try_acquire_lem :
      (blank : Bytes) (p : PacketPool queue) (used : ℕ)
      → IsCounted p used
      → IsCounted (try_acquire queue blank p).1 (used + out (try_acquire queue blank p).0)
        × ((try_acquire queue blank p).1.limit ≡ p.limit)
        × (((try_acquire queue blank p).0 ≡ none) ↔ (used ≡ p.limit))
  try_acquire_lem blank p used v = elim (List-cases (queue.contents p.retained)) [
    | inr (b, l, e) ↦
        let (t, f, rest, cap) = fifo.pop_first b l p.retained e in
        let size : length (queue.contents p.retained) ≡ suc (length (queue.contents t)) =
          ap length e ∙ ap (λ (r : List Bytes). suc (length r)) (sym rest) in
        rw (try_acquire-reuse blank p f) (
          record { counted = omega (arith, size); bounded = omega arith; word = omega arith },
          refl,
          (λ x. absurd cc, λ x. absurd (omega (arith, size))),
        )
    | inl e ↦
        let size : length (queue.contents p.retained) ≡ 0 = ap length e in
        elim (Bool-cases (ltb p.allocated p.limit)) [
          | inl more ↦
              rw
                (try_acquire-new blank p (fifo.pop_empty p.retained e)
                  (ltb→lt p.allocated p.limit more))
                (
                  record {
                    counted = omega (arith, size);
                    bounded = omega (arith, ltb→lt p.allocated p.limit more);
                    word = omega arith;
                  },
                  refl,
                  (
                    λ x. absurd cc,
                    λ x. absurd (omega (arith, size, ltb→lt p.allocated p.limit more)),
                  ),
                )
          | inr full ↦
              rw
                (try_acquire-full blank p (fifo.pop_empty p.retained e)
                  (ltb→le p.allocated p.limit full))
                (
                  record {
                    counted = omega (arith, size);
                    bounded = omega arith;
                    word = omega arith;
                  },
                  refl,
                  (λ x. omega (arith, size, ltb→le p.allocated p.limit full), λ x. refl),
                )
        ]
  ]

  release-kept :
      (storage : Bytes) (p : PacketPool queue) {t : queue.Queue}
      → length storage ≡ packet_capacity
      → queue.push storage p.retained ≡ some t
      → release queue storage p ≡ record p { retained = t }
  unfolding release
  release-kept storage p {t} l e =
      let same : (length storage == packet_capacity) ≡ true = ground arith in
      rw (same, e, release) refl

  release-dropped :
      (storage : Bytes) (p : PacketPool queue)
      → (length storage == packet_capacity) ≡ false ⊎ (queue.push storage p.retained ≡ none)
      → release queue storage p ≡ uncount queue p
  unfolding release
  release-dropped storage p (inl l) = rw (l, release) refl
  release-dropped storage p (inr e) = elim (Bool-cases (length storage == packet_capacity)) [
    | inl l ↦ rw (l, e, release) refl
    | inr l ↦ rw (l, release) refl
  ]

  -- Releasing a buffer in use counts it as kept or gives it up.
  pub release_lem :
      (storage : Bytes) (p : PacketPool queue) (used : ℕ)
      → IsCounted p (suc used)
      → IsCounted (release queue storage p) used × ((release queue storage p).limit ≡ p.limit)
  release_lem storage p used v = elim (Bool-cases (length storage == packet_capacity)) [
    | inr wrong ↦ dropped (inl wrong)
    | inl same ↦
        elim (Bool-cases (ltb (length (queue.contents p.retained)) (queue.capacity p.retained))) [
          | inl room ↦
              let (q, f, added, cap) =
                fifo.push_room storage p.retained
                  (ltb→lt (length (queue.contents p.retained)) (queue.capacity p.retained) room) in
              let size : length (queue.contents q) ≡ length (queue.contents p.retained) + 1 =
                ap length added ∙ length-append (queue.contents p.retained) (storage ∷ []) in
              rw (release-kept storage p ((==_iff (length storage) packet_capacity).0 same) f) (
                record { counted = omega (arith, size); bounded = omega arith; word = omega arith },
                refl,
              )
          | inr full ↦ dropped (
              inr (
                fifo.push_full storage p.retained (
                  omega (
                    arith,
                    ltb→le (length (queue.contents p.retained)) (queue.capacity p.retained) full,
                    fifo.fits p.retained,
                  ))))
        ]
  ]
    where
      dropped :
          ((length storage == packet_capacity) ≡ false) ⊎ (queue.push storage p.retained ≡ none)
          → IsCounted (release queue storage p) used × ((release queue storage p).limit ≡ p.limit)
      dropped e =
          rw (release-dropped storage p e)
            (record { counted = omega arith; bounded = omega arith; word = omega arith }, refl)
