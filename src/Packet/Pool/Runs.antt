-- ===== src/Packet/Pool/Runs.antt =====
-- Threads that share a pool: a buffer is acquired and released in atomic steps, in any order.
mod Tests
use csqtt_antinet_module.ArrayQueue.{ArrayQueue, IsFifo, pop_size, push_size}
use csqtt_antinet_module.Packet.Pool.{PacketPool, new, uncount}
use csqtt_antinet_module.Packet.Pool.Limits.{IsCounted, new-IsCounted}
use csqtt_antinet_module.Prelude.{
  ℕ, suc, ◌+◌, ◌≤◌, ◌<◌, max, ◌≡◌, refl, ◌∙◌, some, arith, Bytes, u64_max,
}

module _ (queue : ArrayQueue Bytes) where
  -- A pool, the buffers in use, and those that a release has given up but not yet subtracted.
  pub record Shared : Type 0 where
    pub pool : PacketPool queue
    pub used : ℕ
    pub leaving : ℕ

  -- The atomic steps of `try_acquire_inner` and `release_inner`. A pop that found nothing changes
  -- nothing, so `allocated` can follow any number of steps of other threads.
  pub data Step : Shared → Shared → Type 0 where
    reused :
        {s : Shared} {b : Bytes} {t : queue.Queue}
        → queue.pop s.pool.retained ≡ some (b, t)
        → Step s (record s { pool = record s.pool { retained = t }; used = suc s.used })
    allocated :
        {s : Shared}
        → s.pool.allocated < s.pool.limit
        → Step s (record s {
          pool = record s.pool { allocated = s.pool.allocated + 1 };
          used = suc s.used;
        })
    kept :
        {s : Shared} {n : ℕ} {b : Bytes} {t : queue.Queue}
        → s.used ≡ suc n
        → queue.push b s.pool.retained ≡ some t
        → Step s (record s { pool = record s.pool { retained = t }; used = n })
    given_up :
        {s : Shared} {n : ℕ}
        → s.used ≡ suc n
        → Step s (record s { used = n; leaving = suc s.leaving })
    subtracted :
        {s : Shared} {n : ℕ}
        → s.leaving ≡ suc n
        → Step s (record s { pool = uncount queue s.pool; leaving = n })

  pub data Reachable (buffers : ℕ) : Shared → Type 0 where
    start : Reachable buffers (record { pool = new queue buffers; used = 0; leaving = 0 })
    then : {s t : Shared} → Reachable buffers s → Step s t → Reachable buffers t

module _ (queue : ArrayQueue Bytes) (fifo : IsFifo queue) where
  -- Every step keeps the count: what is allocated is in use, kept or leaving, within the limit.
  Step-IsCounted :
      {s t : Shared queue}
      → IsCounted queue fifo s.pool (s.used + s.leaving)
      → Step queue s t
      → IsCounted queue fifo t.pool (t.used + t.leaving) × (t.pool.limit ≡ s.pool.limit)
  Step-IsCounted {s} v (Step.reused {t} e) =
      let size = pop_size queue fifo s.pool.retained e in
      (record { counted = omega (arith, size); bounded = omega arith; word = omega arith }, refl)
  Step-IsCounted v (Step.allocated h) =
      (record { counted = omega arith; bounded = omega arith; word = omega arith }, refl)
  Step-IsCounted {s} v (Step.kept u e) =
      let size = push_size queue fifo s.pool.retained e in
      (record { counted = omega (arith, size); bounded = omega arith; word = omega arith }, refl)
  Step-IsCounted v (Step.given_up u) =
      (record { counted = omega arith; bounded = omega arith; word = omega arith }, refl)
  Step-IsCounted v (Step.subtracted l) =
      (record { counted = omega arith; bounded = omega arith; word = omega arith }, refl)

  -- However threads interleave, the buffers allocated are those in use, those kept and those
  -- being given up, and there are never more of them than the limit of the pool.
  pub Reachable-IsCounted :
      {buffers : ℕ} {s : Shared queue}
      → buffers ≤ u64_max
      → Reachable queue buffers s
      → IsCounted queue fifo s.pool (s.used + s.leaving) × (s.pool.limit ≡ max buffers 1)
  unfolding new
  Reachable-IsCounted {buffers} h Reachable.start = (new-IsCounted queue fifo buffers h, refl)
  Reachable-IsCounted h (Reachable.then r step) =
      let (v, l) = Reachable-IsCounted h r in let (w, k) = Step-IsCounted v step in (w, k ∙ l)
