-- ===== src/Dispatcher/Queue/Resume.antt =====
-- Resuming a queue starts an epoch of its own.
mod Tests
use csqtt_antinet_module.ArrayQueue.{ArrayQueue, IsFifo, List-cases}
use csqtt_antinet_module.Dispatcher.Queue.{
  QueuedPacket, PacketQueue, is_active, purge_loop, purge, resume, try_recv,
}
use csqtt_antinet_module.Dispatcher.Queue.Epochs.{first_of, try_recv_lem}
use csqtt_antinet_module.Prelude.{
  ℕ, zero, suc, ◌+◌, ◌/◌, ◌^◌, ◌≤◌, ◌<◌, ◌≡◌, refl, sym, ap, ◌∙◌, inl, inr, true, false, none, List,
  [], ◌∷◌, arith, ◌==◌, length, All,
}

module _ {P : Type 0} (q : ArrayQueue (QueuedPacket P)) (fifo : IsFifo q) where
  purge_loop-empty :
      (fuel : ℕ) (s : q.Queue)
      → length (q.contents s) < fuel
      → q.contents (purge_loop q fuel s) ≡ []
  unfolding purge_loop
  purge_loop-empty zero s h = absurd (omega arith)
  purge_loop-empty (suc fuel) s h = elim (List-cases (q.contents s)) [
    | inl e ↦ rw (fifo.pop_empty s e, purge_loop) e
    | inr (x, l, e) ↦
        let (t, f, rest, cap) = fifo.pop_first x l s e in
        let fewer : length (q.contents s) ≡ suc (length (q.contents t)) =
          ap length e ∙ ap (λ (r : List (QueuedPacket P)). suc (length r)) (sym rest) in
        rw (f, purge_loop) (purge_loop-empty fuel t (omega (arith, fewer)))
  ]

  -- After a resume the queue is empty and active, in an epoch after the one before.
  resume_lem :
      (s : PacketQueue q)
      → s.state / 2 + 1 < 2 ^ 63
      → (q.contents (resume q s).queue ≡ [])
        × (is_active q (resume q s) ≡ true)
        × ((resume q s).state / 2 ≡ s.state / 2 + 1)
  unfolding resume purge
  resume_lem s h = (
    purge_loop-empty (q.capacity s.queue + 1) s.queue (omega (arith, fifo.fits s.queue)),
    ground arith,
    omega arith,
  )

  first_of-stale :
      (epoch : ℕ) (xs : List (QueuedPacket P))
      → All (λ (x : QueuedPacket P). x.epoch < epoch) xs
      → first_of epoch xs ≡ (none, [])
  unfolding first_of
  first_of-stale epoch [] h = refl
  first_of-stale epoch (x ∷ xs) h =
      let old : (x.epoch == epoch) ≡ false = ground (arith, h.0) in
      rw old (first_of-stale epoch xs h.1)

  -- A packet sent before a resume is never received after it: not one that the resume finds in the
  -- queue, and not one whose sender read the state before the resume and pushes it afterwards.
  pub resume-try_recv :
      (s : PacketQueue q) (late : q.Queue)
      → s.state / 2 + 1 < 2 ^ 63
      → All (λ (x : QueuedPacket P). x.epoch ≤ s.state / 2) (q.contents late)
      → (q.contents (resume q s).queue ≡ [])
        × ((try_recv q (record (resume q s) { queue = late })).0 ≡ none)
        × (q.contents (try_recv q (record (resume q s) { queue = late })).1.queue ≡ [])
  resume-try_recv s late h old =
      let (empty, active, epoch) = resume_lem s h in
      let (a, b) = (try_recv_lem q fifo (record (resume q s) { queue = late })).0 active in
      let stale : All (λ (x : QueuedPacket P). x.epoch < s.state / 2 + 1) (q.contents late) =
        older (q.contents late) old in
      let nothing = first_of-stale (s.state / 2 + 1) (q.contents late) stale in
      (empty, a ∙ rw (epoch, nothing) refl, b ∙ rw (epoch, nothing) refl)
    where
      older :
          (xs : List (QueuedPacket P))
          → All (λ (x : QueuedPacket P). x.epoch ≤ s.state / 2) xs
          → All (λ (x : QueuedPacket P). x.epoch < s.state / 2 + 1) xs
      older [] v = v
      older (x ∷ xs) v = (omega (arith, v.0), older xs v.1)
