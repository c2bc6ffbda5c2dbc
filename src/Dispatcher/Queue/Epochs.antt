-- ===== src/Dispatcher/Queue/Epochs.antt =====
-- The receiver gets the packets of the present epoch, the oldest first, and no others.
use csqtt_antinet_module.ArrayQueue.{ArrayQueue, IsFifo, List-cases}
use csqtt_antinet_module.Dispatcher.Queue.{
  QueuedPacket, PacketQueue, is_active, recv_loop, try_recv,
}
use csqtt_antinet_module.Prelude.{
  ℕ, zero, suc, ◌+◌, ◌/◌, ◌<◌, ◌≡◌, refl, sym, ap, ◌∙◌, ◌⊎◌, inl, inr, Bool, true, false, ◌&&◌,
  Option, none, some, List, [], ◌∷◌, arith, ◌==◌, if◌then◌else◌, Bool-cases, length,
}

module _ {P : Type 0} where
  -- The first entry of the epoch, and what stands behind it.
  unfoldable pub first_of : ℕ → List (QueuedPacket P) → Option P × List (QueuedPacket P)
  first_of epoch [] = (none, [])
  first_of epoch (x ∷ xs) =
      let rest = first_of epoch xs in if x.epoch == epoch then (some x.packet, xs) else rest

module _ {P : Type 0} (q : ArrayQueue (QueuedPacket P)) (fifo : IsFifo q) where
  -- The packet is the one of `expected`, and the queue holds what it leaves.
  abbrev pub Receives : Option P × q.Queue → Option P × List (QueuedPacket P) → Type 0
  Receives r expected = (r.0 ≡ expected.0) × (q.contents r.1 ≡ expected.1)

  recv_loop-found :
      (fuel epoch : ℕ) (s : q.Queue) {x : QueuedPacket P} {t : q.Queue}
      → q.pop s ≡ some (x, t)
      → (x.epoch == epoch) ≡ true
      → recv_loop q (suc fuel) epoch true s ≡ (some x.packet, t)
  unfolding recv_loop
  recv_loop-found fuel epoch s f now = rw (f, now, recv_loop) refl

  recv_loop-stale :
      (fuel epoch : ℕ) (active : Bool) (s : q.Queue) {x : QueuedPacket P} {t : q.Queue}
      → q.pop s ≡ some (x, t)
      → (active && (x.epoch == epoch)) ≡ false
      → recv_loop q (suc fuel) epoch active s ≡ recv_loop q fuel epoch active t
  unfolding recv_loop
  recv_loop-stale fuel epoch active s f stale = rw (f, stale, recv_loop) refl

  recv_loop-empty :
      (fuel epoch : ℕ) (active : Bool) (s : q.Queue)
      → q.pop s ≡ none
      → recv_loop q (suc fuel) epoch active s ≡ (none, s)
  unfolding recv_loop
  recv_loop-empty fuel epoch active s f = rw (f, recv_loop) refl

  recv_loop_lem :
      (fuel epoch : ℕ) (s : q.Queue)
      → length (q.contents s) < fuel
      → Receives (recv_loop q fuel epoch true s) (first_of epoch (q.contents s))
  unfolding first_of
  recv_loop_lem zero epoch s h = absurd (omega arith)
  recv_loop_lem (suc fuel) epoch s h = elim (List-cases (q.contents s)) [
    | inl e ↦ rw (recv_loop-empty fuel epoch true s (fifo.pop_empty s e), e) (refl, refl)
    | inr (x, l, e) ↦
        let (t, f, rest, cap) = fifo.pop_first x l s e in
        let fewer : length (q.contents s) ≡ suc (length (q.contents t)) =
          ap length e ∙ ap (λ (r : List (QueuedPacket P)). suc (length r)) (sym rest) in
        let later = recv_loop_lem fuel epoch t (omega (arith, fewer)) in
        elim (Bool-cases (x.epoch == epoch)) [
          | inl now ↦ rw (recv_loop-found fuel epoch s f now, e, now) (refl, rest)
          | inr stale ↦ rw (recv_loop-stale fuel epoch true s f stale, e, stale) (rw rest at later)
        ]
  ]

  recv_loop-inactive :
      (fuel epoch : ℕ) (s : q.Queue)
      → length (q.contents s) < fuel
      → ((recv_loop q fuel epoch false s).0 ≡ none)
        × (q.contents (recv_loop q fuel epoch false s).1 ≡ [])
  recv_loop-inactive zero epoch s h = absurd (omega arith)
  recv_loop-inactive (suc fuel) epoch s h = elim (List-cases (q.contents s)) [
    | inl e ↦ rw (recv_loop-empty fuel epoch false s (fifo.pop_empty s e)) (refl, e)
    | inr (x, l, e) ↦
        let (t, f, rest, cap) = fifo.pop_first x l s e in
        let fewer : length (q.contents s) ≡ suc (length (q.contents t)) =
          ap length e ∙ ap (λ (r : List (QueuedPacket P)). suc (length r)) (sym rest) in
        rw (recv_loop-stale fuel epoch false s f refl)
          (recv_loop-inactive fuel epoch t (omega (arith, fewer)))
  ]

  pub try_recv_lem :
      (s : PacketQueue q)
      → (is_active q s ≡ true
          → ((try_recv q s).0 ≡ (first_of (s.state / 2) (q.contents s.queue)).0)
            × (q.contents (try_recv q s).1.queue ≡ (first_of (s.state / 2) (q.contents s.queue)).1))
        × (is_active q s ≡ false
            → ((try_recv q s).0 ≡ none) × (q.contents (try_recv q s).1.queue ≡ []))
  unfolding try_recv
  try_recv_lem s = (
    λ on. rw on (
        recv_loop_lem (q.capacity s.queue + 1) (s.state / 2) s.queue
          (omega (arith, fifo.fits s.queue))),
    λ off. rw off (
        recv_loop-inactive (q.capacity s.queue + 1) (s.state / 2) s.queue
          (omega (arith, fifo.fits s.queue))),
  )

  -- The receiver of an active queue gets the oldest packet of the present epoch: those before it
  -- are of other epochs and dropped, and when there is none the queue is left empty. The receiver
  -- of a queue that is not active gets nothing and leaves it empty.
  try_recv-cases :
      (s : PacketQueue q)
      → ((is_active q s ≡ true)
          × ((try_recv q s).0 ≡ (first_of (s.state / 2) (q.contents s.queue)).0)
          × (q.contents (try_recv q s).1.queue ≡ (first_of (s.state / 2) (q.contents s.queue)).1))
        ⊎ ((is_active q s ≡ false)
            × ((try_recv q s).0 ≡ none)
            × (q.contents (try_recv q s).1.queue ≡ []))
  try_recv-cases s = elim (Bool-cases (is_active q s)) [
    | inl on ↦ let (packet, left) = (try_recv_lem s).0 on in inl (on, packet, left)
    | inr off ↦ let (packet, left) = (try_recv_lem s).1 off in inr (off, packet, left)
  ]
