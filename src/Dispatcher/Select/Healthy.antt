-- ===== src/Dispatcher/Select/Healthy.antt =====
-- A packet goes into one queue of a healthy worker, or every worker that was tried refuses it.
mod Tests
use csqtt_antinet_module.ArrayQueue.{ArrayQueue}
use csqtt_antinet_module.Dispatcher.Queue.{QueuedPacket, PacketQueue, try_send, is_congested}
use csqtt_antinet_module.Dispatcher.Select.{
  WorkerChannels, queue_for_class, with_queue, offer, offer_at, search_from, search_width,
  enqueue_selected_worker,
}
use csqtt_antinet_module.Scheduler.Classes.{PacketClass, DispatchTicket}
use csqtt_antinet_module.Prelude.{
  ℕ, zero, suc, ◌+◌, ◌%◌, ◌≤◌, ◌<◌, ◌≡◌, refl, sym, ap, ◌∙◌, ◌⊎◌, inl, inr, Bool, true, false, not,
  ◌&&◌, Option, none, some, List, arith, ◌==◌, if◌then◌else◌, ==_iff, Bool-cases, Option-cases,
  length, get_elem?, set,
}

module _ {P : Type 0} (q : ArrayQueue (QueuedPacket P)) where
  -- The queue of worker `i` took the packet, and nothing else changed.
  pub record Took (class : PacketClass) (packet : P) (workers : List (WorkerChannels q)) (i : ℕ)
      (updated : List (WorkerChannels q)) : Type 0 where
    pub worker : WorkerChannels q
    pub found : get_elem? workers i ≡ some worker
    pub healthy : worker.healthy ≡ true
    pub queue : PacketQueue q
    pub sent : try_send q packet (queue_for_class q class worker) ≡ some queue
    pub result : updated ≡ set workers i (with_queue q class queue worker)

  -- Worker `i` is not healthy or its queue hands the packet back.
  abbrev pub Refuses : PacketClass → P → List (WorkerChannels q) → ℕ → Type 0
  Refuses class packet workers i =
      (w : WorkerChannels q)
      → get_elem? workers i ≡ some w
      → w.healthy ≡ true
      → try_send q packet (queue_for_class q class w) ≡ none

  -- The tests of `offer`, by their outcomes.
  abbrev choose : Bool → Bool → Option (PacketQueue q) → Option (PacketQueue q)
  choose false slow o = none
  choose true true o = none
  choose true false o = o

  choose_took :
      (healthy slow : Bool) (o : Option (PacketQueue q))
      → (choose healthy slow o ≡ none)
        ⊎ ((healthy ≡ true) × (t : PacketQueue q) × (o ≡ some t) × (choose healthy slow o ≡ some t))
  choose_took false slow o = inl refl
  choose_took true true o = inl refl
  choose_took true false none = inl refl
  choose_took true false (some t) = inr (refl, t, refl, refl)

  abbrev put : PacketClass → WorkerChannels q → Option (PacketQueue q) → Option (WorkerChannels q)
  put class w none = none
  put class w (some t) = some (with_queue q class t w)

  put-choose :
      (class : PacketClass) (w : WorkerChannels q) (healthy slow : Bool)
      (o : Option (PacketQueue q))
      → (if not healthy
          then none
          else if slow
          then none
          else elim o [ none ↦ none | some t ↦ some (with_queue q class t w) ])
        ≡ put class w (choose healthy slow o)
  put-choose class w false slow o = refl
  put-choose class w true true o = refl
  put-choose class w true false none = refl
  put-choose class w true false (some t) = refl

  offer_as :
      (clear : Bool) (class : PacketClass) (packet : P) (w : WorkerChannels q)
      → offer q clear class packet w
        ≡ put class w (
            choose w.healthy
              (clear && is_congested q (queue_for_class q class w))
              (try_send q packet (queue_for_class q class w)))
  unfolding offer
  offer_as clear class packet w =
      put-choose class w w.healthy (clear && is_congested q (queue_for_class q class w))
        (try_send q packet (queue_for_class q class w))

  offer_took :
      (clear : Bool) (class : PacketClass) (packet : P) (w : WorkerChannels q)
      → (offer q clear class packet w ≡ none)
        ⊎ ((w.healthy ≡ true)
            × (t : PacketQueue q) × (try_send q packet (queue_for_class q class w) ≡ some t)
            × (offer q clear class packet w ≡ some (with_queue q class t w)))
  offer_took clear class packet w =
      elim (choose_took w.healthy (clear && is_congested q (queue_for_class q class w))
        (try_send q packet (queue_for_class q class w))) [
          | inl e ↦ inl (offer_as clear class packet w ∙ ap (put class w) e)
          | inr (well, t, sent, e) ↦
              inr (well, t, sent, offer_as clear class packet w ∙ ap (put class w) e)
        ]

  choose_refused :
      (class : PacketClass) (w : WorkerChannels q) (o : Option (PacketQueue q)) (healthy : Bool)
      → put class w (choose healthy false o) ≡ none
      → healthy ≡ true
      → o ≡ none
  choose_refused class w none healthy e h = refl
  choose_refused class w (some t) false e h = absurd cc
  choose_refused class w (some t) true e h = absurd cc

  offer_refused :
      (class : PacketClass) (packet : P) (w : WorkerChannels q)
      → offer q false class packet w ≡ none
      → w.healthy ≡ true
      → try_send q packet (queue_for_class q class w) ≡ none
  offer_refused class packet w e well =
      choose_refused class w (try_send q packet (queue_for_class q class w)) w.healthy
        (sym (offer_as false class packet w) ∙ e) well

  offer_at-Took :
      (clear : Bool) (class : PacketClass) (packet : P) (workers : List (WorkerChannels q)) (i : ℕ)
      → (offer_at q clear class packet workers i ≡ none)
        ⊎ ((updated : List (WorkerChannels q)) × (offer_at q clear class packet workers i
              ≡ some updated)
            × Took class packet workers i updated)
  offer_at-Took clear class packet workers i = elim (Option-cases (get_elem? workers i)) [
    | inl e ↦ inl (rw (e, offer_at) refl)
    | inr (w, e) ↦ elim (offer_took clear class packet w) [
      | inl passed ↦ inl (rw (e, passed, offer_at) refl)
      | inr (well, t, sent, taken) ↦ inr (
        set workers i (with_queue q class t w),
        rw (e, taken, offer_at) refl,
        record { worker = w; found = e; healthy = well; queue = t; sent = sent; result = refl },
      )
    ]
  ]

  -- The index of a worker that the search tries.
  abbrev pub tried : List (WorkerChannels q) → ℕ → ℕ → ℕ
  tried workers start_slot offset = (start_slot + offset) % length workers

  search_from-Took :
      (clear : Bool) (class : PacketClass) (packet : P) (workers : List (WorkerChannels q))
      (start_slot more from : ℕ)
      → ((search_from q clear class packet workers start_slot more from ≡ none)
          × ((offset : ℕ)
              → from ≤ offset
              → offset < from + more
              → offer_at q clear class packet workers (tried workers start_slot offset) ≡ none))
        ⊎ ((updated : List (WorkerChannels q)) × (search_from q clear class packet workers
                start_slot more from
              ≡ some updated)
            × (offset : ℕ) × (offset < from + more)
            × Took class packet workers (tried workers start_slot offset) updated)
  unfolding search_from
  search_from-Took clear class packet workers start_slot zero from =
      inl (refl, λ offset a b. absurd (omega arith))
  search_from-Took clear class packet workers start_slot (suc more) from =
      elim (offer_at-Took clear class packet workers (tried workers start_slot from)) [
        | inr (updated, e, took) ↦ inr (updated, rw (e, search_from) refl, from, omega arith, took)
        | inl passed ↦
            elim (search_from-Took clear class packet workers start_slot more (from + 1)) [
              | inl (nothing, all) ↦ inl (
                rw (passed, search_from) nothing,
                λ offset a b. elim (Bool-cases (offset == from)) [
                  | inl here ↦ rw ((==_iff offset from).0 here) passed
                  | inr later ↦ all offset (ground (arith, later)) (omega arith)
                ],
              )
              | inr (updated, e, offset, near, took) ↦
                  inr (updated, rw (passed, search_from) e, offset, omega arith, took)
            ]
      ]

  offer_at-Refuses :
      (class : PacketClass) (packet : P) (workers : List (WorkerChannels q)) (i : ℕ)
      → offer_at q false class packet workers i ≡ none
      → Refuses class packet workers i
  offer_at-Refuses class packet workers i none_taken w found well =
      elim (Option-cases (offer q false class packet w)) [
        | inl e ↦ offer_refused class packet w e well
        | inr (v, e) ↦ absurd (clash found e none_taken)
      ]
    where
      clash :
          {w v : WorkerChannels q}
          → get_elem? workers i ≡ some w
          → offer q false class packet w ≡ some v
          → offer_at q false class packet workers i ≡ none
          → ⊥
      clash {w} {v} f e n =
          let taken : offer_at q false class packet workers i ≡ some (set workers i v) =
            rw (f, e, offer_at) refl in
          cc

  -- Enqueueing puts the packet in the queue of its class of one healthy worker among those the
  -- search tries, and changes nothing else; or it hands the packet back, and then there is no
  -- worker or each one that the search tries is not healthy or has a queue that hands it back.
  pub enqueue_selected_worker_lem :
      (workers : List (WorkerChannels q)) (ticket : DispatchTicket) (packet : P)
      → ((enqueue_selected_worker q workers ticket packet ≡ none)
          × ((offset : ℕ)
              → 0 < length workers
              → offset < search_width q workers ticket.start_slot
              → Refuses ticket.class packet workers (tried workers ticket.start_slot offset)))
        ⊎ ((updated : List (WorkerChannels q)) × (enqueue_selected_worker q workers ticket packet
              ≡ some updated)
            × (offset : ℕ) × (offset < search_width q workers ticket.start_slot)
            × Took ticket.class packet workers (tried workers ticket.start_slot offset) updated)
  unfolding enqueue_selected_worker
  enqueue_selected_worker_lem workers ticket packet =
      let width = search_width q workers ticket.start_slot in
      elim (Bool-cases (length workers == 0)) [
        | inl empty ↦ inl (
          rw (empty, enqueue_selected_worker) refl,
          λ offset some_worker near. absurd (ground (arith, empty, some_worker)),
        )
        | inr full ↦
            elim (search_from-Took true ticket.class packet workers ticket.start_slot width 0) [
              | inr (updated, e, offset, near, took) ↦
                  inr
                    (updated, rw (full, e, enqueue_selected_worker) refl, offset, omega arith, took)
              | inl (nothing, all) ↦
                  elim (search_from-Took false ticket.class packet workers ticket.start_slot width
                    0) [
                      | inr (updated, e, offset, near, took) ↦ inr (
                        updated,
                        rw (full, nothing, e, enqueue_selected_worker) refl,
                        offset,
                        omega arith,
                        took,
                      )
                      | inl (still, none_took) ↦ inl (
                        rw (full, nothing, still, enqueue_selected_worker) refl,
                        λ offset some_worker near.
                            offer_at-Refuses ticket.class packet workers
                              (tried workers ticket.start_slot offset)
                              (none_took offset (omega arith) (omega arith)),
                      )
                    ]
            ]
      ]
