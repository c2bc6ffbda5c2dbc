-- ===== src/Dispatcher/Select.antt =====
-- Which queue of which worker a packet is put in: `enqueue_selected_worker` and
-- `replace_oldest_in_selected_queue`, and `dispatch_now` and `redispatch` over them. The spare copy
-- of a packet is what `udp_spare` gives.
pub mod Healthy
use csqtt_antinet_module.ArrayQueue.{ArrayQueue}
use csqtt_antinet_module.Dispatcher.Queue.{
  QueuedPacket, PacketQueue, try_send, force_send, is_congested, size,
}
use csqtt_antinet_module.Scheduler.Classes.{PacketClass, small, medium, bulk, DispatchTicket}
use csqtt_antinet_module.Prelude.{
  ℕ, zero, suc, ◌+◌, ◌-◌, ◌/◌, ◌%◌, min, Bool, true, false, not, ◌&&◌, Option, none, some, List, [],
  ◌∷◌, ltb, leb, ◌==◌, if◌then◌else◌, length, get_elem?, set, Bytes,
}

module _ {P : Type 0} (q : ArrayQueue (QueuedPacket P)) where
  -- `turn_path` is the bytes of the text.
  pub record WorkerChannels : Type 0 where
    pub id : ℕ
    pub incarnation_id : ℕ
    pub turn_path : Bytes
    pub latency : PacketQueue q
    pub priority : PacketQueue q
    pub bulk : PacketQueue q
    pub healthy : Bool

  pub queue_for_class : PacketClass → WorkerChannels → PacketQueue q
  queue_for_class PacketClass.small w = w.latency
  queue_for_class PacketClass.medium w = w.priority
  queue_for_class PacketClass.bulk w = w.bulk

  pub with_queue : PacketClass → PacketQueue q → WorkerChannels → WorkerChannels
  with_queue PacketClass.small t w = record w { latency = t }
  with_queue PacketClass.medium t w = record w { priority = t }
  with_queue PacketClass.bulk t w = record w { bulk = t }

  -- One worker of the search: `none` when it is passed over or hands the packet back.
  pub offer : (prefer_clear : Bool) → PacketClass → P → WorkerChannels → Option WorkerChannels
  offer prefer_clear class packet w =
      if not w.healthy
      then none
      else if prefer_clear && is_congested q (queue_for_class class w)
      then none
      else elim (try_send q packet (queue_for_class class w)) [
        | none ↦ none
        | some t ↦ some (with_queue class t w)
      ]

  abbrev pub offer_at :
      (prefer_clear : Bool)
      → PacketClass
      → P
      → List WorkerChannels
      → ℕ
      → Option (List WorkerChannels)
  offer_at prefer_clear class packet workers i = elim (get_elem? workers i) [
    | none ↦ none
    | some w ↦ elim (offer prefer_clear class packet w) [
      | none ↦ none
      | some v ↦ some (set workers i v)
    ]
  ]

  -- `for offset in 0..search`, from the offset `from` on, for so many more.
  unfoldable pub search_from :
      (prefer_clear : Bool)
      → PacketClass
      → P
      → List WorkerChannels
      → (start_slot more from : ℕ) → Option (List WorkerChannels)
  search_from prefer_clear class packet workers start_slot zero from = none
  search_from prefer_clear class packet workers start_slot (suc more) from =
      let rest = search_from prefer_clear class packet workers start_slot more (from + 1) in
      elim (offer_at prefer_clear class packet workers ((start_slot + from) % length workers)) [
        | none ↦ rest
        | some updated ↦ some updated
      ]

  -- How many workers are tried.
  pub search_width : List WorkerChannels → ℕ → ℕ
  search_width workers start_slot = elim (get_elem? workers start_slot) [
    | none ↦ length workers
    | some w ↦ if w.healthy then 1 + min 2 (length workers - 1) else length workers
  ]

  -- `none`: the packet is handed back.
  pub enqueue_selected_worker :
      List WorkerChannels → DispatchTicket → P → Option (List WorkerChannels)
  enqueue_selected_worker workers ticket packet =
      let search = search_width workers ticket.start_slot in
      if length workers == 0
      then none
      else elim (search_from true ticket.class packet workers ticket.start_slot search 0) [
        | some updated ↦ some updated
        | none ↦ search_from false ticket.class packet workers ticket.start_slot search 0
      ]

  -- `filter(healthy).min_by_key(queued)`: the first of the shortest.
  unfoldable pub shortest : PacketClass → List WorkerChannels → Option ℕ
  shortest class [] = none
  shortest class (w ∷ ws) =
      let rest = shortest class ws in
      if not w.healthy then elim rest [ none ↦ none | some i ↦ some (suc i) ] else elim rest [
        | none ↦ some 0
        | some i ↦ elim (get_elem? ws i) [
          | none ↦ some 0
          | some v ↦
              if ltb (size q (queue_for_class class v)) (size q (queue_for_class class w))
              then some (suc i)
              else some 0
        ]
      ]

  pub replace_oldest_in_selected_queue :
      List WorkerChannels → DispatchTicket → P → Option (List WorkerChannels)
  replace_oldest_in_selected_queue workers ticket packet = elim (shortest ticket.class workers) [
    | none ↦ none
    | some i ↦ elim (get_elem? workers i) [
      | none ↦ none
      | some w ↦ elim (force_send q packet (queue_for_class ticket.class w)) [
        | none ↦ none
        | some t ↦ some (set workers i (with_queue ticket.class t w))
      ]
    ]
  ]

  abbrev pub or_else : List WorkerChannels → Option (List WorkerChannels) → List WorkerChannels
  or_else workers none = workers
  or_else workers (some updated) = updated

  -- The queues after a packet is enqueued, or replaces another, or is dropped.
  pub enqueue_or_replace : List WorkerChannels → DispatchTicket → P → List WorkerChannels
  enqueue_or_replace workers ticket packet = elim (enqueue_selected_worker workers ticket packet) [
    | some updated ↦ updated
    | none ↦ or_else workers (replace_oldest_in_selected_queue workers ticket packet)
  ]

  -- `dispatch_now`, behind the ticket that the scheduler gives.
  pub dispatch_now :
      List WorkerChannels → DispatchTicket → P → (spare : Option P) → List WorkerChannels
  dispatch_now workers ticket packet spare =
      let updated = enqueue_or_replace workers ticket packet in
      elim spare [
        | none ↦ updated
        | some copy ↦
            if leb (length workers) 1
            then updated
            else or_else updated (
                enqueue_selected_worker updated
                  (record ticket {
                    start_slot = (ticket.start_slot + length workers / 2) % length workers;
                  })
                  copy)
      ]

  pub redispatch : List WorkerChannels → (PacketClass × P) → List WorkerChannels
  redispatch workers (class, packet) =
      if length workers == 0
      then workers
      else enqueue_or_replace workers (record { start_slot = 0; class = class }) packet

  unfoldable pub redispatch_all : List WorkerChannels → List (PacketClass × P) → List WorkerChannels
  redispatch_all workers [] = workers
  redispatch_all workers (packet ∷ packets) = redispatch_all (redispatch workers packet) packets
