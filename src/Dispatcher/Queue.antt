-- ===== src/Dispatcher/Queue.antt =====
-- `PacketQueue`: a bounded queue whose entries carry the epoch they were sent in. The lowest bit of
-- `state` says that the queue is active, the others are the epoch. A send that is refused hands its
-- packet back.
pub mod Epochs
pub mod Resume
use csqtt_antinet_module.ArrayQueue.{ArrayQueue}
use csqtt_antinet_module.Prelude.{
  ℕ, zero, suc, ◌+◌, ◌*◌, ◌/◌, ◌%◌, max, Bool, true, false, not, ◌&&◌, Option, none, some, List, [],
  ◌∷◌, ltb, leb, ◌==◌, if◌then◌else◌, length, u64_mod, saturating_add,
}

pub record QueuedPacket (P : Type 0) : Type 0 where
  pub packet : P
  pub epoch : ℕ

module _ {P : Type 0} (q : ArrayQueue (QueuedPacket P)) where
  pub record PacketQueue : Type 0 where
    pub queue : q.Queue
    pub state : ℕ
    pub senders : ℕ
    pub receiver_open : Bool

  pub packet_channel : (capacity : ℕ) → Bool → PacketQueue
  packet_channel capacity active = record {
    queue = q.with_capacity (max capacity 1);
    state = if active then 1 else 0;
    senders = 1;
    receiver_open = true;
  }

  -- `state & QUEUE_ACTIVE != 0`
  abbrev pub is_active : PacketQueue → Bool
  is_active s = s.state % 2 == 1

  abbrev pub queued : PacketQueue → P → QueuedPacket P
  queued s packet = record { packet = packet; epoch = s.state / 2 }

  -- `none`: the packet is handed back.
  pub send : Bool → P → PacketQueue → Option PacketQueue
  send force packet s =
      if not s.receiver_open
      then none
      else if not (is_active s)
      then none
      else if force
      then some (record s { queue = q.force_push (queued s packet) s.queue })
      else elim (q.push (queued s packet) s.queue) [
        | none ↦ none
        | some t ↦ some (record s { queue = t })
      ]

  abbrev pub try_send : P → PacketQueue → Option PacketQueue
  try_send = send false

  abbrev pub force_send : P → PacketQueue → Option PacketQueue
  force_send = send true

  -- The packets `steal` takes, and what it leaves; the queue gives no more than it holds.
  unfoldable pub steal_loop : (fuel : ℕ) → q.Queue → List P × q.Queue
  steal_loop zero s = ([], s)
  steal_loop (suc fuel) s = elim (q.pop s) [
    | none ↦ ([], s)
    | some (x, t) ↦ let rest = steal_loop fuel t in (x.packet ∷ rest.0, rest.1)
  ]

  pub steal : PacketQueue → List P × PacketQueue
  steal s =
      let (packets, rest) = steal_loop (q.capacity s.queue + 1) s.queue in
      (packets, record s { queue = rest })

  abbrev pub size : PacketQueue → ℕ
  size s = length (q.contents s.queue)

  pub is_congested : PacketQueue → Bool
  is_congested s = ltb 0 (q.capacity s.queue) && leb (q.capacity s.queue) (size s * 2)

  unfoldable pub recv_loop : (fuel : ℕ) → (epoch : ℕ) → Bool → q.Queue → Option P × q.Queue
  recv_loop zero epoch active s = (none, s)
  recv_loop (suc fuel) epoch active s = elim (q.pop s) [
    | none ↦ (none, s)
    | some (x, t) ↦
        let rest = recv_loop fuel epoch active t in
        if active && (x.epoch == epoch) then (some x.packet, t) else rest
  ]

  pub try_recv : PacketQueue → Option P × PacketQueue
  try_recv s =
      let (packet, rest) = recv_loop (q.capacity s.queue + 1) (s.state / 2) (is_active s) s.queue in
      (packet, record s { queue = rest })

  unfoldable pub purge_loop : (fuel : ℕ) → q.Queue → q.Queue
  purge_loop zero s = s
  purge_loop (suc fuel) s = elim (q.pop s) [ none ↦ s | some (x, t) ↦ purge_loop fuel t ]

  pub purge : PacketQueue → PacketQueue
  purge s = record s { queue = purge_loop (q.capacity s.queue + 1) s.queue }

  -- `epoch << 1`
  abbrev pub shifted : ℕ → ℕ
  shifted epoch = epoch * 2 % u64_mod

  pub resume : PacketQueue → PacketQueue
  resume s =
      let epoch = saturating_add (s.state / 2) 1 in
      let t = purge (record s { state = shifted epoch }) in record t { state = shifted epoch + 1 }

  pub is_closed : PacketQueue → Bool
  is_closed s = (s.senders == 0) && (size s == 0)
