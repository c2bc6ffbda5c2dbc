-- ===== src/Packet/Pool.antt =====
-- `PacketPool` of packet.rs: buffers in use, kept for reuse and counted against a limit.
pub mod Limits
pub mod Runs
use csqtt_antinet_module.ArrayQueue.{ArrayQueue}
use csqtt_antinet_module.Packet.Buf.{
  packet_capacity, packet_headroom, PacketBuf, fresh, as_slice, set_read_len, overwrite, len,
}
use csqtt_antinet_module.Prelude.{
  ℕ, ◌+◌, ◌-◌, ◌*◌, ◌%◌, min, max, not, Option, none, some, ltb, ◌==◌, if◌then◌else◌, length, Bytes,
  u64_mod, u64_max,
}

abbrev pub retained_max : ℕ
retained_max = 2048

-- `packet_pool_size`
pub packet_pool_size : ℕ → ℕ
packet_pool_size workers = min u64_max (min u64_max (workers * 256) + 512)

module _ (queue : ArrayQueue Bytes) where
  pub record PacketPool : Type 0 where
    pub retained : queue.Queue
    pub allocated : ℕ
    pub limit : ℕ

  pub new : ℕ → PacketPool
  new buffers = record {
    retained = queue.with_capacity (min (max buffers 1) retained_max);
    allocated = 0;
    limit = max buffers 1;
  }

  -- `blank` is the uninitialised storage of a new buffer.
  pub try_acquire : (blank : Bytes) → PacketPool → Option PacketBuf × PacketPool
  try_acquire blank p = elim (queue.pop p.retained) [
    | some (storage, rest) ↦ (some (fresh storage), record p { retained = rest })
    | none ↦
        if ltb p.allocated p.limit
        then (some (fresh blank), record p { allocated = p.allocated + 1 })
        else (none, p)
  ]

  -- `fetch_sub(1)`
  abbrev pub uncount : PacketPool → PacketPool
  uncount p = record p { allocated = (p.allocated + u64_max) % u64_mod }

  pub release : Bytes → PacketPool → PacketPool
  release storage p =
      if not (length storage == packet_capacity)
      then uncount p
      else elim (queue.push storage p.retained) [
        | some q ↦ record p { retained = q }
        | none ↦ uncount p
      ]

  -- `try_duplicate`: when the content does not fit, the copy goes back to the pool.
  pub try_duplicate : (blank : Bytes) → PacketBuf → PacketPool → Option PacketBuf × PacketPool
  try_duplicate blank p pool =
      let (acquired, rest) = try_acquire blank pool in
      elim acquired [
        | none ↦ (none, rest)
        | some copy ↦
            if ltb (packet_capacity - packet_headroom) (len p)
            then (none, release copy.storage rest)
            else elim (set_read_len (len p) copy) [
              | none ↦ (none, release copy.storage rest)
              | some q ↦ (
                some (record q { storage = overwrite q.storage packet_headroom (as_slice p) }),
                rest,
              )
            ]
      ]
