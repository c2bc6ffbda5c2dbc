-- ===== src/Packet/Pool/Runs/Tests.antt =====
-- The theorems on the pool, applied to a pool over a bounded list.
use csqtt_antinet_module.ArrayQueue.Bounded.{bounded, bounded-IsFifo}
use csqtt_antinet_module.Packet.Pool.{PacketPool, new}
use csqtt_antinet_module.Packet.Pool.Limits.{IsCounted}
use csqtt_antinet_module.Packet.Pool.Runs.{Shared, Step, Reachable, Reachable-IsCounted}
use csqtt_antinet_module.Prelude.{◌+◌, max, ◌≡◌, [], arith}

-- Two buffers out of three in use, and none kept.
abbrev pool : PacketPool bounded
pool = record { retained = (3, []); allocated = 2; limit = 3 }

abbrev taken : Shared bounded
taken = record {
  pool = record { retained = (3, []); allocated = 1; limit = 3 };
  used = 1;
  leaving = 0;
}

taken-Reachable : Reachable bounded 3 taken
unfolding new
taken-Reachable = Reachable.then Reachable.start (Step.allocated (omega arith))

Reachable-IsCounted_example :
    IsCounted bounded bounded-IsFifo taken.pool (1 + 0) × (taken.pool.limit ≡ max 3 1)
Reachable-IsCounted_example =
    Reachable-IsCounted bounded bounded-IsFifo {buffers = 3} {s = taken} (omega arith)
      taken-Reachable
