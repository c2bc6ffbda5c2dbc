-- ===== src/Dispatcher/Workers/Spread/Tests.antt =====
-- `interleave_turn_paths_lem`, applied to three workers of two TURN paths.
use csqtt_antinet_module.ArrayQueue.{ArrayQueue}
use csqtt_antinet_module.ArrayQueue.Bounded.{bounded}
use csqtt_antinet_module.Dispatcher.Queue.{QueuedPacket, PacketQueue}
use csqtt_antinet_module.Dispatcher.Select.{WorkerChannels}
use csqtt_antinet_module.Dispatcher.Workers.{interleave_turn_paths}
use csqtt_antinet_module.Dispatcher.Workers.Spread.{HasUniquePaths, Has, interleave_turn_paths_lem}
use csqtt_antinet_module.Prelude.{ℕ, ◌≡◌, true, List, [], ◌∷◌, ◌++◌, All, Bytes}

abbrev queue : ArrayQueue (QueuedPacket ℕ)
queue = bounded

abbrev channel : PacketQueue queue
channel = record { queue = (4, []); state = 1; senders = 1; receiver_open = true }

abbrev worker : ℕ → Bytes → WorkerChannels queue
worker id path = record {
  id = id;
  incarnation_id = 1;
  turn_path = path;
  latency = channel;
  priority = channel;
  bulk = channel;
  healthy = true;
}

abbrev workers : List (WorkerChannels queue)
workers = worker 1 (97 ∷ []) ∷ worker 2 (97 ∷ []) ∷ worker 3 (98 ∷ []) ∷ []

interleave_turn_paths_lem_example :
    (firsts : List (WorkerChannels queue)) × ((others : List (WorkerChannels queue))
      × ((interleave_turn_paths queue workers ≡ firsts ++ others)
          × (HasUniquePaths queue firsts × All (λ w. Has queue w.turn_path firsts) workers)))
interleave_turn_paths_lem_example = interleave_turn_paths_lem queue workers
