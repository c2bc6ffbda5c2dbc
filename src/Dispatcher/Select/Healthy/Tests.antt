-- ===== src/Dispatcher/Select/Healthy/Tests.antt =====
-- `enqueue_selected_worker_lem`, applied to two workers of which one is healthy.
use csqtt_antinet_module.ArrayQueue.{ArrayQueue}
use csqtt_antinet_module.ArrayQueue.Bounded.{bounded}
use csqtt_antinet_module.Dispatcher.Queue.{QueuedPacket, PacketQueue}
use csqtt_antinet_module.Dispatcher.Select.{WorkerChannels, search_width, enqueue_selected_worker}
use csqtt_antinet_module.Dispatcher.Select.Healthy.{
  Took, Refuses, tried, enqueue_selected_worker_lem,
}
use csqtt_antinet_module.Scheduler.Classes.{DispatchTicket, small}
use csqtt_antinet_module.Prelude.{ℕ, ◌<◌, ◌≡◌, ◌⊎◌, true, false, none, some, List, [], ◌∷◌, length}

abbrev queue : ArrayQueue (QueuedPacket ℕ)
queue = bounded

abbrev channel : PacketQueue queue
channel = record { queue = (4, []); state = 1; senders = 1; receiver_open = true }

abbrev workers : List (WorkerChannels queue)
workers =
    record {
      id = 1;
      incarnation_id = 1;
      turn_path = [];
      latency = channel;
      priority = channel;
      bulk = channel;
      healthy = false;
    }
    ∷ record {
      id = 2;
      incarnation_id = 1;
      turn_path = [];
      latency = channel;
      priority = channel;
      bulk = channel;
      healthy = true;
    }
    ∷ []

abbrev ticket : DispatchTicket
ticket = record { start_slot = 0; class = small }

enqueue_selected_worker_lem_example :
    ((enqueue_selected_worker queue workers ticket 10 ≡ none)
      × ((offset : ℕ)
          → 0 < length workers
          → offset < search_width queue workers 0
          → Refuses queue small 10 workers (tried queue workers 0 offset)))
    ⊎ ((updated : List (WorkerChannels queue)) × (enqueue_selected_worker queue workers ticket 10
          ≡ some updated)
        × (offset : ℕ) × (offset < search_width queue workers 0)
        × Took queue small 10 workers (tried queue workers 0 offset) updated)
enqueue_selected_worker_lem_example = enqueue_selected_worker_lem queue workers ticket 10
