-- ===== src/Dispatcher/Workers/Registered/Tests.antt =====
-- `run-HasUniqueIds` and `registration_lem`, applied to workers of two TURN paths.
use mathlib.Core.List.{Perm, Pairwise}
use csqtt_antinet_module.ArrayQueue.{ArrayQueue}
use csqtt_antinet_module.ArrayQueue.Bounded.{bounded}
use csqtt_antinet_module.Dispatcher.Queue.{QueuedPacket, PacketQueue}
use csqtt_antinet_module.Dispatcher.Select.{WorkerChannels}
use csqtt_antinet_module.Dispatcher.Workers.{without_id, register, unregister}
use csqtt_antinet_module.Dispatcher.Workers.Registered.{
  HasUniqueIds, Registration, registered, unregistered, run, run-HasUniqueIds, registration_lem,
}
use csqtt_antinet_module.Prelude.Sorting.{retain}
use csqtt_antinet_module.Prelude.{ℕ, true, not, ◌||◌, List, [], ◌∷◌, ◌==◌, Bytes}

abbrev queue : ArrayQueue (QueuedPacket ℕ)
queue = bounded

abbrev channel : PacketQueue queue
channel = record { queue = (4, []); state = 1; senders = 1; receiver_open = true }

abbrev worker : ℕ → ℕ → Bytes → WorkerChannels queue
worker id incarnation path = record {
  id = id;
  incarnation_id = incarnation;
  turn_path = path;
  latency = channel;
  priority = channel;
  bulk = channel;
  healthy = true;
}

abbrev steps : List (Registration queue)
steps =
    registered (worker 1 1 (97 ∷ []))
    ∷ registered (worker 2 1 (97 ∷ []))
    ∷ registered (worker 3 1 (98 ∷ []))
    ∷ registered (worker 2 2 (98 ∷ []))
    ∷ unregistered 1 1
    ∷ []

run-HasUniqueIds_example : HasUniqueIds queue (run queue steps [])
run-HasUniqueIds_example = run-HasUniqueIds queue steps [] Pairwise.nil

registration_lem_example :
    Perm
      (register queue (worker 2 2 (98 ∷ [])) (worker 2 1 (97 ∷ []) ∷ worker 1 1 (97 ∷ []) ∷ []))
      (worker 2 2 (98 ∷ []) ∷ without_id queue 2 (worker 2 1 (97 ∷ []) ∷ worker 1 1 (97 ∷ []) ∷ []))
    × Perm (unregister queue 2 1 (worker 2 1 (97 ∷ []) ∷ worker 1 1 (97 ∷ []) ∷ [])) (
        retain
          (λ w. not (w.id == 2) || not (w.incarnation_id == 1))
          (worker 2 1 (97 ∷ []) ∷ worker 1 1 (97 ∷ []) ∷ []))
registration_lem_example =
    registration_lem queue (worker 2 2 (98 ∷ [])) 2 1
      (worker 2 1 (97 ∷ []) ∷ worker 1 1 (97 ∷ []) ∷ [])
