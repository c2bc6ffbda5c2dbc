-- ===== src/Dispatcher/Queue/Resume/Tests.antt =====
-- The theorems on queues of packets, applied to queues over a bounded list.
use csqtt_antinet_module.ArrayQueue.{ArrayQueue}
use csqtt_antinet_module.ArrayQueue.Bounded.{bounded, bounded-IsFifo}
use csqtt_antinet_module.Dispatcher.Queue.{QueuedPacket, PacketQueue, resume, try_recv}
use csqtt_antinet_module.Dispatcher.Queue.Resume.{resume-try_recv}
use csqtt_antinet_module.Prelude.{ℕ, ◌≡◌, true, none, List, [], ◌∷◌, arith}

abbrev queue : ArrayQueue (QueuedPacket ℕ)
queue = bounded

-- An old packet and one of the present epoch 2.
abbrev entries : ℕ × List (QueuedPacket ℕ)
entries = (4, record { packet = 10; epoch = 1 } ∷ record { packet = 11; epoch = 2 } ∷ [])

abbrev channel : PacketQueue queue
channel = record { queue = entries; state = 5; senders = 1; receiver_open = true }

resume-try_recv_example :
    (queue.contents (resume queue channel).queue ≡ [])
    × ((try_recv queue (record (resume queue channel) { queue = entries })).0 ≡ none)
    × (queue.contents (try_recv queue (record (resume queue channel) { queue = entries })).1.queue
        ≡ [])
resume-try_recv_example =
    resume-try_recv queue bounded-IsFifo channel entries (omega arith)
      (omega arith, (omega arith, tt))
