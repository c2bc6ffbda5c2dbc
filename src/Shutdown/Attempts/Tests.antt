-- ===== src/Shutdown/Attempts/Tests.antt =====
-- `request_disconnect_lem`, applied to two streams, of which the first does not answer.
use csqtt_antinet_module.Protocol.{disconnected}
use csqtt_antinet_module.Shutdown.{
  ShutdownCoordinator, Attempt, deliver, control_streams, request_disconnect, disconnect_budget,
}
use csqtt_antinet_module.Shutdown.Attempts.{Delivered, led, request_disconnect_lem}
use csqtt_antinet_module.Prelude.{ℕ, zero, suc, ◌+◌, ◌≡◌, refl, true, false, [], ◌∷◌}

abbrev two_streams : ShutdownCoordinator ℕ
two_streams = record {
  active = false;
  completed = false;
  streams =
      record { incarnation_id = 7; writer = 1; activity = 0 }
      ∷ record { incarnation_id = 8; writer = 2; activity = 1 }
      ∷ [];
  next_activity = 4;
  activities = 1 ∷ 3 ∷ [];
}

abbrev silent_then_answered : ℕ → Attempt
silent_then_answered zero = record {
  now = 0;
  delivered = true;
  answers_sending = [];
  after = 5;
  answers_waiting = [];
}
silent_then_answered (suc i) = record {
  now = 85;
  delivered = true;
  answers_sending = [];
  after = 90;
  answers_waiting = disconnected ∷ [];
}

request_disconnect_lem_example :
    ((request_disconnect ℕ 0 silent_then_answered two_streams).1.active ≡ true)
    × (((request_disconnect ℕ 0 silent_then_answered two_streams).1.completed ≡ true)
        × (Delivered ℕ
              (0 + disconnect_budget)
              (control_streams ℕ two_streams)
              silent_then_answered
              (
                (request_disconnect ℕ 0 silent_then_answered two_streams).0,
                (deliver ℕ
                    (0 + disconnect_budget)
                    (control_streams ℕ two_streams)
                    silent_then_answered
                    0
                    (led ℕ two_streams)).1,
              )
            × (request_disconnect ℕ 100 silent_then_answered
                  (request_disconnect ℕ 0 silent_then_answered two_streams).1
                ≡ ([], (request_disconnect ℕ 0 silent_then_answered two_streams).1))))
request_disconnect_lem_example =
    request_disconnect_lem ℕ 0 100 silent_then_answered silent_then_answered two_streams refl
