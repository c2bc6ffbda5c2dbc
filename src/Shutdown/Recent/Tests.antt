-- ===== src/Shutdown/Recent/Tests.antt =====
-- `control_streams_lem`, applied to two streams of which the second was active last.
use mathlib.Core.List.{Perm}
use csqtt_antinet_module.Shutdown.{ShutdownCoordinator, loaded, writers, control_streams}
use csqtt_antinet_module.Shutdown.Recent.{IsRecentFirst, control_streams_lem}
use csqtt_antinet_module.Prelude.{ℕ, ◌≡◌, false, List, [], ◌∷◌}

abbrev two_streams : ShutdownCoordinator ℕ
two_streams = record {
  active = false;
  completed = false;
  streams =
      record { incarnation_id = 7; writer = 1; activity = 0 }
      ∷ record { incarnation_id = 8; writer = 2; activity = 1 }
      ∷ [];
  next_activity = 4;
  activities = 1 ∷ 3 ∷ [];
}

control_streams_lem_example :
    (found : List (ℕ × ℕ × ℕ)) × ((control_streams ℕ two_streams ≡ writers ℕ found)
      × (Perm found (loaded ℕ (1 ∷ 3 ∷ []) two_streams.streams) × IsRecentFirst ℕ found))
control_streams_lem_example = control_streams_lem ℕ two_streams
