-- ===== src/Stall/Tests.antt =====
-- `probes-Spaced`, applied to four polls of which the downlink stands still.
use csqtt_antinet_module.Stall.{StallDetector}
use csqtt_antinet_module.Stall.Probes.{Poll, probes, Spaced, probes-Spaced}
use csqtt_antinet_module.Prelude.{◌+◌, ◌*◌, ◌≤◌, none, List, [], ◌∷◌, length}

abbrev detector : StallDetector
detector = record { last_up = 0; last_down = 9; stalled_polls = 0; last_probe = none }

abbrev polls : List Poll
polls = (5000, 9, 2000) ∷ (10000, 9, 4000) ∷ (15000, 9, 6000) ∷ (20000, 9, 8000) ∷ []

probes-Spaced_example :
    Spaced none (probes polls detector) × (length (probes polls detector) * 3 ≤ length polls + 0)
probes-Spaced_example = probes-Spaced polls detector
