-- ===== src/Stall.antt =====
-- `StallDetector` of rebind.rs. The counters of bytes are never negative, and times are milliseconds.
pub mod Probes
mod Tests
use csqtt_antinet_module.Prelude.{
  ℕ, ◌+◌, ◌-◌, Bool, true, false, not, ◌||◌, Option, none, some, ltb, leb, ◌==◌, if◌then◌else◌,
}

abbrev pub stall_polls : ℕ
stall_polls = 3

abbrev pub stall_min_uplink_delta : ℕ
stall_min_uplink_delta = 4096

abbrev pub probe_min_gap : ℕ
probe_min_gap = 20000

pub record StallDetector : Type 0 where
  pub last_up : ℕ
  pub last_down : ℕ
  pub stalled_polls : ℕ
  pub last_probe : Option ℕ

pub new : ℕ → ℕ → StallDetector
new up down = record { last_up = up; last_down = down; stalled_polls = 0; last_probe = none }

-- `up.saturating_sub(last_up) >= STALL_MIN_UPLINK_DELTA`
abbrev pub up_moved : ℕ → StallDetector → Bool
up_moved up d = leb stall_min_uplink_delta (up - d.last_up)

abbrev pub is_recent : ℕ → Option ℕ → Bool
is_recent now none = false
is_recent now (some previous) = ltb (now - previous) probe_min_gap

pub observe : (up down now : ℕ) → StallDetector → Bool × StallDetector
observe up down now d =
    let polls = d.stalled_polls + 1 in
    if not (down == d.last_down) || not (up_moved up d)
    then (false, record d { last_up = up; last_down = down; stalled_polls = 0 })
    else if ltb polls stall_polls
    then (false, record d { last_up = up; last_down = down; stalled_polls = polls })
    else if is_recent now d.last_probe
    then (false, record d { last_up = up; last_down = down; stalled_polls = polls })
    else (true, record { last_up = up; last_down = down; stalled_polls = 0; last_probe = some now })
