-- ===== src/Idle/Tests.antt =====
-- The theorems on the idle state, applied: workers 1 and 2 have joined epoch 3.
use csqtt_antinet_module.Idle.{Idle, allows, compare_exchange, lost_step, interleaved}
use csqtt_antinet_module.Idle.Losses.{losses_lem}
use csqtt_antinet_module.Idle.Losses.Stages.{IsLive}
use csqtt_antinet_module.Idle.Losses.Calls.{calls_of, HasReturned}
use csqtt_antinet_module.Idle.Epoch.{IsConsistent, Event, handle, handle-IsConsistent}
use csqtt_antinet_module.Prelude.{
  ℕ, ◌+◌, ◌%◌, ◌≡◌, refl, ◌⊎◌, false, some, List, [], ◌∷◌, arith, get_elem?, set, All, u64_max,
}

abbrev state : Idle
state = record {
  limit = u64_max;
  active = false;
  total_workers = 2;
  declared = 2;
  gen_offset = 3;
  announce = 1;
  packet_start = 0;
  packet_count = 0;
  syn_start = 0;
  syn_count = 0;
  joined = 0 ∷ 4 ∷ 4 ∷ [];
}

state-IsConsistent : IsConsistent state
state-IsConsistent = record { idle = λ e. absurd cc; awake = λ e. (refl, refl) }

handle-IsConsistent_example : IsConsistent (handle (Event.entered 1) state)
handle-IsConsistent_example = handle-IsConsistent (Event.entered 1) state state-IsConsistent

-- The calls take turns, so both load the epoch before one of them opens the next.
abbrev turns : List ℕ
turns = 0 ∷ 1 ∷ 0 ∷ 1 ∷ 0 ∷ 1 ∷ 0 ∷ 1 ∷ 0 ∷ 1 ∷ 0 ∷ 1 ∷ []

turns-HasReturned : All HasReturned (interleaved turns (calls_of (2 ∷ 1 ∷ [])) state).0
unfolding interleaved lost_step compare_exchange allows
turns-HasReturned = (refl, (refl, tt))

losses_lem_example :
    (((interleaved turns (calls_of (2 ∷ 1 ∷ [])) state).1 ≡ state)
      × All (λ w. ¬ IsLive state w) (2 ∷ 1 ∷ []))
    ⊎ ((i w : ℕ) × (get_elem? (2 ∷ 1 ∷ []) i ≡ some w)
        × IsLive state w
        × ((interleaved turns (calls_of (2 ∷ 1 ∷ [])) state).1 ≡ record state {
          gen_offset = 4;
          joined = set (0 ∷ 4 ∷ 4 ∷ []) w 0;
          announce = (1 + 1) % 18446744073709551616;
        }))
losses_lem_example =
    losses_lem (2 ∷ 1 ∷ []) turns state (omega arith, (omega arith, (omega arith, tt)))
      (omega arith) turns-HasReturned
