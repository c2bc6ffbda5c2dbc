-- ===== src/Idle/Epoch.antt =====
-- The idle state stays consistent.
use csqtt_antinet_module.Idle.{
  Idle, LostStage, called, admitted, loaded, expecting, opened, cleared, returned, compare_exchange,
  lost_step, lost_steps, reset, note_path_joined, note_path_lost, enter, exit, note_uplink,
}
use csqtt_antinet_module.Prelude.{
  if-elim, ℕ, zero, suc, ◌<◌, ◌≡◌, refl, inl, inr, Bool, true, false, arith, ◌==◌, Option-cases,
  get_elem?, Bytes, u64_max, saturating_add,
}

-- While idle fewer workers than all are kept and declared; otherwise all are allowed and declared.
pub record IsConsistent (s : Idle) : Type 0 where
  pub idle : s.active ≡ true → (0 < s.limit) × (s.limit < s.total_workers) × (s.declared ≡ s.limit)
  pub awake : s.active ≡ false → (s.limit ≡ u64_max) × (s.declared ≡ s.total_workers)

pub data Event : Type 0 where
  joined : (worker_id offset : ℕ) → Event
  lost : (worker_id : ℕ) → Event
  entered : (keep : ℕ) → Event
  exited : Event
  uplink : (packet : Bytes) (now_ms : ℕ) → Event
  restarted : (total_workers : ℕ) → Event

abbrev pub handle : Event → Idle → Idle
handle (joined w o) s = note_path_joined w o s
handle (lost w) s = note_path_lost w s
handle (entered keep) s = enter keep s
handle exited s = exit s
handle (uplink packet now_ms) s = note_uplink packet now_ms s
handle (restarted total) s = reset total s

joined-IsConsistent : (w o : ℕ) (s : Idle) → IsConsistent s → IsConsistent (note_path_joined w o s)
unfolding note_path_joined
joined-IsConsistent w o s v = record { idle = λ e. ground arith; awake = λ e. ground arith }

lost_step-IsConsistent :
    (w : ℕ) (stage : LostStage) (s : Idle) → IsConsistent s → IsConsistent (lost_step w stage s).1
unfolding lost_step compare_exchange
lost_step-IsConsistent w called s v = v
lost_step-IsConsistent w admitted s v = elim (Option-cases (get_elem? s.joined w)) [
  | inl e ↦ rw (lost_step, e) v
  | inr (j, e) ↦ rw (lost_step, e) v
]
lost_step-IsConsistent w (loaded j) s v = v
lost_step-IsConsistent w (expecting current) s v =
    if-elim {A = Bool × Idle} (λ r. IsConsistent r.1) (s.gen_offset == current)
      (true, record s { gen_offset = saturating_add current 1 }) (false, s)
      (λ e. record { idle = v.idle; awake = v.awake }) (λ e. v)
lost_step-IsConsistent w opened s v = record { idle = v.idle; awake = v.awake }
lost_step-IsConsistent w cleared s v = record { idle = v.idle; awake = v.awake }
lost_step-IsConsistent w returned s v = v

lost_steps-IsConsistent :
    (steps w : ℕ) (stage : LostStage) (s : Idle)
    → IsConsistent s
    → IsConsistent (lost_steps steps w stage s).1
unfolding lost_steps
lost_steps-IsConsistent zero w stage s v = v
lost_steps-IsConsistent (suc steps) w stage s v =
    let next = lost_step w stage s in
    lost_steps-IsConsistent steps w next.0 next.1 (lost_step-IsConsistent w stage s v)

lost-IsConsistent : (w : ℕ) (s : Idle) → IsConsistent s → IsConsistent (note_path_lost w s)
unfolding note_path_lost
lost-IsConsistent w s v = lost_steps-IsConsistent 6 w called s v

enter-IsConsistent : (keep : ℕ) (s : Idle) → IsConsistent s → IsConsistent (enter keep s)
unfolding enter
enter-IsConsistent keep s v = record { idle = λ e. ground arith; awake = λ e. ground arith }

exit-IsConsistent : (s : Idle) → IsConsistent s → IsConsistent (exit s)
unfolding exit
exit-IsConsistent s v = record { idle = λ e. ground arith; awake = λ e. ground arith }

uplink-IsConsistent :
    (packet : Bytes) (now_ms : ℕ) (s : Idle)
    → IsConsistent s
    → IsConsistent (note_uplink packet now_ms s)
unfolding note_uplink exit
uplink-IsConsistent packet now_ms s v = record {
  idle = λ e. ground arith;
  awake = λ e. ground arith;
}

reset-IsConsistent : (total : ℕ) (s : Idle) → IsConsistent (reset total s)
unfolding reset
reset-IsConsistent total s = record { idle = λ e. absurd cc; awake = λ e. (refl, refl) }

-- Whatever happens to the engine, the idle state stays consistent.
pub handle-IsConsistent :
    (event : Event) (s : Idle) → IsConsistent s → IsConsistent (handle event s)
handle-IsConsistent (joined w o) s v = joined-IsConsistent w o s v
handle-IsConsistent (lost w) s v = lost-IsConsistent w s v
handle-IsConsistent (entered keep) s v = enter-IsConsistent keep s v
handle-IsConsistent exited s v = exit-IsConsistent s v
handle-IsConsistent (uplink packet now_ms) s v = uplink-IsConsistent packet now_ms s v
handle-IsConsistent (restarted total) s v = reset-IsConsistent total s
