-- ===== src/Turn/Core/Machine/Ends.antt =====
-- Requests that end: the answers and failures keep the core valid.
use csqtt_antinet_module.Turn.Core.State.{
  Status, ready, deallocated, destroying, Operation, deallocate, Inner, push_event, complete,
  is_operation,
}
use csqtt_antinet_module.Turn.Core.Completion.{
  destroy_allocation, destroy_after_channel_rebind_exhausted, schedule_maintenance_retry,
  complete_failure,
}
use csqtt_antinet_module.Turn.Core.Machine.{
  IsValid, complete-IsValid, set_state-IsValid, pushed_bounded,
}
use csqtt_antinet_module.Prelude.{
  ℕ, ◌≡◌, refl, ◌∙◌, ◌≢◌, ◌⊎◌, inl, inr, false, arith, if◌then◌else◌,
}

pub destroy_allocation-IsValid :
    (operation : Operation) (status : Status) (code : ℕ) (s : Inner)
    → s.destroyed ≡ false
    → IsValid s
    → IsValid (destroy_allocation operation status code s)
unfolding destroy_allocation complete push_event
destroy_allocation-IsValid operation status code s on v =
    set_state-IsValid _ _ (omega arith)
      ((complete-IsValid operation status code s v).events_bounded) refl on
      (λ q. absurd (not_ready operation q))
  where
    not_ready :
        (operation : Operation)
        → (if is_operation operation deallocate then deallocated else destroying) ≢ ready
    not_ready operation q = ground arith

destroy_after_channel_rebind_exhausted-IsValid :
    (s : Inner)
    → s.destroyed ≡ false
    → IsValid s
    → IsValid (destroy_after_channel_rebind_exhausted s)
unfolding destroy_after_channel_rebind_exhausted push_event
destroy_after_channel_rebind_exhausted-IsValid s on v =
    set_state-IsValid destroying _ (omega arith) (pushed_bounded _ s.events v.events_bounded) refl
      on (λ q. absurd (cc))

-- Where only timers and failure counters differ, one state is as valid as the other.
pub record SameMachine (s t : Inner) : Type 0 where
  pub controls : t.controls ≡ s.controls
  pub events : t.events ≡ s.events
  pub state : t.state ≡ s.state
  pub profile : t.profile ≡ s.profile
  pub pending : t.pending ≡ s.pending
  pub relay : t.relay ≡ s.relay
  pub expires : t.allocation_expires_at ≡ s.allocation_expires_at
  pub shutting : t.shutting_down ≡ s.shutting_down
  pub destroyed : t.destroyed ≡ s.destroyed

pub SameMachine-IsValid : (s t : Inner) → SameMachine s t → IsValid s → IsValid t
SameMachine-IsValid s t e v = record {
  controls_bounded = rw e.controls v.controls_bounded;
  events_bounded = rw e.events v.events_bounded;
  under_way = rw (e.state, e.profile, e.pending) v.under_way;
  distinct = rw e.pending v.distinct;
  live = rw (e.state, e.shutting, e.destroyed) v.live;
  held = rw (e.state, e.relay, e.expires) v.held;
  ended = rw (e.state, e.destroyed, e.controls, e.pending) v.ended;
}

pub schedule_maintenance_retry-SameMachine :
    (operation : Operation) (now : ℕ) (s : Inner)
    → SameMachine s (schedule_maintenance_retry operation now s).0
unfolding schedule_maintenance_retry
schedule_maintenance_retry-SameMachine operation now s = ground arith

complete-destroyed :
    (operation : Operation) (status : Status) (code : ℕ) (s : Inner)
    → (complete operation status code s).destroyed ≡ s.destroyed
unfolding complete push_event
complete-destroyed operation status code s = refl

-- A failure ends the allocation, or schedules another try, or gives the channel up.
pub complete_failure-cases :
    (operation : Operation) (status : Status) (code now : ℕ) (s : Inner)
    → let t = schedule_maintenance_retry operation now (complete operation status code s) in
      (complete_failure operation status code now s ≡ destroy_allocation operation status code s)
      ⊎ ((complete_failure operation status code now s ≡ t.0)
          ⊎ (complete_failure operation status code now s
              ≡ destroy_after_channel_rebind_exhausted t.0))
unfolding complete_failure
complete_failure-cases operation status code now s = ground arith

pub complete_failure-IsValid :
    (operation : Operation) (status : Status) (code now : ℕ) (s : Inner)
    → s.destroyed ≡ false
    → IsValid s
    → IsValid (complete_failure operation status code now s)
complete_failure-IsValid operation status code now s on v =
    let c = complete operation status code s in
    let t = (schedule_maintenance_retry operation now c).0 in
    let same = schedule_maintenance_retry-SameMachine operation now c in
    let w : IsValid t = SameMachine-IsValid c t same (complete-IsValid operation status code s v) in
    elim (complete_failure-cases operation status code now s) [
      | inl e ↦ rw e (destroy_allocation-IsValid operation status code s on v)
      | inr (inl e) ↦ rw e w
      | inr (inr e) ↦ rw e (
          destroy_after_channel_rebind_exhausted-IsValid t
            (same.destroyed ∙ complete-destroyed operation status code s ∙ on) w)
    ]
