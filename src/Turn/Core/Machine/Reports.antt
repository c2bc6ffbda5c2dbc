-- ===== src/Turn/Core/Machine/Reports.antt =====
-- The events that `complete_failure` puts on the queue.
use mathlib.Core.Path.{subst}
use mathlib.Core.List.{append_assoc, append-nil}
use csqtt_antinet_module.Turn.Core.State.{
  State, timeout, request_complete, state_changed, channel_rebind_exhausted, destroying, event,
  Operation, method, event_capacity, is_state, NativeEvent, Inner, pushed, push_event, set_state,
  complete,
}
use csqtt_antinet_module.Turn.Core.Completion.{
  complete_failure, destroy_allocation, destroy_after_channel_rebind_exhausted,
  schedule_maintenance_retry,
}
use csqtt_antinet_module.Turn.Core.Machine.Ends.{
  complete_failure-cases, schedule_maintenance_retry-SameMachine,
}
use csqtt_antinet_module.Prelude.{
  ℕ, ◌+◌, ◌≤◌, ◌<◌, ◌≡◌, refl, sym, ap, ◌∙◌, inl, inr, List, [], ◌∷◌, ◌++◌, arith, ◌==◌, Bool-cases,
  length, length-append,
}

-- The second list of events begins with the first.
record Extends (es fs : List NativeEvent) : Type 0 where
  later : List NativeEvent
  grown : fs ≡ es ++ later

-- The first event that is added says that the operation has failed by a timeout.
pub record IsReported (operation : Operation) (es fs : List NativeEvent) : Type 0 where
  pub told : NativeEvent
  pub later : List NativeEvent
  pub kind : told.kind ≡ request_complete
  pub method : told.method ≡ method operation
  pub status : told.status ≡ timeout
  pub added : fs ≡ es ++ (told ∷ later)

pushed-room :
    (e : NativeEvent) (es : List NativeEvent) → length es < 64 → pushed e es ≡ es ++ (e ∷ [])
unfolding pushed
pushed-room e es h = elim (Bool-cases (length es == event_capacity)) [
  | inl full ↦ absurd (ground arith)
  | inr free ↦ rw free refl
]

set_state-Extends :
    (state : State) (s : Inner) → length s.events < 64 → Extends s.events (set_state state s).events
unfolding set_state
set_state-Extends state s h = elim (Bool-cases (is_state s.state state)) [
  | inl same ↦ record { later = []; grown = rw same (sym (append-nil s.events)) }
  | inr other ↦
      let e = record (event state_changed) { state = state; previous_state = s.state } in
      record { later = e ∷ []; grown = rw other (pushed-room e s.events h) }
]

complete-IsReported :
    (operation : Operation) (s : Inner)
    → length s.events < 64
    → IsReported operation s.events (complete operation timeout 0 s).events
unfolding complete push_event
complete-IsReported operation s h = record {
  told = _;
  later = [];
  kind = refl;
  method = refl;
  status = refl;
  added = pushed-room _ s.events h;
}

IsReported-Extends :
    (operation : Operation) (es fs gs : List NativeEvent)
    → IsReported operation es fs
    → Extends fs gs
    → IsReported operation es gs
IsReported-Extends operation es fs gs r x = record {
  told = r.told;
  later = r.later ++ x.later;
  kind = r.kind;
  method = r.method;
  status = r.status;
  added = x.grown ∙ ap (λ l. l ++ x.later) r.added ∙ append_assoc es (r.told ∷ r.later) x.later;
}

pushed-length :
    (e : NativeEvent) (es : List NativeEvent)
    → length es < 64
    → length (pushed e es) ≡ length es + 1
pushed-length e es h = ap length (pushed-room e es h) ∙ length-append es (e ∷ [])

complete-length :
    (operation : Operation) (s : Inner)
    → length s.events < 64
    → length (complete operation timeout 0 s).events ≡ length s.events + 1
unfolding complete push_event
complete-length operation s h = pushed-length _ s.events h

destroy_allocation-IsReported :
    (operation : Operation) (s : Inner)
    → length s.events < 63
    → IsReported operation s.events (destroy_allocation operation timeout 0 s).events
unfolding destroy_allocation
destroy_allocation-IsReported operation s h =
    IsReported-Extends operation s.events (complete operation timeout 0 s).events _
      (complete-IsReported operation s (omega arith))
      (set_state-Extends _ _ (omega (arith, complete-length operation s (omega arith))))

exhausted-Extends :
    (s : Inner)
    → length s.events < 63
    → Extends s.events (destroy_after_channel_rebind_exhausted s).events
unfolding destroy_after_channel_rebind_exhausted push_event set_state
exhausted-Extends s h =
    let e = record (event channel_rebind_exhausted) { status = timeout; state = destroying } in
    let x =
      set_state-Extends destroying (record s { events = pushed e s.events })
        (omega (arith, pushed-length e s.events (omega arith))) in
    record {
      later = e ∷ x.later;
      grown =
          x.grown
          ∙ ap (λ l. l ++ x.later) (pushed-room e s.events (omega arith))
          ∙ append_assoc s.events (e ∷ []) x.later;
    }

-- A failure by a timeout is told, where three more events fit into the queue.
pub complete_failure-IsReported :
    (operation : Operation) (now : ℕ) (s : Inner)
    → length s.events ≤ 61
    → IsReported operation s.events (complete_failure operation timeout 0 now s).events
complete_failure-IsReported operation now s h =
    let c = complete operation timeout 0 s in
    let told : IsReported operation s.events c.events =
      complete-IsReported operation s (omega arith) in
    let t = (schedule_maintenance_retry operation now c).0 in
    let kept = (schedule_maintenance_retry-SameMachine operation now c).events in
    elim (complete_failure-cases operation timeout 0 now s) [
      | inl e ↦ rw e (destroy_allocation-IsReported operation s (omega arith))
      | inr (inl e) ↦ rw (e, kept) told
      | inr (inr e) ↦ rw e (
          IsReported-Extends operation s.events c.events _ told (
            subst (λ l. Extends l (destroy_after_channel_rebind_exhausted t).events) kept
              (exhausted-Extends t
                (omega (arith, ap length kept, complete-length operation s (omega arith))))))
    ]
