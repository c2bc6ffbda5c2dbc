-- ===== src/Turn/Core/Machine.antt =====
-- The calls of the core as steps of one machine, and what holds of its state between them.
pub mod Starts
pub mod Ends
pub mod Successes
pub mod Answering
pub mod Expiry
pub mod Timeouts
pub mod Retries
pub mod Reports
pub mod Turns
pub mod Polling
pub mod Steps
pub mod Runs
pub mod Guards
use csqtt_antinet_module.Turn.Core.State.{
  Status, State, allocating, ready, deallocating, destroying, NativeEvent, Operation, allocate,
  refresh, deallocate, permission, channel_bind, Pending, Control, Inner, control_capacity,
  event_capacity, max_transmissions, initial_rto, max_rto, pushed, push_event, queue_packet,
  set_state, retained, remove_queued_transaction, complete, event, event_overflow, control_overflow,
  buffer_too_small, has_transaction, is_state,
}
use csqtt_antinet_module.Prelude.{
  ℕ, ◌≤◌, ◌≡◌, refl, ◌≢◌, inl, inr, true, false, none, List, [], ◌∷◌, ◌++◌, arith, ◌==◌,
  if◌then◌else◌, Bool-cases, length, drop, length-append, length-drop, All, Bytes,
}

-- The only state in which a request of the kind is under way.
abbrev pub home : Operation → State
home allocate = allocating
home refresh = ready
home deallocate = deallocating
home permission = ready
home channel_bind = ready

-- What holds of every pending request, given the state and the profile.
pub record IsUnderWay (state : State) (max_nonce_retries : ℕ) (p : Pending) : Type 0 where
  pub at_home : home p.operation ≡ state
  pub sent : 1 ≤ p.transmissions
  pub sent_again : p.transmissions ≤ max_transmissions
  pub rto_range : (initial_rto ≤ p.rto) × (p.rto ≤ max_rto)
  pub retried : p.nonce_retries ≤ max_nonce_retries

-- No two requests of one kind.
unfoldable pub Distinct : List Pending → Type 0
Distinct [] = Unit
Distinct (p ∷ pending) = All (λ q. q.operation ≢ p.operation) pending × Distinct pending

pub record IsValid (s : Inner) : Type 0 where
  pub controls_bounded : length s.controls ≤ control_capacity
  pub events_bounded : length s.events ≤ event_capacity
  pub under_way : All (IsUnderWay s.state s.profile.max_nonce_retries) s.pending
  pub distinct : Distinct s.pending
  pub live : s.state ≡ ready → (s.shutting_down ≡ false) × (s.destroyed ≡ false)
  pub held : s.state ≡ ready → (s.relay ≢ none) × (s.allocation_expires_at ≢ none)
  pub ended : s.destroyed ≡ true → (s.state ≡ destroying) × (s.controls ≡ []) × (s.pending ≡ [])

pub pushed_bounded :
    (e : NativeEvent) (l : List NativeEvent)
    → length l ≤ event_capacity
    → length (pushed e l) ≤ event_capacity
unfolding pushed
pushed_bounded e l h =
    let overflow : NativeEvent = record (event event_overflow) {
      status = buffer_too_small;
      dropped = 1;
    } in
    elim (Bool-cases (length l == event_capacity)) [
      | inl full ↦
          rw full (omega (arith, length-append (drop 1 l) (overflow ∷ []), length-drop 1 l))
      | inr free ↦
          let few : length l ≢ event_capacity = λ q. ground arith in
          rw free (omega (arith, length-append l (e ∷ [])))
    ]

pub push_event-IsValid : (e : NativeEvent) (s : Inner) → IsValid s → IsValid (push_event e s)
unfolding push_event
push_event-IsValid e s v = record {
  controls_bounded = v.controls_bounded;
  events_bounded = pushed_bounded e s.events v.events_bounded;
  under_way = v.under_way;
  distinct = v.distinct;
  live = v.live;
  held = v.held;
  ended = v.ended;
}

pub complete-IsValid :
    (operation : Operation) (status : Status) (code : ℕ) (s : Inner)
    → IsValid s
    → IsValid (complete operation status code s)
unfolding complete
complete-IsValid operation status code s v = push_event-IsValid _ s v

queued_bounded :
    (c : Control) (l : List Control)
    → length l ≤ control_capacity
    → length ((if length l == control_capacity then drop 1 l else l) ++ c ∷ []) ≤ control_capacity
queued_bounded c l h = elim (Bool-cases (length l == control_capacity)) [
  | inl full ↦ rw full (omega (arith, length-append (drop 1 l) (c ∷ []), length-drop 1 l))
  | inr free ↦
      let few : length l ≢ control_capacity = λ q. ground arith in
      rw free (omega (arith, length-append l (c ∷ [])))
]

-- A destroyed core takes no packet.
pub queue_packet-IsValid :
    (packet : Bytes) (s : Inner) → s.destroyed ≡ false → IsValid s → IsValid (queue_packet packet s)
unfolding queue_packet
queue_packet-IsValid packet s on v =
    let overflow : NativeEvent = record (event control_overflow) {
      status = buffer_too_small;
      dropped = 1;
    } in
    record {
      controls_bounded =
          queued_bounded (record { packet = packet; destination = s.server }) s.controls
            v.controls_bounded;
      events_bounded = elim (Bool-cases (length s.controls == control_capacity)) [
        | inl full ↦ rw full (pushed_bounded overflow s.events v.events_bounded)
        | inr free ↦ rw free v.events_bounded
      ];
      under_way = v.under_way;
      distinct = v.distinct;
      live = v.live;
      held = v.held;
      ended = λ d. absurd (cc);
    }

length-retained : (t : Bytes) (l : List Control) → length (retained t l) ≤ length l
unfolding retained
length-retained t [] = omega arith
length-retained t (c ∷ l) = elim (Bool-cases (has_transaction t c)) [
  | inl gone ↦ rw gone (omega (arith, length-retained t l))
  | inr kept ↦ rw kept (omega (arith, length-retained t l))
]

pub remove_queued_transaction-IsValid :
    (t : Bytes) (s : Inner) → IsValid s → IsValid (remove_queued_transaction t s)
unfolding remove_queued_transaction
remove_queued_transaction-IsValid t s v = record {
  controls_bounded = omega (arith, length-retained t s.controls, v.controls_bounded);
  events_bounded = v.events_bounded;
  under_way = v.under_way;
  distinct = v.distinct;
  live = v.live;
  held = v.held;
  ended = λ d. ((v.ended d).0, rw (v.ended d).1 (unfold retained in refl), (v.ended d).2);
}

pub set_state_bounded :
    (state : State) (s : Inner)
    → length s.events ≤ event_capacity
    → length (set_state state s).events ≤ event_capacity
unfolding set_state
set_state_bounded state s h = elim (Bool-cases (is_state s.state state)) [
  | inl same ↦ rw same h
  | inr other ↦ rw other (pushed_bounded _ s.events h)
]

-- A change of state with no request under way.
pub set_state-IsValid :
    (state : State) (s : Inner)
    → length s.controls ≤ control_capacity
    → length s.events ≤ event_capacity
    → s.pending ≡ []
    → s.destroyed ≡ false
    → (state ≡ ready
        → (s.shutting_down ≡ false) × (s.relay ≢ none) × (s.allocation_expires_at ≢ none))
    → IsValid (set_state state s)
set_state-IsValid state s c e p on up = record {
  controls_bounded = unfold set_state in c;
  events_bounded = set_state_bounded state s e;
  under_way = unfold set_state in rw p tt;
  distinct = unfold set_state Distinct in rw p tt;
  live = unfold set_state in λ q. ((up q).0, on);
  held = unfold set_state in λ q. ((up q).1, (up q).2);
  ended = unfold set_state in λ d. absurd (cc);
}
