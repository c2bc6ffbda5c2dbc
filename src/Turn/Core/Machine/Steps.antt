-- ===== src/Turn/Core/Machine/Steps.antt =====
-- The other calls keep the core valid.
use csqtt_antinet_module.Turn.Core.State.{
  Status, timeout, State, null, allocating, ready, deallocating, destroying, is_state, Operation,
  allocate, refresh, deallocate, Inner, set_state, Pending, Control, NativeEvent, event_capacity,
  control_capacity,
}
use csqtt_antinet_module.Turn.Core.Requests.{Crypto, start_operation, is_none, invalid_argument}
use csqtt_antinet_module.Turn.Core.Calls.{
  resynced, due_now, start_allocation, start_ready, require_open, require_ready,
  resync_after_suspend, pull_control, pull_event, graceful_shutdown, force_destroy, quiet,
}
use csqtt_antinet_module.Turn.Core.Machine.{
  set_state_bounded, set_state-IsValid, Distinct, IsUnderWay, push_event-IsValid, home, IsValid,
}
use csqtt_antinet_module.Turn.Core.Machine.Starts.{start_operation-IsValid}
use csqtt_antinet_module.Turn.Core.Machine.Ends.{SameMachine-IsValid, destroy_allocation-IsValid}
use csqtt_antinet_module.Turn.Core.Machine.Polling.{
  IsReady, is_state→eq, live-on, branch, either, start_operation-IsReady,
}
use csqtt_antinet_module.Prelude.{
  ℕ, ◌-◌, ◌≤◌, ◌≡◌, refl, ◌≢◌, ◌⊎◌, inl, inr, true, false, not, ◌&&◌, ◌||◌, Option, none, some,
  List, [], ◌∷◌, arith, ltb, leb, Bool-cases, Option-cases, length, All, Bytes,
}

-- Before the allocation starts nothing is under way.
no_home : (n : ℕ) (l : List Pending) → All (IsUnderWay null n) l → l ≡ []
no_home n [] u = refl
no_home n (p ∷ l) u = absurd (homeless p.operation u.0.at_home)
  where
    homeless : (operation : Operation) → home operation ≢ null
    homeless operation e = ground arith

pub start_allocation-IsValid :
    (crypto : Crypto) (transaction : Bytes) (now : ℕ) (s : Inner)
    → IsValid s
    → IsValid (start_allocation crypto transaction now s).0
unfolding start_allocation
start_allocation-IsValid crypto transaction now s v = elim (Option-cases (require_open s)) [
  | inr (e, q) ↦ rw (start_allocation, q) v
  | inl q ↦
      rw (start_allocation, q)
        (branch (not (is_state s.state null)) (s, some invalid_argument)
          (start_operation crypto allocate false 0 transaction now (set_state allocating s))
          (λ b. v)
          (λ b.
            let on : s.destroyed ≡ false = ground arith in
            let fresh : s.state ≡ null = is_state→eq s.state null (ground arith) in
            start_operation-IsValid crypto allocate false 0 transaction now (set_state allocating s)
              (unfold set_state in refl) (omega arith) (unfold set_state in on)
              (set_state-IsValid allocating s v.controls_bounded v.events_bounded
                (no_home s.profile.max_nonce_retries s.pending (rw fresh at v.under_way)) on
                (λ r. absurd (cc)))))
]

pub start_ready-IsValid :
    (crypto : Crypto) (operation : Operation) (transaction : Bytes) (now : ℕ) (s : Inner)
    → home operation ≡ ready
    → IsValid s
    → IsValid (start_ready crypto operation transaction now s).0
unfolding start_ready
start_ready-IsValid crypto operation transaction now s at v =
    elim (Option-cases (require_ready s)) [
      | inr (e, q) ↦ rw (start_ready, q) v
      | inl q ↦
          rw (start_ready, q)
            (start_operation-IsReady crypto operation transaction now s at
              (live-on s v (ground arith))).valid
    ]

pub resynced-IsValid :
    (gap now : ℕ) (expires : Option ℕ) (s : Inner)
    → IsReady s
    → IsValid (resynced gap now expires s).0
unfolding resynced
resynced-IsValid gap now none s r = SameMachine-IsValid s (due_now now s) (ground arith) r.valid
resynced-IsValid gap now (some expires) s r =
    branch (leb gap expires && ltb now (expires - gap)) _ _
      (λ b. record {
        controls_bounded = r.valid.controls_bounded;
        events_bounded = r.valid.events_bounded;
        under_way = r.valid.under_way;
        distinct = r.valid.distinct;
        live = r.valid.live;
        held = λ q. ((r.valid.held q).0, λ n. cc);
        ended = r.valid.ended;
      })
      (λ b. destroy_allocation-IsValid refresh timeout 0 s r.on r.valid)

pub resync_after_suspend-IsValid :
    (gap now : ℕ) (s : Inner) → IsValid s → IsValid (resync_after_suspend gap now s).0
unfolding resync_after_suspend
resync_after_suspend-IsValid gap now s v =
    branch (s.destroyed || s.shutting_down || not (is_state s.state ready)) (s, false)
      (resynced gap now s.allocation_expires_at s) (λ b. v)
      (λ b. resynced-IsValid gap now s.allocation_expires_at s (live-on s v (ground arith)))

-- A core that shuts down with nothing to deallocate.
pub stopped-IsValid :
    (s : Inner) (pending : List Pending)
    → IsValid s
    → s.state ≢ ready
    → s.destroyed ≡ false
    → All (IsUnderWay s.state s.profile.max_nonce_retries) pending
    → Distinct pending
    → IsValid (record (quiet s) { pending = pending })
stopped-IsValid s pending v other on u d = record {
  controls_bounded = omega arith;
  events_bounded = v.events_bounded;
  under_way = u;
  distinct = d;
  live = λ q. absurd (other q);
  held = λ q. absurd (other q);
  ended = λ q. absurd (cc);
}

unready : (s : Inner) → is_state s.state ready ≡ false → s.state ≢ ready
unready s h = λ e. differ s.state e h
  where
    differ : (state : State) → state ≡ ready → is_state state ready ≡ false → ⊥
    differ state e h' = ground arith

pub graceful_shutdown-IsValid :
    (crypto : Crypto) (transaction : Bytes) (now : ℕ) (s : Inner)
    → IsValid s
    → IsValid (graceful_shutdown crypto transaction now s).0
unfolding graceful_shutdown
graceful_shutdown-IsValid crypto transaction now s v =
    let first =
      is_state s.state ready
      || (is_state s.state destroying && not (is_none s.allocation_expires_at)) in
    branch (s.destroyed || s.shutting_down) (s, none) _ (λ b. v)
      (λ b.
        let on : s.destroyed ≡ false = ground arith in
        branch first
          (start_operation crypto deallocate true 0 transaction now
            (set_state deallocating (record (quiet s) { pending = [] })))
          _
          (λ c.
            start_operation-IsValid crypto deallocate true 0 transaction now _
              (unfold set_state in refl) (omega arith) (unfold set_state in on)
              (set_state-IsValid deallocating (record (quiet s) { pending = [] }) (omega arith)
                v.events_bounded refl on (λ q. absurd (cc))))
          (λ c.
            branch (not (is_state s.state allocating)) (record (quiet s) { pending = [] }, none)
              (quiet s, none)
              (λ d. stopped-IsValid s [] v (unready s (ground arith)) on tt (unfold Distinct in tt))
              (λ d.
                stopped-IsValid s s.pending v (unready s (ground arith)) on v.under_way
                  v.distinct)))

pub force_destroy-IsValid :
    (status : Status) (s : Inner) → IsValid s → IsValid (force_destroy status s)
unfolding force_destroy
force_destroy-IsValid status s v = pick (Bool-cases s.destroyed)
  where
    destroyed : Inner
    destroyed = record s { destroyed = true; controls = []; pending = [] }

    forced : IsValid (set_state destroying destroyed)
    forced = record {
      controls_bounded = unfold set_state in omega arith;
      events_bounded = set_state_bounded destroying destroyed v.events_bounded;
      under_way = unfold set_state in tt;
      distinct = unfold set_state Distinct in tt;
      live = unfold set_state in λ q. absurd (cc);
      held = unfold set_state in λ q. absurd (cc);
      ended = unfold set_state in λ q. (refl, refl, refl);
    }

    pick : ((s.destroyed ≡ true) ⊎ (s.destroyed ≡ false)) → IsValid (force_destroy status s)
    pick b = either s.destroyed s _ (λ d. v) (λ d. push_event-IsValid _ _ forced)

pub pull_control-IsValid : (s : Inner) → IsValid s → IsValid (pull_control s).0
unfolding pull_control
pull_control-IsValid s v = pulled s.controls refl
  where
    kept :
        (l : List Control)
        → length l ≤ control_capacity
        → (s.destroyed ≡ true → l ≡ [])
        → IsValid (record s { controls = l })
    kept l b e = record {
      controls_bounded = b;
      events_bounded = v.events_bounded;
      under_way = v.under_way;
      distinct = v.distinct;
      live = v.live;
      held = v.held;
      ended = λ d. ((v.ended d).0, e d, (v.ended d).2);
    }

    pulled : (l : List Control) → s.controls ≡ l → IsValid (pull_control s).0
    pulled [] q = rw (pull_control, q) v
    pulled (c ∷ l) q =
        rw (pull_control, q)
          (kept l (let b = rw q at v.controls_bounded in omega arith)
            (λ d. absurd (let e = (v.ended d).1 in cc)))

pub pull_event-IsValid : (s : Inner) → IsValid s → IsValid (pull_event s).0
unfolding pull_event
pull_event-IsValid s v = pulled s.events refl
  where
    kept : (l : List NativeEvent) → length l ≤ event_capacity → IsValid (record s { events = l })
    kept l b = record {
      controls_bounded = v.controls_bounded;
      events_bounded = b;
      under_way = v.under_way;
      distinct = v.distinct;
      live = v.live;
      held = v.held;
      ended = v.ended;
    }

    pulled : (l : List NativeEvent) → s.events ≡ l → IsValid (pull_event s).0
    pulled [] q = rw (pull_event, q) v
    pulled (e ∷ l) q = rw (pull_event, q) (kept l (let b = rw q at v.events_bounded in omega arith))
