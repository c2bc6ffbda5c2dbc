-- ===== src/Turn/Core/Machine/Polling.antt =====
-- `poll` keeps the core valid.
use csqtt_antinet_module.Turn.Core.State.{
  timeout, State, ready, is_state, Operation, refresh, permission, channel_bind, Inner,
  queue_packet, has_operation,
}
use csqtt_antinet_module.Turn.Core.Requests.{Crypto, CoreError, start_operation}
use csqtt_antinet_module.Turn.Core.Completion.{expire_transactions, is_due}
use csqtt_antinet_module.Turn.Core.Calls.{
  clear_refresh, clear_permission, clear_channel, polled, after, queue_keepalive, start_due,
  renew_maintenance, keep_alive, maintain, is_live, expire_allocation, poll,
}
use csqtt_antinet_module.Turn.Core.Machine.{home, IsValid, queue_packet-IsValid}
use csqtt_antinet_module.Turn.Core.Machine.Starts.{start_operation-cases, start_operation-IsValid}
use csqtt_antinet_module.Turn.Core.Machine.Ends.{
  SameMachine, SameMachine-IsValid, destroy_allocation-IsValid,
}
use csqtt_antinet_module.Turn.Core.Machine.Timeouts.{expire_transactions-IsValid}
use csqtt_antinet_module.Prelude.{
  ℕ, ◌+◌, ◌≡◌, refl, sym, ◌∙◌, inl, inr, Bool, true, false, not, ◌&&◌, ◌||◌, Option, none, some,
  arith, if◌then◌else◌, Bool-cases, Option-cases, Bytes,
}

-- A ready allocation between two requests.
pub record IsReady (s : Inner) : Type 0 where
  pub valid : IsValid s
  pub state : s.state ≡ ready
  pub on : s.destroyed ≡ false

pub is_state→eq : (a b : State) → is_state a b ≡ true → a ≡ b
is_state→eq a b h = ground arith

pub start_operation-IsReady :
    (crypto : Crypto) (operation : Operation) (transaction : Bytes) (now : ℕ) (s : Inner)
    → home operation ≡ ready
    → IsReady s
    → IsReady (start_operation crypto operation true 0 transaction now s).0
unfolding queue_packet
start_operation-IsReady crypto operation transaction now s at r = record {
  valid =
      start_operation-IsValid crypto operation true 0 transaction now s (at ∙ sym r.state)
        (omega arith) r.on r.valid;
  state = elim (start_operation-cases crypto operation true 0 transaction now s) [
    | inl e ↦ rw e r.state
    | inr (inl (packet, e)) ↦ rw e r.state
    | inr (inr (packet, f, e)) ↦ rw e r.state
  ];
  on = elim (start_operation-cases crypto operation true 0 transaction now s) [
    | inl e ↦ rw e r.on
    | inr (inl (packet, e)) ↦ rw e r.on
    | inr (inr (packet, f, e)) ↦ rw e r.on
  ];
}

start_due-IsReady :
    (crypto : Crypto) (due : Bool) (operation : Operation) (clear : Inner → Inner)
    (transaction : Bytes) (now : ℕ) (s : Inner)
    → home operation ≡ ready
    → ((t : Inner) → SameMachine t (clear t))
    → IsReady s
    → IsReady (start_due crypto due operation clear transaction now s).0
unfolding start_due
start_due-IsReady crypto due operation clear transaction now s at same r =
    elim (Bool-cases (due && not (has_operation operation s))) [
      | inl b ↦
          rw (start_due, b)
            (start_operation-IsReady crypto operation transaction now (clear s) at (record {
              valid = SameMachine-IsValid s (clear s) (same s) r.valid;
              state = (same s).state ∙ r.state;
              on = (same s).destroyed ∙ r.on;
            }))
      | inr b ↦ rw (start_due, b) r
    ]

renew_maintenance-IsReady :
    (due : Bool) (now : ℕ) (s : Inner) → IsReady s → IsReady (renew_maintenance due now s)
unfolding renew_maintenance
renew_maintenance-IsReady due now s r = record {
  valid = SameMachine-IsValid s (renew_maintenance due now s) (ground arith) r.valid;
  state = r.state;
  on = r.on;
}

keep_alive-IsReady : (now : ℕ) (s : Inner) → IsReady s → IsReady (keep_alive now s)
unfolding keep_alive queue_keepalive
keep_alive-IsReady now s r = elim (Bool-cases (is_due now s.keepalive)) [
  | inr b ↦ rw (keep_alive, b) r
  | inl b ↦ elim (Option-cases s.channel) [
    | inl c ↦ rw (keep_alive, b, queue_keepalive, c) renewed
    | inr (n, c) ↦
        rw (keep_alive, b, queue_keepalive, c)
          (record {
            valid = queue_packet-IsValid _ _ r.on renewed.valid;
            state = unfold queue_packet in r.state;
            on = unfold queue_packet in r.on;
          })
  ]
]
  where
    renewed : IsReady (record s { keepalive = some (now + s.profile.keepalive_interval) })
    renewed = record {
      valid = SameMachine-IsValid s _ (ground arith) r.valid;
      state = r.state;
      on = r.on;
    }

after-IsReady :
    (r : Inner × Option CoreError) (next : Inner → Inner × Option CoreError)
    → IsReady r.0
    → ((t : Inner) → IsReady t → IsReady (next t).0)
    → IsReady (after r next).0
after-IsReady (s, none) next h k = k s h
after-IsReady (s, some e) next h k = h

maintain-IsReady :
    (crypto : Crypto) (first second third : Bytes) (now : ℕ) (s : Inner)
    → IsReady s
    → IsReady (maintain crypto first second third now s).0
unfolding maintain
maintain-IsReady crypto first second third now s r =
    let m = is_due now s.maintenance_refresh in
    let p = m || is_due now s.permission_retry in
    let c = m || is_due now s.channel_retry in
    let start =
      λ (due : Bool) (operation : Operation) (clear : Inner → Inner) (t : Bytes) (u : Inner).
        start_due crypto due operation clear t now u in
    let last : Inner → Inner × Option CoreError = λ v. (keep_alive now v, none) in
    let bind : Inner → Inner × Option CoreError =
      λ u. after (start c channel_bind clear_channel third u) last in
    let permit : Inner → Inner × Option CoreError =
      λ t. after (start p permission clear_permission second (renew_maintenance m now t)) bind in
    after-IsReady (start (is_due now s.allocation_refresh) refresh clear_refresh first s) permit
      (start_due-IsReady crypto (is_due now s.allocation_refresh) refresh clear_refresh first now s
        refl (λ t. ground arith) r)
      λ t rt.
        after-IsReady (start p permission clear_permission second (renew_maintenance m now t)) bind
          (start_due-IsReady crypto p permission clear_permission second now
            (renew_maintenance m now t) refl (λ u. ground arith)
            (renew_maintenance-IsReady m now t rt))
          λ u ru.
            after-IsReady (start c channel_bind clear_channel third u) last
              (start_due-IsReady crypto c channel_bind clear_channel third now u refl
                (λ w. ground arith) ru)
              λ w rw'. keep_alive-IsReady now w rw'

-- In a valid core that is ready the allocation is not destroyed.
pub live-on : (s : Inner) → IsValid s → is_live s ≡ true → IsReady s
live-on s v b =
    let q : s.state ≡ ready = is_state→eq s.state ready (ground arith) in
    record { valid = v; state = q; on = (v.live q).1 }

expire_allocation-IsValid : (now : ℕ) (s : Inner) → IsValid s → IsValid (expire_allocation now s)
unfolding expire_allocation
expire_allocation-IsValid now s v =
    elim (Bool-cases (is_live s && is_due now s.allocation_expires_at)) [
      | inl b ↦
          rw (expire_allocation, b)
            (destroy_allocation-IsValid refresh timeout 0 s (live-on s v (ground arith)).on v)
      | inr b ↦ rw (expire_allocation, b) v
    ]

polled-IsValid : (now : ℕ) (r : Inner × Option CoreError) → IsValid r.0 → IsValid (polled now r).0
polled-IsValid now (s, none) v = v
polled-IsValid now (s, some e) v = v

pub either :
    (b : Bool) (x y : Inner)
    → (b ≡ true → IsValid x)
    → (b ≡ false → IsValid y)
    → IsValid (if b then x else y)
either true x y h k = h refl
either false x y h k = k refl

-- Whichever branch is taken.
pub branch {ℓ} :
    {A : Type ℓ} (b : Bool) (x y : Inner × A)
    → (b ≡ true → IsValid x.0)
    → (b ≡ false → IsValid y.0)
    → IsValid (if b then x else y).0
branch true x y h k = h refl
branch false x y h k = k refl

pub poll-IsValid :
    (crypto : Crypto) (first second third : Bytes) (now : ℕ) (s : Inner)
    → IsValid s
    → IsValid (poll crypto first second third now s).0
unfolding poll
poll-IsValid crypto first second third now s v =
    let t = expire_allocation now (expire_transactions now s) in
    let w : IsValid t =
      expire_allocation-IsValid now (expire_transactions now s)
        (expire_transactions-IsValid now s v).0 in
    let quiet_poll : Inner × Option CoreError = (t, none) in
    let r = if is_live t then maintain crypto first second third now t else quiet_poll in
    branch s.destroyed (s, inr none) (polled now r) (λ d. v)
      (λ d. polled-IsValid now r (
        branch (is_live t) (maintain crypto first second third now t) quiet_poll
          (λ b. (maintain-IsReady crypto first second third now t (live-on t w b)).valid) (λ b. w)))
