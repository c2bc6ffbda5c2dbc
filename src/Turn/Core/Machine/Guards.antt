-- ===== src/Turn/Core/Machine/Guards.antt =====
-- What a packet that does not pass the checks, and a call after the end, can do to the core.
use csqtt_antinet_module.Stun.{Message, DecodeError, decode, fingerprint_valid}
use csqtt_antinet_module.Stun as Stun
use csqtt_antinet_module.Turn.Builder.{verify_integrity}
use csqtt_antinet_module.Turn.Core.State.{success, destroying, Pending, Inner, push_event}
use csqtt_antinet_module.Turn.Core.Requests.{Crypto}
use csqtt_antinet_module.Turn.Core.Answers.{
  error_code, is_error, is_response, fingerprint_is, response_requires_integrity,
  is_fingerprinted_allocation_mismatch, take_pending, rejected, passes, input_message, input_stun,
}
use csqtt_antinet_module.Turn.Core.Calls.{
  start_allocation, start_ready, poll, resync_after_suspend, pull_control, pull_event,
  graceful_shutdown, force_destroy,
}
use csqtt_antinet_module.Turn.Core.Machine.{IsValid}
use csqtt_antinet_module.Turn.Core.Machine.Answering.{take_pending-All}
use csqtt_antinet_module.Turn.Core.Machine.Runs.{Call, perform}
use csqtt_antinet_module.Prelude.{
  ℕ, ◌≡◌, refl, ap, ◌∙◌, ◌≢◌, ◌⊎◌, inl, inr, true, false, not, none, [], arith, Bool-cases,
  Option-cases, All, Bytes,
}

-- Nothing but the queue of events may differ.
abbrev pub SameButEvents : Inner → Inner → Type 0
SameButEvents s t = t ≡ record s { events = t.events }

rejected-same : (p : Pending) (m : Message) (s : Inner) → SameButEvents s (rejected p m s)
unfolding rejected push_event
rejected-same p m s = elim (Bool-cases (is_error m)) [
  | inl e ↦ elim (Option-cases (error_code m)) [
    | inl n ↦ rw (rejected, e, n) refl
    | inr (code, n) ↦ rw (rejected, e, n) refl
  ]
  | inr e ↦ rw (rejected, e) refl
]

-- While the requests that are under way carry credentials, a packet whose integrity attribute does
-- not verify, of a kind that needs one, changes nothing but the queue of events and is not
-- accepted, unless it is the one exception, a mismatch of the allocation with a valid fingerprint.
pub forged-input_stun :
    (crypto : Crypto) (packet transaction : Bytes) (now : ℕ) (s : Inner) {m : Message}
    → decode packet ≡ inr m
    → All (λ p. p.authenticated ≡ true) s.pending
    → response_requires_integrity m ≡ true
    → verify_integrity crypto.hmac packet m s.key ≡ false
    → is_fingerprinted_allocation_mismatch crypto m ≡ false
    → let (t, status) = input_stun crypto packet transaction now s in
      SameButEvents s t × (status ≢ success)
unfolding input_stun input_message passes
forged-input_stun crypto packet transaction now s {m} d all needs forged mismatch =
    rw (input_stun, d)
      (elim (Bool-cases (not (is_response m))) [
        | inl a ↦ rw (input_message, a) (refl, λ e. cc)
        | inr a ↦ elim (Bool-cases (fingerprint_is false (fingerprint_valid crypto.crc32 m))) [
          | inl b ↦ rw (input_message, a, b) (refl, λ e. cc)
          | inr b ↦ elim (Option-cases (take_pending m.transaction (Stun.method m) s.pending)) [
            | inl c ↦ rw (input_message, a, b, c) (refl, λ e. cc)
            | inr ((p, others), c) ↦
                let auth =
                  (take_pending-All m.transaction (Stun.method m) (λ p. p.authenticated ≡ true)
                    s.pending all c).0 in
                let fails : passes crypto packet p m s.key ≡ false =
                  rw (passes, auth, needs, forged, mismatch) refl in
                rw (input_message, a, b, c, fails) (rejected-same p m s, λ e. cc)
          ]
        ]
      ])

input_message-idle :
    (crypto : Crypto) (packet transaction : Bytes) (m : Message) (now : ℕ) (s : Inner)
    → s.pending ≡ []
    → (input_message crypto packet m transaction now s).0 ≡ s
unfolding input_message
input_message-idle crypto packet transaction m now s e =
    let none_taken : take_pending m.transaction (Stun.method m) s.pending ≡ none =
      ap (take_pending m.transaction (Stun.method m)) e ∙ unfold take_pending in refl in
    elim (Bool-cases (not (is_response m))) [
      | inl a ↦ rw (input_message, a) refl
      | inr a ↦ elim (Bool-cases (fingerprint_is false (fingerprint_valid crypto.crc32 m))) [
        | inl b ↦ rw (input_message, a, b) refl
        | inr b ↦ rw (input_message, a, b, none_taken) refl
      ]
    ]

input_stun-idle :
    (crypto : Crypto) (packet transaction : Bytes) (now : ℕ) (s : Inner)
    → s.pending ≡ []
    → (input_stun crypto packet transaction now s).0 ≡ s
unfolding input_stun
input_stun-idle crypto packet transaction now s e = split (decode packet) refl
  where
    split :
        (r : DecodeError ⊎ Message)
        → decode packet ≡ r
        → (input_stun crypto packet transaction now s).0 ≡ s
    split (inl f) q = rw (input_stun, q) refl
    split (inr m) q = rw (input_stun, q) (input_message-idle crypto packet transaction m now s e)

whole : (s t : Inner) → t ≡ s → SameButEvents s t
whole s t e = rw e refl

unchanged :
    (crypto : Crypto) (c : Call) (s : Inner)
    → IsValid s
    → s.destroyed ≡ true
    → SameButEvents s (perform crypto c s)
unfolding perform start_allocation start_ready graceful_shutdown poll resync_after_suspend
    force_destroy
unchanged crypto (Call.allocation_started t now) s v d = whole s _ (ground arith)
unchanged crypto (Call.channel_started t now) s v d = whole s _ (ground arith)
unchanged crypto (Call.permission_started t now) s v d = whole s _ (ground arith)
unchanged crypto (Call.shut_down t now) s v d = whole s _ (ground arith)
unchanged crypto (Call.stun_received packet t now) s v d =
    whole s _ (input_stun-idle crypto packet t now s (v.ended d).2)
unchanged crypto (Call.polled first second third now) s v d = whole s _ (ground arith)
unchanged crypto (Call.resumed gap now) s v d = whole s _ (ground arith)
unchanged crypto Call.control_pulled s v d =
    whole s _ (let e = (v.ended d).1 in unfold pull_control in ground arith)
unchanged crypto Call.event_pulled s v d = unfold pull_event in ground arith
unchanged crypto (Call.destroyed status) s v d = whole s _ (ground arith)

-- After the forced end no call changes anything but the queue of events: the core stays in its last
-- state, with no request under way and no packet to send.
pub perform-destroyed :
    (crypto : Crypto) (c : Call) (s : Inner)
    → IsValid s
    → s.destroyed ≡ true
    → let t = perform crypto c s in
      SameButEvents s t × (t.state ≡ destroying) × (t.controls ≡ []) × (t.pending ≡ [])
unfolding perform
perform-destroyed crypto c s v d =
    let (state, controls, pending) = v.ended d in
    let e = unchanged crypto c s v d in (e, rw e state, rw e controls, rw e pending)
