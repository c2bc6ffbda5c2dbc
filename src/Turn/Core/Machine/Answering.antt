-- ===== src/Turn/Core/Machine/Answering.antt =====
-- `input_stun` keeps the core valid.
use csqtt_antinet_module.Turn.Core.Machine.{IsUnderWay}
use csqtt_antinet_module.Turn.Core.Machine.Starts.{start_operation-destroyed}
use csqtt_antinet_module.Turn.Core.Machine.Successes.{complete_success-destroyed}
use mathlib.Core.Path.{subst}
use csqtt_antinet_module.Prelude.{inr, inl, ◌⊎◌, if◌then◌else◌, not}
use csqtt_antinet_module.Stun as Stun
use csqtt_antinet_module.Stun.{decode, DecodeError}
use csqtt_antinet_module.Turn.Core.State.{authentication, protocol}
use csqtt_antinet_module.Turn.Core.Completion.{complete_success}
use csqtt_antinet_module.Turn.Core.Answers.{
  error_code, requires_allocation_recreate, error_answer, answered, rejected, passes, input_message,
  input_stun, is_error, is_response, fingerprint_is,
}
use csqtt_antinet_module.Stun.{fingerprint_valid}
use csqtt_antinet_module.Turn.Core.State.{remove_queued_transaction}
use csqtt_antinet_module.Turn.Core.Machine.{remove_queued_transaction-IsValid}
use csqtt_antinet_module.Turn.Core.Machine.Ends.{destroy_allocation-IsValid}
use csqtt_antinet_module.Turn.Core.Machine.Successes.{complete_success-IsValid}
use csqtt_antinet_module.Stun.{Message}
use csqtt_antinet_module.Stun as Stun
use csqtt_antinet_module.Turn.Core.State.{protocol, method, Pending, Inner, push_event}
use csqtt_antinet_module.Turn.Core.Requests.{Crypto, set_auth, start_operation}
use csqtt_antinet_module.Turn.Core.Answers.{take_pending, refused, credentials, challenged}
use csqtt_antinet_module.Turn.Core.Machine.{home, Distinct, IsValid, push_event-IsValid}
use csqtt_antinet_module.Turn.Core.Machine.Starts.{start_operation-IsValid}
use csqtt_antinet_module.Turn.Core.Machine.Ends.{SameMachine-IsValid, complete_failure-IsValid}
use csqtt_antinet_module.Prelude.{
  ℕ, ◌+◌, ◌≤◌, ◌≡◌, refl, sym, ◌∙◌, ◌≢◌, ◌⊎◌, inl, inr, Bool, true, false, ◌&&◌, ◌||◌, Option, none,
  some, List, [], ◌∷◌, arith, ltb, ◌==◌, if◌then◌else◌, Bool-cases, Option-cases, All, Bytes,
  bytes_eq,
}

module _ (t : Bytes) (code : ℕ) where
  -- The request that is taken is the first one, or one of the others.
  take_pending-cons :
      (q : Pending) (l : List Pending) {p : Pending} {others : List Pending}
      → take_pending t code (q ∷ l) ≡ some (p, others)
      → ((q ≡ p) × (l ≡ others))
        ⊎ ((rest : List Pending) × (take_pending t code l ≡ some (p, rest)) × (q ∷ rest ≡ others))
  unfolding take_pending
  take_pending-cons q l e =
      elim (Bool-cases (bytes_eq q.transaction t && (method q.operation == code))) [
        | inl b ↦ inl (ground arith)
        | inr b ↦ elim (Option-cases (take_pending t code l)) [
          | inl f ↦ absurd (ground arith)
          | inr ((r, rest), f) ↦ inr (rest, ground arith, ground arith)
        ]
      ]

  pub take_pending-All {κ} :
      (P : Pending → Type κ) (l : List Pending) {p : Pending} {others : List Pending}
      → All P l
      → take_pending t code l ≡ some (p, others)
      → P p × All P others
  take_pending-All P [] h e = absurd (unfold take_pending in cc)
  take_pending-All P (q ∷ l) h e = elim (take_pending-cons q l e) [
    | inl (a, b) ↦ (subst P a h.0, subst (All P) b h.1)
    | inr (rest, f, b) ↦ let (x, y) = take_pending-All P l h.1 f in (x, subst (All P) b (h.0, y))
  ]

  pub take_pending-Distinct :
      (l : List Pending) {p : Pending} {others : List Pending}
      → Distinct l
      → take_pending t code l ≡ some (p, others)
      → Distinct others × All (λ q. q.operation ≢ p.operation) others
  unfolding Distinct
  take_pending-Distinct [] d e = absurd (unfold take_pending in cc)
  take_pending-Distinct (q ∷ l) {p} d e = elim (take_pending-cons q l e) [
    | inl (a, b) ↦ (subst Distinct b d.1, rw (← a, ← b) d.0)
    | inr (rest, f, b) ↦
        let (dr, fr) = take_pending-Distinct l d.1 f in
        let (np, nr) = take_pending-All (λ r. r.operation ≢ q.operation) l d.0 f in
        (
          subst Distinct b (nr, dr),
          subst (All (λ r. r.operation ≢ p.operation)) b ((λ x. np (sym x)), fr),
        )
  ]

pub refused-IsValid :
    (p : Pending) (code now : ℕ) (s : Inner)
    → s.destroyed ≡ false
    → IsValid s
    → IsValid (refused p code now s)
unfolding refused
refused-IsValid p code now s on v =
    complete_failure-IsValid p.operation protocol code now _ (unfold push_event in on)
      (push_event-IsValid _ s v)

credentials-again :
    (again : Bool) (o : Option (Bytes × Bytes)) {c : Bytes × Bytes}
    → (if again then o else none) ≡ some c
    → again ≡ true
credentials-again true o e = refl
credentials-again false o e = absurd (cc)

challenged-IsValid :
    (crypto : Crypto) (p : Pending) (code : ℕ) (m : Message) (transaction : Bytes) (now : ℕ)
    (s : Inner)
    → s.destroyed ≡ false
    → home p.operation ≡ s.state
    → IsValid s
    → IsValid (challenged crypto p code m transaction now s)
unfolding challenged
challenged-IsValid crypto p code m transaction now s on at v =
    elim (Option-cases (if again then credentials code m s else none)) [
      | inl e ↦ rw (challenged, e) (refused-IsValid p code now s on v)
      | inr ((realm, nonce), e) ↦
          let t = set_auth crypto realm nonce s in
          let w : IsValid t =
            unfold set_auth in
            SameMachine-IsValid s (set_auth crypto realm nonce s) (ground arith) v in
          let few : p.nonce_retries + 1 ≤ s.profile.max_nonce_retries =
            (let a = credentials-again again (credentials code m s) e in ground arith) in
          let r = start_operation crypto p.operation true (p.nonce_retries + 1) transaction now t in
          let x : IsValid r.0 =
            start_operation-IsValid crypto p.operation true (p.nonce_retries + 1) transaction now t
              (unfold set_auth in at) (unfold set_auth in few) (unfold set_auth in on) w in
          let still : r.0.destroyed ≡ false =
            start_operation-destroyed crypto p.operation true (p.nonce_retries + 1) transaction now
              t
            ∙ unfold set_auth in on in
          elim (Option-cases r.1) [
            | inl f ↦ rw (challenged, e, f) x
            | inr (err, f) ↦ rw (challenged, e, f) (refused-IsValid p code now r.0 still x)
          ]
    ]
  where
    again : Bool
    again = (code == 401 || (code == 438)) && ltb p.nonce_retries s.profile.max_nonce_retries

error_answer-IsValid :
    (crypto : Crypto) (p : Pending) (m : Message) (transaction : Bytes) (now : ℕ) (s : Inner)
    → s.destroyed ≡ false
    → home p.operation ≡ s.state
    → IsValid s
    → IsValid (error_answer crypto p m transaction now s)
unfolding error_answer
error_answer-IsValid crypto p m transaction now s on at v =
    split (elim (error_code m) [ none ↦ 0 | some c ↦ c ]) refl
  where
    split :
        (code : ℕ)
        → elim (error_code m) as (λ _. ℕ) [ none ↦ 0 | some c ↦ c ] ≡ code
        → IsValid (error_answer crypto p m transaction now s)
    split code q = elim (Bool-cases (code == 0)) [
      | inl z ↦
          rw (error_answer, q, z)
            (complete_failure-IsValid p.operation protocol 0 now _ (unfold push_event in on)
              (push_event-IsValid _ s v))
      | inr z ↦ elim (Bool-cases (requires_allocation_recreate p.operation code)) [
        | inl r ↦
            rw (error_answer, q, z, r)
              (destroy_allocation-IsValid p.operation protocol code _ (unfold push_event in on)
                (push_event-IsValid _ s v))
        | inr r ↦
            rw (error_answer, q, z, r)
              (challenged-IsValid crypto p code m transaction now s on at v)
      ]
    ]

answered-IsValid :
    (crypto : Crypto) (p : Pending) (m : Message) (transaction : Bytes) (now : ℕ) (s : Inner)
    → s.destroyed ≡ false
    → home p.operation ≡ s.state
    → All (λ q. q.operation ≢ p.operation) s.pending
    → IsValid s
    → IsValid (answered crypto p m transaction now s).0
unfolding answered
answered-IsValid crypto p m transaction now s on at h v = elim (Bool-cases (is_error m)) [
  | inl e ↦ rw (answered, e) (error_answer-IsValid crypto p m transaction now s on at v)
  | inr e ↦ elim (Bool-cases (not p.authenticated)) [
    | inl a ↦ rw (answered, e, a) (complete_failure-IsValid p.operation authentication 0 now s on v)
    | inr a ↦
        let r = complete_success crypto p.operation m transaction now s in
        let x = complete_success-IsValid crypto p.operation m transaction now s on at h v in
        elim (Option-cases r.1) [
          | inl f ↦ rw (answered, e, a, f) x
          | inr (err, f) ↦
              rw (answered, e, a, f)
                (complete_failure-IsValid p.operation protocol 0 now r.0
                  (complete_success-destroyed crypto p.operation m transaction now s ∙ on) x)
        ]
  ]
]

rejected-IsValid : (p : Pending) (m : Message) (s : Inner) → IsValid s → IsValid (rejected p m s)
unfolding rejected
rejected-IsValid p m s v = elim (Bool-cases (is_error m)) [
  | inl e ↦ elim (Option-cases (error_code m)) [
    | inl n ↦ rw (rejected, e, n) v
    | inr (code, n) ↦ rw (rejected, e, n) (push_event-IsValid _ s v)
  ]
  | inr e ↦ rw (rejected, e) v
]

-- A core with a request under way has not been destroyed.
under_way-destroyed :
    (t : Bytes) (code : ℕ) (s : Inner) {p : Pending} {others : List Pending}
    → IsValid s
    → take_pending t code s.pending ≡ some (p, others)
    → s.destroyed ≡ false
unfolding take_pending
under_way-destroyed t code s v e = elim (Bool-cases s.destroyed) [
  | inr on ↦ on
  | inl off ↦ absurd (let f = rw (v.ended off).2 at e in cc)
]

input_message-IsValid :
    (crypto : Crypto) (packet : Bytes) (m : Message) (transaction : Bytes) (now : ℕ) (s : Inner)
    → IsValid s
    → IsValid (input_message crypto packet m transaction now s).0
unfolding input_message
input_message-IsValid crypto packet m transaction now s v =
    elim (Bool-cases (not (is_response m))) [
      | inl a ↦ rw (input_message, a) v
      | inr a ↦ elim (Bool-cases (fingerprint_is false (fingerprint_valid crypto.crc32 m))) [
        | inl b ↦ rw (input_message, a, b) v
        | inr b ↦ elim (Option-cases (take_pending m.transaction (Stun.method m) s.pending)) [
          | inl c ↦ rw (input_message, a, b, c) v
          | inr ((p, others), c) ↦
              let on = under_way-destroyed m.transaction (Stun.method m) s v c in
              let (u, us) =
                take_pending-All m.transaction (Stun.method m)
                  (IsUnderWay s.state s.profile.max_nonce_retries) s.pending v.under_way c in
              let (d, fresh) =
                take_pending-Distinct m.transaction (Stun.method m) s.pending v.distinct c in
              let t : Inner = record s { pending = others } in
              let w : IsValid t = record {
                controls_bounded = v.controls_bounded;
                events_bounded = v.events_bounded;
                under_way = us;
                distinct = d;
                live = v.live;
                held = v.held;
                ended = λ x. absurd (cc);
              } in
              elim (Bool-cases (passes crypto packet p m s.key)) [
                | inl k ↦
                    rw (input_message, a, b, c, k)
                      (answered-IsValid crypto p m transaction now
                        (remove_queued_transaction m.transaction t)
                        (unfold remove_queued_transaction in on)
                        (unfold remove_queued_transaction in u.at_home)
                        (unfold remove_queued_transaction in fresh)
                        (remove_queued_transaction-IsValid m.transaction t w))
                | inr k ↦ rw (input_message, a, b, c, k) (rejected-IsValid p m s v)
              ]
        ]
      ]
    ]

-- A packet from the server, whatever it holds.
pub input_stun-IsValid :
    (crypto : Crypto) (packet transaction : Bytes) (now : ℕ) (s : Inner)
    → IsValid s
    → IsValid (input_stun crypto packet transaction now s).0
unfolding input_stun
input_stun-IsValid crypto packet transaction now s v = split (decode packet) refl
  where
    split :
        (r : DecodeError ⊎ Message)
        → decode packet ≡ r
        → IsValid (input_stun crypto packet transaction now s).0
    split (inl e) q = rw (input_stun, q) v
    split (inr m) q = rw (input_stun, q) (input_message-IsValid crypto packet m transaction now s v)
