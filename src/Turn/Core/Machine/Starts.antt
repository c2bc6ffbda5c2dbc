-- ===== src/Turn/Core/Machine/Starts.antt =====
-- Requests that start: `start_operation` keeps the core valid.
use csqtt_antinet_module.Turn.Core.State.{
  Operation, channel_bind, Pending, Inner, initial_rto, queue_packet, find_operation, is_operation,
}
use csqtt_antinet_module.Turn.Core.Requests.{
  Crypto, build_request, start_operation, is_none, transaction_timeout,
}
use csqtt_antinet_module.Turn.Core.Machine.{
  home, IsUnderWay, Distinct, IsValid, queue_packet-IsValid,
}
use csqtt_antinet_module.Prelude.{
  ℕ, ◌+◌, ◌≤◌, ◌≡◌, refl, sym, ◌≢◌, ◌⊎◌, inl, inr, Bool, true, false, ◌&&◌, ◌||◌, none, List, [],
  ◌∷◌, ◌++◌, arith, Bool-cases, Option-cases, All, All-append, Bytes,
}

pub is_operation→eq : (a b : Operation) → is_operation a b ≡ true → a ≡ b
is_operation→eq a b h = ground arith

pub eq→is_operation : (a b : Operation) → is_operation a b ≡ false → a ≢ b
eq→is_operation a b h = λ e. ground arith

pub find_operation-none :
    (operation : Operation) (l : List Pending)
    → find_operation operation l ≡ none
    → All (λ p. p.operation ≢ operation) l
unfolding find_operation
find_operation-none operation [] h = tt
find_operation-none operation (p ∷ l) h = elim (Bool-cases (is_operation p.operation operation)) [
  | inl same ↦ absurd (ground arith)
  | inr other ↦
      (eq→is_operation p.operation operation other, find_operation-none operation l (ground arith))
]

Distinct-snoc :
    (l : List Pending) (q : Pending)
    → Distinct l
    → All (λ p. p.operation ≢ q.operation) l
    → Distinct (l ++ q ∷ [])
unfolding Distinct
Distinct-snoc [] q d h = (tt, tt)
Distinct-snoc (p ∷ l) q d h = (
  All-append (λ r. r.operation ≢ p.operation) l (q ∷ []) d.0 (λ e. h.0 (sym e), tt),
  Distinct-snoc l q d.1 h.1,
)

-- One more request, of a kind that is not under way, in its state.
add_pending-IsValid :
    (p : Pending) (s : Inner)
    → IsUnderWay s.state s.profile.max_nonce_retries p
    → All (λ q. q.operation ≢ p.operation) s.pending
    → s.destroyed ≡ false
    → IsValid s
    → IsValid (record s { pending = s.pending ++ p ∷ [] })
add_pending-IsValid p s u fresh on v = record {
  controls_bounded = v.controls_bounded;
  events_bounded = v.events_bounded;
  under_way =
      All-append (IsUnderWay s.state s.profile.max_nonce_retries) s.pending (p ∷ []) v.under_way
        (u, tt);
  distinct = Distinct-snoc s.pending p v.distinct fresh;
  live = v.live;
  held = v.held;
  ended = λ d. absurd (cc);
}

abbrev pub new_pending : Operation → Bytes → Bytes → ℕ → ℕ → Bool → Inner → Pending
new_pending operation transaction packet now nonce_retries authenticated s = record {
  operation = operation;
  transaction = transaction;
  packet = packet;
  next_attempt = now + transaction_timeout s.transport;
  rto = initial_rto;
  transmissions = 1;
  nonce_retries = nonce_retries;
  authenticated = authenticated;
}

-- A request is one that was under way already, or is refused, or is sent and pending.
pub start_operation-cases :
    (crypto : Crypto) (operation : Operation) (authenticated : Bool) (nonce_retries : ℕ)
    (transaction : Bytes) (now : ℕ) (s : Inner)
    → ((start_operation crypto operation authenticated nonce_retries transaction now s).0 ≡ s)
      ⊎ (((packet : Bytes) × ((start_operation crypto operation authenticated nonce_retries
                transaction now s).0
              ≡ queue_packet packet s))
          ⊎ ((packet : Bytes) × (find_operation operation s.pending ≡ none)
              × ((start_operation crypto operation authenticated nonce_retries transaction now s).0
                  ≡ record (queue_packet packet s) {
                    pending =
                        s.pending
                        ++ new_pending operation transaction packet now nonce_retries authenticated
                            s
                          ∷ [];
                  })))
unfolding start_operation
start_operation-cases crypto operation authenticated nonce_retries transaction now s =
    elim (Option-cases (find_operation operation s.pending)) [
      | inr (p, e) ↦ elim (Bool-cases (is_operation operation channel_bind)) [
        | inl b ↦ inr (inl (p.packet, rw (start_operation, e, b) refl))
        | inr b ↦ inl (rw (start_operation, e, b) refl)
      ]
      | inl e ↦
          elim (Bool-cases
            (authenticated && (is_none s.realm || is_none s.nonce || is_none s.key))) [
              | inl b ↦ inl (rw (start_operation, e, b) refl)
              | inr b ↦
                  elim (Option-cases (build_request crypto operation transaction authenticated s)) [
                    | inl f ↦ inl (rw (start_operation, e, b, f) refl)
                    | inr (packet, f) ↦ inr (inr (packet, e, rw (start_operation, e, b, f) refl))
                  ]
            ]
    ]

pub start_operation-IsValid :
    (crypto : Crypto) (operation : Operation) (authenticated : Bool) (nonce_retries : ℕ)
    (transaction : Bytes) (now : ℕ) (s : Inner)
    → home operation ≡ s.state
    → nonce_retries ≤ s.profile.max_nonce_retries
    → s.destroyed ≡ false
    → IsValid s
    → IsValid (start_operation crypto operation authenticated nonce_retries transaction now s).0
start_operation-IsValid crypto operation authenticated nonce_retries transaction now s at n on v =
    elim (start_operation-cases crypto operation authenticated nonce_retries transaction now s) [
      | inl e ↦ rw e v
      | inr (inl (packet, e)) ↦ rw e (queue_packet-IsValid packet s on v)
      | inr (inr (packet, f, e)) ↦ rw e (
          unfold queue_packet in
          add_pending-IsValid
            (new_pending operation transaction packet now nonce_retries authenticated s)
            (queue_packet packet s)
            (record {
              at_home = at;
              sent = omega arith;
              sent_again = omega arith;
              rto_range = (omega arith, omega arith);
              retried = n;
            })
            (find_operation-none operation s.pending f) on (queue_packet-IsValid packet s on v))
    ]

pub start_operation-destroyed :
    (crypto : Crypto) (operation : Operation) (authenticated : Bool) (nonce_retries : ℕ)
    (transaction : Bytes) (now : ℕ) (s : Inner)
    → (start_operation crypto operation authenticated nonce_retries transaction now s).0.destroyed
      ≡ s.destroyed
unfolding queue_packet
start_operation-destroyed crypto operation authenticated nonce_retries transaction now s =
    elim (start_operation-cases crypto operation authenticated nonce_retries transaction now s) [
      | inl e ↦ rw e refl
      | inr (inl (packet, e)) ↦ rw e refl
      | inr (inr (packet, f, e)) ↦ rw e refl
    ]
