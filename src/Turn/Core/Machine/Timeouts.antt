-- ===== src/Turn/Core/Machine/Timeouts.antt =====
-- `expire_transactions` keeps the core valid and leaves no request whose time has come.
use csqtt_antinet_module.Turn.Core.State.{
  timeout, Pending, Inner, max_transmissions, queue_packet, remove_queued_transaction,
}
use csqtt_antinet_module.Turn.Core.Completion.{
  complete_failure, remove_at, is_stream, retransmitted, expire_one, expire_loop,
  expire_transactions,
}
use csqtt_antinet_module.Turn.Core.Machine.{
  IsUnderWay, IsValid, queue_packet-IsValid, remove_queued_transaction-IsValid,
}
use csqtt_antinet_module.Turn.Core.Machine.Ends.{complete_failure-IsValid}
use csqtt_antinet_module.Turn.Core.Machine.Expiry.{
  All-remove_at, All-set, Distinct-remove_at, Distinct-set, length-remove_at, AheadBelow, ahead-nil,
  ahead-skip, ahead-remove_at, ahead-set, ahead-all, complete_failure-pending,
}
use csqtt_antinet_module.Prelude.{
  ℕ, zero, suc, ◌+◌, ◌≤◌, ◌<◌, ◌≡◌, refl, ◌⊎◌, inl, inr, false, ◌||◌, none, some, List, [], ◌∷◌,
  arith, ltb, leb, ltb→lt, Bool-cases, Option-cases, length, get_elem?, set, length-set,
  get_elem?-lt, All, All-get_elem?,
}

abbrev given_up : (now i : ℕ) → Pending → Inner → Inner
given_up now i p s =
    remove_queued_transaction p.transaction (record s { pending = remove_at i s.pending })

abbrev sent_again : (now i : ℕ) → Pending → Inner → Inner
sent_again now i p s = record (queue_packet p.packet s) {
  pending = set s.pending i (retransmitted now p);
}

-- A request whose time has not come is left, another fails or is sent again.
expire_one-cases :
    (now i : ℕ) (p : Pending) (s : Inner)
    → ((now < p.next_attempt) × (expire_one now i p s ≡ (s, suc i)))
      ⊎ ((expire_one now i p s
            ≡ (complete_failure p.operation timeout 0 now (given_up now i p s), i))
          ⊎ ((p.transmissions < max_transmissions)
              × (expire_one now i p s ≡ (sent_again now i p s, suc i))))
unfolding expire_one
expire_one-cases now i p s =
    let e : i + 1 ≡ suc i = omega arith in
    elim (Bool-cases (ltb now p.next_attempt)) [
      | inl a ↦ inl (ltb→lt now p.next_attempt a, rw (expire_one, a, e) refl)
      | inr a ↦ elim (Bool-cases (leb max_transmissions p.transmissions || is_stream s.transport)) [
        | inl b ↦ inr (inl (rw (expire_one, a, b) refl))
        | inr b ↦ inr (inr (ground arith, rw (expire_one, a, b, e) refl))
      ]
    ]

-- What the loop keeps at an index.
record Progress (now i fuel : ℕ) (s : Inner) : Type 0 where
  valid : IsValid s
  ahead : AheadBelow now i s.pending
  left : length s.pending ≤ i + fuel

get_elem?-none : (l : List Pending) (i : ℕ) → get_elem? l i ≡ none → length l ≤ i
get_elem?-none [] i e = omega arith
get_elem?-none (p ∷ l) zero e = absurd (cc)
get_elem?-none (p ∷ l) (suc i) e = omega (arith, get_elem?-none l i e)

module _ (now i fuel : ℕ) (p : Pending) (s : Inner) (here : get_elem? s.pending i ≡ some p)
    (v : IsValid s) where
  live : s.destroyed ≡ false
  live = elim (Bool-cases s.destroyed) [
    | inr on ↦ on
    | inl off ↦ absurd (let e = rw (v.ended off).2 at here in cc)
  ]

  under : IsUnderWay s.state s.profile.max_nonce_retries p
  under =
      All-get_elem? (IsUnderWay s.state s.profile.max_nonce_retries) s.pending i v.under_way here

  given_up-IsValid : IsValid (given_up now i p s)
  given_up-IsValid =
      remove_queued_transaction-IsValid p.transaction (record s { pending = remove_at i s.pending })
        (record {
          controls_bounded = v.controls_bounded;
          events_bounded = v.events_bounded;
          under_way =
              All-remove_at (IsUnderWay s.state s.profile.max_nonce_retries) i s.pending
                v.under_way;
          distinct = Distinct-remove_at i s.pending v.distinct;
          live = v.live;
          held = v.held;
          ended = λ d. let l = live in absurd (cc);
        })

  sent_again-IsValid : p.transmissions < max_transmissions → IsValid (sent_again now i p s)
  unfolding queue_packet
  sent_again-IsValid few =
      let w = queue_packet-IsValid p.packet s live v in
      let u = under in
      record {
        controls_bounded = w.controls_bounded;
        events_bounded = w.events_bounded;
        under_way =
            All-set (IsUnderWay s.state s.profile.max_nonce_retries) i s.pending
              (retransmitted now p)
              (record {
                at_home = u.at_home;
                sent = omega arith;
                sent_again = omega arith;
                rto_range = (omega (arith, u.rto_range.0), omega arith);
                retried = u.retried;
              })
              v.under_way;
        distinct = Distinct-set i s.pending (retransmitted now p) here refl v.distinct;
        live = v.live;
        held = v.held;
        ended = λ d. let l = live in absurd (cc);
      }

  -- A turn of the loop.
  expire_one-Progress :
      AheadBelow now i s.pending
      → length s.pending ≤ i + suc fuel
      → Progress now (expire_one now i p s).1 fuel (expire_one now i p s).0
  unfolding queue_packet remove_queued_transaction
  expire_one-Progress a l =
      let inside = get_elem?-lt s.pending i here in
      elim (expire_one-cases now i p s) [
        | inl (h, e) ↦
            rw e (record {
              valid = v;
              ahead = ahead-skip now i s.pending here h a;
              left = omega arith;
            })
        | inr (inl e) ↦
            let f = complete_failure p.operation timeout 0 now (given_up now i p s) in
            rw e (record {
              valid =
                  complete_failure-IsValid p.operation timeout 0 now (given_up now i p s) live
                    given_up-IsValid;
              ahead =
                  elim (complete_failure-pending p.operation timeout 0 now (given_up now i p s)) [
                    | inl q ↦ rw q (ahead-remove_at now i s.pending a)
                    | inr q ↦ rw q (ahead-nil now i)
                  ];
              left =
                  elim (complete_failure-pending p.operation timeout 0 now (given_up now i p s)) [
                    | inl q ↦ rw q (omega (arith, length-remove_at i s.pending inside))
                    | inr q ↦ rw q (omega arith)
                  ];
            })
        | inr (inr (few, e)) ↦
            let low = under.rto_range in
            rw e (record {
              valid = sent_again-IsValid few;
              ahead = ahead-set now i s.pending (retransmitted now p) (omega arith) a;
              left = omega (arith, length-set s.pending i (retransmitted now p));
            })
      ]

expire_loop-ends :
    (fuel now i : ℕ) (s : Inner)
    → Progress now i fuel s
    → IsValid (expire_loop fuel now i s)
      × All (λ p. now < p.next_attempt) (expire_loop fuel now i s).pending
unfolding expire_loop
expire_loop-ends zero now i s g =
    (g.valid, ahead-all now i s.pending (omega (arith, g.left)) g.ahead)
expire_loop-ends (suc fuel) now i s g = elim (Option-cases (get_elem? s.pending i)) [
  | inl e ↦
      rw (expire_loop, e)
        (g.valid, ahead-all now i s.pending (get_elem?-none s.pending i e) g.ahead)
  | inr (p, e) ↦
      rw (expire_loop, e)
        (expire_loop-ends fuel now (expire_one now i p s).1 (expire_one now i p s).0
          (expire_one-Progress now i fuel p s e g.valid g.ahead g.left))
]

-- Going through the requests keeps the core valid, and each request that is left has its next attempt
-- in the future.
pub expire_transactions-IsValid :
    (now : ℕ) (s : Inner)
    → IsValid s
    → IsValid (expire_transactions now s)
      × All (λ p. now < p.next_attempt) (expire_transactions now s).pending
unfolding expire_transactions
expire_transactions-IsValid now s v =
    expire_loop-ends (length s.pending) now 0 s
      (record { valid = v; ahead = unfold AheadBelow in tt; left = omega arith })
