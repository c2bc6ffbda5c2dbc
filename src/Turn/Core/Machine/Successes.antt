-- ===== src/Turn/Core/Machine/Successes.antt =====
-- Responses that grant a request keep the core valid.
use csqtt_antinet_module.Stun.{Message}
use csqtt_antinet_module.Turn.Address.{SocketAddr}
use csqtt_antinet_module.Turn.Core.State.{
  success, State, ready, deallocating, deallocated, Operation, allocate, refresh, deallocate,
  permission, channel_bind, Pending, Inner, channel_number, push_event, set_state, complete,
}
use csqtt_antinet_module.Turn.Core.Requests.{Crypto, CoreError, start_operation, attr_lifetime}
use csqtt_antinet_module.Turn.Core.Completion.{
  complete_success, allocate_success, refresh_success, allocated, relayed_address, attribute_u32,
  or_requested, is_maintenance,
}
use csqtt_antinet_module.Turn.Core.Machine.{
  home, IsUnderWay, IsValid, push_event-IsValid, complete-IsValid, set_state-IsValid,
  pushed_bounded,
}
use csqtt_antinet_module.Turn.Core.Machine.Starts.{
  start_operation-IsValid, start_operation-destroyed,
}
use csqtt_antinet_module.Turn.Core.Machine.Ends.{SameMachine-IsValid}
use csqtt_antinet_module.Prelude.{
  ℕ, ◌≡◌, refl, sym, ◌∙◌, ◌≢◌, ◌⊎◌, inl, inr, true, false, not, Option, none, some, List, [], ◌∷◌,
  arith, ◌==◌, Bool-cases, All, Bytes,
}

-- In the states of Allocate and of the last Refresh no other request is under way.
alone :
    (operation : Operation) (n : ℕ) (l : List Pending)
    → is_maintenance operation ≡ false
    → All (IsUnderWay (home operation) n) l
    → All (λ q. q.operation ≢ operation) l
    → l ≡ []
alone operation n [] m u h = refl
alone operation n (q ∷ l) m u h = absurd (h.0 (same q.operation operation m u.0.at_home))
  where
    same : (a b : Operation) → is_maintenance b ≡ false → home a ≡ home b → a ≡ b
    same a b m e = ground arith

set_state-destroyed : (state : State) (s : Inner) → (set_state state s).destroyed ≡ s.destroyed
unfolding set_state
set_state-destroyed state s = refl

set_state-state : (state : State) (s : Inner) → (set_state state s).state ≡ state
unfolding set_state
set_state-state state s = refl

some-ne-none {ℓ} : {A : Type ℓ} (o : Option A) {a : A} → o ≡ some a → o ≢ none
some-ne-none o e = λ q. cc

abbrev allocated_for : SocketAddr → Message → ℕ → Inner → Inner
allocated_for relay m now s = allocated relay (attribute_u32 m attr_lifetime) now s

-- An Allocate response is refused, or leads to the end, or makes the allocation ready.
pub allocate_success-cases :
    (crypto : Crypto) (m : Message) (transaction : Bytes) (now : ℕ) (s : Inner)
    → let r = allocate_success crypto m transaction now s in
      (r.0 ≡ s)
      ⊎ ((relay : SocketAddr) × (((r.0
              ≡ (start_operation crypto deallocate true 0 transaction now
                  (set_state deallocating (allocated_for relay m now s))).0))
            ⊎ ((s.shutting_down ≡ false)
                × (r.0
                    ≡ complete allocate success 0
                        (set_state ready (allocated_for relay m now s))))))
unfolding allocate_success
allocate_success-cases crypto m transaction now s = elim_case (relayed_address m s.peer) refl
  where
    elim_case :
        (a : CoreError ⊎ SocketAddr)
        → relayed_address m s.peer ≡ a
        → let r = allocate_success crypto m transaction now s in
          (r.0 ≡ s)
          ⊎ ((relay : SocketAddr) × (((r.0
                  ≡ (start_operation crypto deallocate true 0 transaction now
                      (set_state deallocating (allocated_for relay m now s))).0))
                ⊎ ((s.shutting_down ≡ false)
                    × (r.0
                        ≡ complete allocate success 0
                            (set_state ready (allocated_for relay m now s))))))
    elim_case (inl e) q = inl (rw (allocate_success, q) refl)
    elim_case (inr relay) q =
        elim (Bool-cases (or_requested (attribute_u32 m attr_lifetime) == 0)) [
          | inl z ↦ inl (rw (allocate_success, q, z) refl)
          | inr z ↦ elim (Bool-cases s.shutting_down) [
            | inl d ↦ inr (relay, inl (rw (allocate_success, q, z, d) refl))
            | inr d ↦ inr (relay, inr (d, rw (allocate_success, q, z, d) refl))
          ]
        ]

allocate_success-IsValid :
    (crypto : Crypto) (m : Message) (transaction : Bytes) (now : ℕ) (s : Inner)
    → s.destroyed ≡ false
    → s.pending ≡ []
    → IsValid s
    → IsValid (allocate_success crypto m transaction now s).0
allocate_success-IsValid crypto m transaction now s on p v =
    elim (allocate_success-cases crypto m transaction now s) [
      | inl e ↦ rw e v
      | inr (relay, inl e) ↦
          let t = allocated_for relay m now s in
          rw e (
            start_operation-IsValid crypto deallocate true 0 transaction now
              (set_state deallocating t) (sym (set_state-state deallocating t)) (omega arith)
              (set_state-destroyed deallocating t ∙ unfold allocated push_event in on)
              (set_state-IsValid deallocating t (unfold allocated push_event in v.controls_bounded)
                (unfold allocated push_event in pushed_bounded _ s.events v.events_bounded)
                (unfold allocated push_event in p) (unfold allocated push_event in on)
                (λ q. absurd (cc))))
      | inr (relay, inr (d, e)) ↦
          let t = allocated_for relay m now s in
          rw e (
            complete-IsValid allocate success 0 (set_state ready t) (
              set_state-IsValid ready t (unfold allocated push_event in v.controls_bounded)
                (unfold allocated push_event in pushed_bounded _ s.events v.events_bounded)
                (unfold allocated push_event in p) (unfold allocated push_event in on)
                (λ q. (
                  unfold allocated push_event in d,
                  unfold allocated push_event in λ n. cc,
                  unfold allocated push_event in λ n. cc,
                ))))
    ]

refresh_success-IsValid :
    (m : Message) (now : ℕ) (s : Inner) → IsValid s → IsValid (refresh_success m now s).0
unfolding refresh_success
refresh_success-IsValid m now s v =
    elim (Bool-cases (or_requested (attribute_u32 m attr_lifetime) == 0)) [
      | inl z ↦ rw (refresh_success, z) v
      | inr z ↦
          rw (refresh_success, z)
            (complete-IsValid refresh success 0 _ (record {
              controls_bounded = v.controls_bounded;
              events_bounded = v.events_bounded;
              under_way = v.under_way;
              distinct = v.distinct;
              live = v.live;
              held = λ q. ((v.held q).0, λ n. cc);
              ended = v.ended;
            }))
    ]

deallocate_success-IsValid :
    (crypto : Crypto) (m : Message) (transaction : Bytes) (now : ℕ) (s : Inner)
    → s.destroyed ≡ false
    → s.pending ≡ []
    → IsValid s
    → IsValid (complete_success crypto deallocate m transaction now s).0
unfolding complete_success complete push_event
deallocate_success-IsValid crypto m transaction now s on p v =
    elim (Bool-cases (elim (attribute_u32 m attr_lifetime) [
      | none ↦ false
      | some lifetime ↦ not (lifetime == 0)
    ])) [
      | inl z ↦ rw z v
      | inr z ↦ rw z (
          set_state-IsValid deallocated _ v.controls_bounded
            (pushed_bounded _ s.events v.events_bounded) p on (λ q. absurd (cc)))
    ]

-- A response to a request that is no longer pending.
pub complete_success-IsValid :
    (crypto : Crypto) (operation : Operation) (m : Message) (transaction : Bytes) (now : ℕ)
    (s : Inner)
    → s.destroyed ≡ false
    → home operation ≡ s.state
    → All (λ q. q.operation ≢ operation) s.pending
    → IsValid s
    → IsValid (complete_success crypto operation m transaction now s).0
unfolding complete_success
complete_success-IsValid crypto allocate m transaction now s on at h v =
    allocate_success-IsValid crypto m transaction now s on
      (alone allocate s.profile.max_nonce_retries s.pending refl (rw at v.under_way) h) v
complete_success-IsValid crypto refresh m transaction now s on at h v =
    refresh_success-IsValid m now s v
complete_success-IsValid crypto deallocate m transaction now s on at h v =
    deallocate_success-IsValid crypto m transaction now s on
      (alone deallocate s.profile.max_nonce_retries s.pending refl (rw at v.under_way) h) v
complete_success-IsValid crypto permission m transaction now s on at h v =
    complete-IsValid permission success 0 _
      (SameMachine-IsValid s (record s { permission_failures = 0 }) (ground arith) v)
complete_success-IsValid crypto channel_bind m transaction now s on at h v =
    complete-IsValid channel_bind success 0 _ (
      push_event-IsValid _ _ (
        SameMachine-IsValid s (record s { channel = some channel_number; channel_failures = 0 })
          (ground arith) v))

allocate_success-destroyed :
    (crypto : Crypto) (m : Message) (transaction : Bytes) (now : ℕ) (s : Inner)
    → (allocate_success crypto m transaction now s).0.destroyed ≡ s.destroyed
unfolding allocated complete push_event set_state
allocate_success-destroyed crypto m transaction now s =
    elim (allocate_success-cases crypto m transaction now s) [
      | inl e ↦ rw e refl
      | inr (relay, inl e) ↦ rw e (
          start_operation-destroyed crypto deallocate true 0 transaction now
            (set_state deallocating (allocated_for relay m now s)))
      | inr (relay, inr (d, e)) ↦ rw e refl
    ]

pub complete_success-destroyed :
    (crypto : Crypto) (operation : Operation) (m : Message) (transaction : Bytes) (now : ℕ)
    (s : Inner)
    → (complete_success crypto operation m transaction now s).0.destroyed ≡ s.destroyed
unfolding complete_success refresh_success complete push_event set_state
complete_success-destroyed crypto allocate m transaction now s =
    allocate_success-destroyed crypto m transaction now s
complete_success-destroyed crypto refresh m transaction now s = ground arith
complete_success-destroyed crypto deallocate m transaction now s = ground arith
complete_success-destroyed crypto permission m transaction now s = refl
complete_success-destroyed crypto channel_bind m transaction now s = refl
