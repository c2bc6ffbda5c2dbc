-- ===== src/Turn/Core/Machine/Expiry.antt =====
-- The list of requests under the changes that `expire_transactions` makes.
use csqtt_antinet_module.Turn.Core.State.{
  Status, Operation, Pending, Inner, push_event, set_state, complete,
}
use csqtt_antinet_module.Turn.Core.Completion.{
  complete_failure, destroy_allocation, destroy_after_channel_rebind_exhausted, remove_at,
}
use csqtt_antinet_module.Turn.Core.Machine.{Distinct}
use csqtt_antinet_module.Turn.Core.Machine.Ends.{
  complete_failure-cases, schedule_maintenance_retry-SameMachine,
}
use csqtt_antinet_module.Prelude.{
  ℕ, zero, suc, ◌+◌, ◌≤◌, ◌<◌, ◌≡◌, refl, ◌∙◌, ◌≢◌, ◌⊎◌, inl, inr, some, List, [], ◌∷◌, arith,
  length, get_elem?, set, All, All-get_elem?,
}

module _ {κ} (P : Pending → Type κ) where
  pub All-remove_at : (i : ℕ) (l : List Pending) → All P l → All P (remove_at i l)
  unfolding remove_at
  All-remove_at i [] h = h
  All-remove_at zero (p ∷ l) h = h.1
  All-remove_at (suc i) (p ∷ l) h = (h.0, All-remove_at i l h.1)

  pub All-set : (i : ℕ) (l : List Pending) (q : Pending) → P q → All P l → All P (set l i q)
  All-set i [] q hq h = tt
  All-set zero (p ∷ l) q hq h = (hq, h.1)
  All-set (suc i) (p ∷ l) q hq h = (h.0, All-set i l q hq h.1)

pub Distinct-remove_at : (i : ℕ) (l : List Pending) → Distinct l → Distinct (remove_at i l)
unfolding remove_at Distinct
Distinct-remove_at i [] d = d
Distinct-remove_at zero (p ∷ l) d = d.1
Distinct-remove_at (suc i) (p ∷ l) d =
    (All-remove_at (λ q. q.operation ≢ p.operation) i l d.0, Distinct-remove_at i l d.1)

pub Distinct-set :
    (i : ℕ) (l : List Pending) (q : Pending) {p : Pending}
    → get_elem? l i ≡ some p
    → q.operation ≡ p.operation
    → Distinct l
    → Distinct (set l i q)
unfolding Distinct
Distinct-set i [] q e o d = absurd (cc)
Distinct-set zero (r ∷ l) q {p} e o d =
    let same : q.operation ≡ r.operation = cc in (rw same d.0, d.1)
Distinct-set (suc i) (r ∷ l) q {p} e o d = (
  All-set (λ x. x.operation ≢ r.operation) i l q
      (rw o (All-get_elem? (λ x. x.operation ≢ r.operation) l i d.0 e)) d.0,
  Distinct-set i l q e o d.1,
)

pub length-remove_at :
    (i : ℕ) (l : List Pending) → i < length l → length (remove_at i l) + 1 ≡ length l
unfolding remove_at
length-remove_at i [] h = absurd (omega arith)
length-remove_at zero (p ∷ l) h = omega arith
length-remove_at (suc i) (p ∷ l) h = omega (arith, length-remove_at i l (omega arith))

-- The requests in front of an index have their next attempt later than `now`.
unfoldable pub AheadBelow : (now index : ℕ) → List Pending → Type 0
AheadBelow now zero l = Unit
AheadBelow now (suc index) [] = Unit
AheadBelow now (suc index) (p ∷ l) = (now < p.next_attempt) × AheadBelow now index l

module _ (now : ℕ) where
  pub ahead-nil : (i : ℕ) → AheadBelow now i []
  unfolding AheadBelow
  ahead-nil zero = tt
  ahead-nil (suc i) = tt

  pub ahead-skip :
      (i : ℕ) (l : List Pending) {p : Pending}
      → get_elem? l i ≡ some p
      → now < p.next_attempt
      → AheadBelow now i l
      → AheadBelow now (suc i) l
  unfolding AheadBelow
  ahead-skip i [] e h a = tt
  ahead-skip zero (q ∷ l) e h a = (ground arith, tt)
  ahead-skip (suc i) (q ∷ l) e h a = (a.0, ahead-skip i l e h a.1)

  pub ahead-remove_at :
      (i : ℕ) (l : List Pending) → AheadBelow now i l → AheadBelow now i (remove_at i l)
  unfolding AheadBelow remove_at
  ahead-remove_at zero l a = tt
  ahead-remove_at (suc i) [] a = tt
  ahead-remove_at (suc i) (p ∷ l) a = (a.0, ahead-remove_at i l a.1)

  pub ahead-set :
      (i : ℕ) (l : List Pending) (q : Pending)
      → now < q.next_attempt
      → AheadBelow now i l
      → AheadBelow now (suc i) (set l i q)
  unfolding AheadBelow
  ahead-set i [] q h a = tt
  ahead-set zero (p ∷ l) q h a = (h, tt)
  ahead-set (suc i) (p ∷ l) q h a = (a.0, ahead-set i l q h a.1)

  pub ahead-all :
      (i : ℕ) (l : List Pending)
      → length l ≤ i
      → AheadBelow now i l
      → All (λ p. now < p.next_attempt) l
  unfolding AheadBelow
  ahead-all zero [] h a = tt
  ahead-all zero (p ∷ l) h a = absurd (omega arith)
  ahead-all (suc i) [] h a = tt
  ahead-all (suc i) (p ∷ l) h a = (a.0, ahead-all i l (omega arith) a.1)

-- A failure keeps the other requests or ends them all.
pub complete_failure-pending :
    (operation : Operation) (status : Status) (code now : ℕ) (s : Inner)
    → ((complete_failure operation status code now s).pending ≡ s.pending)
      ⊎ ((complete_failure operation status code now s).pending ≡ [])
unfolding destroy_allocation destroy_after_channel_rebind_exhausted set_state push_event
complete_failure-pending operation status code now s =
    elim (complete_failure-cases operation status code now s) [
      | inl e ↦ inr (rw e refl)
      | inr (inl e) ↦ inl (
          rw e (
            (schedule_maintenance_retry-SameMachine operation now
              (complete operation status code s)).pending
            ∙ unfold complete in refl))
      | inr (inr e) ↦ inr (rw e refl)
    ]
