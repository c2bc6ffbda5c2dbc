-- ===== src/Turn/Core/Waiting.antt =====
-- What `poll` does before the wait is over that it has asked for: nothing.
use mathlib.Core.Path.{subst}
use csqtt_antinet_module.Turn.Core.State.{refresh, timeout, Pending, Inner}
use csqtt_antinet_module.Turn.Core.Requests.{Crypto, CoreError}
use csqtt_antinet_module.Turn.Core.Completion.{
  is_due, destroy_allocation, expire_one, expire_loop, expire_transactions,
}
use csqtt_antinet_module.Turn.Core.Deadlines.{timer, attempts, deadlines, wait-deadlines}
use csqtt_antinet_module.Turn.Core.Calls.{
  wait, poll, polled, is_live, maintain, start_due, renew_maintenance, keep_alive,
  expire_allocation,
}
use csqtt_antinet_module.Prelude.{
  ℕ, zero, suc, ltb, ◌&&◌, Bool, length, if-elim, if◌then◌else◌, true, ◌+◌, ◌≤◌, ◌<◌, max, ◌≡◌,
  refl, sym, ap, ◌∙◌, ◌⊎◌, inl, inr, false, Option, none, some, List, [], ◌∷◌, ◌++◌, arith,
  Option-cases, get_elem?, All, Bytes,
}
use csqtt_antinet_module.Prelude.{All-mono}

attempts-get :
    (now : ℕ) (l : List Pending) (i : ℕ) {p : Pending}
    → All (λ d. now < d) (attempts l)
    → get_elem? l i ≡ some p
    → now < p.next_attempt
unfolding attempts
attempts-get now [] i h e = absurd (cc)
attempts-get now (r ∷ l) zero {p} h e =
    let same : r ≡ p = cc in subst (λ (x : Pending). now < x.next_attempt) same h.0
attempts-get now (r ∷ l) (suc i) h e = attempts-get now l i h.1 e

expire_loop-early :
    (fuel now i : ℕ) (s : Inner)
    → All (λ d. now < d) (attempts s.pending)
    → expire_loop fuel now i s ≡ s
unfolding expire_loop expire_one
expire_loop-early zero now i s early = refl
expire_loop-early (suc fuel) now i s early = elim (Option-cases (get_elem? s.pending i)) [
  | inl e ↦ rw (expire_loop, e) refl
  | inr (p, e) ↦
      let on : ltb now p.next_attempt ≡ true =
        ground (arith, attempts-get now s.pending i early e) in
      rw (expire_loop, e, expire_one, on) (expire_loop-early fuel now (i + 1) s early)
]

All-split : (P : ℕ → Type 0) (xs ys : List ℕ) → All P (xs ++ ys) → All P xs × All P ys
All-split P [] ys h = (tt, h)
All-split P (x ∷ xs) ys h = let rest = All-split P xs ys h.1 in ((h.0, rest.0), rest.1)

timer-early : (now : ℕ) (o : Option ℕ) → All (λ d. now < d) (timer o) → is_due now o ≡ false
timer-early now none h = refl
timer-early now (some d) h = ground arith

-- What `early` says of each timer.
record Early (now : ℕ) (s : Inner) : Type 0 where
  requests : All (λ d. now < d) (attempts s.pending)
  refresh_off : is_due now s.allocation_refresh ≡ false
  maintenance_off : is_due now s.maintenance_refresh ≡ false
  permission_off : is_due now s.permission_retry ≡ false
  channel_off : is_due now s.channel_retry ≡ false
  keepalive_off : is_due now s.keepalive ≡ false

deadlines-Early : (now : ℕ) (s : Inner) → All (λ d. now < d) (deadlines s) → Early now s
unfolding deadlines
deadlines-Early now s h =
    let P : ℕ → Type 0 = λ d. now < d in
    let c = timer s.channel_retry ++ timer s.keepalive in
    let p = timer s.permission_retry ++ c in
    let m = timer s.maintenance_refresh ++ p in
    let h0 = All-split P (attempts s.pending) (timer s.allocation_refresh ++ m) h in
    let h1 = All-split P (timer s.allocation_refresh) m h0.1 in
    let h2 = All-split P (timer s.maintenance_refresh) p h1.1 in
    let h3 = All-split P (timer s.permission_retry) c h2.1 in
    let h4 = All-split P (timer s.channel_retry) (timer s.keepalive) h3.1 in
    record {
      requests = h0.0;
      refresh_off = timer-early now s.allocation_refresh h1.0;
      maintenance_off = timer-early now s.maintenance_refresh h2.0;
      permission_off = timer-early now s.permission_retry h3.0;
      channel_off = timer-early now s.channel_retry h4.0;
      keepalive_off = timer-early now s.keepalive h4.1;
    }

keep_alive-early : (now : ℕ) (s : Inner) → is_due now s.keepalive ≡ false → keep_alive now s ≡ s
unfolding keep_alive
keep_alive-early now s h = rw (keep_alive, h) refl

maintain-Early :
    (crypto : Crypto) (first second third : Bytes) (now : ℕ) (s : Inner)
    → Early now s
    → maintain crypto first second third now s ≡ (s, none)
unfolding maintain start_due renew_maintenance
maintain-Early crypto first second third now s e =
    rw
      (
        maintain,
        e.refresh_off,
        e.maintenance_off,
        e.permission_off,
        e.channel_off,
        keep_alive-early now s e.keepalive_off,
      )
      refl

expire_allocation-early :
    (now : ℕ) (s : Inner) → is_due now s.allocation_expires_at ≡ false → expire_allocation now s ≡ s
unfolding expire_allocation
expire_allocation-early now s h =
    if-elim (λ t. t ≡ s) (is_live s && is_due now s.allocation_expires_at)
      (destroy_allocation refresh timeout 0 s) s (λ e. absurd (never (is_live s) h e)) (λ e. refl)
  where
    never : {b : Bool} (a : Bool) → b ≡ false → a && b ≡ true → ⊥
    never {b} a h e = ground arith

-- Nothing is done before all deadlines.
poll-Early :
    (crypto : Crypto) (first second third : Bytes) (now : ℕ) (s : Inner)
    → Early now s
    → is_due now s.allocation_expires_at ≡ false
    → (poll crypto first second third now s).0 ≡ s
unfolding poll expire_transactions
poll-Early crypto first second third now s e on =
    let done = expire_transactions now s in
    let same : expire_allocation now done ≡ s =
      ap (expire_allocation now) (expire_loop-early (length s.pending) now 0 s e.requests)
      ∙ expire_allocation-early now s on in
    let rest : Inner → Inner × Option CoreError =
      λ t. if is_live t then maintain crypto first second third now t else (t, none) in
    if-elim {A = Inner × (CoreError ⊎ Option ℕ)} (λ r. r.0 ≡ s) s.destroyed (s, inr none)
      (polled now (rest (expire_allocation now done))) (λ d. refl)
      (λ d.
        subst (λ t. (polled now (rest t)).0 ≡ s) (sym same)
          (if-elim {A = Inner × Option CoreError} (λ r. (polled now r).0 ≡ s) (is_live s)
            (maintain crypto first second third now s) (s, none)
            (λ l. rw (maintain-Early crypto first second third now s e) refl) (λ l. refl)))

-- The time comes before the wait is over.
abbrev pub IsWaiting : (now later : ℕ) → Option ℕ → Type 0
IsWaiting now later none = Unit
IsWaiting now later (some w) = later < now + w

waiting-deadlines :
    (now later : ℕ) (s : Inner)
    → IsWaiting now later (wait now s)
    → now < later
    → All (λ d. later < d) (deadlines s)
waiting-deadlines now later s h after = elim (wait-deadlines now s) [
  | inl (none_at, nothing) ↦ subst (λ l. All (λ d. later < d) l) (sym nothing) tt
  | inr (w, first, at, until, found, low) ↦
      let soon : later < now + w = subst (IsWaiting now later) at h in
      All-mono (λ d. now + w ≤ max d (now + 1)) (λ d. later < d) (λ d k. omega arith) (deadlines s)
        low
]

-- A core that is polled again before the wait it has asked for is over, and before its allocation
-- ends, does nothing: it sends nothing, starts nothing and keeps its state. And it asks for no wait
-- that is longer or shorter than need be: none if no request and no timer is set, else until the
-- earliest next attempt or timer, or for one millisecond if that has come.
pub wait-poll :
    (crypto : Crypto) (first second third : Bytes) (now later : ℕ) (s : Inner)
    → IsWaiting now later (wait now s)
    → now < later
    → is_due later s.allocation_expires_at ≡ false
    → ((poll crypto first second third later s).0 ≡ s)
      × (((wait now s ≡ none) × (deadlines s ≡ []))
          ⊎ ((w earliest : ℕ) × (wait now s ≡ some w)
              × (now + w ≡ max earliest (now + 1))
              × ((i : ℕ) × (get_elem? (deadlines s) i ≡ some earliest))
              × All (λ d. now + w ≤ max d (now + 1)) (deadlines s)))
wait-poll crypto first second third now later s h after on = (
  poll-Early crypto first second third later s
      (deadlines-Early later s (waiting-deadlines now later s h after)) on,
  wait-deadlines now s,
)
