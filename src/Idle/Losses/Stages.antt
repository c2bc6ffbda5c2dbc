-- ===== src/Idle/Losses/Stages.antt =====
-- What a call for a lost path knows at each of its stages, and what a step makes of it.
use csqtt_antinet_module.Idle.{
  Idle, LostStage, called, admitted, loaded, expecting, opened, cleared, returned, allows,
  compare_exchange, lost_step,
}
use mathlib.Core.Path.{subst}
use csqtt_antinet_module.Prelude.{if-elim}
use csqtt_antinet_module.Prelude.{
  ℕ, zero, suc, ◌+◌, ◌-◌, ◌%◌, ◌≤◌, ◌<◌, ◌≡◌, refl, sym, ap, ◌∙◌, ◌⊎◌, inl, inr, Bool, true, false,
  not, Option, none, some, List, [], ◌∷◌, arith, ◌==◌, if◌then◌else◌, Option-cases, get_elem?, set,
  All, All-get_elem?, saturating_add,
}

-- The worker is among those kept, and the epoch that it has joined is the present one.
abbrev pub IsLive : Idle → ℕ → Type 0
IsLive s w = (w ≤ s.limit) × (get_elem? s.joined w ≡ some (s.gen_offset + 1))

-- No worker has joined a later epoch than the present one.
abbrev pub IsPast : Idle → Type 0
IsPast s = All (λ (j : ℕ). j ≤ s.gen_offset + 1) s.joined

module _ (s : Idle) (past : IsPast s) (room : s.gen_offset < 18446744073709551615) where
  -- What a call knows while no epoch has been opened, and once one has been by another call.
  abbrev pub Before : ℕ → LostStage → Type 0
  Before w called = Unit
  Before w admitted = w ≤ s.limit
  Before w (loaded j) = (w ≤ s.limit) × ((get_elem? s.joined w ≡ some j) × (0 < j))
  Before w (expecting c) = IsLive s w × (c ≡ s.gen_offset)
  Before w opened = ⊥
  Before w cleared = ⊥
  Before w returned = ¬ IsLive s w

  abbrev pub After : LostStage → Type 0
  After called = Unit
  After admitted = Unit
  After (loaded j) = (0 < j) × (j ≤ s.gen_offset + 1)
  After (expecting c) = c ≤ s.gen_offset
  After opened = ⊥
  After cleared = ⊥
  After returned = Unit

  pub Before-After : (w : ℕ) (stage : LostStage) → Before w stage → After stage
  Before-After w called b = tt
  Before-After w admitted b = tt
  Before-After w (loaded j) b =
      (b.1.1, All-get_elem? (λ (k : ℕ). k ≤ s.gen_offset + 1) s.joined w past b.1.0)
  Before-After w (expecting c) b = omega (arith, b.1)
  Before-After w opened b = b
  Before-After w cleared b = b
  Before-After w returned b = tt

  -- The state when the call of `w` that has opened the epoch is at this stage.
  abbrev pub opened_by : ℕ → Idle
  opened_by w = record s { gen_offset = s.gen_offset + 1 }

  abbrev pub cleared_by : ℕ → Idle
  cleared_by w = record s { gen_offset = s.gen_offset + 1; joined = set s.joined w 0 }

  abbrev pub announced_by : ℕ → Idle
  announced_by w = record s {
    gen_offset = s.gen_offset + 1;
    joined = set s.joined w 0;
    announce = (s.announce + 1) % 18446744073709551616;
  }

  -- Where the call of `w` that has opened the epoch is, and the state.
  pub data Winner (w : ℕ) : LostStage → Idle → Type 0 where
    has_opened : Winner w opened (opened_by w)
    has_cleared : Winner w cleared (cleared_by w)
    has_announced : Winner w returned (announced_by w)

  pub Winner-step :
      (w : ℕ) (stage : LostStage) (t : Idle)
      → Winner w stage t
      → Winner w (lost_step w stage t).0 (lost_step w stage t).1
  unfolding lost_step
  Winner-step w stage t has_opened = has_cleared
  Winner-step w stage t has_cleared = has_announced
  Winner-step w stage t has_announced = has_announced

  -- The epoch is open and no worker has joined a later one.
  abbrev pub IsOpen : Idle → Type 0
  IsOpen t = (t.gen_offset ≡ s.gen_offset + 1) × All (λ (j : ℕ). j ≤ s.gen_offset + 1) t.joined

  All-set : (P : ℕ → Type 0) (xs : List ℕ) (i v : ℕ) → All P xs → P v → All P (set xs i v)
  All-set P [] i v h p = h
  All-set P (x ∷ xs) zero v h p = (p, h.1)
  All-set P (x ∷ xs) (suc i) v h p = (h.0, All-set P xs i v h.1 p)

  pub Winner-IsOpen : (w : ℕ) (stage : LostStage) (t : Idle) → Winner w stage t → IsOpen t
  Winner-IsOpen w stage t has_opened = (refl, past)
  Winner-IsOpen w stage t has_cleared =
      (refl, All-set (λ (j : ℕ). j ≤ s.gen_offset + 1) s.joined w 0 past (omega arith))
  Winner-IsOpen w stage t has_announced =
      (refl, All-set (λ (j : ℕ). j ≤ s.gen_offset + 1) s.joined w 0 past (omega arith))

  no_epoch_ahead :
      (j g : ℕ)
      → g ≡ s.gen_offset + 1
      → (0 < j) × (j ≤ s.gen_offset + 1)
      → not (j - 1 == g) ≡ false
      → ⊥
  no_epoch_ahead j g o a e = ground (arith, o, a)

  stale : (c g : ℕ) → g ≡ s.gen_offset + 1 → c ≤ s.gen_offset → (g == c) ≡ true → ⊥
  stale c g o a e = ground (arith, o, a)

  -- A step of another call, once the epoch is open.
  pub After-step :
      (w : ℕ) (stage : LostStage) (t : Idle)
      → IsOpen t
      → After stage
      → ((lost_step w stage t).1 ≡ t) × After (lost_step w stage t).0
  unfolding lost_step compare_exchange
  After-step w called t o a =
      (refl, if-elim After (not (allows t w)) returned admitted (λ e. tt) (λ e. tt))
  After-step w admitted t o a = elim (Option-cases (get_elem? t.joined w)) [
    | inl e ↦ rw (lost_step, e) (refl, tt)
    | inr (j, e) ↦
        rw (lost_step, e)
          (
            refl,
            if-elim After (j == 0) returned (loaded j) (λ z. tt)
                (λ n.
                  (ground arith, All-get_elem? (λ (k : ℕ). k ≤ s.gen_offset + 1) t.joined w o.1 e)),
          )
  ]
  After-step w (loaded j) t o a = (
    refl,
    if-elim After (not (j - 1 == t.gen_offset)) returned (expecting t.gen_offset) (λ e. tt)
        (λ e. absurd (no_epoch_ahead j t.gen_offset o.0 a e)),
  )
  After-step w (expecting c) t o a =
      if-elim {A = Bool × Idle} (λ r. (r.1 ≡ t) × After (if r.0 then opened else returned))
        (t.gen_offset == c) (true, record t { gen_offset = saturating_add c 1 }) (false, t)
        (λ e. absurd (stale c t.gen_offset o.0 a e)) (λ e. (refl, tt))
  After-step w opened t o a = absurd a
  After-step w cleared t o a = absurd a
  After-step w returned t o a = (refl, tt)

  pub nothing : {o : Option ℕ} {n : ℕ} → o ≡ none → o ≡ some n → ⊥
  nothing p r = cc

  some_inj : {m n : ℕ} → some m ≡ some n → m ≡ n
  some_inj e = cc

  differs : (c g : ℕ) → c ≡ g → (g == c) ≡ false → ⊥
  differs c g h e = ground (arith, h)

  -- What a step from `s` comes to while no epoch is open.
  abbrev pub Stepped : ℕ → LostStage × Idle → Type 0
  Stepped w r = ((r.1 ≡ s) × Before w r.0) ⊎ (IsLive s w × Winner w r.0 r.1)

  looked :
      (w : ℕ)
      → w ≤ s.limit
      → (o : Option ℕ) → get_elem? s.joined w ≡ o
      → Stepped w (elim o [
        | none ↦ (returned, s)
        | some joined ↦ (if joined == 0 then returned else loaded joined, s)
      ])
  looked w kept none e = inl (refl, λ l. nothing e l.1)
  looked w kept (some j) e =
      if-elim (λ st. Stepped w (st, s)) (j == 0) returned (loaded j)
        (λ z. inl (refl, λ l. ground (arith, some_inj (sym e ∙ l.1))))
        (λ n. inl (refl, (kept, (e, ground arith))))

  -- A step while no epoch is open: none is opened, or the call opens it.
  pub Before-step : (w : ℕ) (stage : LostStage) → Before w stage → Stepped w (lost_step w stage s)
  unfolding lost_step compare_exchange allows
  Before-step w called b =
      let R : LostStage → Type 0 = λ st. ((s ≡ s) × Before w st) ⊎ (IsLive s w × Winner w st s) in
      if-elim R (not (allows s w)) returned admitted (λ e. inl (refl, λ l. ground (arith, l.0)))
        (λ e. inl (refl, ground arith))
  Before-step w admitted b = looked w b (get_elem? s.joined w) refl
  Before-step w (loaded j) b =
      let R : LostStage → Type 0 = λ st. ((s ≡ s) × Before w st) ⊎ (IsLive s w × Winner w st s) in
      if-elim R (not (j - 1 == s.gen_offset)) returned (expecting s.gen_offset)
        (λ e. inl (refl, λ l. ground (arith, some_inj (sym b.1.0 ∙ l.1))))
        (λ e.
          let now : j ≡ s.gen_offset + 1 = ground (arith, b.1.1) in
          inl (refl, ((b.0, b.1.0 ∙ ap some now), refl)))
  Before-step w (expecting c) b =
      let R : Bool × Idle → Type 0 = λ r.
        ((r.1 ≡ s) × Before w (if r.0 then opened else returned))
        ⊎ (IsLive s w × Winner w (if r.0 then opened else returned) r.1) in
      let new : saturating_add c 1 ≡ s.gen_offset + 1 = omega (arith, b.1) in
      if-elim R (s.gen_offset == c) (true, record s { gen_offset = saturating_add c 1 }) (false, s)
        (λ e.
          inr
            (b.0, subst (λ n. Winner w opened (record s { gen_offset = n })) (sym new) has_opened))
        (λ e. absurd (differs c s.gen_offset b.1 e))
  Before-step w opened b = absurd b
  Before-step w cleared b = absurd b
  Before-step w returned b = inl (refl, b)
