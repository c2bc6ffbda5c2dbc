-- ===== src/Shutdown/Once.antt =====
-- A session is ended once: which streams a request tries, and how often an answer is taken.
pub mod Tests
use csqtt_antinet_module.Shutdown.{
  is_unrelated, ShutdownCoordinator, register, mark_activity, unregister, observe_control_response,
  complete, lead, next_activity,
}
use csqtt_antinet_module.Prelude.{
  ℕ, ◌+◌, ◌-◌, ◌≤◌, ◌≡◌, refl, ◌∙◌, inl, inr, Bool, true, false, not, ◌||◌, List, [], ◌∷◌, arith,
  if◌then◌else◌, Bool-cases, Bytes,
}

module _ (W : Type 0) where
  pub data Call : Type 0 where
    registered : ℕ → W → Call
    marked : (cell : ℕ) → Call
    unregistered : ℕ → Call
    requested : Call
    responded : Bytes → Call
    finished : Call

  -- A call, with whether it takes an answer.
  pub step : Call → ShutdownCoordinator W → Bool × ShutdownCoordinator W
  step (registered incarnation writer) s = (false, (register W incarnation writer s).1)
  step (marked cell) s = (false, mark_activity W cell s)
  step (unregistered incarnation) s = (false, unregister W incarnation s)
  step requested s = (false, (lead W s).1)
  step (responded response) s = observe_control_response W response s
  step finished s = (false, complete W s)

  -- How many answers are taken.
  pub taken : List Call → ShutdownCoordinator W → ℕ
  taken [] s = 0
  taken (call ∷ calls) s = (if (step call s).0 then 1 else 0) + taken calls (step call s).1

  IsSettled : ShutdownCoordinator W → Type 0
  IsSettled s = (s.active ≡ true) × (s.completed ≡ true)

  register-flags :
      (incarnation : ℕ) (writer : W) (s : ShutdownCoordinator W)
      → ((register W incarnation writer s).1.active ≡ s.active)
        × ((register W incarnation writer s).1.completed ≡ s.completed)
  unfolding register next_activity
  register-flags incarnation writer s = elim (Bool-cases (not s.active)) [
    | inl e ↦ rw (register, e) (refl, refl)
    | inr e ↦ rw (register, e) (refl, refl)
  ]

  observe-settled :
      (response : Bytes) (s : ShutdownCoordinator W)
      → IsSettled s
      → observe_control_response W response s ≡ (false, s)
  unfolding observe_control_response IsSettled
  observe-settled response s (a, c) = elim (Bool-cases (is_unrelated response)) [
    | inl e ↦ rw (observe_control_response, e) refl
    | inr e ↦ rw (observe_control_response, e, a, c) refl
  ]

  lead-settled : (s : ShutdownCoordinator W) → s.active ≡ true → lead W s ≡ (false, s)
  unfolding lead
  lead-settled s a = rw (lead, a) refl

  complete-settled : (s : ShutdownCoordinator W) → s.completed ≡ true → complete W s ≡ s
  unfolding complete
  complete-settled s c = rw (complete, c) refl

  is_open : (a c : Bool) → not a || c ≡ false → a ≡ true
  is_open true c h = refl
  is_open false c h = cc

  refused : (b : Bool) → b ≡ false → b ≡ true → ⊥
  refused b e h = cc

  observe-taken :
      (response : Bytes) (s : ShutdownCoordinator W)
      → (observe_control_response W response s).0 ≡ true
      → IsSettled (observe_control_response W response s).1
  unfolding observe_control_response IsSettled
  observe-taken response s h = elim (Bool-cases (is_unrelated response)) [
    | inl e ↦ absurd (
        refused (observe_control_response W response s).0 (rw (observe_control_response, e) refl) h)
    | inr e ↦ elim (Bool-cases (not s.active || s.completed)) [
      | inl k ↦ absurd (
          refused (observe_control_response W response s).0
            (rw (observe_control_response, e, k) refl) h)
      | inr k ↦ rw (observe_control_response, e, k) (is_open s.active s.completed k, refl)
    ]
  ]

  step-IsSettled :
      (call : Call) (s : ShutdownCoordinator W)
      → IsSettled s
      → ((step call s).0 ≡ false) × IsSettled (step call s).1
  unfolding step IsSettled mark_activity unregister next_activity
  step-IsSettled (registered incarnation writer) s (a, c) =
      let flags = register-flags incarnation writer s in (refl, (flags.0 ∙ a, flags.1 ∙ c))
  step-IsSettled (marked cell) s (a, c) = (refl, (a, c))
  step-IsSettled (unregistered incarnation) s (a, c) = (refl, (a, c))
  step-IsSettled requested s (a, c) = rw (lead-settled s a) (refl, (a, c))
  step-IsSettled (responded response) s (a, c) =
      rw (observe-settled response s (a, c)) (refl, (a, c))
  step-IsSettled finished s (a, c) = rw (complete-settled s c) (refl, (a, c))

  step-taken :
      (call : Call) (s : ShutdownCoordinator W) → (step call s).0 ≡ true → IsSettled (step call s).1
  unfolding step
  step-taken (registered incarnation writer) s h = absurd (cc)
  step-taken (marked cell) s h = absurd (cc)
  step-taken (unregistered incarnation) s h = absurd (cc)
  step-taken requested s h = absurd (cc)
  step-taken (responded response) s h = observe-taken response s h
  step-taken finished s h = absurd (cc)

  taken-settled : (calls : List Call) (s : ShutdownCoordinator W) → IsSettled s → taken calls s ≡ 0
  unfolding taken
  taken-settled [] s h = refl
  taken-settled (call ∷ calls) s h =
      let (e, h') = step-IsSettled call s h in
      rw (taken, e) (omega (arith, taken-settled calls (step call s).1 h'))

  -- In any sequence of calls on a coordinator, among them requests to disconnect and their ends,
  -- registrations, and responses of the peer, at most one response is taken as the answer.
  pub taken_lem : (calls : List Call) (s : ShutdownCoordinator W) → taken calls s ≤ 1
  unfolding taken
  taken_lem [] s = omega arith
  taken_lem (call ∷ calls) s = elim (Bool-cases (step call s).0) [
    | inl e ↦ rw (taken, e, taken-settled calls (step call s).1 (step-taken call s e)) (omega arith)
    | inr e ↦ rw (taken, e) (omega (arith, taken_lem calls (step call s).1))
  ]
