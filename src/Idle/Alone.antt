-- ===== src/Idle/Alone.antt =====
-- A call of `note_path_lost` that no other comes between runs to its end.
use csqtt_antinet_module.Idle.{
  Idle, LostStage, called, admitted, loaded, expecting, opened, cleared, returned, allows,
  compare_exchange, lost_step, lost_steps,
}
use csqtt_antinet_module.Prelude.{if-elim}
use csqtt_antinet_module.Prelude.{
  ℕ, zero, suc, ◌-◌, ◌≤◌, ◌≡◌, refl, inl, inr, not, arith, ◌==◌, Option-cases, get_elem?,
  saturating_add,
}

-- The operations that a call has left, at most.
left_of : LostStage → ℕ
left_of called = 6
left_of admitted = 5
left_of (loaded j) = 4
left_of (expecting c) = 3
left_of opened = 2
left_of cleared = 1
left_of returned = 0

lost_step-left_of :
    (w : ℕ) (stage : LostStage) (s : Idle) → left_of (lost_step w stage s).0 ≤ left_of stage - 1
unfolding left_of lost_step compare_exchange
lost_step-left_of w called s =
    if-elim (λ st. left_of st ≤ 5) (not (allows s w)) returned admitted (λ e. omega arith)
      (λ e. omega arith)
lost_step-left_of w admitted s = elim (Option-cases (get_elem? s.joined w)) [
  | inl e ↦ rw (lost_step, e) (omega arith)
  | inr (j, e) ↦
      rw (lost_step, e)
        (if-elim (λ st. left_of st ≤ 4) (j == 0) returned (loaded j) (λ z. omega arith)
          (λ z. omega arith))
]
lost_step-left_of w (loaded j) s =
    if-elim (λ st. left_of st ≤ 3) (not (j - 1 == s.gen_offset)) returned (expecting s.gen_offset)
      (λ e. omega arith) (λ e. omega arith)
lost_step-left_of w (expecting c) s =
    if-elim (λ st. left_of st ≤ 2) (compare_exchange c (saturating_add c 1) s).0 opened returned
      (λ e. omega arith) (λ e. omega arith)
lost_step-left_of w opened s = omega arith
lost_step-left_of w cleared s = omega arith
lost_step-left_of w returned s = omega arith

left_of-returned : (stage : LostStage) → left_of stage ≤ 0 → stage ≡ returned
unfolding left_of
left_of-returned called h = absurd (omega arith)
left_of-returned admitted h = absurd (omega arith)
left_of-returned (loaded j) h = absurd (omega arith)
left_of-returned (expecting c) h = absurd (omega arith)
left_of-returned opened h = absurd (omega arith)
left_of-returned cleared h = absurd (omega arith)
left_of-returned returned h = refl

lost_steps-left_of :
    (steps w : ℕ) (stage : LostStage) (s : Idle)
    → left_of stage ≤ steps
    → left_of (lost_steps steps w stage s).0 ≤ 0
unfolding lost_steps
lost_steps-left_of zero w stage s h = h
lost_steps-left_of (suc steps) w stage s h =
    let next = lost_step w stage s in
    lost_steps-left_of steps w next.0 next.1 (omega (arith, lost_step-left_of w stage s))

-- Six operations are enough: a call that runs alone has returned.
lost_steps_return : (w : ℕ) (s : Idle) → (lost_steps 6 w called s).0 ≡ returned
unfolding left_of
lost_steps_return w s =
    left_of-returned (lost_steps 6 w called s).0 (lost_steps-left_of 6 w called s (omega arith))
