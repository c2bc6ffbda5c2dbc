-- ===== src/Dispatcher/Workers/Interleave.antt =====
-- The order in which the dispatcher's workers are kept holds the same workers.
use mathlib.Core.List.{Perm, append-nil, append_assoc, perm_append_comm}
use mathlib.Core.Path.{subst}
use mathlib.Core.List.Perm
use csqtt_antinet_module.ArrayQueue.{ArrayQueue}
use csqtt_antinet_module.Dispatcher.Queue.{QueuedPacket}
use csqtt_antinet_module.Dispatcher.Select.{WorkerChannels}
use csqtt_antinet_module.Dispatcher.Workers.{
  by_path_and_id, same_path, add_to_groups, grouped, pushed, unless_empty, round, rounds,
  interleave_turn_paths,
}
use csqtt_antinet_module.Prelude.Sorting.{sort_by, sort_by-perm, length-sort_by}
use csqtt_antinet_module.Prelude.{
  ℕ, zero, suc, ◌+◌, ◌≤◌, ◌≡◌, refl, sym, ap, ◌∙◌, ◌⊎◌, inl, inr, List, [], ◌∷◌, ◌++◌, arith,
  Bool-cases, length, get_elem?, drop, length-append,
}

module _ {P : Type 0} (q : ArrayQueue (QueuedPacket P)) where
  abbrev Workers : Type 0
  Workers = List (WorkerChannels q)

  joined : List Workers → Workers
  joined [] = []
  joined (group ∷ groups) = group ++ joined groups

  -- What the rounds from the second on see.
  tails : List Workers → List Workers
  tails [] = []
  tails (group ∷ groups) = drop 1 group ∷ tails groups

  nil-cases :
      (ws : Workers) → (ws ≡ []) ⊎ ((w : WorkerChannels q) × ((vs : Workers) × (ws ≡ w ∷ vs)))
  nil-cases [] = inl refl
  nil-cases (w ∷ vs) = inr (w, (vs, refl))

  nil-of-length : (ws : Workers) → length ws ≤ 0 → ws ≡ []
  nil-of-length [] h = refl
  nil-of-length (w ∷ ws) h = absurd (omega arith)

  at_end :
      (group : Workers) (worker : WorkerChannels q)
      → group ++ (worker ∷ []) ≡ (group ++ []) ++ (worker ∷ [])
  at_end group worker = ap (λ t. t ++ (worker ∷ [])) (sym (append-nil group))

  joined-add_to_groups :
      (groups : List Workers) (worker : WorkerChannels q)
      → joined (add_to_groups q groups worker) ≡ joined groups ++ (worker ∷ [])
  unfolding joined add_to_groups
  joined-add_to_groups [] worker = refl
  joined-add_to_groups (group ∷ []) worker = elim (Bool-cases (same_path q group worker)) [
    | inl e ↦ rw (add_to_groups, e) (append-nil (group ++ (worker ∷ [])) ∙ at_end group worker)
    | inr e ↦ rw (add_to_groups, e) (at_end group worker)
  ]
  joined-add_to_groups (group ∷ next ∷ groups) worker =
      ap (λ t. group ++ t) (joined-add_to_groups (next ∷ groups) worker)
      ∙ sym (append_assoc group (joined (next ∷ groups)) (worker ∷ []))

  joined-grouped :
      (groups : List Workers) (workers : Workers)
      → joined (grouped q groups workers) ≡ joined groups ++ workers
  unfolding joined grouped
  joined-grouped groups [] = sym (append-nil (joined groups))
  joined-grouped groups (worker ∷ workers) =
      joined-grouped (add_to_groups q groups worker) workers
      ∙ (ap (λ t. t ++ workers) (joined-add_to_groups groups worker)
          ∙ append_assoc (joined groups) (worker ∷ []) workers)

  round-tails :
      (groups : List Workers) (offset : ℕ)
      → round q groups (suc offset) ≡ round q (tails groups) offset
  unfolding round tails
  round-tails [] offset = refl
  round-tails ([] ∷ groups) offset = round-tails groups offset
  round-tails ((worker ∷ group) ∷ groups) offset =
      ap (pushed q (get_elem? group offset)) (round-tails groups offset)

  rounds-tails :
      (fuel : ℕ) (groups : List Workers) (offset : ℕ)
      → rounds q fuel groups (suc offset) ≡ rounds q fuel (tails groups) offset
  unfolding rounds
  rounds-tails zero groups offset = refl
  rounds-tails (suc fuel) groups offset =
      ap (λ t. unless_empty q t (rounds q fuel groups (suc (suc offset))))
        (round-tails groups offset)
      ∙ ap (unless_empty q (round q (tails groups) offset)) (rounds-tails fuel groups (suc offset))

  swap_front : (us vs ws : Workers) → Perm (us ++ (vs ++ ws)) (vs ++ (us ++ ws))
  swap_front us vs ws =
      subst (λ t. Perm t (vs ++ (us ++ ws))) (append_assoc us vs ws)
        (subst (λ t. Perm ((us ++ vs) ++ ws) t) (append_assoc vs us ws)
          (Perm.append_right ws (perm_append_comm us vs)))

  joined-round :
      (groups : List Workers) → Perm (joined groups) (round q groups 0 ++ joined (tails groups))
  unfolding joined round tails
  joined-round [] = Perm.rfl
  joined-round ([] ∷ groups) = joined-round groups
  joined-round ((worker ∷ group) ∷ groups) = Perm.cons worker (
      Perm.trans (Perm.append_left group (joined-round groups))
        (swap_front group (round q groups 0) (joined (tails groups))))

  round-nil : (groups : List Workers) → round q groups 0 ≡ [] → joined groups ≡ []
  unfolding joined round
  round-nil [] h = refl
  round-nil ([] ∷ groups) h = round-nil groups h
  round-nil ((worker ∷ group) ∷ groups) h = absurd (cc)

  length-joined :
      (groups : List Workers)
      → length (joined groups) ≡ length (round q groups 0) + length (joined (tails groups))
  unfolding joined round tails
  length-joined [] = refl
  length-joined ([] ∷ groups) = length-joined groups
  length-joined ((worker ∷ group) ∷ groups) = omega (
    arith,
    length-append group (joined groups),
    length-append group (joined (tails groups)),
    length-joined groups,
  )

  fewer :
      {fuel : ℕ} (groups : List Workers) {first : WorkerChannels q} {others : Workers}
      → length (joined groups) ≤ suc fuel
      → round q groups 0 ≡ first ∷ others
      → length (joined (tails groups)) ≤ fuel
  fewer groups enough e = omega (arith, length-joined groups, ap length e)

  rounds-perm :
      (fuel : ℕ) (groups : List Workers)
      → length (joined groups) ≤ fuel
      → Perm (rounds q fuel groups 0) (joined groups)
  unfolding rounds
  rounds-perm zero groups enough =
      subst (λ t. Perm [] t) (sym (nil-of-length (joined groups) enough)) Perm.rfl
  rounds-perm (suc fuel) groups enough = elim (nil-cases (round q groups 0)) [
    | inl e ↦ rw (rounds, e) (subst (λ t. Perm [] t) (sym (round-nil groups e)) Perm.rfl)
    | inr (first, (others, e)) ↦
        rw (rounds, e, rounds-tails fuel groups 0)
          (Perm.trans
            (Perm.append_left (first ∷ others)
              (rounds-perm fuel (tails groups) (fewer groups enough e)))
            (subst (λ t. Perm (t ++ joined (tails groups)) (joined groups)) e
              (Perm.symm (joined-round groups))))
  ]

  pub interleave_turn_paths-perm :
      (workers : Workers) → Perm (interleave_turn_paths q workers) workers
  unfolding interleave_turn_paths joined
  interleave_turn_paths-perm workers =
      let sorted = sort_by (by_path_and_id q) workers in
      Perm.trans
        (subst (λ t. Perm (rounds q (length workers) (grouped q [] sorted) 0) t)
          (joined-grouped [] sorted)
          (rounds-perm (length workers) (grouped q [] sorted) (
            omega (
              arith,
              ap length (joined-grouped [] sorted),
              length-sort_by (by_path_and_id q) workers,
            ))))
        (sort_by-perm (by_path_and_id q) workers)
