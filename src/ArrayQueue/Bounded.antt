-- ===== src/ArrayQueue/Bounded.antt =====
-- A bounded list, oldest first: the laws of `IsFifo` hold of it.
use csqtt_antinet_module.ArrayQueue.{ArrayQueue, IsFifo}
use csqtt_antinet_module.Prelude.{
  ℕ, zero, suc, ◌+◌, ◌≤◌, ◌≡◌, refl, ap, true, false, Option, none, some, List, [], ◌∷◌, ◌++◌,
  arith, ltb, if◌then◌else◌, length, take, length-append, length-take,
}

module _ {A : Type 0} where
  take-fits : (n : ℕ) (l : List A) → length l ≤ n → take n l ≡ l
  take-fits zero [] h = refl
  take-fits zero (x ∷ l) h = absurd (omega arith)
  take-fits (suc n) [] h = refl
  take-fits (suc n) (x ∷ l) h = ap (λ (r : List A). x ∷ r) (take-fits n l (omega arith))

  abbrev first : ℕ → List A → Option (A × (ℕ × List A))
  first n [] = none
  first n (x ∷ l) = some (x, (n, l))

  abbrev rest : List A → List A
  rest [] = []
  rest (x ∷ l) = l

  -- A capacity and a list, of which as much as the capacity counts.
  abbrev pub bounded : ArrayQueue A
  bounded = record {
    Queue = ℕ × List A;
    with_capacity = λ n. (n, []);
    capacity = λ s. s.0;
    contents = λ s. take s.0 s.1;
    push = λ a s.
        if ltb (length (take s.0 s.1)) s.0 then some (s.0, take s.0 s.1 ++ (a ∷ [])) else none;
    force_push = λ a s.
        if ltb (length (take s.0 s.1)) s.0
        then (s.0, take s.0 s.1 ++ (a ∷ []))
        else (s.0, rest (take s.0 s.1) ++ (a ∷ []));
    pop = λ s. first s.0 (take s.0 s.1);
  }

  length-snoc : (l : List A) (a : A) → length (l ++ (a ∷ [])) ≡ length l + 1
  length-snoc l a = length-append l (a ∷ [])

  pub bounded-IsFifo : IsFifo bounded
  bounded-IsFifo = record {
    contents-with_capacity = λ n h. take-fits n [] (omega arith);
    capacity-with_capacity = λ n h. refl;
    fits = λ s. omega (arith, length-take s.0 s.1);
    push_full = λ a s h.
        let full : ltb (length (take s.0 s.1)) s.0 ≡ false = ground (arith, h) in rw full refl;
    push_room = λ a s h.
        let room : ltb (length (take s.0 s.1)) s.0 ≡ true = ground (arith, h) in
        (
          (s.0, take s.0 s.1 ++ (a ∷ [])),
          rw room refl,
          take-fits s.0 (take s.0 s.1 ++ (a ∷ [])) (omega (arith, h, length-snoc (take s.0 s.1) a)),
          refl,
        );
    force_full = λ a b l s e h.
        let full : ltb (length (take s.0 s.1)) s.0 ≡ false = ground (arith, h) in
        let size : length (take s.0 s.1) ≡ suc (length l) = ap length e in
        rw (full, e)
          (take-fits s.0 (l ++ (a ∷ [])) (omega (arith, h, size, length-snoc l a)), refl);
    force_room = λ a s h.
        let room : ltb (length (take s.0 s.1)) s.0 ≡ true = ground (arith, h) in
        rw room (
          take-fits s.0 (take s.0 s.1 ++ (a ∷ [])) (omega (arith, h, length-snoc (take s.0 s.1) a)),
          refl,
        );
    pop_empty = λ s e. rw e refl;
    pop_first = λ a l s e.
        let size : length (take s.0 s.1) ≡ suc (length l) = ap length e in
        ((s.0, l), rw e refl, take-fits s.0 l (omega (arith, size, length-take s.0 s.1)), refl);
  }
