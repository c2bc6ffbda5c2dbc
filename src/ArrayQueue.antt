-- ===== src/ArrayQueue.antt =====
-- The bounded queue of the crossbeam_queue package, which the engine calls: its operations are the
-- fields of `ArrayQueue`, and `IsFifo` is what its documentation says of them. `contents` lists
-- what a queue holds, the oldest first.
pub mod Bounded
use csqtt_antinet_module.Prelude.{
  ℕ, suc, ◌+◌, ◌≤◌, ◌<◌, ◌≡◌, refl, sym, ap, ◌∙◌, ◌⊎◌, inl, inr, Option, none, some, List, [], ◌∷◌,
  ◌++◌, arith, ltb, ltb→lt, ltb→le, Bool-cases, length, length-append,
}

pub record ArrayQueue (A : Type 0) : Type 1 where
  pub Queue : Type 0
  pub with_capacity : ℕ → Queue
  pub capacity : Queue → ℕ
  pub contents : Queue → List A
  pub push : A → Queue → Option Queue
  pub force_push : A → Queue → Queue
  pub pop : Queue → Option (A × Queue)

pub record IsFifo {A : Type 0} (q : ArrayQueue A) : Type 0 where
  pub contents-with_capacity : (n : ℕ) → 0 < n → q.contents (q.with_capacity n) ≡ []
  pub capacity-with_capacity : (n : ℕ) → 0 < n → q.capacity (q.with_capacity n) ≡ n
  pub fits : (s : q.Queue) → length (q.contents s) ≤ q.capacity s
  pub push_full : (a : A) (s : q.Queue) → length (q.contents s) ≡ q.capacity s → q.push a s ≡ none
  pub push_room :
      (a : A) (s : q.Queue)
      → length (q.contents s) < q.capacity s
      → (t : q.Queue) × (q.push a s ≡ some t)
        × (q.contents t ≡ q.contents s ++ (a ∷ []))
        × (q.capacity t ≡ q.capacity s)
  pub force_full :
      (a b : A) (l : List A) (s : q.Queue)
      → q.contents s ≡ b ∷ l
      → length (q.contents s) ≡ q.capacity s
      → (q.contents (q.force_push a s) ≡ l ++ (a ∷ []))
        × (q.capacity (q.force_push a s) ≡ q.capacity s)
  pub force_room :
      (a : A) (s : q.Queue)
      → length (q.contents s) < q.capacity s
      → (q.contents (q.force_push a s) ≡ q.contents s ++ (a ∷ []))
        × (q.capacity (q.force_push a s) ≡ q.capacity s)
  pub pop_empty : (s : q.Queue) → q.contents s ≡ [] → q.pop s ≡ none
  pub pop_first :
      (a : A) (l : List A) (s : q.Queue)
      → q.contents s ≡ a ∷ l
      → (t : q.Queue) × (q.pop s ≡ some (a, t)) × (q.contents t ≡ l) × (q.capacity t ≡ q.capacity s)

pub List-cases : {A : Type 0} (l : List A) → (l ≡ []) ⊎ ((a : A) × (r : List A) × (l ≡ a ∷ r))
List-cases [] = inl refl
List-cases (a ∷ r) = inr (a, r, refl)

module _ {A : Type 0} (q : ArrayQueue A) (fifo : IsFifo q) where
  -- A pop that gives an element leaves one fewer.
  pub pop_size :
      (s : q.Queue) {a : A} {t : q.Queue}
      → q.pop s ≡ some (a, t)
      → length (q.contents s) ≡ suc (length (q.contents t))
  pop_size s {a} {t} e = elim (List-cases (q.contents s)) [
    | inl none_left ↦ let none_there = fifo.pop_empty s none_left in absurd cc
    | inr (b, l, held) ↦
        let (u, f, rest, cap) = fifo.pop_first b l s held in
        let same : u ≡ t = cc in
        ap length held
        ∙ ap (λ (r : List A). suc (length r)) (sym rest)
        ∙ ap (λ (r : q.Queue). suc (length (q.contents r))) same
  ]

  -- A push that succeeds leaves one more.
  pub push_size :
      (s : q.Queue) {a : A} {t : q.Queue}
      → q.push a s ≡ some t
      → length (q.contents t) ≡ length (q.contents s) + 1
  push_size s {a} {t} e = elim (Bool-cases (ltb (length (q.contents s)) (q.capacity s))) [
    | inl room ↦
        let (u, f, added, cap) =
          fifo.push_room a s (ltb→lt (length (q.contents s)) (q.capacity s) room) in
        let same : u ≡ t = cc in
        ap (λ (r : q.Queue). length (q.contents r)) (sym same)
        ∙ ap length added
        ∙ length-append (q.contents s) (a ∷ [])
    | inr full ↦
        let size : length (q.contents s) ≡ q.capacity s =
          omega (arith, ltb→le (length (q.contents s)) (q.capacity s) full, fifo.fits s) in
        let refused = fifo.push_full a s size in absurd cc
  ]
