-- ===== src/Prelude/Sorting.antt =====
-- Rust's `cmp`, `sort_unstable_by` and `retain`.
use Prim.Native.Nat.{suc, Ordering}
use mathlib.Core.Logic.{inl, inr, ◌≢◌}
use mathlib.Core.Bool.{Bool, true, false}
use mathlib.Core.List.{
  List, [], ◌∷◌, Perm, Mem, Mem-prop, mem-cons_self, mem-cons_of_mem, eq-or-mem_of_mem-cons,
  Pairwise, not-mem-nil,
}
use mathlib.Core.Logic.Or
use mathlib.Core.HLevel.{¬_prop}
use mathlib.Core.List.Perm
use mathlib.Core.Path.{◌≡◌, refl, ap, sym, ◌∙◌, subst}
use native.Mathlib.Omega.{arith}
use csqtt_antinet_module.Prelude.Lists.{length, All, All-mono}
use csqtt_antinet_module.Prelude.Tests.{if◌then◌else◌, Bool-cases, if-elim}

-- The next comparison counts where this one finds no difference.
abbrev pub then_with : Ordering → Ordering → Ordering
then_with Ordering.lt next = Ordering.lt
then_with Ordering.eq next = next
then_with Ordering.gt next = Ordering.gt

module _ {ℓ} {A : Type ℓ} (order : A → A → Ordering) where
  -- Whether `x` stays before `y`.
  abbrev pub is_before : Ordering → Bool
  is_before Ordering.lt = true
  is_before Ordering.eq = true
  is_before Ordering.gt = false

  pub insert_by : A → List A → List A
  insert_by x [] = x ∷ []
  insert_by x (y ∷ ys) = if is_before (order x y) then x ∷ y ∷ ys else y ∷ insert_by x ys

  pub sort_by : List A → List A
  unfolding insert_by
  sort_by [] = []
  sort_by (x ∷ xs) = insert_by x (sort_by xs)

  insert_by-perm : (x : A) (l : List A) → Perm (insert_by x l) (x ∷ l)
  unfolding insert_by
  insert_by-perm x [] = Perm.rfl
  insert_by-perm x (y ∷ ys) = elim (Bool-cases (is_before (order x y))) [
    | inl e ↦ rw (insert_by, e) Perm.rfl
    | inr e ↦ rw (insert_by, e) (Perm.trans (Perm.cons y (insert_by-perm x ys)) (Perm.swap x y ys))
  ]

  pub sort_by-perm : (l : List A) → Perm (sort_by l) l
  unfolding sort_by
  sort_by-perm [] = Perm.rfl
  sort_by-perm (x ∷ xs) = Perm.trans (insert_by-perm x (sort_by xs)) (Perm.cons x (sort_by-perm xs))

  length-insert_by : (x : A) (l : List A) → length (insert_by x l) ≡ suc (length l)
  unfolding insert_by
  length-insert_by x [] = refl
  length-insert_by x (y ∷ ys) = elim (Bool-cases (is_before (order x y))) [
    | inl e ↦ rw (insert_by, e) refl
    | inr e ↦ rw (insert_by, e) (ap suc (length-insert_by x ys))
  ]

  pub length-sort_by : (l : List A) → length (sort_by l) ≡ length l
  unfolding sort_by
  length-sort_by [] = refl
  length-sort_by (x ∷ xs) = omega (arith, length-insert_by x (sort_by xs), length-sort_by xs)

module _ {ℓ} {A : Type ℓ} (keep : A → Bool) where
  pub retain : List A → List A
  retain [] = []
  retain (x ∷ xs) = if keep x then x ∷ retain xs else retain xs

  retain-mem : (l : List A) {a : A} → Mem a (retain l) → Mem a l
  unfolding retain
  retain-mem [] m = m
  retain-mem (x ∷ xs) {a} m = elim (Bool-cases (keep x)) [
    | inl e ↦
        Or.elim (Mem-prop {a = a} {l = x ∷ xs})
          (eq-or-mem_of_mem-cons (subst (λ b. Mem a (if b then x ∷ retain xs else retain xs)) e m))
          (λ h. subst (λ t. Mem t (x ∷ xs)) (sym h) mem-cons_self)
          (λ h. mem-cons_of_mem x (retain-mem xs h))
    | inr e ↦
        mem-cons_of_mem x
          (retain-mem xs (subst (λ b. Mem a (if b then x ∷ retain xs else retain xs)) e m))
  ]

  pub retain-kept : (l : List A) {a : A} → Mem a (retain l) → keep a ≢ false
  unfolding retain
  retain-kept [] m = absurd (not-mem-nil m)
  retain-kept (x ∷ xs) {a} m = elim (Bool-cases (keep x)) [
    | inl e ↦
        Or.elim ¬_prop
          (eq-or-mem_of_mem-cons (subst (λ b. Mem a (if b then x ∷ retain xs else retain xs)) e m))
          (λ h k. absurd (true≢false e (ap keep (sym h) ∙ k))) (λ h. retain-kept xs h)
    | inr e ↦ retain-kept xs (subst (λ b. Mem a (if b then x ∷ retain xs else retain xs)) e m)
  ]
    where
      true≢false : {b : Bool} → b ≡ true → b ≡ false → ⊥
      true≢false p r = cc

  pub Pairwise-retain : {R : A → A → Type 0} → (l : List A) → Pairwise R l → Pairwise R (retain l)
  unfolding retain
  Pairwise-retain {R} [] h = h
  Pairwise-retain {R} (x ∷ xs) (Pairwise.cons below h) = elim (Bool-cases (keep x)) [
    | inl e ↦
        rw (retain, e)
          (Pairwise.cons (λ a m. below a (retain-mem xs m)) (Pairwise-retain {R = R} xs h))
    | inr e ↦ rw (retain, e) (Pairwise-retain {R = R} xs h)
  ]

module _ {ℓ} {A : Type ℓ} (order : A → A → Ordering) where
  abbrev pub Before : A → A → Type 0
  Before x y = is_before order (order x y) ≡ true

  abbrev pub IsSorted : List A → Type ℓ
  IsSorted [] = Unit
  IsSorted (x ∷ xs) = All (Before x) xs × IsSorted xs

  insert_by-All :
      (Q : A → Type 0) (x : A) (l : List A) → Q x → All Q l → All Q (insert_by order x l)
  unfolding insert_by
  insert_by-All Q x [] p h = (p, tt)
  insert_by-All Q x (y ∷ ys) p h =
      if-elim (All Q) (is_before order (order x y)) (x ∷ y ∷ ys) (y ∷ insert_by order x ys)
        (λ e. (p, h)) (λ e. (h.0, insert_by-All Q x ys p h.1))

  module _ (total : (x y : A) → is_before order (order x y) ≡ false → Before y x)
      (trans : (x y z : A) → Before x y → Before y z → Before x z) where
    insert_by-IsSorted : (x : A) (l : List A) → IsSorted l → IsSorted (insert_by order x l)
    unfolding insert_by
    insert_by-IsSorted x [] h = (tt, tt)
    insert_by-IsSorted x (y ∷ ys) h =
        if-elim IsSorted (is_before order (order x y)) (x ∷ y ∷ ys) (y ∷ insert_by order x ys)
          (λ e. ((e, All-mono (Before y) (Before x) (λ z k. trans x y z e k) ys h.0), h))
          (λ e. (insert_by-All (Before y) x ys (total x y e) h.0, insert_by-IsSorted x ys h.1))

    pub sort_by-IsSorted : (l : List A) → IsSorted (sort_by order l)
    unfolding sort_by
    sort_by-IsSorted [] = tt
    sort_by-IsSorted (x ∷ xs) = insert_by-IsSorted x (sort_by order xs) (sort_by-IsSorted xs)

module _ {ℓ} {A : Type ℓ} (order : A → A → Ordering) (Q : A → Type 0) where
  All-insert_by : (x : A) (l : List A) → All Q (insert_by order x l) → Q x × All Q l
  unfolding insert_by
  All-insert_by x [] h = h
  All-insert_by x (y ∷ ys) h = elim (Bool-cases (is_before order (order x y))) [
    | inl e ↦ subst (λ b. All Q (if b then x ∷ y ∷ ys else y ∷ insert_by order x ys)) e h
    | inr e ↦
        let k = subst (λ b. All Q (if b then x ∷ y ∷ ys else y ∷ insert_by order x ys)) e h in
        let rest = All-insert_by x ys k.1 in (rest.0, (k.0, rest.1))
  ]

  -- What holds of the sorted elements holds of the elements.
  pub sort_by-All : (l : List A) → All Q (sort_by order l) → All Q l
  unfolding sort_by
  sort_by-All [] h = tt
  sort_by-All (x ∷ xs) h = let k = All-insert_by x (sort_by order xs) h in (k.0, sort_by-All xs k.1)
