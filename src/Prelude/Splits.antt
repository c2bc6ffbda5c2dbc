-- ===== src/Prelude/Splits.antt =====
-- Slices cut and put together again.
use Prim.Native.Nat.{ℕ, zero, suc, ◌+◌, ◌-◌, ◌≤◌, ◌<◌}
use mathlib.Core.Path.{◌≡◌, refl, sym, ap, ◌∙◌}
use mathlib.Core.Bool.{true}
use mathlib.Core.List.{[], ◌∷◌, ◌++◌}
use native.Mathlib.Omega.{arith}
use csqtt_antinet_module.Prelude.Lists.{
  length, get_or, take, drop, length-take, length-drop, take-append-drop,
}
use csqtt_antinet_module.Prelude.Slices.{Bytes, IsBytes, slice, bytes_eq}

pub All-take : (n : ℕ) (p : Bytes) → IsBytes p → IsBytes (take n p)
All-take zero p h = tt
All-take (suc n) [] h = tt
All-take (suc n) (b ∷ p) h = (h.0, All-take n p h.1)

pub All-drop : (n : ℕ) (p : Bytes) → IsBytes p → IsBytes (drop n p)
All-drop zero p h = h
All-drop (suc n) [] h = tt
All-drop (suc n) (b ∷ p) h = All-drop n p h.1

pub drop-nil : (k : ℕ) → drop {A = ℕ} k [] ≡ []
drop-nil zero = refl
drop-nil (suc k) = refl

pub drop-drop : (m n : ℕ) (p : Bytes) → drop m (drop n p) ≡ drop (n + m) p
drop-drop m zero p = let e : m ≡ 0 + m = omega arith in ap (λ (k : ℕ). drop k p) e
drop-drop m (suc n) [] = drop-nil m ∙ sym (drop-nil (suc n + m))
drop-drop m (suc n) (b ∷ p) =
    let e : suc (n + m) ≡ suc n + m = omega arith in
    drop-drop m n p ∙ ap (λ (k : ℕ). drop k (b ∷ p)) e

pub bytes_eq_sound : (p q : Bytes) → bytes_eq p q ≡ true → p ≡ q
unfolding bytes_eq
bytes_eq_sound [] [] h = refl
bytes_eq_sound [] (c ∷ q) h = absurd (cc)
bytes_eq_sound (b ∷ p) [] h = absurd (cc)
bytes_eq_sound (b ∷ p) (c ∷ q) h = ground (arith, bytes_eq_sound p q)

-- `to` bytes from `from` on, and what stands behind them.
pub slice-append-drop :
    (p : Bytes) (from to : ℕ) → from ≤ to → slice p from to ++ drop to p ≡ drop from p
slice-append-drop p from to h =
    let reach : to ≡ from + (to - from) = omega arith in
    ap (λ (t : Bytes). slice p from to ++ t)
      (ap (λ (k : ℕ). drop k p) reach ∙ sym (drop-drop (to - from) from p))
    ∙ take-append-drop (to - from) (drop from p)

pub length-slice :
    (p : Bytes) (from to : ℕ) → from ≤ to → to ≤ length p → length (slice p from to) ≡ to - from
length-slice p from to h l =
    omega (arith, length-take (to - from) (drop from p), length-drop from p)

pub drop-append-le : (n : ℕ) (p q : Bytes) → n ≤ length p → drop n (p ++ q) ≡ drop n p ++ q
drop-append-le zero p q h = refl
drop-append-le (suc n) [] q h = absurd (omega arith)
drop-append-le (suc n) (b ∷ p) q h = drop-append-le n p q (omega arith)

pub take-append-le : (n : ℕ) (p q : Bytes) → n ≤ length p → take n (p ++ q) ≡ take n p
take-append-le zero p q h = refl
take-append-le (suc n) [] q h = absurd (omega arith)
take-append-le (suc n) (b ∷ p) q h = ap (λ t. b ∷ t) (take-append-le n p q (omega arith))

pub take-append-add : (p q : Bytes) (n : ℕ) → take (length p + n) (p ++ q) ≡ p ++ take n q
take-append-add [] q n = let e : 0 + n ≡ n = omega arith in ap (λ (k : ℕ). take k q) e
take-append-add (b ∷ p) q n =
    let e : length (b ∷ p) + n ≡ suc (length p + n) = omega arith in
    ap (λ (k : ℕ). take k (b ∷ (p ++ q))) e ∙ ap (λ t. b ∷ t) (take-append-add p q n)

pub take-all : (n : ℕ) (p : Bytes) → length p ≤ n → take n p ≡ p
take-all zero [] h = refl
take-all zero (b ∷ p) h = absurd (omega arith)
take-all (suc n) [] h = refl
take-all (suc n) (b ∷ p) h = ap (λ t. b ∷ t) (take-all n p (omega arith))

take-nil : (k : ℕ) → take {A = ℕ} k [] ≡ []
take-nil zero = refl
take-nil (suc k) = refl

pub drop-take : (n m : ℕ) (p : Bytes) → drop n (take m p) ≡ take (m - n) (drop n p)
drop-take zero m p = let e : m ≡ m - 0 = omega arith in ap (λ (k : ℕ). take k p) e
drop-take (suc n) zero p =
    let e : 0 ≡ zero - suc n = omega arith in ap (λ (k : ℕ). take k (drop (suc n) p)) e
drop-take (suc n) (suc m) [] = sym (take-nil (suc m - suc n))
drop-take (suc n) (suc m) (b ∷ p) =
    let e : m - n ≡ suc m - suc n = omega arith in
    drop-take n m p ∙ ap (λ (k : ℕ). take k (drop n p)) e

pub get_or-append-lt : (p q : Bytes) (i d : ℕ) → i < length p → get_or (p ++ q) i d ≡ get_or p i d
get_or-append-lt [] q i d h = absurd (omega arith)
get_or-append-lt (b ∷ p) q zero d h = refl
get_or-append-lt (b ∷ p) q (suc i) d h = get_or-append-lt p q i d (omega arith)

pub bytes_eq_refl : (p : Bytes) → bytes_eq p p ≡ true
unfolding bytes_eq
bytes_eq_refl [] = refl
bytes_eq_refl (b ∷ p) = ground (arith, bytes_eq_refl p)
