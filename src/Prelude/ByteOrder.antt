-- ===== src/Prelude/ByteOrder.antt =====
-- Rust's `cmp` of texts: by their bytes, and linear.
use Prim.Native.Nat.{ℕ, compare, Ordering}
use mathlib.Core.Path.{◌≡◌, refl}
use mathlib.Core.List.{List, [], ◌∷◌}
use native.Mathlib.Omega.{arith}
use csqtt_antinet_module.Prelude.Sorting.{then_with}

-- Texts in the order of their bytes.
pub cmp_bytes : List ℕ → List ℕ → Ordering
cmp_bytes [] [] = Ordering.eq
cmp_bytes [] (n ∷ ns) = Ordering.lt
cmp_bytes (m ∷ ms) [] = Ordering.gt
cmp_bytes (m ∷ ms) (n ∷ ns) = then_with (compare m n) (cmp_bytes ms ns)

abbrev pub Lt : List ℕ → List ℕ → Type 0
Lt p q = cmp_bytes p q ≡ Ordering.lt

pub cmp_bytes_refl : (p : List ℕ) → cmp_bytes p p ≡ Ordering.eq
unfolding cmp_bytes
cmp_bytes_refl [] = refl
cmp_bytes_refl (m ∷ ms) = ground (arith, cmp_bytes_refl ms)

pub cmp_bytes_eq : (p q : List ℕ) → cmp_bytes p q ≡ Ordering.eq → p ≡ q
unfolding cmp_bytes
cmp_bytes_eq [] [] h = refl
cmp_bytes_eq [] (n ∷ ns) h = absurd (cc)
cmp_bytes_eq (m ∷ ms) [] h = absurd (cc)
cmp_bytes_eq (m ∷ ms) (n ∷ ns) h = ground (arith, cmp_bytes_eq ms ns)

pub cmp_bytes_gt : (p q : List ℕ) → cmp_bytes p q ≡ Ordering.gt → Lt q p
unfolding cmp_bytes
cmp_bytes_gt [] [] h = absurd (cc)
cmp_bytes_gt [] (n ∷ ns) h = absurd (cc)
cmp_bytes_gt (m ∷ ms) [] h = refl
cmp_bytes_gt (m ∷ ms) (n ∷ ns) h = ground (arith, cmp_bytes_gt ms ns)

pub Lt-trans : (p q r : List ℕ) → Lt p q → Lt q r → Lt p r
unfolding cmp_bytes
Lt-trans [] [] [] h k = absurd (cc)
Lt-trans [] (x ∷ xs) [] h k = absurd (cc)
Lt-trans [] q (n ∷ ns) h k = refl
Lt-trans (m ∷ ms) [] r h k = absurd (cc)
Lt-trans (m ∷ ms) (n ∷ ns) [] h k = absurd (cc)
Lt-trans (m ∷ ms) (n ∷ ns) (o ∷ os) h k = ground (arith, Lt-trans ms ns os)
