-- ===== src/Prelude/Words.antt =====
-- Words as bytes, and the exclusive or of words.
use Prim.Native.Nat.{
  ℕ, zero, suc, ◌+◌, ◌*◌, ◌/◌, ◌%◌, ◌^◌, ◌≤◌, ◌<◌, bit_xor, digits, differ, bit_xor-bitwise,
}
use mathlib.Core.List.{append-nil, append_assoc}
use mathlib.Core.Path.{ap, ap₂}
use native.Mathlib.Nat.{zero-add}
use csqtt_antinet_module.Prelude.Slices.{from_be_acc}
use mathlib.Core.Path.{◌≡◌, refl, sym, ◌∙◌}
use mathlib.Core.List.{[], ◌∷◌, ◌++◌}
use native.Mathlib.Omega.{arith}
use native.Mathlib.Nat.{pow-suc}
use csqtt_antinet_module.Prelude.Lists.{length, length-append, All-append}
use csqtt_antinet_module.Prelude.Slices.{Bytes, IsBytes, from_be, from_be-snoc}

-- `to_be_bytes` of a word of so many bytes.
unfoldable pub to_be : ℕ → ℕ → Bytes
to_be zero v = []
to_be (suc k) v = to_be k (v / 256) ++ (v % 256) ∷ []

-- `v` fits into so many bytes.
abbrev pub Fits : ℕ → ℕ → Type 0
Fits zero v = v ≡ 0
Fits (suc k) v = Fits k (v / 256)

pub from_be-to_be : (k v : ℕ) → Fits k v → from_be (to_be k v) ≡ v
unfolding to_be
from_be-to_be zero v h = unfold from_be in sym h
from_be-to_be (suc k) v h =
    omega (arith, from_be-snoc (to_be k (v / 256)) (v % 256), from_be-to_be k (v / 256) h)

pub length-to_be : (k v : ℕ) → length (to_be k v) ≡ k
unfolding to_be
length-to_be zero v = refl
length-to_be (suc k) v =
    omega (arith, length-append (to_be k (v / 256)) ((v % 256) ∷ []), length-to_be k (v / 256))

pub to_be-IsBytes : (k v : ℕ) → IsBytes (to_be k v)
unfolding to_be
to_be-IsBytes zero v = tt
to_be-IsBytes (suc k) v =
    All-append (λ b. b < 256) (to_be k (v / 256)) ((v % 256) ∷ []) (to_be-IsBytes k (v / 256))
      (omega arith, tt)

to_be-from_be_acc :
    (j acc : ℕ) (bs : Bytes)
    → IsBytes bs
    → to_be (length bs + j) (from_be_acc acc bs) ≡ to_be j acc ++ bs
unfolding from_be_acc
to_be-from_be_acc j acc [] h = rw (zero-add, append-nil)
to_be-from_be_acc j acc (b ∷ bs) h =
    ap (λ (n : ℕ). to_be n (from_be_acc (acc * 256 + b) bs)) shift
    ∙ to_be-from_be_acc (suc j) (acc * 256 + b) bs h.1
    ∙ ap (λ (t : Bytes). t ++ bs) last
    ∙ append_assoc (to_be j acc) (b ∷ []) bs
  where
    shift : length (b ∷ bs) + j ≡ length bs + suc j
    shift = omega arith

    last : to_be (suc j) (acc * 256 + b) ≡ to_be j acc ++ b ∷ []
    last = unfold to_be in ap₂ (λ (q : ℕ) (m : ℕ). to_be j q ++ m ∷ []) (omega arith) (omega arith)

pub to_be-from_be : (k : ℕ) (bs : Bytes) → IsBytes bs → length bs ≡ k → to_be k (from_be bs) ≡ bs
unfolding from_be
to_be-from_be k bs h e =
    ap (λ (n : ℕ). to_be n (from_be_acc 0 bs)) (omega arith)
    ∙ to_be-from_be_acc 0 0 bs h
    ∙ unfold to_be in refl

-- The law for the lowest digit, from the definition that the native operation stands for.
abbrev xor_digits : ℕ → ℕ → ℕ → ℕ
xor_digits n a b = digits (λ b. b) differ n a b

xor_digits_zero : (n b : ℕ) → xor_digits n 0 b ≡ b
xor_digits_zero zero b = refl
xor_digits_zero (suc n) b = refl

xor_digits_fuel : (n m a b : ℕ) → a ≤ n → a ≤ m → xor_digits n a b ≡ xor_digits m a b
xor_digits_fuel zero zero a b p q = refl
xor_digits_fuel zero (suc m) zero b p q = refl
xor_digits_fuel zero (suc m) (suc a) b p q = absurd (omega arith)
xor_digits_fuel (suc n) zero zero b p q = refl
xor_digits_fuel (suc n) zero (suc a) b p q = absurd (omega arith)
xor_digits_fuel (suc n) (suc m) zero b p q = refl
xor_digits_fuel (suc n) (suc m) (suc a) b p q =
    omega (arith, xor_digits_fuel n m (suc a / 2) (b / 2) (omega arith) (omega arith))

zero-bit_xor : (b : ℕ) → bit_xor 0 b ≡ b
zero-bit_xor b = bit_xor-bitwise 0 b

differ-mod : (b : ℕ) → differ 0 (b % 2) ≡ b % 2
differ-mod b = refl

pub bit_xor_step : (a b : ℕ) → bit_xor a b ≡ bit_xor (a / 2) (b / 2) * 2 + differ (a % 2) (b % 2)
bit_xor_step zero b = omega (arith, zero-bit_xor b, zero-bit_xor (b / 2), differ-mod b)
bit_xor_step (suc a) b = omega (
  arith,
  bit_xor-bitwise (suc a) b,
  bit_xor-bitwise (suc a / 2) (b / 2),
  xor_digits_fuel a (suc a / 2) (suc a / 2) (b / 2) (omega arith) (omega arith),
)

differ_twice : (x y : ℕ) → x < 2 → y < 2 → (differ (differ x y) y ≡ x) × (differ x y < 2)
differ_twice zero zero p q = (refl, omega arith)
differ_twice zero (suc zero) p q = (refl, omega arith)
differ_twice zero (suc (suc y)) p q = absurd (omega arith)
differ_twice (suc zero) zero p q = (refl, omega arith)
differ_twice (suc zero) (suc zero) p q = (refl, omega arith)
differ_twice (suc zero) (suc (suc y)) p q = absurd (omega arith)
differ_twice (suc (suc x)) y p q = absurd (omega arith)

-- Over words of `k` bits: the exclusive or stays a word, and undoes itself.
pub bit_xor-lt : (k a b : ℕ) → a < 2 ^ k → b < 2 ^ k → bit_xor a b < 2 ^ k
bit_xor-lt zero a b p q = ground (arith, zero-bit_xor b)
bit_xor-lt (suc k) a b p q = omega (
  arith,
  pow-suc 2 k,
  bit_xor_step a b,
  bit_xor-lt k (a / 2) (b / 2) (omega (arith, pow-suc 2 k)) (omega (arith, pow-suc 2 k)),
  (differ_twice (a % 2) (b % 2) (omega arith) (omega arith)).1,
)

double_step : (x d : ℕ) → d < 2 → ((x * 2 + d) / 2 ≡ x) × ((x * 2 + d) % 2 ≡ d)
double_step x d h = omega arith

pub bit_xor_twice : (k a b : ℕ) → a < 2 ^ k → b < 2 ^ k → bit_xor (bit_xor a b) b ≡ a
bit_xor_twice zero a b p q = ground (arith, zero-bit_xor b)
bit_xor_twice (suc k) a b p q =
    let (back, small) = differ_twice (a % 2) (b % 2) (omega arith) (omega arith) in
    let (high, low) = double_step (bit_xor (a / 2) (b / 2)) (differ (a % 2) (b % 2)) small in
    bit_xor_step (bit_xor a b) b
    ∙ rw (bit_xor_step a b, high, low, back)
        (omega (
          arith,
          bit_xor_twice k (a / 2) (b / 2) (omega (arith, pow-suc 2 k)) (omega (arith, pow-suc 2 k)),
        ))
