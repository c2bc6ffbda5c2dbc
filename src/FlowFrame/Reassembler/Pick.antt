-- ===== src/FlowFrame/Reassembler/Pick.antt =====
-- What `swap_remove`, `position` and the search for the lowest packet do to a vector of packets.
use csqtt_antinet_module.FlowFrame.Reassembler.{
  Pending, is_forward, last_of, but_last, swap_remove, position, has_sequence, lowest,
}
use csqtt_antinet_module.Prelude.{
  ℕ, zero, suc, ◌+◌, ◌≡◌, refl, ap, Bool, true, false, none, some, List, [], ◌∷◌, arith,
  if◌then◌else◌, length, get_elem?, All,
}

module _ {ℓ} {A : Type ℓ} where
  -- How many elements pass the test.
  abbrev pub count_if : (A → Bool) → List A → ℕ
  count_if test [] = 0
  count_if test (x ∷ xs) = (if test x then 1 else 0) + count_if test xs

module _ {ℓ} {A : Type ℓ} where
  length-but_last : (x : A) (xs : List A) → length (but_last x xs) ≡ length xs
  unfolding but_last
  length-but_last x [] = refl
  length-but_last x (y ∷ ys) = ap suc (length-but_last y ys)

  pub length-swap_remove :
      (xs : List A) (i : ℕ) {a : A}
      → get_elem? xs i ≡ some a
      → suc (length (swap_remove xs i)) ≡ length xs
  unfolding swap_remove
  length-swap_remove [] i h = absurd (cc)
  length-swap_remove (x ∷ []) zero h = refl
  length-swap_remove (x ∷ (y ∷ ys)) zero h = omega (arith, length-but_last y ys)
  length-swap_remove (x ∷ []) (suc i) h = absurd (cc)
  length-swap_remove (x ∷ (y ∷ ys)) (suc i) h = ap suc (length-swap_remove (y ∷ ys) i h)

  count_if-but_last :
      (test : A → Bool) (x : A) (xs : List A)
      → count_if test (x ∷ xs)
        ≡ (if test (last_of x xs) then 1 else 0) + count_if test (but_last x xs)
  unfolding but_last last_of
  count_if-but_last test x [] = refl
  count_if-but_last test x (y ∷ ys) = omega (arith, count_if-but_last test y ys)

  pub count_if-swap_remove :
      (test : A → Bool) (xs : List A) (i : ℕ) {a : A}
      → get_elem? xs i ≡ some a
      → count_if test xs ≡ (if test a then 1 else 0) + count_if test (swap_remove xs i)
  unfolding swap_remove
  count_if-swap_remove test [] i h = absurd (cc)
  count_if-swap_remove test (x ∷ []) zero h = ground arith
  count_if-swap_remove test (x ∷ (y ∷ ys)) zero h = ground (arith, count_if-but_last test y ys)
  count_if-swap_remove test (x ∷ []) (suc i) h = absurd (cc)
  count_if-swap_remove test (x ∷ (y ∷ ys)) (suc i) h =
      omega (arith, count_if-swap_remove test (y ∷ ys) i h)

module _ {ℓ κ} {A : Type ℓ} (P : A → Type κ) where
  All-last_of : (x : A) (xs : List A) → P x → All P xs → P (last_of x xs) × All P (but_last x xs)
  unfolding last_of but_last
  All-last_of x [] h k = (h, tt)
  All-last_of x (y ∷ ys) h k = let (l, b) = All-last_of y ys k.0 k.1 in (l, (h, b))

  pub All-swap_remove : (xs : List A) (i : ℕ) → All P xs → All P (swap_remove xs i)
  unfolding swap_remove
  All-swap_remove [] i h = tt
  All-swap_remove (x ∷ []) zero h = tt
  All-swap_remove (x ∷ (y ∷ ys)) zero h = All-last_of y ys h.1.0 h.1.1
  All-swap_remove (x ∷ []) (suc i) h = h
  All-swap_remove (x ∷ (y ∷ ys)) (suc i) h = (h.0, All-swap_remove (y ∷ ys) i h.1)

module _ {ℓ} {A : Type ℓ} where
  pub position-some :
      (q : ℕ) (ps : List (Pending A)) {i : ℕ}
      → position q ps ≡ some i
      → (p : Pending A) × (get_elem? ps i ≡ some p) × (p.sequence ≡ q)
  unfolding position
  position-some q [] h = absurd (cc)
  position-some q (p ∷ ps) {i = zero} h = (p, refl, ground arith)
  position-some q (p ∷ ps) {i = suc i} h =
      let later : position q ps ≡ some i = ground arith in position-some q ps later

  pub position-none :
      (q : ℕ) (ps : List (Pending A)) → position q ps ≡ none → has_sequence q ps ≡ false
  unfolding position has_sequence
  position-none q [] h = refl
  position-none q (p ∷ ps) h = ground (arith, position-none q ps)

  pub lowest-some :
      (expected : ℕ) (ps : List (Pending A)) {i d : ℕ}
      → lowest expected ps ≡ some (i, d)
      → (p : Pending A) × (get_elem? ps i ≡ some p) × (is_forward p.sequence expected ≡ true)
  unfolding lowest
  lowest-some expected [] h = absurd (cc)
  lowest-some expected (p ∷ ps) {i = zero} {d} h = (p, refl, ground arith)
  lowest-some expected (p ∷ ps) {i = suc i} {d} h =
      let later : lowest expected ps ≡ some (i, d) = ground arith in lowest-some expected ps later

  pub lowest-none :
      (expected : ℕ) (ps : List (Pending A))
      → lowest expected ps ≡ none
      → All (λ p. is_forward p.sequence expected ≡ false) ps
  unfolding lowest
  lowest-none expected [] h = tt
  lowest-none expected (p ∷ ps) h =
      let later : lowest expected ps ≡ none = ground arith in
      (ground arith, lowest-none expected ps later)
