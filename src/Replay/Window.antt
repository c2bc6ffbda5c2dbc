-- ===== src/Replay/Window.antt =====
-- No counter is accepted twice, and none is refused that is new and near the highest one.
use native.Mathlib.Decide.{dec_lt}
use mathlib.Core.Path.{subst}
use csqtt_antinet_module.Replay.{
  window_bits, ReplayWindow, new, set_bit, clear_bit, test_bit, clear_up_to, clear_range,
  accept_newer, accept_older, accept,
}
use csqtt_antinet_module.Prelude.{
  ℕ, zero, suc, ◌+◌, ◌-◌, ◌%◌, ◌≤◌, ◌<◌, ◌≡◌, refl, ◌≢◌, ◌⊎◌, inl, inr, Bool, true, false, none,
  some, List, [], ◌∷◌, arith, ltb, leb, ◌==◌, if◌then◌else◌, ltb→lt, ltb→le, Bool-cases,
  Option-cases, All,
}

-- The state after some calls of `accept`.
abbrev pub run : List ℕ → ReplayWindow → ReplayWindow
run [] w = w
run (c ∷ counters) w = run counters (accept w c).1

-- The window refuses the counter: it lies at least 16384 behind the highest one, or its bit is set.
abbrev IsBlocked : ℕ → ReplayWindow → Type 0
IsBlocked c w =
    (h : ℕ) × (w.highest ≡ some h) × (c ≤ h) × ((window_bits ≤ h - c) ⊎ (test_bit w.seen c ≡ true))

-- Clearing leaves the bits of the counters alone that stay inside the window.
clear_up_to-kept :
    (h shift c : ℕ) (seen : ℕ → Bool)
    → c ≤ h
    → h + shift - c < window_bits
    → test_bit (clear_up_to h shift seen) c ≡ test_bit seen c
unfolding clear_up_to test_bit clear_bit
clear_up_to-kept h zero c seen le near = refl
clear_up_to-kept h (suc shift) c seen le near =
    ground (arith, clear_up_to-kept h shift c seen le (omega arith))

clear_up_to-cleared :
    (h shift c : ℕ) (seen : ℕ → Bool)
    → h < c
    → c ≤ h + shift
    → test_bit (clear_up_to h shift seen) c ≡ false
unfolding clear_up_to test_bit clear_bit
clear_up_to-cleared h zero c seen lt le = absurd (omega arith)
clear_up_to-cleared h (suc shift) c seen lt le =
    ground (arith, clear_up_to-cleared h shift c seen lt)

clear_range-kept :
    (h shift c : ℕ) (seen : ℕ → Bool)
    → c ≤ h
    → h + shift - c < window_bits
    → test_bit (clear_range h shift seen) c ≡ test_bit seen c
unfolding clear_range
clear_range-kept h shift c seen le near =
    let b : leb window_bits shift ≡ false = ground arith in
    rw b (clear_up_to-kept h shift c seen le near)

clear_range-cleared :
    (h shift c : ℕ) (seen : ℕ → Bool)
    → h < c
    → c ≤ h + shift
    → test_bit (clear_range h shift seen) c ≡ false
unfolding clear_range test_bit
clear_range-cleared h shift c seen lt le = elim (Bool-cases (leb window_bits shift)) [
  | inl all ↦ rw all refl
  | inr few ↦ rw few (unfold test_bit in clear_up_to-cleared h shift c seen lt le)
]

test-set_bit :
    (seen : ℕ → Bool) (c d : ℕ)
    → test_bit (set_bit seen d) c
      ≡ (if c % window_bits == d % window_bits then true else test_bit seen c)
unfolding set_bit test_bit
test-set_bit seen c d = refl

accept_newer-IsBlocked :
    (w : ReplayWindow) (h c d : ℕ)
    → h < d
    → c ≤ h
    → (window_bits ≤ h - c) ⊎ (test_bit w.seen c ≡ true)
    → IsBlocked c (accept_newer h d w).1
unfolding accept_newer
accept_newer-IsBlocked w h c d lt le b = elim (dec_lt (d - c) window_bits) [
  | no far ↦ (d, refl, omega arith, inl (omega arith))
  | yes near ↦ (
    d,
    refl,
    omega arith,
    inr (
        ground (
          arith,
          test-set_bit (clear_range h (d - h) w.seen) c d,
          clear_range-kept h (d - h) c w.seen le (omega arith),
        )),
  )
]

accept_older-IsBlocked :
    (w : ReplayWindow) (h c d : ℕ)
    → w.highest ≡ some h
    → c ≤ h
    → (window_bits ≤ h - c) ⊎ (test_bit w.seen c ≡ true)
    → IsBlocked c (accept_older h d w).1
unfolding accept_older
accept_older-IsBlocked w h c d e le b =
    (h, ground arith, le, ground (arith, test-set_bit w.seen c d))

accept-IsBlocked : (w : ReplayWindow) (c d : ℕ) → IsBlocked c w → IsBlocked c (accept w d).1
unfolding accept
accept-IsBlocked w c d (h, e, le, b) = elim (Bool-cases (ltb h d)) [
  | inl newer ↦ rw (e, accept, newer) (accept_newer-IsBlocked w h c d (ltb→lt h d newer) le b)
  | inr older ↦ rw (e, accept, older) (accept_older-IsBlocked w h c d e le b)
]

run-IsBlocked :
    (counters : List ℕ) (w : ReplayWindow) (c : ℕ) → IsBlocked c w → IsBlocked c (run counters w)
run-IsBlocked [] w c b = b
run-IsBlocked (d ∷ counters) w c b =
    run-IsBlocked counters (accept w d).1 c (accept-IsBlocked w c d b)

IsBlocked-accepted : (w : ReplayWindow) (c : ℕ) → IsBlocked c (accept w c).1
unfolding accept accept_newer accept_older
IsBlocked-accepted w c = elim (Option-cases w.highest) [
  | inl first ↦
      rw (first, accept) (c, refl, omega arith, inr (ground (arith, test-set_bit w.seen c c)))
  | inr (h, e) ↦ elim (Bool-cases (ltb h c)) [
    | inl newer ↦
        rw (e, accept, newer)
          (
            c,
            refl,
            omega arith,
            inr (ground (arith, test-set_bit (clear_range h (c - h) w.seen) c c)),
          )
    | inr older ↦
        rw (e, accept, older)
          (h, ground arith, ltb→le h c older, ground (arith, test-set_bit w.seen c c))
  ]
]

refused : (w : ReplayWindow) (c : ℕ) → IsBlocked c w → accept w c ≡ (false, w)
unfolding accept accept_older
refused w c (h, e, le, b) = ground arith

-- Replay protection: a counter that was offered once, accepted or not, is refused at any time later,
-- whatever counters come in between, and a refusal leaves the window as it is.
pub accept-once :
    (w : ReplayWindow) (c : ℕ) (counters : List ℕ)
    → accept (run counters (accept w c).1) c ≡ (false, run counters (accept w c).1)
accept-once w c counters =
    refused (run counters (accept w c).1) c
      (run-IsBlocked counters (accept w c).1 c (IsBlocked-accepted w c))

-- The window does not hold the counter against a later offer.
abbrev pub IsFresh : ℕ → ReplayWindow → Type 0
IsFresh c w =
    (w.highest ≡ none → test_bit w.seen c ≡ false)
    × ((h : ℕ) → w.highest ≡ some h → (h < c) ⊎ (window_bits ≤ h - c) ⊎ (test_bit w.seen c ≡ false))

newer-near :
    (w : ReplayWindow) (h c d : ℕ)
    → h < d
    → c ≢ d
    → (h < c) ⊎ (window_bits ≤ h - c) ⊎ (test_bit w.seen c ≡ false)
    → c ≤ d
    → d - c < window_bits
    → test_bit (accept_newer h d w).1.seen c ≡ false
unfolding accept_newer
newer-near w h c d lt ne f le near = elim (dec_lt h c) [
  | yes over ↦ ground (
    arith,
    test-set_bit (clear_range h (d - h) w.seen) c d,
    clear_range-cleared h (d - h) c w.seen over (omega arith),
  )
  | no under ↦ ground (
    arith,
    test-set_bit (clear_range h (d - h) w.seen) c d,
    clear_range-kept h (d - h) c w.seen (omega arith) (omega arith),
  )
]

-- The bits behind a new highest counter: those of the counters passed over are clear.
newer-bit :
    (w : ReplayWindow) (h c d : ℕ)
    → h < d
    → c ≢ d
    → (h < c) ⊎ (window_bits ≤ h - c) ⊎ (test_bit w.seen c ≡ false)
    → (d < c) ⊎ (window_bits ≤ d - c) ⊎ (test_bit (accept_newer h d w).1.seen c ≡ false)
unfolding accept_newer
newer-bit w h c d lt ne f = elim (dec_lt d c) [
  | yes ahead ↦ inl ahead
  | no behind ↦ elim (dec_lt (d - c) window_bits) [
    | no far ↦ inr (inl (omega arith))
    | yes near ↦ inr (inr (newer-near w h c d lt ne f (omega arith) near))
  ]
]

same_number : (d k : ℕ) → some d ≡ some k → d ≡ k
same_number d k e = cc

accept_newer-IsFresh :
    (w : ReplayWindow) (h c d : ℕ)
    → h < d
    → c ≢ d
    → (h < c) ⊎ (window_bits ≤ h - c) ⊎ (test_bit w.seen c ≡ false)
    → IsFresh c (accept_newer h d w).1
unfolding accept_newer
accept_newer-IsFresh w h c d lt ne f = (
  λ e. absurd (cc),
  λ k e. subst (λ (m : ℕ). Ahead m) (same_number d k e) (newer-bit w h c d lt ne f),
)
  where
    Ahead : ℕ → Type 0
    Ahead m = (m < c) ⊎ (window_bits ≤ m - c) ⊎ (test_bit (accept_newer h d w).1.seen c ≡ false)

accept_older-IsFresh :
    (w : ReplayWindow) (h c d : ℕ)
    → w.highest ≡ some h
    → d ≤ h
    → c ≢ d
    → (h < c) ⊎ (window_bits ≤ h - c) ⊎ (test_bit w.seen c ≡ false)
    → IsFresh c (accept_older h d w).1
unfolding accept_older
accept_older-IsFresh w h c d e le ne f =
    (λ n. absurd (ground arith), λ k q. ground (arith, test-set_bit w.seen c d, q))

first-IsFresh :
    (w : ReplayWindow) (c d : ℕ)
    → c ≢ d
    → test_bit w.seen c ≡ false
    → IsFresh c (record { highest = some d; seen = set_bit w.seen d })
first-IsFresh w c d ne f = (λ e. absurd (cc), λ k e. ground (arith, test-set_bit w.seen c d, e))

accept-IsFresh : (w : ReplayWindow) (c d : ℕ) → c ≢ d → IsFresh c w → IsFresh c (accept w d).1
unfolding accept
accept-IsFresh w c d ne f = elim (Option-cases w.highest) [
  | inl first ↦ rw (first, accept) (first-IsFresh w c d ne (f.0 first))
  | inr (h, e) ↦ elim (Bool-cases (ltb h d)) [
    | inl newer ↦
        rw (e, accept, newer) (accept_newer-IsFresh w h c d (ltb→lt h d newer) ne (f.1 h e))
    | inr older ↦
        rw (e, accept, older) (accept_older-IsFresh w h c d e (ltb→le h d older) ne (f.1 h e))
  ]
]

run-IsFresh :
    (counters : List ℕ) (w : ReplayWindow) (c : ℕ)
    → All (λ d. c ≢ d) counters
    → IsFresh c w
    → IsFresh c (run counters w)
run-IsFresh [] w c ne f = f
run-IsFresh (d ∷ counters) w c ne f =
    run-IsFresh counters (accept w d).1 c ne.1 (accept-IsFresh w c d ne.0 f)

fresh-accept :
    (w : ReplayWindow) (c : ℕ)
    → IsFresh c w
    → ((h : ℕ) → w.highest ≡ some h → h - c < window_bits)
    → (accept w c).0 ≡ true
unfolding accept accept_newer accept_older
fresh-accept w c f near = elim (Option-cases w.highest) [
  | inl first ↦ rw (first, accept) refl
  | inr (h, e) ↦ ground (arith, f.1 h e, near h e, e)
]

-- No false refusal: after any counters that do not hold it, a counter less than 16384 behind the
-- highest one is accepted.
pub accept-new :
    (c : ℕ) (counters : List ℕ)
    → All (λ d. c ≢ d) counters
    → ((h : ℕ) → (run counters new).highest ≡ some h → h - c < window_bits)
    → (accept (run counters new) c).0 ≡ true
accept-new c counters ne near =
    fresh-accept (run counters new) c
      (run-IsFresh counters new c ne (unfold new test_bit in (λ e. refl, λ h e. absurd (cc)))) near
