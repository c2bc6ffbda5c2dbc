-- ===== src/Stall/Probes.antt =====
-- When the detector asks for a probe.
use csqtt_antinet_module.Stall.{StallDetector, stall_polls, up_moved, is_recent, observe}
use csqtt_antinet_module.Prelude.{
  ℕ, ◌+◌, ◌*◌, ◌≤◌, ◌≡◌, refl, ◌⊎◌, inl, inr, true, false, not, ◌||◌, Option, none, some, List, [],
  ◌∷◌, arith, ltb, ◌==◌, if◌then◌else◌, Bool-cases, length,
}

-- One poll: the counters up and down, and the time.
abbrev pub Poll : Type 0
Poll = ℕ × ℕ × ℕ

-- The times of the probes that a run of polls asks for.
unfoldable pub probes : List Poll → StallDetector → List ℕ
probes [] d = []
probes ((up, down, now) ∷ polls) d =
    let (hit, next) = observe up down now d in
    let rest = probes polls next in if hit then now ∷ rest else rest

abbrev pub After : Option ℕ → ℕ → Type 0
After none now = Unit
After (some previous) now = previous + 20000 ≤ now

-- Each probe is 20 seconds or more after the one before.
abbrev pub Spaced : Option ℕ → List ℕ → Type 0
Spaced last [] = Unit
Spaced last (now ∷ times) = After last now × Spaced (some now) times

After-gap : (now : ℕ) (last : Option ℕ) → is_recent now last ≡ false → After last now
After-gap now none e = tt
After-gap now (some previous) e = ground arith

-- What a poll comes to.
observe_cases :
    (up down now : ℕ) (d : StallDetector)
    → (((observe up down now d).0 ≡ false)
        × ((observe up down now d).1.last_probe ≡ d.last_probe)
        × ((observe up down now d).1.stalled_polls ≤ d.stalled_polls + 1))
      ⊎ (((observe up down now d).0 ≡ true)
          × ((observe up down now d).1.last_probe ≡ some now)
          × ((observe up down now d).1.stalled_polls ≡ 0)
          × (2 ≤ d.stalled_polls)
          × After d.last_probe now)
unfolding observe
observe_cases up down now d = elim (Bool-cases (not (down == d.last_down) || not (up_moved up d))) [
  | inl quiet ↦ inl (rw quiet (refl, refl, omega arith))
  | inr stalled ↦ elim (Bool-cases (ltb (d.stalled_polls + 1) stall_polls)) [
    | inl few ↦ inl (rw (stalled, few) (refl, refl, omega arith))
    | inr enough ↦ elim (Bool-cases (is_recent now d.last_probe)) [
      | inl recent ↦ inl (rw (stalled, enough, recent) (refl, refl, omega arith))
      | inr late ↦ inr (
          rw (stalled, enough, late)
            (refl, refl, refl, ground (arith, enough), After-gap now d.last_probe late))
    ]
  ]
]

-- Probes are at least 20 seconds apart, and there are at least three polls for each.
pub probes-Spaced :
    (polls : List Poll) (d : StallDetector)
    → Spaced d.last_probe (probes polls d)
      × (length (probes polls d) * 3 ≤ length polls + d.stalled_polls)
unfolding probes
probes-Spaced [] d = (tt, omega arith)
probes-Spaced ((up, down, now) ∷ polls) d =
    let next = (observe up down now d).1 in
    let (spaced, few) = probes-Spaced polls next in
    elim (observe_cases up down now d) [
      | inl (miss, same, count) ↦ rw miss (rw same at spaced, omega arith)
      | inr (hit, last, zero_polls, enough, gap) ↦ rw hit ((gap, rw last at spaced), omega arith)
    ]
