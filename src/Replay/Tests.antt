-- ===== src/Replay/Tests.antt =====
-- The theorems on replay protection, applied.
use csqtt_antinet_module.Replay.{accept_older}
use csqtt_antinet_module.Replay.{window_bits, new, set_bit, test_bit, accept}
use csqtt_antinet_module.Replay.Window.{run, accept-once, accept-new}
use csqtt_antinet_module.Prelude.{
  ℕ, ◌-◌, ◌<◌, ◌≡◌, refl, sym, ◌∙◌, true, false, some, [], ◌∷◌, arith,
}

accept-once_example :
    accept (run (9 ∷ 4 ∷ []) (accept new 7).1) 7 ≡ (false, run (9 ∷ 4 ∷ []) (accept new 7).1)
accept-once_example = accept-once new 7 (9 ∷ 4 ∷ [])

top : (run (9 ∷ 4 ∷ []) new).highest ≡ some 9
unfolding accept new accept_older test_bit set_bit
top = refl

some_inj : {a b : ℕ} → some a ≡ some b → a ≡ b
some_inj e = cc

near : (h : ℕ) → (run (9 ∷ 4 ∷ []) new).highest ≡ some h → h - 7 < window_bits
near h e = let same : 9 ≡ h = some_inj (sym top ∙ e) in omega (arith, same)

accept-new_example : (accept (run (9 ∷ 4 ∷ []) new) 7).0 ≡ true
accept-new_example = accept-new 7 (9 ∷ 4 ∷ []) (omega arith, (omega arith, tt)) near
