-- ===== src/Recovery/Reports.antt =====
-- When the gate reports, and that it loses nothing.
pub mod Tests
use mathlib.Core.Path.{subst}
use csqtt_antinet_module.Recovery.{recovery_log_interval_ms, RecoveryLogGate, observe}
use csqtt_antinet_module.Prelude.{
  ℕ, suc, ◌+◌, ◌-◌, ◌%◌, ◌≤◌, ◌<◌, max, ◌≡◌, refl, sym, false, not, ◌&&◌, Option, none, some, List,
  [], ◌∷◌, arith, ltb, ◌==◌, if-elim, length, u64_mod, saturating_add,
}

-- The reports of a run, as times and counts, and the gate after it.
pub noted : ℕ → Option ℕ → List (ℕ × ℕ) → List (ℕ × ℕ)
noted now none reports = reports
noted now (some count) reports = (now, count) ∷ reports

pub run : List ℕ → RecoveryLogGate → List (ℕ × ℕ) × RecoveryLogGate
run [] g = ([], g)
run (now ∷ times) g =
    let (report, after) = observe now g in
    let (reports, end) = run times after in (noted now report reports, end)

abbrev pub total : List (ℕ × ℕ) → ℕ
total [] = 0
total (r ∷ rs) = r.1 + total rs

-- The first report is at `from` at the earliest, each other one an interval after the one before,
-- or at the end of the clock.
abbrev pub Spaced : ℕ → List (ℕ × ℕ) → Type 0
Spaced from [] = Unit
Spaced from (r ∷ rs) = (from ≤ r.0) × Spaced (saturating_add r.0 recovery_log_interval_ms) rs

Spaced-le : (m n : ℕ) (rs : List (ℕ × ℕ)) → m ≤ n → Spaced n rs → Spaced m rs
Spaced-le m n [] h s = tt
Spaced-le m n (r ∷ rs) h s = (omega (arith, s.0), s.1)

counted_up : (p n : ℕ) → p + suc n < u64_mod → (p + 1) % u64_mod ≡ p + 1
counted_up p n h = omega arith

-- What a run keeps to, from a gate, over so many observations.
abbrev Kept : ℕ → RecoveryLogGate → List (ℕ × ℕ) × RecoveryLogGate → Type 0
Kept count g r = Spaced g.next_report_ms r.0 × (total r.0 + r.1.pending ≡ g.pending + count)

-- The rest of a run after its first observation.
continued : ℕ → List ℕ → Option ℕ × RecoveryLogGate → List (ℕ × ℕ) × RecoveryLogGate
continued now times r = (noted now r.0 (run times r.1).0, (run times r.1).1)

waiting-Kept :
    (now : ℕ) (times : List ℕ) (g counted : RecoveryLogGate)
    → counted.next_report_ms ≡ g.next_report_ms
    → counted.pending ≡ g.pending + 1
    → Kept (length times) counted (run times counted)
    → Kept (suc (length times)) g (continued now times (none, counted))
unfolding continued noted
waiting-Kept now times g counted d p k =
    (subst (λ m. Spaced m (run times counted).0) d k.0, omega (arith, k.1, p))

reporting-Kept :
    (now : ℕ) (times : List ℕ) (g fresh : RecoveryLogGate)
    → g.next_report_ms ≤ now
    → fresh.pending ≡ 0
    → saturating_add now recovery_log_interval_ms ≤ fresh.next_report_ms
    → Kept (length times) fresh (run times fresh)
    → Kept (suc (length times)) g (continued now times (some (g.pending + 1), fresh))
unfolding continued noted
reporting-Kept now times g fresh due p d k = (
  (
    due,
    Spaced-le (saturating_add now recovery_log_interval_ms) fresh.next_report_ms (run times fresh).0
        d k.0,
  ),
  omega (arith, k.1, p),
)

-- While fewer than 2 ^ 64 observations are unreported, a run of observations at any times reports
-- each of them once or keeps it waiting, and its reports come at or after the gate's deadline and
-- each at least an interval after the one before it, or at the last time of the clock.
pub run_lem :
    (times : List ℕ) (g : RecoveryLogGate)
    → g.pending + length times < u64_mod
    → Spaced g.next_report_ms (run times g).0
      × (total (run times g).0 + (run times g).1.pending ≡ g.pending + length times)
unfolding run observe continued
run_lem [] g h = (tt, omega arith)
run_lem (now ∷ times) g h =
    let counted = (g.pending + 1) % u64_mod in
    let up = counted_up g.pending (length times) h in
    let deadline = max (saturating_add now recovery_log_interval_ms) 1 in
    let wait : RecoveryLogGate = record g { pending = counted } in
    let fresh : RecoveryLogGate = record { pending = 0; next_report_ms = deadline } in
    if-elim (λ r. Kept (suc (length times)) g (continued now times r))
      (not (g.next_report_ms == 0) && ltb now g.next_report_ms) (none, wait) (some counted, fresh)
      (λ e. waiting-Kept now times g wait refl up (run_lem times wait (omega (arith, up))))
      (λ e.
        subst (λ c. Kept (suc (length times)) g (continued now times (some c, fresh))) (sym up)
          (reporting-Kept now times g fresh (due g.next_report_ms now e) refl (omega arith)
            (run_lem times fresh (omega arith))))
  where
    due : (d n : ℕ) → not (d == 0) && ltb n d ≡ false → d ≤ n
    due d n e = ground arith
