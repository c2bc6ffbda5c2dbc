-- ===== src/Recovery/Reports/Tests.antt =====
-- `run_lem`, applied to four messages of which two are reported at once.
use csqtt_antinet_module.Recovery.{new, observe}
use csqtt_antinet_module.Recovery.Reports.{run, noted, total, Spaced, run_lem}
use csqtt_antinet_module.Prelude.{ℕ, ◌+◌, ◌≡◌, refl, List, [], ◌∷◌, arith}

abbrev times : List ℕ
times = 5 ∷ 6 ∷ 9000 ∷ 10005 ∷ []

two_reports : (run times new).0 ≡ ((5, 1) ∷ (10005, 3) ∷ [])
unfolding run observe noted
two_reports = refl

run_lem_example :
    Spaced 0 (run times new).0 × (total (run times new).0 + (run times new).1.pending ≡ 4)
run_lem_example = run_lem times new (omega arith)
