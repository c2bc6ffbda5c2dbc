-- ===== src/Fec/Budget/Rate/Tests.antt =====
-- The theorems on the bucket of duplicates, applied.
use csqtt_antinet_module.Fec.Budget.{duplicate_burst, refill_interval, new}
use csqtt_antinet_module.Fec.Budget.Rate.{spend, spend-le}
use csqtt_antinet_module.Prelude.{◌+◌, ◌-◌, ◌/◌, ◌≤◌, [], ◌∷◌, arith}

spend-le_example :
    (spend (5 ∷ 6 ∷ 30 ∷ []) (new 5)).0 ≤ duplicate_burst + (40 - 5) / refill_interval
spend-le_example =
    spend-le (5 ∷ 6 ∷ 30 ∷ []) 5 40 (omega arith, (omega arith, (omega arith, tt))) (omega arith)
