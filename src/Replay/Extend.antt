-- ===== src/Replay/Extend.antt =====
-- `accept_rtp`: the counter that a 16-bit sequence number is taken for.
use csqtt_antinet_module.Replay.{u16_mod, extend}
use csqtt_antinet_module.Prelude.{ℕ, ◌+◌, ◌%◌, ◌^◌, ◌≤◌, ◌<◌, ◌≡◌, ◌⊎◌, arith, u64_mod}

-- The counter has the sequence number for its low 16 bits. It is the one nearest to the highest
-- counter, within 2 ^ 15 of it on either side; only in the first 2 ^ 16 counters, where there is no
-- lower one, it may be further above.
extend_nearest :
    (highest sequence : ℕ)
    → sequence < u16_mod
    → highest + 2 ^ 17 < u64_mod
    → (extend highest sequence % u16_mod ≡ sequence)
      × (highest ≤ extend highest sequence + 2 ^ 15)
      × ((extend highest sequence ≤ highest + 2 ^ 15) ⊎ (extend highest sequence < u16_mod))
unfolding extend
extend_nearest highest sequence h room = (ground arith, ground arith, ground arith)
