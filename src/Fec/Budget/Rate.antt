-- ===== src/Fec/Budget/Rate.antt =====
-- How many duplicates a bucket allows over time.
mod Tests
use csqtt_antinet_module.Fec.Budget.{
  duplicate_burst, refill_interval, Budget, new, refilled, take_token, allow,
}
use csqtt_antinet_module.Prelude.{
  ℕ, suc, ◌+◌, ◌-◌, ◌*◌, ◌/◌, ◌≤◌, ◌≡◌, List, [], ◌∷◌, arith, if◌then◌else◌,
}

-- How many of the calls at these times are allowed, and the bucket afterwards.
abbrev pub spend : List ℕ → Budget → ℕ × Budget
spend [] b = (0, b)
spend (now ∷ times) b =
    let (allowed, b') = allow now b in
    let (n, b'') = spend times b' in ((if allowed then suc n else n), b'')

-- The times do not run back, and none is after the last.
abbrev pub Within : List ℕ → ℕ → Type 0
Within [] last = Unit
Within (now ∷ times) last = (now ≤ last) × Within times last

-- The credit that a bucket has had since `start`: tokens, in terms of its clock.
abbrev Funded : ℕ → ℕ → Budget → Type 0
Funded start spent b =
    (spent + b.tokens) * refill_interval ≤ duplicate_burst * refill_interval + (b.updated - start)

refilled_lem :
    (start spent last now : ℕ) (b : Budget)
    → now ≤ last
    → start ≤ b.updated
    → b.updated ≤ last
    → b.tokens ≤ duplicate_burst
    → Funded start spent b
    → let b' = refilled now b in
      (start ≤ b'.updated)
      × (b'.updated ≤ last)
      × (b'.tokens ≤ duplicate_burst)
      × Funded start spent b'
unfolding refilled
refilled_lem start spent last now b nl sb bl cap fund = ground arith

allow_lem :
    (start spent last now : ℕ) (b : Budget)
    → now ≤ last
    → start ≤ b.updated
    → b.updated ≤ last
    → b.tokens ≤ duplicate_burst
    → Funded start spent b
    → let (allowed, b') = allow now b in
      (start ≤ b'.updated)
      × (b'.updated ≤ last)
      × (b'.tokens ≤ duplicate_burst)
      × Funded start (if allowed then suc spent else spent) b'
unfolding allow take_token
allow_lem start spent last now b nl sb bl cap fund =
    ground (arith, refilled_lem start spent last now b nl sb bl cap fund)

spend_lem :
    (times : List ℕ) (start spent last : ℕ) (b : Budget)
    → Within times last
    → start ≤ b.updated
    → b.updated ≤ last
    → b.tokens ≤ duplicate_burst
    → Funded start spent b
    → (spent + (spend times b).0) * refill_interval
      ≤ duplicate_burst * refill_interval + (last - start)
spend_lem [] start spent last b w sb bl cap fund = omega arith
spend_lem (now ∷ times) start spent last b w sb bl cap fund =
    let b' = (allow now b).1 in
    let spent' : ℕ = if (allow now b).0 then suc spent else spent in
    let (sb', bl', cap', fund') = allow_lem start spent last now b w.0 sb bl cap fund in
    ground (arith, spend_lem times start spent' last b' w.1 sb' bl' cap' fund')

-- A new bucket allows, over any calls up to a time, at most its burst of 16 and one more for each
-- full 12 ms that passed.
pub spend-le :
    (times : List ℕ) (start last : ℕ)
    → Within times last
    → start ≤ last
    → (spend times (new start)).0 ≤ duplicate_burst + (last - start) / refill_interval
unfolding new
spend-le times start last w le =
    omega (
      arith,
      spend_lem times start 0 last (new start) w (omega arith) le (omega arith) (omega arith),
    )

-- After a pause of 192 ms and more the bucket is full again: the next 16 calls are allowed.
pub refilled-full :
    (now : ℕ) (b : Budget)
    → b.updated + duplicate_burst * refill_interval ≤ now
    → (refilled now b).tokens ≡ duplicate_burst
unfolding refilled
refilled-full now b h = ground arith
