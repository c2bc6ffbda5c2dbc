-- ===== src/Fec/Budget.antt =====
-- `Budget` of shared/selective_fec.rs: a bucket of tokens refilled as time passes. Times are
-- nanoseconds of the monotonic clock; `Instant::now()` is an argument.
pub mod Rate
use csqtt_antinet_module.Prelude.{
  ℕ, ◌+◌, ◌-◌, ◌*◌, ◌/◌, ◌^◌, min, Bool, true, false, ◌==◌, if◌then◌else◌,
}

abbrev pub duplicates_per_second : ℕ
duplicates_per_second = 80

abbrev pub duplicate_burst : ℕ
duplicate_burst = 16

-- `Duration::from_millis(1_000 / DUPLICATES_PER_SECOND)` in nanoseconds: 12 ms.
abbrev pub refill_interval : ℕ
refill_interval = 1000 / duplicates_per_second * 1_000_000

abbrev pub u32_max : ℕ
u32_max = 2 ^ 32 - 1

pub record Budget : Type 0 where
  pub tokens : ℕ
  pub updated : ℕ

pub new : ℕ → Budget
new now = record { tokens = duplicate_burst; updated = now }

-- The refill that is due, with the clock of the bucket moved on by as much.
pub refilled : ℕ → Budget → Budget
refilled now b =
    let due = (now - b.updated) / refill_interval in
    if due == 0
    then b
    else let refill = min due u32_max in
      record {
        tokens = min (min (b.tokens + refill) u32_max) duplicate_burst;
        updated = b.updated + refill_interval * refill;
      }

-- `self.tokens -= 1` unless there is none.
pub take_token : Budget → Bool × Budget
take_token b = if b.tokens == 0 then (false, b) else (true, record b { tokens = b.tokens - 1 })

pub allow : ℕ → Budget → Bool × Budget
allow now b = take_token (refilled now b)
