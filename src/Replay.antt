-- ===== src/Replay.antt =====
-- `ReplayWindow` of session.rs: which packet counters were seen lately. The 256 words of 64 bits
-- are one array of 16384 bits, a function of the bit's index.
pub mod Window
pub mod Extend
mod Tests
use csqtt_antinet_module.Prelude.{
  ℕ, zero, suc, ◌+◌, ◌-◌, ◌*◌, ◌/◌, ◌%◌, ◌^◌, Bool, true, false, ◌&&◌, Option, none, some, ltb, leb,
  ◌==◌, if◌then◌else◌, saturating_add,
}

abbrev pub window_bits : ℕ
window_bits = 16384

pub record ReplayWindow : Type 0 where
  pub highest : Option ℕ
  pub seen : ℕ → Bool

pub new : ReplayWindow
new = record { highest = none; seen = λ _. false }

abbrev pub write : (ℕ → Bool) → ℕ → Bool → ℕ → Bool
write seen index bit i = if i == index then bit else seen i

pub set_bit : (ℕ → Bool) → ℕ → ℕ → Bool
set_bit seen counter = write seen (counter % window_bits) true

pub clear_bit : (ℕ → Bool) → ℕ → ℕ → Bool
clear_bit seen counter = write seen (counter % window_bits) false

pub test_bit : (ℕ → Bool) → ℕ → Bool
test_bit seen counter = seen (counter % window_bits)

-- `for i in 1..=shift { self.clear_bit(highest + i) }`
pub clear_up_to : ℕ → ℕ → (ℕ → Bool) → ℕ → Bool
clear_up_to highest zero seen = seen
clear_up_to highest (suc shift) seen =
    clear_bit (clear_up_to highest shift seen) (highest + suc shift)

-- The bits of the counters that are passed over, all of them where there are 16384 and more.
pub clear_range : ℕ → ℕ → (ℕ → Bool) → ℕ → Bool
clear_range highest shift seen =
    if leb window_bits shift then (λ _. false) else clear_up_to highest shift seen

pub accept_newer : ℕ → ℕ → ReplayWindow → Bool × ReplayWindow
accept_newer highest counter w =
    let cleared = clear_range highest (counter - highest) w.seen in
    (true, record { highest = some counter; seen = set_bit cleared counter })

pub accept_older : ℕ → ℕ → ReplayWindow → Bool × ReplayWindow
accept_older highest counter w =
    if leb window_bits (highest - counter)
    then (false, w)
    else if test_bit w.seen counter
    then (false, w)
    else (true, record w { seen = set_bit w.seen counter })

pub accept : ReplayWindow → ℕ → Bool × ReplayWindow
accept w counter = elim w.highest [
  | none ↦ (true, record { highest = some counter; seen = set_bit w.seen counter })
  | some highest ↦
      if ltb highest counter then accept_newer highest counter w else accept_older highest counter w
]

abbrev pub u16_mod : ℕ
u16_mod = 2 ^ 16

-- The counter that a 16-bit sequence number stands for, next to the highest one. `base | sequence`
-- is a sum, since the low 16 bits of the base are 0.
pub extend : ℕ → ℕ → ℕ
extend highest sequence =
    let extended = highest / u16_mod * u16_mod + sequence in
    if ltb (saturating_add extended (2 ^ 15)) highest
    then saturating_add extended (2 ^ 16)
    else if ltb (saturating_add highest (2 ^ 15)) extended && leb (2 ^ 16) extended
    then extended - 2 ^ 16
    else extended

pub accept_rtp : ReplayWindow → ℕ → Bool × ReplayWindow
accept_rtp w sequence = elim w.highest [
  | none ↦ accept w sequence
  | some highest ↦ accept w (extend highest sequence)
]
