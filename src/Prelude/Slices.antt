-- ===== src/Prelude/Slices.antt =====
-- Byte slices and machine words: big-endian integers, slices and wrapping arithmetic.
use Prim.Native.Nat.{ℕ, ◌+◌, ◌-◌, ◌*◌, ◌^◌, ◌<◌, min}
use mathlib.Core.Path.{◌≡◌, refl, ap}
use native.Mathlib.Omega.{arith}
use native.Mathlib.Nat.{pow-suc}
use Prim.Native.Nat.{◌<◌}
use mathlib.Core.List.{◌++◌}
use mathlib.Core.Bool.{Bool, true, false, ◌&&◌}
use mathlib.Core.List.{List, [], ◌∷◌}
use mathlib.Core.Option.{Option, none, some}
use csqtt_antinet_module.Prelude.Tests.{◌==◌, leb, if◌then◌else◌}
use csqtt_antinet_module.Prelude.Lists.{length, get_or, take, drop, All}

abbrev pub Bytes : Type 0
Bytes = List ℕ

-- Each element is a `u8`.
abbrev pub IsBytes : Bytes → Type 0
IsBytes = All (λ b. b < 256)

abbrev pub u32_mod : ℕ
u32_mod = 2 ^ 32

abbrev pub u64_mod : ℕ
u64_mod = 2 ^ 64

abbrev pub u64_max : ℕ
u64_max = 2 ^ 64 - 1

-- `saturating_add` and `checked_add` of a 64-bit unsigned word.
abbrev pub saturating_add : ℕ → ℕ → ℕ
saturating_add a b = min (a + b) u64_max

-- `&packet[from..to]`, for a range that lies inside the slice.
abbrev pub slice : Bytes → ℕ → ℕ → Bytes
slice p from to = take (to - from) (drop from p)

-- `packet.get(from..to)`
abbrev pub get_range : Bytes → ℕ → ℕ → Option Bytes
get_range p from to = if leb from to && leb to (length p) then some (slice p from to) else none

-- `packet[i]`, for an index inside the slice.
abbrev pub byte : Bytes → ℕ → ℕ
byte p i = get_or p i 0

-- `from_be_bytes` of two bytes.
abbrev pub be16 : ℕ → ℕ → ℕ
be16 hi lo = hi * 256 + lo

-- `u16::from_be_bytes([p[i], p[i + 1]])`
abbrev pub be16_at : Bytes → ℕ → ℕ
be16_at p i = be16 (byte p i) (byte p (i + 1))

-- `from_be_bytes` of a whole slice, on top of the bytes read so far.
unfoldable pub from_be_acc : ℕ → Bytes → ℕ
from_be_acc acc [] = acc
from_be_acc acc (b ∷ bs) = from_be_acc (acc * 256 + b) bs

unfoldable pub from_be : Bytes → ℕ
unfolding from_be_acc
from_be bs = from_be_acc 0 bs

from_be_acc-snoc :
    (acc : ℕ) (bs : Bytes) (b : ℕ) → from_be_acc acc (bs ++ b ∷ []) ≡ from_be_acc acc bs * 256 + b
unfolding from_be_acc
from_be_acc-snoc acc [] b = refl
from_be_acc-snoc acc (c ∷ bs) b = from_be_acc-snoc (acc * 256 + c) bs b

pub from_be-snoc : (bs : Bytes) (b : ℕ) → from_be (bs ++ b ∷ []) ≡ from_be bs * 256 + b
unfolding from_be
from_be-snoc bs b = from_be_acc-snoc 0 bs b

from_be_acc-lt :
    (acc k : ℕ) (bs : Bytes) → IsBytes bs → acc < k → from_be_acc acc bs < k * 256 ^ length bs
unfolding from_be_acc
from_be_acc-lt acc k [] h lt = omega arith
from_be_acc-lt acc k (b ∷ bs) h lt = omega (
  arith,
  from_be_acc-lt (acc * 256 + b) (k * 256) bs h.1 (omega arith),
  ap (λ (t : ℕ). k * t) (pow-suc 256 (length bs)),
)

-- A slice of bytes reads as a word of its width.
pub from_be-lt : (bs : Bytes) → IsBytes bs → from_be bs < 256 ^ length bs
unfolding from_be
from_be-lt bs h = omega (arith, from_be_acc-lt 0 1 bs h (omega arith))

unfoldable pub starts_with : Bytes → Bytes → Bool
starts_with p [] = true
starts_with [] (c ∷ cs) = false
starts_with (b ∷ bs) (c ∷ cs) = (b == c) && starts_with bs cs

-- Slice equality.
unfoldable pub bytes_eq : Bytes → Bytes → Bool
bytes_eq [] [] = true
bytes_eq [] (c ∷ cs) = false
bytes_eq (b ∷ bs) [] = false
bytes_eq (b ∷ bs) (c ∷ cs) = (b == c) && bytes_eq bs cs
