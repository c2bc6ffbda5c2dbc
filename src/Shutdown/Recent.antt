-- ===== src/Shutdown/Recent.antt =====
-- The order in which the streams of a session are asked.
pub mod Tests
use mathlib.Core.List.{Perm}
use csqtt_antinet_module.Prelude.Sorting.{
  sort_by, sort_by-perm, sort_by-IsSorted, is_before, Before, IsSorted,
}
use csqtt_antinet_module.Shutdown.{
  ShutdownCoordinator, by_activity, loaded, writers, control_streams,
}
use csqtt_antinet_module.Prelude.{
  ℕ, ◌-◌, ◌≤◌, ◌<◌, ◌≡◌, refl, ◌⊎◌, false, List, [], ◌∷◌, arith, All, All-mono,
}

module _ (W : Type 0) where
  -- The first is more recently active, or as recently and of no lower incarnation.
  abbrev pub IsAhead : ℕ × ℕ × W → ℕ × ℕ × W → Type 0
  IsAhead x y = (y.0 < x.0) ⊎ ((x.0 ≡ y.0) × (y.1 ≤ x.1))

  abbrev pub IsRecentFirst : List (ℕ × ℕ × W) → Type 0
  IsRecentFirst [] = Unit
  IsRecentFirst (x ∷ xs) = All (IsAhead x) xs × IsRecentFirst xs

  ahead : (x y : ℕ × ℕ × W) → Before (by_activity W) x y → IsAhead x y
  unfolding by_activity
  ahead (a, i, w) (b, j, v) h = ground arith

  before : (x y : ℕ × ℕ × W) → IsAhead x y → Before (by_activity W) x y
  unfolding by_activity
  before (a, i, w) (b, j, v) h = ground arith

  total :
      (x y : ℕ × ℕ × W)
      → is_before (by_activity W) (by_activity W x y) ≡ false
      → Before (by_activity W) y x
  unfolding by_activity
  total (a, i, w) (b, j, v) h = ground arith

  trans :
      (x y z : ℕ × ℕ × W)
      → Before (by_activity W) x y
      → Before (by_activity W) y z
      → Before (by_activity W) x z
  trans x y z h k = before x z (ahead_trans (ahead x y h) (ahead y z k))
    where
      ahead_trans : IsAhead x y → IsAhead y z → IsAhead x z
      ahead_trans h k = ground arith

  IsRecentFirst-sorted : (l : List (ℕ × ℕ × W)) → IsSorted (by_activity W) l → IsRecentFirst l
  IsRecentFirst-sorted [] h = tt
  IsRecentFirst-sorted (x ∷ xs) h = (
    All-mono (Before (by_activity W) x) (IsAhead x) (ahead x) xs h.0,
    IsRecentFirst-sorted xs h.1,
  )

  -- The writers that a request tries are those of the registered streams, each as often as it is
  -- registered, with the most recently active first and, of the same activity, the highest
  -- incarnation first.
  pub control_streams_lem :
      (s : ShutdownCoordinator W)
      → (found : List (ℕ × ℕ × W)) × ((control_streams W s ≡ writers W found)
          × (Perm found (loaded W s.activities s.streams) × IsRecentFirst found))
  unfolding control_streams
  control_streams_lem s =
      let entries = loaded W s.activities s.streams in
      let found = sort_by (by_activity W) entries in
      (
        found,
        (
          refl,
          (
            sort_by-perm (by_activity W) entries,
            IsRecentFirst-sorted found (sort_by-IsSorted (by_activity W) total trans entries),
          ),
        ),
      )
