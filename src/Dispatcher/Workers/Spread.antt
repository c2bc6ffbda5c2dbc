-- ===== src/Dispatcher/Workers/Spread.antt =====
-- The list of workers starts with one of each TURN path.
pub mod Tests
use Prim.Native.Nat.{Ordering}
use mathlib.Core.Path.{subst}
use csqtt_antinet_module.ArrayQueue.{ArrayQueue}
use csqtt_antinet_module.Dispatcher.Queue.{QueuedPacket}
use csqtt_antinet_module.Dispatcher.Select.{WorkerChannels}
use csqtt_antinet_module.Dispatcher.Workers.{
  by_path_and_id, grouped, unless_empty, round, rounds, interleave_turn_paths,
}
use csqtt_antinet_module.Dispatcher.Workers.Groups.{
  Workers, path_of, Ascending, Follows, Occurs, grouped-Ascending, total, trans,
}
use csqtt_antinet_module.Prelude.ByteOrder.{Lt, cmp_bytes, cmp_bytes_refl}
use csqtt_antinet_module.Prelude.Sorting.{sort_by, sort_by-IsSorted, sort_by-All}
use csqtt_antinet_module.Prelude.{
  All-mono, sym, ◌+◌, ◌-◌, ◌≡◌, refl, sym, ◌≢◌, ◌⊎◌, inl, inr, List, [], ◌∷◌, ◌++◌, arith, length,
  All, Bytes,
}

module _ {P : Type 0} (q : ArrayQueue (QueuedPacket P)) where
  -- No two workers have one path.
  abbrev pub HasUniquePaths : List (WorkerChannels q) → Type 0
  HasUniquePaths [] = Unit
  HasUniquePaths (v ∷ vs) = All (λ w. v.turn_path ≢ w.turn_path) vs × HasUniquePaths vs

  -- Some worker has a path.
  abbrev pub Has : Bytes → List (WorkerChannels q) → Type 0
  Has p [] = ⊥
  Has p (v ∷ vs) = (v.turn_path ≡ p) ⊎ Has p vs

  Lt→≢ : (p r : Bytes) → Lt p r → p ≢ r
  Lt→≢ p r l e = smaller (cmp_bytes p p) (subst (λ t. Lt p t) (sym e) l) (cmp_bytes_refl p)
    where
      smaller : (o : Ordering) → o ≡ Ordering.lt → o ≡ Ordering.eq → ⊥
      smaller o h k = cc

  round-All :
      (p : Bytes) (gs : List (Workers q))
      → Ascending q gs
      → All (λ h. Lt p (path_of q h)) gs
      → All (λ w. p ≢ w.turn_path) (round q gs 0)
  unfolding round
  round-All p [] a h = tt
  round-All p ([] ∷ gs) a h = absurd a.0
  round-All p ((w ∷ g) ∷ gs) a h = (Lt→≢ p w.turn_path h.0, round-All p gs a.1.1 h.1)

  round-HasUniquePaths : (gs : List (Workers q)) → Ascending q gs → HasUniquePaths (round q gs 0)
  unfolding round
  round-HasUniquePaths [] a = tt
  round-HasUniquePaths ([] ∷ gs) a = absurd a.0
  round-HasUniquePaths ((w ∷ g) ∷ gs) a =
      (round-All w.turn_path gs a.1.1 a.1.0, round-HasUniquePaths gs a.1.1)

  round-Has :
      (p : Bytes) (gs : List (Workers q)) → Ascending q gs → Occurs q p gs → Has p (round q gs 0)
  unfolding round
  round-Has p [] a h = absurd h
  round-Has p ([] ∷ gs) a h = absurd a.0
  round-Has p ((w ∷ g) ∷ gs) a (inl e) = inl e
  round-Has p ((w ∷ g) ∷ gs) a (inr k) = inr (round-Has p gs a.1.1 k)

  front :
      (added rest : Workers q)
      → (others : Workers q) × (unless_empty q added rest ≡ added ++ others)
  front [] rest = ([], refl)
  front (v ∷ vs) rest = (rest, refl)

  none_yet : (ws : Workers q) → All (Follows q []) ws
  none_yet [] = tt
  none_yet (w ∷ ws) = (tt, none_yet ws)

  -- The list starts with workers of different paths, one for every path that a worker has.
  pub interleave_turn_paths_lem :
      (workers : List (WorkerChannels q))
      → (firsts : Workers q) × ((others : Workers q) × ((interleave_turn_paths q workers
              ≡ firsts ++ others)
            × (HasUniquePaths firsts × All (λ w. Has w.turn_path firsts) workers)))
  unfolding interleave_turn_paths rounds
  interleave_turn_paths_lem [] = ([], ([], (refl, (tt, tt))))
  interleave_turn_paths_lem (w ∷ ws) =
      let sorted = sort_by (by_path_and_id q) (w ∷ ws) in
      let gs = grouped q [] sorted in
      let (others, e) = front (round q gs 0) (rounds q (length ws) gs 1) in
      let held =
        grouped-Ascending q [] sorted tt
          (sort_by-IsSorted (by_path_and_id q) (total q) (trans q) (w ∷ ws)) (none_yet sorted) in
      (
        round q gs 0,
        (
          others,
          (
            e,
            (
              round-HasUniquePaths gs held.0,
              All-mono (λ v. Occurs q v.turn_path gs) (λ v. Has v.turn_path (round q gs 0))
                  (λ v h. round-Has v.turn_path gs held.0 h) (w ∷ ws)
                  (sort_by-All (by_path_and_id q) (λ v. Occurs q v.turn_path gs) (w ∷ ws) held.1.1),
            ),
          ),
        ),
      )
