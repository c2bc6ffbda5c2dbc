-- ===== src/Dispatcher/Workers.antt =====
-- The dispatcher's list of workers: `interleave_turn_paths`, `Dispatcher::register` and
-- `Dispatcher::unregister`. A list that `rcu` publishes is the value of the step.
pub mod Interleave
pub mod Registered
pub mod Groups
pub mod Spread
use Prim.Native.Nat.{compare, Ordering}
use csqtt_antinet_module.ArrayQueue.{ArrayQueue}
use csqtt_antinet_module.Dispatcher.Queue.{QueuedPacket}
use csqtt_antinet_module.Dispatcher.Select.{WorkerChannels}
use csqtt_antinet_module.Prelude.ByteOrder.{cmp_bytes}
use csqtt_antinet_module.Prelude.Sorting.{then_with, sort_by, retain}
use csqtt_antinet_module.Prelude.{
  Option, none, some, ℕ, zero, suc, Bool, false, not, ◌||◌, none, some, List, [], ◌∷◌, ◌++◌, ◌==◌,
  if◌then◌else◌, length, get_elem?, bytes_eq,
}

module _ {P : Type 0} (q : ArrayQueue (QueuedPacket P)) where
  pub by_path_and_id : WorkerChannels q → WorkerChannels q → Ordering
  by_path_and_id left right =
      then_with (cmp_bytes left.turn_path right.turn_path) (compare left.id right.id)

  -- `group.first().is_some_and(...)`
  pub same_path : List (WorkerChannels q) → WorkerChannels q → Bool
  same_path [] worker = false
  same_path (first ∷ others) worker = bytes_eq first.turn_path worker.turn_path

  -- The body of `for worker in sorted`.
  pub add_to_groups :
      List (List (WorkerChannels q)) → WorkerChannels q → List (List (WorkerChannels q))
  add_to_groups [] worker = (worker ∷ []) ∷ []
  add_to_groups (group ∷ []) worker =
      if same_path group worker then (group ++ (worker ∷ [])) ∷ [] else group ∷ (worker ∷ []) ∷ []
  add_to_groups (group ∷ next ∷ groups) worker = group ∷ add_to_groups (next ∷ groups) worker

  pub grouped :
      List (List (WorkerChannels q)) → List (WorkerChannels q) → List (List (WorkerChannels q))
  grouped groups [] = groups
  grouped groups (worker ∷ sorted) = grouped (add_to_groups groups worker) sorted

  abbrev pub pushed : Option (WorkerChannels q) → List (WorkerChannels q) → List (WorkerChannels q)
  pushed none workers = workers
  pushed (some worker) workers = worker ∷ workers

  -- The body of `for offset in 0usize..`: what it adds.
  pub round : List (List (WorkerChannels q)) → ℕ → List (WorkerChannels q)
  round [] offset = []
  round (group ∷ groups) offset = pushed (get_elem? group offset) (round groups offset)

  -- `if !added { return }`
  abbrev pub unless_empty : (added rest : List (WorkerChannels q)) → List (WorkerChannels q)
  unless_empty [] rest = []
  unless_empty (first ∷ others) rest = first ∷ (others ++ rest)

  -- The loop over the offsets, on fuel.
  pub rounds : (fuel : ℕ) → List (List (WorkerChannels q)) → ℕ → List (WorkerChannels q)
  rounds zero groups offset = []
  rounds (suc fuel) groups offset =
      unless_empty (round groups offset) (rounds fuel groups (suc offset))

  pub interleave_turn_paths : List (WorkerChannels q) → List (WorkerChannels q)
  interleave_turn_paths workers =
      rounds (length workers) (grouped [] (sort_by by_path_and_id workers)) 0

  -- `updated.retain(|worker| worker.id != id)`
  abbrev pub without_id : ℕ → List (WorkerChannels q) → List (WorkerChannels q)
  without_id id workers = retain (λ worker. not (worker.id == id)) workers

  pub register : WorkerChannels q → List (WorkerChannels q) → List (WorkerChannels q)
  register channels workers =
      interleave_turn_paths (without_id channels.id workers ++ (channels ∷ []))

  pub unregister : ℕ → ℕ → List (WorkerChannels q) → List (WorkerChannels q)
  unregister id incarnation_id workers = interleave_turn_paths (
      retain (λ worker. not (worker.id == id) || not (worker.incarnation_id == incarnation_id))
        workers)
