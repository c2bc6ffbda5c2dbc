-- ===== src/Dispatcher/Workers/Registered.antt =====
-- What a registration leaves: the workers of other numbers and the new one.
pub mod Tests
use mathlib.Core.HLevel.{¬_prop}
use mathlib.Core.List.{Perm, Pairwise, perm_append_comm}
use mathlib.Core.List.Perm
use csqtt_antinet_module.ArrayQueue.{ArrayQueue}
use csqtt_antinet_module.Dispatcher.Queue.{QueuedPacket}
use csqtt_antinet_module.Dispatcher.Select.{WorkerChannels}
use csqtt_antinet_module.Dispatcher.Workers.{without_id, register, unregister}
use csqtt_antinet_module.Prelude.Sorting.{retain, retain-kept, Pairwise-retain}
use csqtt_antinet_module.Dispatcher.Workers.Interleave.{interleave_turn_paths-perm}
use csqtt_antinet_module.Prelude.{
  ℕ, ◌+◌, ◌-◌, ◌≡◌, sym, ◌≢◌, false, not, ◌||◌, List, [], ◌∷◌, ◌++◌, arith, ◌==◌,
}

module _ {P : Type 0} (q : ArrayQueue (QueuedPacket P)) where
  abbrev Workers : Type 0
  Workers = List (WorkerChannels q)

  abbrev pub DiffersIn : WorkerChannels q → WorkerChannels q → Type 0
  DiffersIn v w = v.id ≢ w.id

  -- No two workers have one number.
  abbrev pub HasUniqueIds : Workers → Type 0
  HasUniqueIds workers = Pairwise DiffersIn workers

  pub data Registration : Type 0 where
    registered : WorkerChannels q → Registration
    unregistered : (id incarnation_id : ℕ) → Registration

  pub run : List Registration → Workers → Workers
  run [] workers = workers
  run (registered channels ∷ steps) workers = run steps (register q channels workers)
  run (unregistered id incarnation_id ∷ steps) workers =
      run steps (unregister q id incarnation_id workers)

  HasUniqueIds-perm : {ws vs : Workers} → Perm ws vs → HasUniqueIds ws → HasUniqueIds vs
  HasUniqueIds-perm p = Perm.pairwise {R = DiffersIn} (λ a b. ¬_prop) (λ x y n e. n (sym e)) p

  pub register-perm :
      (channels : WorkerChannels q) (workers : Workers)
      → Perm (register q channels workers) (channels ∷ without_id q channels.id workers)
  unfolding register
  register-perm channels workers =
      let kept = without_id q channels.id workers in
      Perm.trans (interleave_turn_paths-perm q (kept ++ (channels ∷ [])))
        (perm_append_comm kept (channels ∷ []))

  unregister-perm :
      (id incarnation_id : ℕ) (workers : Workers)
      → Perm
          (unregister q id incarnation_id workers)
          (retain (λ w. not (w.id == id) || not (w.incarnation_id == incarnation_id)) workers)
  unfolding unregister
  unregister-perm id incarnation_id workers =
      interleave_turn_paths-perm q
        (retain (λ w. not (w.id == id) || not (w.incarnation_id == incarnation_id)) workers)

  register-HasUniqueIds :
      (channels : WorkerChannels q) (workers : Workers)
      → HasUniqueIds workers
      → HasUniqueIds (register q channels workers)
  register-HasUniqueIds channels workers h =
      HasUniqueIds-perm (Perm.symm (register-perm channels workers)) (
        Pairwise.cons
          (λ w m e.
            retain-kept (λ v. not (v.id == channels.id)) workers m
              (same_id w.id channels.id (sym e)))
          (Pairwise-retain (λ v. not (v.id == channels.id)) workers h))
    where
      same_id : (m n : ℕ) → m ≡ n → not (m == n) ≡ false
      same_id m n e = ground arith

  unregister-HasUniqueIds :
      (id incarnation_id : ℕ) (workers : Workers)
      → HasUniqueIds workers
      → HasUniqueIds (unregister q id incarnation_id workers)
  unregister-HasUniqueIds id incarnation_id workers h =
      HasUniqueIds-perm (Perm.symm (unregister-perm id incarnation_id workers)) (
        Pairwise-retain (λ w. not (w.id == id) || not (w.incarnation_id == incarnation_id)) workers
          h)

  -- From a list in which no two workers have one number, any sequence of registrations and
  -- unregistrations leads to such a list.
  pub run-HasUniqueIds :
      (steps : List Registration) (workers : Workers)
      → HasUniqueIds workers
      → HasUniqueIds (run steps workers)
  unfolding run
  run-HasUniqueIds [] workers h = h
  run-HasUniqueIds (registered channels ∷ steps) workers h =
      run-HasUniqueIds steps (register q channels workers)
        (register-HasUniqueIds channels workers h)
  run-HasUniqueIds (unregistered id incarnation_id ∷ steps) workers h =
      run-HasUniqueIds steps (unregister q id incarnation_id workers)
        (unregister-HasUniqueIds id incarnation_id workers h)

  -- A registration leaves, in some order, exactly the new worker and the workers of other numbers;
  -- an unregistration leaves exactly the workers that differ in the number or in the incarnation.
  pub registration_lem :
      (channels : WorkerChannels q) (id incarnation_id : ℕ) (workers : Workers)
      → Perm (register q channels workers) (channels ∷ without_id q channels.id workers)
        × Perm
            (unregister q id incarnation_id workers)
            (retain (λ w. not (w.id == id) || not (w.incarnation_id == incarnation_id)) workers)
  registration_lem channels id incarnation_id workers =
      (register-perm channels workers, unregister-perm id incarnation_id workers)
