-- ===== src/Dispatcher/FastPath/Fair/Tests.antt =====
-- `begin_for_class_lem`, applied.
use csqtt_antinet_module.Dispatcher.FastPath.{start_cursors, FastPathScheduler, begin_for_class}
use csqtt_antinet_module.Dispatcher.FastPath.Fair.{seen, after, begin_for_class_lem}
use csqtt_antinet_module.Scheduler.Classes.{PacketClass, small, bulk, stream_chunk}
use csqtt_antinet_module.Prelude.{ℕ, ◌/◌, ◌%◌, ◌<◌, ◌≡◌, refl, some, List, [], ◌∷◌, arith}

abbrev scheduler : FastPathScheduler ℕ
scheduler = record { workers = 1 ∷ 2 ∷ 3 ∷ []; worker_count = 3; cursors = start_cursors }

abbrev before : List PacketClass
before = small ∷ bulk ∷ small ∷ []

begin_for_class_lem_example :
    ((begin_for_class ℕ 3 small (after ℕ 3 before scheduler)).0
      ≡ some (record { start_slot = seen small before / stream_chunk small % 3; class = small }))
    × (seen small before / stream_chunk small % 3 < 3)
begin_for_class_lem_example = begin_for_class_lem ℕ 3 before small scheduler (omega arith) refl refl
