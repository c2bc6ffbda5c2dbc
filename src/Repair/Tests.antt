-- ===== src/Repair/Tests.antt =====
-- The theorems on repairs, applied: worker 1 has seen repair 5, worker 2 none.
use csqtt_antinet_module.Protocol.{StreamRepairCommand}
use csqtt_antinet_module.Repair.{RepairSlot, new_slot, RepairState, slot, apply_repair}
use csqtt_antinet_module.Repair.Sequence.{apply_repair-restarts}
use csqtt_antinet_module.Prelude.{◌+◌, ◌%◌, ◌≤◌, ◌<◌, ◌⊎◌, ◌≡◌, refl, some, [], ◌∷◌, arith}

abbrev seen : RepairSlot
seen = record {
  restart_generation = 2;
  credential_generation = 0;
  last_sequence = 5;
  ready_sequence = 5;
}

abbrev slots : RepairState
slots = new_slot ∷ seen ∷ new_slot ∷ []

abbrev repair : StreamRepairCommand
repair = record { sequence = 5; desired_count = 2; worker_ids = 1 ∷ 2 ∷ 2 ∷ [] }

apply_repair-restarts_example :
    (t : RepairSlot) × (slot (apply_repair repair slots).0 2 ≡ some t)
    × (t.restart_generation ≡ (0 + 1) % 18446744073709551616)
    × (t.last_sequence ≡ 5)
    × (t.ready_sequence ≡ 0)
    × ((((new_slot.last_sequence ≡ 0) ⊎ (new_slot.last_sequence ≤ new_slot.ready_sequence))
          × (t.credential_generation ≡ 0))
        ⊎ ((0 < 0) × (0 < 0) × (t.credential_generation ≡ (0 + 1) % 18446744073709551616)))
unfolding slot
apply_repair-restarts_example =
    apply_repair-restarts repair slots 2 {s = new_slot} (1 ∷ []) (2 ∷ []) refl refl (omega arith)
