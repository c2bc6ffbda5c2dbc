-- ===== src/Repair.antt =====
-- repair.rs: which workers a repair command of the server restarts. A turn of the compare-exchange
-- loop that wins acts on the sequence it has read, so the loop is one step on the slot.
pub mod Sequence
mod Tests
use csqtt_antinet_module.Protocol.{StreamRepairCommand}
use csqtt_antinet_module.Prelude.{
  ℕ, zero, suc, ◌+◌, ◌%◌, max, Bool, ◌||◌, Option, none, some, List, [], ◌∷◌, leb, ◌==◌,
  if◌then◌else◌, get_elem?, set, replicate, u64_mod,
}

pub record RepairSlot : Type 0 where
  pub restart_generation : ℕ
  pub credential_generation : ℕ
  pub last_sequence : ℕ
  pub ready_sequence : ℕ

abbrev pub new_slot : RepairSlot
new_slot = record {
  restart_generation = 0;
  credential_generation = 0;
  last_sequence = 0;
  ready_sequence = 0;
}

abbrev pub RepairState : Type 0
RepairState = List RepairSlot

-- `saturating_add` needs no bound here: so many slots are held in memory.
pub new : ℕ → RepairState
new desired_count = replicate (desired_count + 1) new_slot

-- `slot`: worker 0 has none.
pub slot : RepairState → ℕ → Option RepairSlot
slot slots zero = none
slot slots (suc id) = get_elem? slots (suc id)

pub restart_generation : RepairState → ℕ → ℕ
restart_generation slots id = elim (slot slots id) [ none ↦ 0 | some s ↦ s.restart_generation ]

pub credential_generation : RepairState → ℕ → ℕ
credential_generation slots id = elim (slot slots id) [
  | none ↦ 0
  | some s ↦ s.credential_generation
]

-- `fetch_add(1)`
abbrev pub bumped : ℕ → ℕ
bumped n = (n + 1) % u64_mod

pub mark_ready : ℕ → RepairState → RepairState
mark_ready id slots = elim (slot slots id) [
  | none ↦ slots
  | some s ↦ set slots id (record s { ready_sequence = s.last_sequence })
]

-- Whether the worker got ready since the last repair, or there was none.
abbrev pub was_ready : RepairSlot → Bool
was_ready s = (s.last_sequence == 0) || leb s.last_sequence s.ready_sequence

-- The slot after a newer command.
abbrev pub restarted : ℕ → RepairSlot → RepairSlot
restarted sequence s = record {
  restart_generation = bumped s.restart_generation;
  credential_generation =
      if was_ready s then s.credential_generation else bumped s.credential_generation;
  last_sequence = sequence;
  ready_sequence = s.ready_sequence;
}

pub record RepairApplyResult : Type 0 where
  pub restarts : ℕ
  pub credential_resets : ℕ

-- One worker of a command.
pub repair_worker :
    (sequence id : ℕ) → RepairState × RepairApplyResult → RepairState × RepairApplyResult
repair_worker sequence id (slots, result) = elim (slot slots id) [
  | none ↦ (slots, result)
  | some s ↦ if leb sequence s.last_sequence then (slots, result) else (
    set slots id (restarted sequence s),
    record {
      restarts = result.restarts + 1;
      credential_resets =
          if was_ready s then result.credential_resets else result.credential_resets + 1;
    },
  )
]

unfoldable pub repair_workers :
    (sequence : ℕ) → List ℕ → RepairState × RepairApplyResult → RepairState × RepairApplyResult
repair_workers sequence [] st = st
repair_workers sequence (id ∷ ids) st = repair_workers sequence ids (repair_worker sequence id st)

pub apply_repair : StreamRepairCommand → RepairState → RepairState × RepairApplyResult
apply_repair command slots =
    repair_workers command.sequence command.worker_ids
      (slots, record { restarts = 0; credential_resets = 0 })

pub alive_worker : (sequence id : ℕ) → RepairState × ℕ → RepairState × ℕ
alive_worker sequence id (slots, applied) = elim (slot slots id) [
  | none ↦ (slots, applied)
  | some s ↦
      (set slots id (record s { ready_sequence = max s.ready_sequence sequence }), applied + 1)
]

unfoldable pub alive_workers : (sequence : ℕ) → List ℕ → RepairState × ℕ → RepairState × ℕ
alive_workers sequence [] st = st
alive_workers sequence (id ∷ ids) st = alive_workers sequence ids (alive_worker sequence id st)

pub apply_alive : StreamRepairCommand → RepairState → RepairState × ℕ
apply_alive command slots = alive_workers command.sequence command.worker_ids (slots, 0)
