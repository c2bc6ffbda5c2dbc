-- ===== src/Repair/Sequence.antt =====
-- A worker is restarted by a repair command at most once, and by an older one never.
use csqtt_antinet_module.Protocol.{StreamRepairCommand}
use csqtt_antinet_module.Repair.{
  RepairSlot, RepairState, slot, RepairApplyResult, restarted, repair_worker, repair_workers,
  apply_repair,
}
use csqtt_antinet_module.Prelude.{
  ℕ, zero, suc, ◌+◌, ◌%◌, ◌||◌, ◌≤◌, ◌<◌, ◌≡◌, refl, ap, ◌∙◌, ◌≢◌, ◌⊎◌, inl, inr, true, false, none,
  some, List, [], ◌∷◌, ◌++◌, arith, leb, ◌==◌, leb→le, ==_iff, Bool-cases, Option-cases, set,
  get_elem?-set, get_elem?-set_other, All,
}

-- The last repair a worker has seen is not older than `sequence`; a worker with no slot sees none.
abbrev pub HasSeen : RepairState → ℕ → ℕ → Type 0
HasSeen slots sequence id = (s : RepairSlot) → slot slots id ≡ some s → sequence ≤ s.last_sequence

repair_worker-seen :
    (sequence id : ℕ) (slots : RepairState) (result : RepairApplyResult)
    → HasSeen slots sequence id
    → repair_worker sequence id (slots, result) ≡ (slots, result)
unfolding repair_worker
repair_worker-seen sequence id slots result seen = elim (Option-cases (slot slots id)) [
  | inl e ↦ rw (e, repair_worker) refl
  | inr (s, e) ↦
      let old : leb sequence s.last_sequence ≡ true = ground (arith, seen s e) in
      rw (e, old, repair_worker) refl
]

repair_workers-seen :
    (sequence : ℕ) (ids : List ℕ) (slots : RepairState) (result : RepairApplyResult)
    → All (HasSeen slots sequence) ids
    → repair_workers sequence ids (slots, result) ≡ (slots, result)
unfolding repair_workers
repair_workers-seen sequence [] slots result seen = refl
repair_workers-seen sequence (id ∷ ids) slots result seen =
    rw (repair_worker-seen sequence id slots result seen.0)
      (repair_workers-seen sequence ids slots result seen.1)

slot-set :
    (slots : RepairState) (id : ℕ) (v : RepairSlot) {s : RepairSlot}
    → slot slots id ≡ some s
    → slot (set slots id v) id ≡ some v
unfolding slot
slot-set slots zero v e = absurd cc
slot-set slots (suc id) v e = get_elem?-set slots (suc id) v e

slot-set_other :
    (slots : RepairState) (id j : ℕ) (v : RepairSlot)
    → id ≢ j
    → slot (set slots id v) j ≡ slot slots j
unfolding slot
slot-set_other slots id zero v h = refl
slot-set_other slots id (suc j) v h = get_elem?-set_other slots id (suc j) v h

repair_worker-newer :
    (sequence id : ℕ) (slots : RepairState) (result : RepairApplyResult) {s : RepairSlot}
    → slot slots id ≡ some s
    → s.last_sequence < sequence
    → (repair_worker sequence id (slots, result)).0 ≡ set slots id (restarted sequence s)
unfolding repair_worker
repair_worker-newer sequence id slots result {s} e newer =
    let later : leb sequence s.last_sequence ≡ false = ground (arith, newer) in
    rw (e, later, repair_worker) refl

-- A worker that has seen the command, or that it does not name, keeps its slot.
repair_worker-keeps :
    (sequence id j : ℕ) (slots : RepairState) (result : RepairApplyResult) {s : RepairSlot}
    → slot slots j ≡ some s
    → (sequence ≤ s.last_sequence) ⊎ (id ≢ j)
    → slot (repair_worker sequence id (slots, result)).0 j ≡ some s
repair_worker-keeps sequence id j slots result {s} e safe = elim (Option-cases (slot slots id)) [
  | inl nothing ↦
      rw (repair_worker-seen sequence id slots result (λ t f. absurd (none_here nothing f))) e
  | inr (t, f) ↦ elim (Bool-cases (leb sequence t.last_sequence)) [
    | inl seen ↦
        rw
          (repair_worker-seen sequence id slots result
            (λ u g. only f g (leb→le sequence t.last_sequence seen)))
          e
    | inr newer ↦ elim (Bool-cases (id == j)) [
      | inr other ↦
          rw (repair_worker-newer sequence id slots result f (ground (arith, newer)))
            (slot-set_other slots id j (restarted sequence t) (λ h. ground (arith, other)) ∙ e)
      | inl same ↦ absurd (clash ((==_iff id j).0 same) e f safe newer)
    ]
  ]
]
  where
    none_here : {t : RepairSlot} → slot slots id ≡ none → slot slots id ≡ some t → ⊥
    none_here a b = cc

    only :
        {t u : RepairSlot}
        → slot slots id ≡ some t
        → slot slots id ≡ some u
        → sequence ≤ t.last_sequence
        → sequence ≤ u.last_sequence
    only {t} {u} f g le = let same : t ≡ u = cc in rw (← same) le

    clash :
        {t : RepairSlot}
        → id ≡ j
        → slot slots j ≡ some s
        → slot slots id ≡ some t
        → (sequence ≤ s.last_sequence) ⊎ (id ≢ j)
        → leb sequence t.last_sequence ≡ false
        → ⊥
    clash {t} h e f (inr other) newer = other h
    clash {t} h e f (inl le) newer =
        let same : s ≡ t = cc in
        let eq : s.last_sequence ≡ t.last_sequence =
          ap (λ (x : RepairSlot). x.last_sequence) same in
        ground (arith, le, eq, newer)

repair_workers-keeps :
    (sequence j : ℕ) (ids : List ℕ) (slots : RepairState) (result : RepairApplyResult)
    {s : RepairSlot}
    → slot slots j ≡ some s
    → (sequence ≤ s.last_sequence) ⊎ All (λ (id : ℕ). id ≢ j) ids
    → slot (repair_workers sequence ids (slots, result)).0 j ≡ some s
unfolding repair_workers
repair_workers-keeps sequence j [] slots result e safe = e
repair_workers-keeps sequence j (id ∷ ids) slots result e (inl seen) =
    let next = repair_worker sequence id (slots, result) in
    repair_workers-keeps sequence j ids next.0 next.1
      (repair_worker-keeps sequence id j slots result e (inl seen)) (inl seen)
repair_workers-keeps sequence j (id ∷ ids) slots result e (inr others) =
    let next = repair_worker sequence id (slots, result) in
    repair_workers-keeps sequence j ids next.0 next.1
      (repair_worker-keeps sequence id j slots result e (inr others.0)) (inr others.1)

-- The slot of a worker that the command names, when the command is newer than its last one.
repair_workers-restarts :
    (sequence j : ℕ) (before after : List ℕ) (slots : RepairState) (result : RepairApplyResult)
    {s : RepairSlot}
    → slot slots j ≡ some s
    → s.last_sequence < sequence
    → slot (repair_workers sequence (before ++ (j ∷ after)) (slots, result)).0 j
      ≡ some (restarted sequence s)
unfolding repair_workers
repair_workers-restarts sequence j [] after slots result {s} e newer =
    let next = repair_worker sequence j (slots, result) in
    let here : slot next.0 j ≡ some (restarted sequence s) =
      rw (repair_worker-newer sequence j slots result e newer)
        (slot-set slots j (restarted sequence s) e) in
    repair_workers-keeps sequence j after next.0 next.1 here (inl (omega arith))
repair_workers-restarts sequence j (id ∷ before) after slots result {s} e newer =
    let next = repair_worker sequence id (slots, result) in
    elim (Bool-cases (id == j)) [
      | inl same ↦
          let is_j : id ≡ j = (==_iff id j).0 same in
          let here : slot next.0 j ≡ some (restarted sequence s) =
            rw (is_j, repair_worker-newer sequence j slots result e newer)
              (slot-set slots j (restarted sequence s) e) in
          repair_workers-keeps sequence j (before ++ (j ∷ after)) next.0 next.1 here
            (inl (omega arith))
      | inr other ↦
          repair_workers-restarts sequence j before after next.0 next.1
            (repair_worker-keeps sequence id j slots result e (inr (λ h. ground (arith, other))))
            newer
    ]

apply_repair-restarted :
    (command : StreamRepairCommand) (slots : RepairState) (id : ℕ) {s : RepairSlot}
    (before after : List ℕ)
    → slot slots id ≡ some s
    → command.worker_ids ≡ before ++ (id ∷ after)
    → s.last_sequence < command.sequence
    → slot (apply_repair command slots).0 id ≡ some (restarted command.sequence s)
unfolding apply_repair
apply_repair-restarted command slots id before after e named newer = rw named (
    repair_workers-restarts command.sequence id before after slots
      (record { restarts = 0; credential_resets = 0 }) e newer)

credentials_of :
    (sequence : ℕ) (s : RepairSlot)
    → (((s.last_sequence ≡ 0) ⊎ (s.last_sequence ≤ s.ready_sequence))
        × ((restarted sequence s).credential_generation ≡ s.credential_generation))
      ⊎ ((0 < s.last_sequence)
          × (s.ready_sequence < s.last_sequence)
          × ((restarted sequence s).credential_generation
              ≡ (s.credential_generation + 1) % 18446744073709551616))
credentials_of sequence s =
    elim (Bool-cases ((s.last_sequence == 0) || leb s.last_sequence s.ready_sequence)) [
      | inl ready ↦ inl (ground arith, rw ready refl)
      | inr lost ↦ inr (ground arith, ground arith, rw lost refl)
    ]

-- A repair command that names a worker and is newer than the last one the worker has seen raises
-- the worker's restart generation by one, modulo 2 ^ 64, even when it names the worker twice. It
-- becomes the last one the worker has seen. The worker keeps its credentials when it has had no
-- repair or got ready after the last one, and else their generation is raised by one as well.
pub apply_repair-restarts :
    (command : StreamRepairCommand) (slots : RepairState) (id : ℕ) {s : RepairSlot}
    (before after : List ℕ)
    → slot slots id ≡ some s
    → command.worker_ids ≡ before ++ (id ∷ after)
    → s.last_sequence < command.sequence
    → (t : RepairSlot) × (slot (apply_repair command slots).0 id ≡ some t)
      × (t.restart_generation ≡ (s.restart_generation + 1) % 18446744073709551616)
      × (t.last_sequence ≡ command.sequence)
      × (t.ready_sequence ≡ s.ready_sequence)
      × ((((s.last_sequence ≡ 0) ⊎ (s.last_sequence ≤ s.ready_sequence))
            × (t.credential_generation ≡ s.credential_generation))
          ⊎ ((0 < s.last_sequence)
              × (s.ready_sequence < s.last_sequence)
              × (t.credential_generation ≡ (s.credential_generation + 1) % 18446744073709551616)))
apply_repair-restarts command slots id {s} before after e named newer = (
  restarted command.sequence s,
  apply_repair-restarted command slots id before after e named newer,
  refl,
  refl,
  refl,
  credentials_of command.sequence s,
)

-- A worker that has seen a command as new, or that the command does not name, keeps its slot.
pub apply_repair-keeps :
    (command : StreamRepairCommand) (slots : RepairState) (id : ℕ) {s : RepairSlot}
    → slot slots id ≡ some s
    → (command.sequence ≤ s.last_sequence) ⊎ All (λ (j : ℕ). j ≢ id) command.worker_ids
    → slot (apply_repair command slots).0 id ≡ some s
unfolding apply_repair
apply_repair-keeps command slots id e safe =
    repair_workers-keeps command.sequence id command.worker_ids slots
      (record { restarts = 0; credential_resets = 0 }) e safe

-- A command whose workers have all seen one as new changes nothing and restarts no worker.
pub apply_repair-seen :
    (command : StreamRepairCommand) (slots : RepairState)
    → All (HasSeen slots command.sequence) command.worker_ids
    → apply_repair command slots ≡ (slots, record { restarts = 0; credential_resets = 0 })
unfolding apply_repair
apply_repair-seen command slots seen =
    repair_workers-seen command.sequence command.worker_ids slots
      (record { restarts = 0; credential_resets = 0 }) seen
