-- ===== src/FlowFrame/Sequencer/Counts.antt =====
-- The numbers that a sequencer hands out.
pub mod Tests
use csqtt_antinet_module.FlowFrame.FlowId.{tcp_flow_id}
use csqtt_antinet_module.FlowFrame.Sequencer.{
  max_tracked_flows, lookup_seq, insert_seq, FlowSequencer, is_some, get_or_zero, make_room,
  next_for, next,
}
use csqtt_antinet_module.Prelude.{
  ℕ, suc, ◌+◌, ◌%◌, ◌≤◌, ◌<◌, ◌≡◌, refl, ◌⊎◌, inl, inr, true, some, List, [], ◌∷◌, arith, ◌==◌,
  if◌then◌else◌, Option-cases, length, Bytes, u32_mod,
}

lookup-insert_seq :
    (k j v : ℕ) (m : List (ℕ × ℕ))
    → lookup_seq j (insert_seq k v m) ≡ (if k == j then some v else lookup_seq j m)
unfolding lookup_seq insert_seq
lookup-insert_seq k j v [] = refl
lookup-insert_seq k j v ((i, w) ∷ m) = ground (arith, lookup-insert_seq k j v m)

length-insert_seq :
    (k v : ℕ) (m : List (ℕ × ℕ))
    → length (insert_seq k v m) ≡ (if is_some (lookup_seq k m) then length m else suc (length m))
unfolding lookup_seq insert_seq
length-insert_seq k v [] = refl
length-insert_seq k v ((i, w) ∷ m) = ground (arith, length-insert_seq k v m)

-- The next number of a flow under the current sender.
abbrev pub next_number : FlowSequencer → ℕ → ℕ
next_number s flow = get_or_zero (lookup_seq flow s.sequences)

-- The table has room for the flow.
abbrev pub HasRoom : FlowSequencer → ℕ → Type 0
HasRoom s flow =
    (length s.sequences < max_tracked_flows) ⊎ (is_some (lookup_seq flow s.sequences) ≡ true)

make_room-HasRoom : (s : FlowSequencer) (flow : ℕ) → HasRoom s flow → make_room flow s ≡ s
unfolding make_room
make_room-HasRoom s flow h = ground arith

next_for_counts :
    (s : FlowSequencer) (flow : ℕ)
    → (some (next_for flow s).0
        ≡ some (record { sender_id = s.sender_id; flow_id = flow; sequence = next_number s flow }))
      × ((next_for flow s).1.sender_id ≡ s.sender_id)
      × ((j : ℕ)
          → next_number (next_for flow s).1 j
            ≡ (if flow == j then (next_number s flow + 1) % u32_mod else next_number s j))
unfolding next_for
next_for_counts s flow = (
  refl,
  refl,
  λ j. ground (arith, lookup-insert_seq flow j ((next_number s flow + 1) % u32_mod) s.sequences),
)

-- A packet of a flow that the table has room for gets the flow's next number under the same
-- sender; that flow's number goes up by one modulo 2 ^ 32, and no other flow's changes.
pub next_counts :
    (s : FlowSequencer) (packet : Bytes) (flow : ℕ)
    → tcp_flow_id packet ≡ some flow
    → HasRoom s flow
    → ((next s packet).0
        ≡ some (record { sender_id = s.sender_id; flow_id = flow; sequence = next_number s flow }))
      × ((next s packet).1.sender_id ≡ s.sender_id)
      × ((j : ℕ)
          → next_number (next s packet).1 j
            ≡ (if flow == j then (next_number s flow + 1) % u32_mod else next_number s j))
unfolding next
next_counts s packet flow e room =
    rw (e, next, make_room-HasRoom s flow room) (next_for_counts s flow)

pub record IsValid (s : FlowSequencer) : Type 0 where
  pub nonzero : 1 ≤ s.sender_id
  pub bounded : length s.sequences ≤ max_tracked_flows

make_room-IsValid :
    (s : FlowSequencer) (flow : ℕ)
    → IsValid s
    → IsValid (make_room flow s) × HasRoom (make_room flow s) flow
unfolding make_room
make_room-IsValid s flow v = ground arith

next_for-IsValid :
    (s : FlowSequencer) (flow : ℕ) → IsValid s → HasRoom s flow → IsValid (next_for flow s).1
unfolding next_for
next_for-IsValid s flow v room =
    let n = (next_number s flow + 1) % u32_mod in
    ground (arith, length-insert_seq flow n s.sequences)

-- Whatever packet comes, the table holds at most 4096 flows and the sender is not 0.
pub next-IsValid : (s : FlowSequencer) (packet : Bytes) → IsValid s → IsValid (next s packet).1
unfolding next
next-IsValid s packet v = elim (Option-cases (tcp_flow_id packet)) [
  | inl e ↦ rw (e, next) v
  | inr found ↦
      rw (found.1, next)
        (let (v', room) = make_room-IsValid s found.0 v in
          next_for-IsValid (make_room found.0 s) found.0 v' room)
]
