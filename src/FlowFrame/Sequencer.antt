-- ===== src/FlowFrame/Sequencer.antt =====
-- `FlowSequencer` of shared/flow_frame.rs: sequence numbers for the packets of each flow.
-- The `HashMap` is an association list; no operation depends on its order.
pub mod Counts
use csqtt_antinet_module.FlowFrame.Header.{FrameHeader}
use csqtt_antinet_module.FlowFrame.FlowId.{mix64, tcp_flow_id}
use csqtt_antinet_module.Prelude.{
  ℕ, ◌+◌, ◌%◌, max, Bool, true, false, not, ◌&&◌, Option, none, some, List, [], ◌∷◌, ◌==◌,
  if◌then◌else◌, length, Bytes, u32_mod, u64_mod,
}

abbrev pub max_tracked_flows : ℕ
max_tracked_flows = 4096

-- The entry of a flow, and its update (`entry(k).or_insert(0)` and a write through it).
pub lookup_seq : ℕ → List (ℕ × ℕ) → Option ℕ
lookup_seq k [] = none
lookup_seq k ((j, v) ∷ m) = if j == k then some v else lookup_seq k m

pub insert_seq : ℕ → ℕ → List (ℕ × ℕ) → List (ℕ × ℕ)
insert_seq k v [] = (k, v) ∷ []
insert_seq k v ((j, w) ∷ m) = if j == k then (k, v) ∷ m else (j, w) ∷ insert_seq k v m

pub record FlowSequencer : Type 0 where
  pub sender_id : ℕ
  pub sequences : List (ℕ × ℕ)

pub with_sender_id : ℕ → FlowSequencer
with_sender_id sender_id = record { sender_id = max sender_id 1; sequences = [] }

abbrev pub is_some {ℓ} : {A : Type ℓ} → Option A → Bool
is_some none = false
is_some (some a) = true

abbrev pub get_or_zero : Option ℕ → ℕ
get_or_zero none = 0
get_or_zero (some n) = n

-- A full table that lacks the flow is cleared, under a new sender.
pub make_room : ℕ → FlowSequencer → FlowSequencer
make_room flow_id s =
    if (length s.sequences == max_tracked_flows) && not (is_some (lookup_seq flow_id s.sequences))
    then record {
      sender_id = max (mix64 ((s.sender_id + 0x9e37_79b9_7f4a_7c15) % u64_mod)) 1;
      sequences = [];
    }
    else s

pub next_for : ℕ → FlowSequencer → FrameHeader × FlowSequencer
next_for flow_id s =
    let sequence = get_or_zero (lookup_seq flow_id s.sequences) in
    (
      record { sender_id = s.sender_id; flow_id = flow_id; sequence = sequence },
      record s { sequences = insert_seq flow_id ((sequence + 1) % u32_mod) s.sequences },
    )

pub next : FlowSequencer → Bytes → Option FrameHeader × FlowSequencer
unfolding make_room next_for
next s packet = elim (tcp_flow_id packet) [
  | none ↦ (none, s)
  | some flow_id ↦ let (h, s') = next_for flow_id (make_room flow_id s) in (some h, s')
]
