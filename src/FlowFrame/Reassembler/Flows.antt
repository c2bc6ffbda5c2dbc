-- ===== src/FlowFrame/Reassembler/Flows.antt =====
-- `push_at` on the table of flows, and sequences of calls.
mod Tests
use csqtt_antinet_module.FlowFrame.Header.{FrameHeader}
use csqtt_antinet_module.FlowFrame.Reassembler.{
  max_tracked_flows, max_pending_total, ReassemblyKey, key_eq, Pending, FlowState, FlowReassembler,
  Work, push_flow, lookup_flow, insert_flow, new_state, new, clear_if_full, entry, push_key,
  push_at,
}
use csqtt_antinet_module.FlowFrame.Reassembler.Bounds.{Accounted, Pushed, Pushed-trans, same-Pushed}
use csqtt_antinet_module.FlowFrame.Reassembler.Push.{arrival, push_flow_lem}
use csqtt_antinet_module.Prelude.{
  ℕ, ◌+◌, ◌-◌, ◌≤◌, ◌≡◌, refl, ◌∙◌, ◌≢◌, ◌⊎◌, false, none, some, List, [], ◌∷◌, ◌++◌, arith,
  if◌then◌else◌, length,
}

module _ {ℓ} {A : Type ℓ} where
  -- The packets that wait in all flows.
  abbrev pub pending_sum : List (ReassemblyKey × FlowState A) → ℕ
  pending_sum [] = 0
  pending_sum ((k, state) ∷ flows) = length state.pending + pending_sum flows

  abbrev pub waiting : ReassemblyKey → List (ReassemblyKey × FlowState A) → ℕ
  waiting k flows = elim (lookup_flow k flows) [ none ↦ 0 | some state ↦ length state.pending ]

-- The counter is exact, and both tables keep to their limits.
pub record IsValid {ℓ} {A : Type ℓ} (r : FlowReassembler A) : Type 0 where
  pub tracked_flows : length r.flows ≤ max_tracked_flows
  pub exact : r.pending_total ≡ pending_sum r.flows
  pub bounded : r.pending_total ≤ max_pending_total

module _ {ℓ} {A : Type ℓ} where
  pending_sum-insert_flow :
      (k : ReassemblyKey) (state : FlowState A) (flows : List (ReassemblyKey × FlowState A))
      → pending_sum (insert_flow k state flows) + waiting k flows
        ≡ pending_sum flows + length state.pending
  unfolding insert_flow lookup_flow
  pending_sum-insert_flow k state [] = omega arith
  pending_sum-insert_flow k state ((j, old) ∷ flows) =
      ground (arith, pending_sum-insert_flow k state flows)

  length-insert_flow :
      (k : ReassemblyKey) (state : FlowState A) (flows : List (ReassemblyKey × FlowState A))
      → length (insert_flow k state flows)
        ≡ length flows + elim (lookup_flow k flows) [ none ↦ 1 | some _ ↦ 0 ]
  unfolding insert_flow lookup_flow
  length-insert_flow k state [] = refl
  length-insert_flow k state ((j, old) ∷ flows) = ground (arith, length-insert_flow k state flows)

  -- There is room for the flow: it has an entry, or the table is not full.
  abbrev pub HasRoomFor : ReassemblyKey → FlowReassembler A → Type 0
  HasRoomFor k r =
      length r.flows + elim (lookup_flow k r.flows) [ none ↦ 1 | some _ ↦ 0 ] ≤ max_tracked_flows

  IsValid-new : IsValid (new {A = A})
  unfolding new
  IsValid-new = omega arith

  clear_if_full-IsValid :
      (k : ReassemblyKey) (r : FlowReassembler A)
      → IsValid r
      → IsValid (clear_if_full k r) × HasRoomFor k (clear_if_full k r)
  unfolding clear_if_full new lookup_flow
  clear_if_full-IsValid k r v = ground arith

  waiting-entry :
      (k : ReassemblyKey) (r : FlowReassembler A) → length (entry k r).pending ≡ waiting k r.flows
  unfolding new_state
  waiting-entry k r = ground arith

  -- What the table holds besides the flow.
  abbrev others : ReassemblyKey → FlowReassembler A → ℕ
  others k r = pending_sum r.flows - waiting k r.flows

  waiting-le :
      (k : ReassemblyKey) (flows : List (ReassemblyKey × FlowState A))
      → waiting k flows ≤ pending_sum flows
  unfolding lookup_flow
  waiting-le k [] = omega arith
  waiting-le k ((j, old) ∷ flows) = ground (arith, waiting-le k flows)

  abbrev start : ReassemblyKey → FlowReassembler A → List A → Work A
  start k r output = record { state = entry k r; pending_total = r.pending_total; output = output }

  start-Accounted :
      (k : ReassemblyKey) (r : FlowReassembler A) (output : List A)
      → IsValid r
      → Accounted (others k r) (start k r output)
  start-Accounted k r output v = omega (arith, v.exact, waiting-entry k r, waiting-le k r.flows)

  push_key-IsValid :
      (k : ReassemblyKey) (q : ℕ) (v : A) (now : ℕ) (r : FlowReassembler A) (output : List A)
      → IsValid r
      → HasRoomFor k r
      → IsValid (push_key k q v now r output).0
  unfolding push_key
  push_key-IsValid k q v now r output valid room =
      let w = start k r output in
      let w' = push_flow q v now w in
      let a = start-Accounted k r output valid in
      let (pushed, bound) = push_flow_lem q v now w (others k r) a valid.bounded in
      record {
        tracked_flows = omega (arith, length-insert_flow k w'.state r.flows);
        exact = omega (
          arith,
          pending_sum-insert_flow k w'.state r.flows,
          waiting-le k r.flows,
          pushed.accounted (others k r) a,
        );
        bounded = bound;
      }

  -- Whatever packet comes, at most 4096 flows are tracked, at most 4096 packets wait in all of them
  -- together, and the counter is their exact number.
  pub push_at-IsValid :
      (header : FrameHeader) (value : A) (now_ms : ℕ) (r : FlowReassembler A) (output : List A)
      → IsValid r
      → IsValid (push_at header value now_ms r output).0
  unfolding push_at
  push_at-IsValid header value now_ms r output v =
      let k : ReassemblyKey = record { sender_id = header.sender_id; flow_id = header.flow_id } in
      let (v', room) = clear_if_full-IsValid k r v in
      push_key-IsValid k header.sequence value now_ms (clear_if_full k r) output v' room

  lookup-insert_flow :
      (k j : ReassemblyKey) (state : FlowState A) (flows : List (ReassemblyKey × FlowState A))
      → lookup_flow j (insert_flow k state flows)
        ≡ (if key_eq k j then some state else lookup_flow j flows)
  unfolding lookup_flow insert_flow
  lookup-insert_flow k j state [] = refl
  lookup-insert_flow k j state ((i, old) ∷ flows) =
      ground (arith, lookup-insert_flow k j state flows)

  clear_if_full-room :
      (k : ReassemblyKey) (r : FlowReassembler A) → HasRoomFor k r → clear_if_full k r ≡ r
  unfolding clear_if_full
  clear_if_full-room k r room = ground arith

  lookup-push_key :
      (k j : ReassemblyKey) (q : ℕ) (v : A) (now : ℕ) (r : FlowReassembler A) (output : List A)
      → key_eq k j ≡ false
      → lookup_flow j (push_key k q v now r output).0.flows ≡ lookup_flow j r.flows
  unfolding push_key
  lookup-push_key k j q v now r output other =
      lookup-insert_flow k j (push_flow q v now (start k r output)).state r.flows ∙ rw other refl

  -- While the table has room for the packet's flow, a call changes no other flow.
  pub push_at-independent :
      (header : FrameHeader) (value : A) (now_ms : ℕ) (r : FlowReassembler A) (output : List A)
      (j : ReassemblyKey)
      → HasRoomFor (record { sender_id = header.sender_id; flow_id = header.flow_id }) r
      → (header.sender_id ≢ j.sender_id) ⊎ (header.flow_id ≢ j.flow_id)
      → lookup_flow j (push_at header value now_ms r output).0.flows ≡ lookup_flow j r.flows
  unfolding push_at
  push_at-independent header value now_ms r output j room ne =
      let k : ReassemblyKey = record { sender_id = header.sender_id; flow_id = header.flow_id } in
      let other : key_eq k j ≡ false = ground arith in
      rw (clear_if_full-room k r room)
        (lookup-push_key k j header.sequence value now_ms r output other)

-- A call for a flow: number, value and time.
pub record Call {ℓ} (A : Type ℓ) : Type ℓ where
  pub sequence : ℕ
  pub value : A
  pub now_ms : ℕ

module _ {ℓ} {A : Type ℓ} where
  -- The calls for one flow, one after the other.
  abbrev pub run : List (Call A) → Work A → Work A
  run [] w = w
  run (c ∷ calls) w = run calls (push_flow c.sequence c.value c.now_ms w)

  -- The packets of the calls that are accepted.
  abbrev pub arrivals : List (Call A) → Work A → List (Pending A)
  arrivals [] w = []
  arrivals (c ∷ calls) w =
      arrival c.sequence c.value c.now_ms w
      ++ arrivals calls (push_flow c.sequence c.value c.now_ms w)

  -- Whatever calls come for a flow, in whatever order: the packets that go out have ascending
  -- numbers, and they and the packets that still wait are those that waited at first and those that
  -- were accepted, each as often; the counter stays exact and within its limit.
  pub run-Pushed :
      (calls : List (Call A)) (w : Work A) (others : ℕ)
      → Accounted others w
      → w.pending_total ≤ max_pending_total
      → Pushed (arrivals calls w) w (run calls w)
        × ((run calls w).pending_total ≤ max_pending_total)
  run-Pushed [] w others a le = (same-Pushed w w.state refl refl, le)
  run-Pushed (c ∷ calls) w others a le =
      let m = push_flow c.sequence c.value c.now_ms w in
      let (first, le') = push_flow_lem c.sequence c.value c.now_ms w others a le in
      let (rest, bound) = run-Pushed calls m others (first.accounted others a) le' in
      (
        Pushed-trans (arrival c.sequence c.value c.now_ms w) (arrivals calls m) w m (run calls m)
            first rest,
        bound,
      )
