-- ===== src/FlowFrame/Reassembler.antt =====
-- `FlowReassembler` of shared/flow_frame.rs: it puts the packets of each flow back in order, and
-- gives up on a gap after a while, or when it holds too many packets.
-- The `HashMap` is an association list (no operation depends on its order), the `VecDeque` a list
-- that grows at its end. `push` reads the clock; here the time comes as an argument.
pub mod Pick
pub mod Push
pub mod Bounds
pub mod Order
pub mod Flows
use csqtt_antinet_module.FlowFrame.Header.{FrameHeader}
use csqtt_antinet_module.Prelude.{
  ℕ, zero, suc, ◌+◌, ◌-◌, ◌%◌, ◌^◌, Bool, true, false, not, ◌&&◌, ◌||◌, Option, none, some, List,
  [], ◌∷◌, ◌++◌, ltb, leb, ◌==◌, if◌then◌else◌, length, get_elem?, u32_mod,
}

abbrev pub max_tracked_flows : ℕ
max_tracked_flows = 4096

abbrev pub max_pending_per_flow : ℕ
max_pending_per_flow = 96

abbrev pub max_pending_total : ℕ
max_pending_total = 4096

abbrev pub gap_release_after_ms : ℕ
gap_release_after_ms = 12

-- `wrapping_sub` and `wrapping_add(1)` of `u32`
abbrev pub distance : ℕ → ℕ → ℕ
distance sequence expected = (sequence + u32_mod - expected) % u32_mod

abbrev pub wrapping_next : ℕ → ℕ
wrapping_next n = (n + 1) % u32_mod

abbrev pub is_forward : ℕ → ℕ → Bool
is_forward sequence expected =
    not (sequence == expected) && ltb (distance sequence expected) (2 ^ 31)

abbrev pub nearer : Option (ℕ × ℕ) → Option (ℕ × ℕ) → Option (ℕ × ℕ)
nearer none none = none
nearer none (some (j, e)) = some (suc j, e)
nearer (some (i, d)) none = some (i, d)
nearer (some (i, d)) (some (j, e)) = if leb d e then some (i, d) else some (suc j, e)

abbrev pub is_expired : Option ℕ → ℕ → Bool
is_expired none now_ms = false
is_expired (some started) now_ms = leb gap_release_after_ms (now_ms - started)

abbrev pub is_empty {ℓ} : {A : Type ℓ} → List A → Bool
is_empty [] = true
is_empty (x ∷ xs) = false

pub record ReassemblyKey : Type 0 where
  pub sender_id : ℕ
  pub flow_id : ℕ

abbrev pub key_eq : ReassemblyKey → ReassemblyKey → Bool
key_eq k l = (k.sender_id == l.sender_id) && (k.flow_id == l.flow_id)

pub record Pending {ℓ} (A : Type ℓ) : Type ℓ where
  pub sequence : ℕ
  pub value : A

pub record FlowState {ℓ} (A : Type ℓ) : Type ℓ where
  pub expected : ℕ
  pub gap_started_ms : Option ℕ
  pub pending : List (Pending A)

pub record FlowReassembler {ℓ} (A : Type ℓ) : Type ℓ where
  pub flows : List (ReassemblyKey × FlowState A)
  pub pending_total : ℕ

-- One flow's state, the counter of all flows and the output, during a call of `push_at`.
pub record Work {ℓ} (A : Type ℓ) : Type ℓ where
  pub state : FlowState A
  pub pending_total : ℕ
  pub output : List A

module _ {ℓ} {A : Type ℓ} where
  -- `Vec::swap_remove`: the last element takes the place of the one removed.
  pub last_of : A → List A → A
  last_of x [] = x
  last_of x (y ∷ ys) = last_of y ys

  pub but_last : A → List A → List A
  but_last x [] = []
  but_last x (y ∷ ys) = x ∷ but_last y ys

  pub swap_remove : List A → ℕ → List A
  unfolding last_of but_last
  swap_remove [] i = []
  swap_remove (x ∷ []) zero = []
  swap_remove (x ∷ (y ∷ ys)) zero = last_of y ys ∷ but_last y ys
  swap_remove (x ∷ xs) (suc i) = x ∷ swap_remove xs i

module _ {ℓ} {A : Type ℓ} where
  -- `iter().position(|pending| pending.sequence == q)`
  pub position : ℕ → List (Pending A) → Option ℕ
  position q [] = none
  position q (p ∷ ps) =
      if p.sequence == q
      then some 0
      else elim (position q ps) [ none ↦ none | some i ↦ some (suc i) ]

  -- `iter().any(|pending| pending.sequence == q)`
  pub has_sequence : ℕ → List (Pending A) → Bool
  has_sequence q [] = false
  has_sequence q (p ∷ ps) = (p.sequence == q) || has_sequence q ps

  -- The index and the distance of the pending packet nearest in front of `expected`, the first
  -- such in the vector.
  pub lowest : ℕ → List (Pending A) → Option (ℕ × ℕ)
  lowest expected [] = none
  lowest expected (p ∷ ps) =
      nearer
        (if is_forward p.sequence expected then some (0, distance p.sequence expected) else none)
        (lowest expected ps)

  -- Move a pending packet to the output: the state's vector without it, the next expected number.
  abbrev pub emit : FlowState A → List A → ℕ → Pending A → ℕ → FlowState A × List A
  emit state output i p expected = (
    record state { expected = expected; pending = swap_remove state.pending i },
    output ++ p.value ∷ [],
  )

  -- The loop body; the index comes from `position`, so there is an element.
  abbrev pub drain_one : FlowState A → List A → ℕ → FlowState A × List A
  drain_one state output i = elim (get_elem? state.pending i) [
    | none ↦ (state, output)
    | some p ↦ emit state output i p (wrapping_next state.expected)
  ]

  -- Each round takes an element out, so the vector's length is fuel enough.
  pub drain : ℕ → FlowState A → List A → FlowState A × List A
  drain zero state output = (state, output)
  drain (suc fuel) state output = elim (position state.expected state.pending) [
    | none ↦ (state, output)
    | some i ↦ let (state', output') = drain_one state output i in drain fuel state' output'
  ]

  pub drain_contiguous : FlowState A → List A → FlowState A × List A
  drain_contiguous state output = drain (length state.pending) state output

  -- `gap_started_ms` at the end of `release_lowest`.
  abbrev pub restart_gap : ℕ → FlowState A × List A → FlowState A × List A
  restart_gap now_ms (state, output) = elim state.pending [
    | [] ↦ (state, output)
    | _ ∷ _ ↦ (record state { gap_started_ms = some now_ms }, output)
  ]

  abbrev pub release_at : ℕ → FlowState A → List A → ℕ → FlowState A × List A
  release_at now_ms state output i = elim (get_elem? state.pending i) [
    | none ↦ (state, output)
    | some p ↦
        let (state', output') = emit state output i p (wrapping_next p.sequence) in
        restart_gap now_ms (drain_contiguous (record state' { gap_started_ms = none }) output')
  ]

  pub release_lowest : ℕ → FlowState A → List A → FlowState A × List A
  release_lowest now_ms state output = elim (lowest state.expected state.pending) [
    | none ↦ (record state { gap_started_ms = none }, output)
    | some (i, _) ↦ release_at now_ms state output i
  ]

  pub release_expired : ℕ → FlowState A → List A → FlowState A × List A
  release_expired now_ms state output =
      if is_expired state.gap_started_ms now_ms
      then release_lowest now_ms state output
      else (state, output)

  -- A step on the state, with the counter brought down by as many packets as left the vector.
  pub tracked : (FlowState A → List A → FlowState A × List A) → Work A → Work A
  tracked op w =
      let (state, output) = op w.state w.output in
      record {
        state = state;
        pending_total = w.pending_total - (length w.state.pending - length state.pending);
        output = output;
      }

  -- A packet with the expected number.
  pub deliver : A → Work A → Work A
  deliver value w = tracked drain_contiguous (record w {
    state = record w.state { expected = wrapping_next w.state.expected; gap_started_ms = none };
    output = w.output ++ value ∷ [];
  })

  abbrev pub start_gap : ℕ → FlowState A → FlowState A
  start_gap now_ms state = elim state.gap_started_ms [
    | none ↦ record state { gap_started_ms = some now_ms }
    | some _ ↦ state
  ]

  pub append_pending : ℕ → A → Work A → Work A
  append_pending sequence value w = record w {
    state = record w.state {
      pending = w.state.pending ++ record { sequence = sequence; value = value } ∷ [];
    };
    pending_total = w.pending_total + 1;
  }

  -- Behind `state.pending.push`.
  pub settle : ℕ → Work A → Work A
  settle now_ms w =
      let w' =
        if ltb max_pending_total w.pending_total then tracked (release_lowest now_ms) w else w in
      tracked (release_expired now_ms) (record w' { state = start_gap now_ms w'.state })

  -- The flow at its own limit releases its lowest packet.
  pub shed_flow : ℕ → Work A → Work A
  shed_flow now_ms w =
      if length w.state.pending == max_pending_per_flow
      then tracked (release_lowest now_ms) w
      else w

  -- A packet that is ahead of the expected number and new.
  pub store : ℕ → A → ℕ → Work A → Work A
  store sequence value now_ms w =
      if w.pending_total == max_pending_total
      then if is_empty w.state.pending
        then record w {
          state = record w.state { expected = wrapping_next sequence; gap_started_ms = none };
          output = w.output ++ value ∷ [];
        }
        else settle now_ms (append_pending sequence value (tracked (release_lowest now_ms) w))
      else settle now_ms (append_pending sequence value w)

  pub push_flow : ℕ → A → ℕ → Work A → Work A
  push_flow sequence value now_ms w =
      let w' = tracked (release_expired now_ms) w in
      if sequence == w'.state.expected
      then deliver value w'
      else if not (is_forward sequence w'.state.expected) || has_sequence sequence w'.state.pending
      then w'
      else store sequence value now_ms (shed_flow now_ms w')

  pub lookup_flow : ReassemblyKey → List (ReassemblyKey × FlowState A) → Option (FlowState A)
  lookup_flow k [] = none
  lookup_flow k ((j, state) ∷ flows) = if key_eq j k then some state else lookup_flow k flows

  pub insert_flow :
      ReassemblyKey
      → FlowState A
      → List (ReassemblyKey × FlowState A)
      → List (ReassemblyKey × FlowState A)
  insert_flow k state [] = (k, state) ∷ []
  insert_flow k state ((j, old) ∷ flows) =
      if key_eq j k then (k, state) ∷ flows else (j, old) ∷ insert_flow k state flows

  pub new_state : FlowState A
  new_state = record { expected = 0; gap_started_ms = none; pending = [] }

  pub new : FlowReassembler A
  new = record { flows = []; pending_total = 0 }

  -- A full table that lacks the flow is cleared.
  pub clear_if_full : ReassemblyKey → FlowReassembler A → FlowReassembler A
  clear_if_full k r = elim (lookup_flow k r.flows) [
    | none ↦ if length r.flows == max_tracked_flows then new else r
    | some _ ↦ r
  ]

  -- `entry(key).or_insert_with`
  abbrev pub entry : ReassemblyKey → FlowReassembler A → FlowState A
  entry k r = elim (lookup_flow k r.flows) [ none ↦ new_state | some state ↦ state ]

  pub push_key : ReassemblyKey → ℕ → A → ℕ → FlowReassembler A → List A → FlowReassembler A × List A
  push_key k sequence value now_ms r output =
      let w =
        push_flow sequence value now_ms
          (record { state = entry k r; pending_total = r.pending_total; output = output }) in
      (record { flows = insert_flow k w.state r.flows; pending_total = w.pending_total }, w.output)

  pub push_at : FrameHeader → A → ℕ → FlowReassembler A → List A → FlowReassembler A × List A
  push_at header value now_ms r output =
      let k : ReassemblyKey = record { sender_id = header.sender_id; flow_id = header.flow_id } in
      push_key k header.sequence value now_ms (clear_if_full k r) output
