-- ===== src/FlowFrame/Reassembler/Push.antt =====
-- `push_at` on the packet's own flow: what goes out, what waits, and how much.
use csqtt_antinet_module.FlowFrame.Reassembler.{
  max_pending_total, max_pending_per_flow, is_forward, is_empty, Pending, Work, has_sequence,
  release_lowest, release_expired, tracked, deliver, append_pending, settle, shed_flow, store,
  push_flow,
}
use csqtt_antinet_module.FlowFrame.Reassembler.Order.{release_expired-Releases}
use csqtt_antinet_module.FlowFrame.Reassembler.Bounds.{
  Accounted, HasRoom, Pushed, Pushed-trans, packet, tracked-Pushed, emitted-Pushed, deliver-Pushed,
  append_pending-Pushed, same-Pushed, shed-Pushed, settle-Pushed, total-tracked-le, shed-HasRoom,
  lowest-append, settle-total,
}
use csqtt_antinet_module.Prelude.{
  ℕ, ◌≤◌, ◌≡◌, refl, inl, inr, Bool, true, false, not, ◌&&◌, ◌||◌, List, [], ◌∷◌, arith, ◌==◌,
  if◌then◌else◌, Bool-cases, length,
}

module _ {ℓ} {A : Type ℓ} where
  -- The packet is the expected one, or ahead and not yet there, after the release of a gap that
  -- lasted too long.
  abbrev pub accepts : ℕ → ℕ → Work A → Bool
  accepts q now w =
      let w' = tracked (release_expired now) w in
      (q == w'.state.expected)
      || (is_forward q w'.state.expected && not (has_sequence q w'.state.pending))

  abbrev pub arrival : ℕ → A → ℕ → Work A → List (Pending A)
  arrival q v now w = if accepts q now w then packet q v ∷ [] else []

  append_settle :
      (q : ℕ) (v : A) (now : ℕ) (w : Work A) (others : ℕ)
      → Accounted others w
      → HasRoom q w
      → Pushed (packet q v ∷ []) w (settle now (append_pending q v w))
        × ((settle now (append_pending q v w)).pending_total ≤ max_pending_total)
  append_settle q v now w others a room =
      let m = append_pending q v w in
      let first = append_pending-Pushed q v w in
      (
        Pushed-trans (packet q v ∷ []) [] w m (settle now m) first (settle-Pushed now m),
        settle-total now m others (first.accounted others a)
            (unfold append_pending in omega (arith, room.0))
            (unfold append_pending in
              λ e.
                lowest-append w.state.expected w.state.pending (packet q v) (room.1 (omega arith))),
      )

  store-Pushed :
      (q : ℕ) (v : A) (now : ℕ) (w : Work A) (others : ℕ)
      → Accounted others w
      → HasRoom q w
      → Pushed (packet q v ∷ []) w (store q v now w)
        × ((store q v now w).pending_total ≤ max_pending_total)
  unfolding store
  store-Pushed q v now w others a room = elim (Bool-cases (w.pending_total == max_pending_total)) [
    | inr below ↦ rw (below, store) (append_settle q v now w others a room)
    | inl full ↦ elim (Bool-cases (is_empty w.state.pending)) [
      | inl empty ↦
          rw (full, empty, store)
            (
              emitted-Pushed q v w
                  (let forward : is_forward q w.state.expected ≡ true = room.1 (ground arith) in
                    ground arith)
                  refl,
              room.0,
            )
      | inr waiting ↦
          let m = tracked (release_lowest now) w in
          let shed = shed-Pushed now w in
          let (pushed, le) =
            append_settle q v now m others (shed.accounted others a)
              (shed-HasRoom now q w others a room) in
          rw (full, waiting, store)
            (
              Pushed-trans [] (packet q v ∷ []) w m (settle now (append_pending q v m)) shed pushed,
              le,
            )
    ]
  ]

  shed_flow-Pushed :
      (now q : ℕ) (w : Work A) (others : ℕ)
      → Accounted others w
      → HasRoom q w
      → Pushed [] w (shed_flow now w) × HasRoom q (shed_flow now w)
  unfolding shed_flow
  shed_flow-Pushed now q w others a room =
      elim (Bool-cases (length w.state.pending == max_pending_per_flow)) [
        | inl full ↦ rw (full, shed_flow) (shed-Pushed now w, shed-HasRoom now q w others a room)
        | inr below ↦ rw (below, shed_flow) (same-Pushed w w.state refl refl, room)
      ]

  deliver-total : (v : A) (w : Work A) → (deliver v w).pending_total ≤ w.pending_total
  unfolding deliver tracked
  deliver-total v w = omega arith

  -- The three ways of a call, by the outcomes of its tests.
  choose-Pushed :
      (q : ℕ) (v : A) (w stored : Work A) (expected forward waiting : Bool)
      → w.pending_total ≤ max_pending_total
      → (expected ≡ true → q ≡ w.state.expected)
      → (forward ≡ true
          → Pushed (packet q v ∷ []) w stored × (stored.pending_total ≤ max_pending_total))
      → Pushed
          (if expected || (forward && not waiting) then packet q v ∷ [] else [])
          w
          (if expected then deliver v w else if not forward || waiting then w else stored)
        × ((if expected
              then deliver v w
              else if not forward || waiting
              then w
              else stored).pending_total
            ≤ max_pending_total)
  choose-Pushed q v w stored true f h le e s =
      (deliver-Pushed q v w (e refl), omega (arith, deliver-total v w))
  choose-Pushed q v w stored false true true le e s = (same-Pushed w w.state refl refl, le)
  choose-Pushed q v w stored false true false le e s = s refl
  choose-Pushed q v w stored false false true le e s = (same-Pushed w w.state refl refl, le)
  choose-Pushed q v w stored false false false le e s = (same-Pushed w w.state refl refl, le)

  shed_store-Pushed :
      (q : ℕ) (v : A) (now : ℕ) (w : Work A) (others : ℕ)
      → Accounted others w
      → HasRoom q w
      → Pushed (packet q v ∷ []) w (store q v now (shed_flow now w))
        × ((store q v now (shed_flow now w)).pending_total ≤ max_pending_total)
  shed_store-Pushed q v now w others a room =
      let m = shed_flow now w in
      let (shed, room') = shed_flow-Pushed now q w others a room in
      let (stored, le) = store-Pushed q v now m others (shed.accounted others a) room' in
      (Pushed-trans [] (packet q v ∷ []) w m (store q v now m) shed stored, le)

  -- A call for a flow: the packets that go out have ascending numbers from the expected number on
  -- up to the new expected number; together with the packets that wait afterwards they are those
  -- that waited before and the new packet, if it is accepted, each as often; the counter stays
  -- exact and at most 4096.
  pub push_flow_lem :
      (q : ℕ) (v : A) (now : ℕ) (w : Work A) (others : ℕ)
      → Accounted others w
      → w.pending_total ≤ max_pending_total
      → Pushed (arrival q v now w) w (push_flow q v now w)
        × ((push_flow q v now w).pending_total ≤ max_pending_total)
  unfolding push_flow
  push_flow_lem q v now w others a le =
      let m = tracked (release_expired now) w in
      let first =
        tracked-Pushed (release_expired now) w (release_expired-Releases now w.state w.output) in
      let le' : m.pending_total ≤ max_pending_total =
        omega (arith, total-tracked-le (release_expired now) w) in
      let (pushed, bound) =
        choose-Pushed q v m (store q v now (shed_flow now m)) (q == m.state.expected)
          (is_forward q m.state.expected) (has_sequence q m.state.pending) le' (λ e. ground arith)
          (λ f. shed_store-Pushed q v now m others (first.accounted others a) (le', λ full. f)) in
      (Pushed-trans [] (arrival q v now w) w m (push_flow q v now w) first pushed, bound)
