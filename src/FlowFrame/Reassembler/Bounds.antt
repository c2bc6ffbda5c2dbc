-- ===== src/FlowFrame/Reassembler/Bounds.antt =====
-- One call of `push_at`, as far as it concerns the packet's own flow.
use mathlib.Core.List.{append-nil, append_assoc}
use csqtt_antinet_module.FlowFrame.Reassembler.{
  max_pending_total, distance, wrapping_next, is_forward, Pending, FlowState, Work, lowest,
  drain_contiguous, release_lowest, release_expired, tracked, deliver, start_gap, append_pending,
  settle,
}
use csqtt_antinet_module.FlowFrame.Reassembler.Pick.{count_if, lowest-none}
use csqtt_antinet_module.FlowFrame.Reassembler.Order.{
  Ascending, Ascending-append, values, values-append, count_if-append, Releases,
  drain_contiguous-Releases, release_lowest-Releases, release_expired-Releases, length-Releases,
  release_lowest-cases,
}
use csqtt_antinet_module.Prelude.{
  ℕ, ◌+◌, ◌^◌, ◌≤◌, ◌<◌, ◌≡◌, refl, sym, ◌∙◌, ◌≢◌, inl, inr, Bool, true, false, none, List, [], ◌∷◌,
  ◌++◌, arith, ltb, if◌then◌else◌, Bool-cases, length, length-append, All,
}

module _ {ℓ} {A : Type ℓ} where
  -- The counter is the packets of the other flows and those of this one.
  abbrev pub Accounted : ℕ → Work A → Type 0
  Accounted others w = w.pending_total ≡ others + length w.state.pending

  -- No more than 4096 packets wait, and at that limit the number is one ahead of the expected one.
  abbrev pub HasRoom : ℕ → Work A → Type 0
  HasRoom q w =
      (w.pending_total ≤ max_pending_total)
      × (w.pending_total ≡ max_pending_total → is_forward q w.state.expected ≡ true)

-- What a call did to the flow: some packets went out in ascending order; they and the packets that
-- wait afterwards are those that waited before and those that arrived, as often.
pub record Pushed {ℓ} {A : Type ℓ} (arrived : List (Pending A)) (w w' : Work A) : Type ℓ where
  pub packets : List (Pending A)
  pub ascending : Ascending w.state.expected packets w'.state.expected
  pub released : w'.output ≡ w.output ++ values packets
  pub kept :
      (test : Pending A → Bool)
      → count_if test packets + count_if test w'.state.pending
        ≡ count_if test w.state.pending + count_if test arrived
  pub accounted : (others : ℕ) → Accounted others w → Accounted others w'

module _ {ℓ} {A : Type ℓ} where
  pub Pushed-trans :
      (ps qs : List (Pending A)) (w m r : Work A)
      → Pushed ps w m
      → Pushed qs m r
      → Pushed (ps ++ qs) w r
  Pushed-trans ps qs w m r h k = record {
    packets = h.packets ++ k.packets;
    ascending =
        Ascending-append w.state.expected h.packets k.packets m.state.expected r.state.expected
          h.ascending k.ascending;
    released =
        k.released
        ∙ rw (h.released, values-append h.packets k.packets)
            (append_assoc w.output (values h.packets) (values k.packets));
    kept = λ test. omega (
      arith,
      count_if-append test h.packets k.packets,
      count_if-append test ps qs,
      h.kept test,
      k.kept test,
    );
    accounted = λ others a. k.accounted others (h.accounted others a);
  }

  -- A release under the counter's adjustment.
  pub tracked-Pushed :
      (op : FlowState A → List A → FlowState A × List A) (w : Work A)
      → Releases w.state w.output (op w.state w.output)
      → Pushed [] w (tracked op w)
  unfolding tracked
  tracked-Pushed op w h = record {
    packets = h.packets;
    ascending = h.ascending;
    released = h.released;
    kept = λ test. omega (arith, h.kept test);
    accounted = λ others a. omega (arith, length-Releases w.state w.output (op w.state w.output) h);
  }

  abbrev pub packet : ℕ → A → Pending A
  packet q v = record { sequence = q; value = v }

  -- A packet that goes out with no stay in the vector.
  pub emitted-Pushed :
      (q : ℕ) (v : A) (w : Work A) {expected : ℕ}
      → distance q w.state.expected < 2 ^ 31
      → wrapping_next q ≡ expected
      → Pushed (packet q v ∷ []) w (record w {
        state = record w.state { expected = expected; gap_started_ms = none };
        output = w.output ++ v ∷ [];
      })
  emitted-Pushed q v w near e = record {
    packets = packet q v ∷ [];
    ascending = (near, e);
    released = refl;
    kept = λ test. omega arith;
    accounted = λ others a. a;
  }

  -- A packet with the expected number goes out at once.
  pub deliver-Pushed :
      (q : ℕ) (v : A) (w : Work A) → q ≡ w.state.expected → Pushed (packet q v ∷ []) w (deliver v w)
  unfolding deliver
  deliver-Pushed q v w e =
      let m : Work A = record w {
        state = record w.state { expected = wrapping_next w.state.expected; gap_started_ms = none };
        output = w.output ++ v ∷ [];
      } in
      Pushed-trans (packet q v ∷ []) [] w m (tracked drain_contiguous m)
        (emitted-Pushed q v w (omega arith) (omega arith))
        (tracked-Pushed drain_contiguous m (drain_contiguous-Releases m.state m.output))

  pub append_pending-Pushed :
      (q : ℕ) (v : A) (w : Work A) → Pushed (packet q v ∷ []) w (append_pending q v w)
  unfolding append_pending
  append_pending-Pushed q v w = record {
    packets = [];
    ascending = refl;
    released = sym (append-nil w.output);
    kept = λ test. omega (arith, count_if-append test w.state.pending (packet q v ∷ []));
    accounted = λ others a. omega (arith, length-append w.state.pending (packet q v ∷ []));
  }

  pub same-Pushed :
      (w : Work A) (state : FlowState A)
      → state.expected ≡ w.state.expected
      → state.pending ≡ w.state.pending
      → Pushed [] w (record w { state = state })
  same-Pushed w state e p = record {
    packets = [];
    ascending = sym e;
    released = sym (append-nil w.output);
    kept = λ test. rw p (omega arith);
    accounted = λ others a. rw p a;
  }

  start_gap_fields :
      (now : ℕ) (state : FlowState A)
      → ((start_gap now state).expected ≡ state.expected)
        × ((start_gap now state).pending ≡ state.pending)
  start_gap_fields now state = ground arith

  gap-Pushed : (now : ℕ) (w : Work A) → Pushed [] w (record w { state = start_gap now w.state })
  gap-Pushed now w =
      let (e, p) = start_gap_fields now w.state in same-Pushed w (start_gap now w.state) e p

  pub shed-Pushed : (now : ℕ) (w : Work A) → Pushed [] w (tracked (release_lowest now) w)
  shed-Pushed now w =
      tracked-Pushed (release_lowest now) w (release_lowest-Releases now w.state w.output)

  shed_if-Pushed :
      (test : Bool) (now : ℕ) (w : Work A)
      → Pushed [] w (if test then tracked (release_lowest now) w else w)
  shed_if-Pushed true now w = shed-Pushed now w
  shed_if-Pushed false now w = same-Pushed w w.state refl refl

  pub settle-Pushed : (now : ℕ) (w : Work A) → Pushed [] w (settle now w)
  unfolding settle
  settle-Pushed now w =
      let w' =
        if ltb max_pending_total w.pending_total then tracked (release_lowest now) w else w in
      let w'' : Work A = record w' { state = start_gap now w'.state } in
      Pushed-trans [] [] w w' (tracked (release_expired now) w'')
        (shed_if-Pushed (ltb max_pending_total w.pending_total) now w)
        (Pushed-trans [] [] w' w'' (tracked (release_expired now) w'') (gap-Pushed now w') (
          tracked-Pushed (release_expired now) w''
            (release_expired-Releases now w''.state w''.output)))

  pub total-tracked-le :
      (op : FlowState A → List A → FlowState A × List A) (w : Work A)
      → (tracked op w).pending_total ≤ w.pending_total
  unfolding tracked
  total-tracked-le op w = omega arith

  total-tracked-lt :
      (op : FlowState A → List A → FlowState A × List A) (w : Work A) (others : ℕ)
      → Accounted others w
      → length (op w.state w.output).0.pending < length w.state.pending
      → (tracked op w).pending_total < w.pending_total
  unfolding tracked
  total-tracked-lt op w others a h = omega arith

  pub shed-HasRoom :
      (now q : ℕ) (w : Work A) (others : ℕ)
      → Accounted others w
      → HasRoom q w
      → HasRoom q (tracked (release_lowest now) w)
  shed-HasRoom now q w others a room = elim (release_lowest-cases now w.state w.output) [
    | inl same ↦ unfold tracked in rw same.1 (omega (arith, room.0), λ e. room.1 (omega arith))
    | inr less ↦
        let lt : (tracked (release_lowest now) w).pending_total < w.pending_total =
          total-tracked-lt (release_lowest now) w others a less in
        let le : w.pending_total ≤ max_pending_total = room.0 in
        (omega arith, λ e. absurd (omega arith))
  ]

  All-last {κ} :
      (P : Pending A → Type κ) (ps : List (Pending A)) (p : Pending A) → All P (ps ++ p ∷ []) → P p
  All-last P [] p h = h.0
  All-last P (x ∷ ps) p h = All-last P ps p h.1

  pub lowest-append :
      (expected : ℕ) (ps : List (Pending A)) (p : Pending A)
      → is_forward p.sequence expected ≡ true
      → lowest expected (ps ++ p ∷ []) ≢ none
  lowest-append expected ps p forward h =
      let behind : is_forward p.sequence expected ≡ false =
        All-last (λ x. is_forward x.sequence expected ≡ false) ps p
          (lowest-none expected (ps ++ p ∷ []) h) in
      cc

  -- Releasing when the counter is one too high brings it back, if some packet is ahead.
  shed_if-total :
      (now : ℕ) (w : Work A) (others : ℕ)
      → Accounted others w
      → w.pending_total ≤ max_pending_total + 1
      → (w.pending_total ≡ max_pending_total + 1 → lowest w.state.expected w.state.pending ≢ none)
      → (if ltb max_pending_total w.pending_total
          then tracked (release_lowest now) w
          else w).pending_total
        ≤ max_pending_total
  shed_if-total now w others a le ahead =
      elim (Bool-cases (ltb max_pending_total w.pending_total)) [
        | inl over ↦ rw over (elim (release_lowest-cases now w.state w.output) [
          | inl same ↦ absurd (ahead (ground arith) same.0)
          | inr less ↦ omega (arith, total-tracked-lt (release_lowest now) w others a less)
        ])
        | inr fits ↦ rw fits (ground arith)
      ]

  pub settle-total :
      (now : ℕ) (w : Work A) (others : ℕ)
      → Accounted others w
      → w.pending_total ≤ max_pending_total + 1
      → (w.pending_total ≡ max_pending_total + 1 → lowest w.state.expected w.state.pending ≢ none)
      → (settle now w).pending_total ≤ max_pending_total
  unfolding settle
  settle-total now w others a le ahead =
      let w' =
        if ltb max_pending_total w.pending_total then tracked (release_lowest now) w else w in
      let w'' : Work A = record w' { state = start_gap now w'.state } in
      omega
        (arith, total-tracked-le (release_expired now) w'', shed_if-total now w others a le ahead)
