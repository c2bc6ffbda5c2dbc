-- ===== src/FlowFrame/Reassembler/Order.antt =====
-- The operations that move pending packets of a flow to the output.
use mathlib.Core.List.{append-nil, append_assoc}
use mathlib.Core.Path.{subst}
use csqtt_antinet_module.FlowFrame.Reassembler.{
  distance, wrapping_next, is_expired, Pending, FlowState, position, lowest, emit, drain_one, drain,
  drain_contiguous, restart_gap, release_at, release_lowest, release_expired,
}
use csqtt_antinet_module.FlowFrame.Reassembler.Pick.{
  count_if, count_if-swap_remove, length-swap_remove, position-some, lowest-some,
}
use csqtt_antinet_module.Prelude.{
  ℕ, zero, suc, ◌+◌, ◌^◌, ◌≤◌, ◌<◌, ◌≡◌, refl, sym, ap, ◌⊎◌, inl, inr, Bool, true, Option, none,
  some, List, [], ◌∷◌, ◌++◌, arith, Bool-cases, Option-cases, length, get_elem?,
}

module _ {ℓ} {A : Type ℓ} where
  -- Each packet has the number that is expected next or one less than 2 ^ 31 ahead of it, and the
  -- number behind it is expected then: no packet is behind one that went before it.
  abbrev pub Ascending : ℕ → List (Pending A) → ℕ → Type 0
  Ascending expected [] last = expected ≡ last
  Ascending expected (p ∷ ps) last =
      (distance p.sequence expected < 2 ^ 31) × Ascending (wrapping_next p.sequence) ps last

  abbrev pub values : List (Pending A) → List A
  values [] = []
  values (p ∷ ps) = p.value ∷ values ps

module _ {ℓ} {A : Type ℓ} where
  pub Ascending-append :
      (e : ℕ) (ps qs : List (Pending A)) (f g : ℕ)
      → Ascending e ps f
      → Ascending f qs g
      → Ascending e (ps ++ qs) g
  Ascending-append e [] qs f g h k = rw h k
  Ascending-append e (p ∷ ps) qs f g h k =
      (h.0, Ascending-append (wrapping_next p.sequence) ps qs f g h.1 k)

  pub values-append : (ps qs : List (Pending A)) → values (ps ++ qs) ≡ values ps ++ values qs
  values-append [] qs = refl
  values-append (p ∷ ps) qs = ap (λ t. p.value ∷ t) (values-append ps qs)

  pub count_if-append :
      (test : Pending A → Bool) (ps qs : List (Pending A))
      → count_if test (ps ++ qs) ≡ count_if test ps + count_if test qs
  count_if-append test [] qs = omega arith
  count_if-append test (p ∷ ps) qs = omega (arith, count_if-append test ps qs)

  pub count_if-true : (ps : List (Pending A)) → count_if (λ p. true) ps ≡ length ps
  count_if-true [] = refl
  count_if-true (p ∷ ps) = omega (arith, count_if-true ps)

-- From one state and output to another: the packets that moved to the output, in order, are those
-- that the vector lost, as often.
pub record Releases {ℓ} {A : Type ℓ} (s : FlowState A) (out : List A) (r : FlowState A × List A)
    : Type ℓ where
  pub packets : List (Pending A)
  pub ascending : Ascending s.expected packets r.0.expected
  pub released : r.1 ≡ out ++ values packets
  pub kept :
      (test : Pending A → Bool)
      → count_if test packets + count_if test r.0.pending ≡ count_if test s.pending

module _ {ℓ} {A : Type ℓ} where
  pub Releases-refl :
      (s : FlowState A) (out : List A) (gap : Option ℕ)
      → Releases s out (record s { gap_started_ms = gap }, out)
  Releases-refl s out gap = record {
    packets = [];
    ascending = refl;
    released = sym (append-nil out);
    kept = λ test. omega arith;
  }

  pub Releases-trans :
      (s : FlowState A) (out : List A) (m r : FlowState A × List A)
      → Releases s out m
      → Releases m.0 m.1 r
      → Releases s out r
  Releases-trans s out m r h k = record {
    packets = h.packets ++ k.packets;
    ascending =
        Ascending-append s.expected h.packets k.packets m.0.expected r.0.expected h.ascending
          k.ascending;
    released =
        rw (k.released, h.released, values-append h.packets k.packets)
          (append_assoc out (values h.packets) (values k.packets));
    kept =
        λ test. omega (arith, count_if-append test h.packets k.packets, h.kept test, k.kept test);
  }

  pub Releases-emit :
      (s : FlowState A) (out : List A) (i : ℕ) (p : Pending A)
      → get_elem? s.pending i ≡ some p
      → distance p.sequence s.expected < 2 ^ 31
      → Releases s out (emit s out i p (wrapping_next p.sequence))
  Releases-emit s out i p e near = record {
    packets = p ∷ [];
    ascending = (near, refl);
    released = refl;
    kept = λ test. omega (arith, count_if-swap_remove test s.pending i e);
  }

  drain_one-Releases :
      (s : FlowState A) (out : List A) (i : ℕ)
      → position s.expected s.pending ≡ some i
      → Releases s out (drain_one s out i)
  drain_one-Releases s out i h =
      let (p, e, q) = position-some s.expected s.pending h in
      let next : wrapping_next p.sequence ≡ wrapping_next s.expected = omega arith in
      rw (e, drain_one)
        (subst (λ (n : ℕ). Releases s out (emit s out i p n)) next
          (Releases-emit s out i p e (omega arith)))

  drain-Releases : (fuel : ℕ) (s : FlowState A) (out : List A) → Releases s out (drain fuel s out)
  unfolding drain
  drain-Releases zero s out = Releases-refl s out s.gap_started_ms
  drain-Releases (suc fuel) s out = elim (Option-cases (position s.expected s.pending)) [
    | inl none_left ↦ rw (none_left, drain) (Releases-refl s out s.gap_started_ms)
    | inr found ↦
        let r = drain_one s out found.0 in
        rw (found.1, drain)
          (Releases-trans s out r (drain fuel r.0 r.1) (drain_one-Releases s out found.0 found.1)
            (drain-Releases fuel r.0 r.1))
  ]

  -- Draining moves packets out in ascending order.
  pub drain_contiguous-Releases :
      (s : FlowState A) (out : List A) → Releases s out (drain_contiguous s out)
  unfolding drain_contiguous
  drain_contiguous-Releases s out = drain-Releases (length s.pending) s out

  restart_gap-Releases :
      (s : FlowState A) (out : List A) (now : ℕ) (ps : List (Pending A)) (r : FlowState A × List A)
      → r.0.pending ≡ ps
      → Releases s out r
      → Releases s out (restart_gap now r)
  restart_gap-Releases s out now [] r e h = rw (e, restart_gap) h
  restart_gap-Releases s out now (p ∷ ps) r e h =
      rw (e, restart_gap)
        (record {
          packets = h.packets;
          ascending = h.ascending;
          released = h.released;
          kept = h.kept;
        })

  release_at-Releases :
      (now : ℕ) (s : FlowState A) (out : List A) (i : ℕ) (p : Pending A)
      → get_elem? s.pending i ≡ some p
      → distance p.sequence s.expected < 2 ^ 31
      → Releases s out (release_at now s out i)
  release_at-Releases now s out i p e near =
      let one = emit s out i p (wrapping_next p.sequence) in
      let fresh : FlowState A = record one.0 { gap_started_ms = none } in
      let first : Releases s out one = Releases-emit s out i p e near in
      let start : Releases s out (fresh, one.1) = record {
        packets = first.packets;
        ascending = first.ascending;
        released = first.released;
        kept = first.kept;
      } in
      let r = drain_contiguous fresh one.1 in
      rw (e, release_at)
        (restart_gap-Releases s out now r.0.pending r refl
          (Releases-trans s out (fresh, one.1) r start (drain_contiguous-Releases fresh one.1)))

  -- Releasing the lowest packet moves packets out in ascending order.
  pub release_lowest-Releases :
      (now : ℕ) (s : FlowState A) (out : List A) → Releases s out (release_lowest now s out)
  unfolding release_lowest
  release_lowest-Releases now s out = elim (Option-cases (lowest s.expected s.pending)) [
    | inl nothing ↦ rw (nothing, release_lowest) (Releases-refl s out none)
    | inr found ↦
        let (p, e, forward) = lowest-some s.expected s.pending found.1 in
        rw (found.1, release_lowest) (release_at-Releases now s out found.0.0 p e (ground arith))
  ]

  -- So does the release after a gap that lasted too long, or nothing happens.
  pub release_expired-Releases :
      (now : ℕ) (s : FlowState A) (out : List A) → Releases s out (release_expired now s out)
  unfolding release_expired
  release_expired-Releases now s out = elim (Bool-cases (is_expired s.gap_started_ms now)) [
    | inl late ↦ rw (late, release_expired) (release_lowest-Releases now s out)
    | inr early ↦ rw (early, release_expired) (Releases-refl s out s.gap_started_ms)
  ]

  pub length-Releases :
      (s : FlowState A) (out : List A) (r : FlowState A × List A)
      → Releases s out r
      → length r.0.pending ≤ length s.pending
  length-Releases s out r h = omega (
    arith,
    h.kept (λ p. true),
    count_if-true h.packets,
    count_if-true r.0.pending,
    count_if-true s.pending,
  )

  pending-restart_gap :
      (now : ℕ) (ps : List (Pending A)) (r : FlowState A × List A)
      → r.0.pending ≡ ps
      → (restart_gap now r).0.pending ≡ r.0.pending
  pending-restart_gap now [] r e = rw (e, restart_gap) e
  pending-restart_gap now (p ∷ ps) r e = rw (e, restart_gap) e

  release_at-shrinks :
      (now : ℕ) (s : FlowState A) (out : List A) (i : ℕ) (p : Pending A)
      → get_elem? s.pending i ≡ some p
      → length (release_at now s out i).0.pending < length s.pending
  release_at-shrinks now s out i p e =
      let one = emit s out i p (wrapping_next p.sequence) in
      let fresh : FlowState A = record one.0 { gap_started_ms = none } in
      let r = drain_contiguous fresh one.1 in
      rw (e, release_at)
        (omega (
          arith,
          ap (λ (ps : List (Pending A)). length ps) (pending-restart_gap now r.0.pending r refl),
          length-Releases fresh one.1 r (drain_contiguous-Releases fresh one.1),
          length-swap_remove s.pending i e,
        ))

  -- With no packet ahead nothing is released; otherwise the vector gets shorter.
  pub release_lowest-cases :
      (now : ℕ) (s : FlowState A) (out : List A)
      → ((lowest s.expected s.pending ≡ none)
          × (release_lowest now s out ≡ (record s { gap_started_ms = none }, out)))
        ⊎ (length (release_lowest now s out).0.pending < length s.pending)
  unfolding release_lowest
  release_lowest-cases now s out = elim (Option-cases (lowest s.expected s.pending)) [
    | inl nothing ↦ inl (nothing, rw (nothing, release_lowest) refl)
    | inr found ↦
        let (p, e, forward) = lowest-some s.expected s.pending found.1 in
        inr (rw (found.1, release_lowest) (release_at-shrinks now s out found.0.0 p e))
  ]
