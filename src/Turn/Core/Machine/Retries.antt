-- ===== src/Turn/Core/Machine/Retries.antt =====
-- What a turn of the loop of `expire_transactions` does with the request at its index.
use mathlib.Core.Path.{subst}
use csqtt_antinet_module.Turn.Core.State.{
  timeout, TurnControlTransport, datagram, stream, Pending, Inner, max_transmissions, retained,
  queue_packet, remove_queued_transaction,
}
use csqtt_antinet_module.Turn.Core.Completion.{
  complete_failure, remove_at, is_stream, expire_one, expire_loop,
}
use csqtt_antinet_module.Prelude.{
  ℕ, zero, suc, ◌+◌, ◌*◌, ◌≤◌, ◌<◌, min, ◌≡◌, refl, sym, ap, ◌⊎◌, inl, inr, Bool, true, false, ◌||◌,
  none, some, List, [], ◌∷◌, ◌++◌, arith, ltb, leb, ltb→lt, ltb→le, Bool-cases, length, get_elem?,
  set, length-append,
}

-- The request with one transmission more and twice the timeout, 1600 milliseconds at most, which
-- starts now.
abbrev pub again : (now : ℕ) → Pending → Pending
again now p = record p {
  transmissions = p.transmissions + 1;
  rto = min (p.rto * 2) 1600;
  next_attempt = now + min (p.rto * 2) 1600;
}

pub at_middle :
    (done todo : List Pending) (p : Pending) → get_elem? (done ++ (p ∷ todo)) (length done) ≡ some p
at_middle [] todo p = refl
at_middle (d ∷ done) todo p = at_middle done todo p

pub past_end : (done : List Pending) → get_elem? (done ++ []) (length done) ≡ none
past_end [] = refl
past_end (d ∷ done) = past_end done

pub remove_middle :
    (done todo : List Pending) (p : Pending)
    → remove_at (length done) (done ++ (p ∷ todo)) ≡ done ++ todo
unfolding remove_at
remove_middle [] todo p = refl
remove_middle (d ∷ done) todo p = ap (λ l. d ∷ l) (remove_middle done todo p)

pub set_middle :
    (done todo : List Pending) (p r : Pending)
    → set (done ++ (p ∷ todo)) (length done) r ≡ done ++ (r ∷ todo)
set_middle [] todo p r = refl
set_middle (d ∷ done) todo p r = ap (λ l. d ∷ l) (set_middle done todo p r)

pub index_after : (done : List Pending) (p : Pending) → length done + 1 ≡ length (done ++ (p ∷ []))
index_after done p = omega (arith, length-append done (p ∷ []))

pub loop-stops :
    (fuel now i : ℕ) (u : Inner) → get_elem? u.pending i ≡ none → expire_loop fuel now i u ≡ u
unfolding expire_loop
loop-stops zero now i u e = refl
loop-stops (suc fuel) now i u e = rw (expire_loop, e) refl

pub loop-goes_on :
    (fuel now i : ℕ) (p : Pending) (s : Inner)
    → get_elem? s.pending i ≡ some p
    → expire_loop (suc fuel) now i s
      ≡ expire_loop fuel now (expire_one now i p s).1 (expire_one now i p s).0
unfolding expire_loop
loop-goes_on fuel now i p s e = rw (expire_loop, e) refl

pub loop-empty : (fuel now i : ℕ) (u : Inner) → u.pending ≡ [] → expire_loop fuel now i u ≡ u
loop-empty fuel now i u e = loop-stops fuel now i u (subst (λ l. get_elem? l i ≡ none) (sym e) refl)

-- The request at the index `i`, and what a turn makes of it.
unfoldable pub give_up : (i now : ℕ) → Pending → Inner → Inner
give_up i now p s =
    complete_failure p.operation timeout 0 now
      (record s { controls = retained p.transaction s.controls; pending = remove_at i s.pending })

is_given_up : (c d : Bool) → c || d ≡ true → (c ≡ true) ⊎ (d ≡ true)
is_given_up true d h = inl refl
is_given_up false d h = inr h

is_kept : (c d : Bool) → c || d ≡ false → (c ≡ false) × (d ≡ false)
is_kept false d h = (refl, h)
is_kept true d h = absurd (cc)

stream_of : (t : TurnControlTransport) → is_stream t ≡ true → t ≡ stream
stream_of stream h = refl
stream_of datagram h = absurd (cc)

datagram_of : (t : TurnControlTransport) → is_stream t ≡ false → t ≡ datagram
datagram_of datagram h = refl
datagram_of stream h = absurd (cc)

-- The cases of a turn, with the reasons for them.
pub one-cases :
    (now i : ℕ) (p : Pending) (s : Inner)
    → ((now < p.next_attempt) × (expire_one now i p s ≡ (s, i + 1)))
      ⊎ ((p.next_attempt ≤ now)
          × (((p.transmissions < 7)
                × ((s.transport ≡ datagram)
                    × (expire_one now i p s ≡ (
                      record (queue_packet p.packet s) { pending = set s.pending i (again now p) },
                      i + 1,
                    ))))
              ⊎ (((7 ≤ p.transmissions) ⊎ (s.transport ≡ stream))
                  × (expire_one now i p s ≡ (give_up i now p s, i)))))
unfolding expire_one give_up remove_queued_transaction
one-cases now i p s = elim (Bool-cases (ltb now p.next_attempt)) [
  | inl a ↦ inl (ltb→lt now p.next_attempt a, rw (expire_one, a) refl)
  | inr a ↦ inr (
    ltb→le now p.next_attempt a,
    elim (Bool-cases (leb max_transmissions p.transmissions || is_stream s.transport)) [
      | inl b ↦ inr (
        elim (is_given_up (leb max_transmissions p.transmissions) (is_stream s.transport) b) [
          | inl many ↦ inl (ground arith)
          | inr on ↦ inr (stream_of s.transport on)
        ],
        rw (expire_one, a, b) refl,
      )
      | inr b ↦
          let (few, off) =
            is_kept (leb max_transmissions p.transmissions) (is_stream s.transport) b in
          inl (ground arith, (datagram_of s.transport off, rw (expire_one, a, b) refl))
    ],
  )
]

-- Where the loop goes on after a turn.
pub follow :
    (fuel now i j : ℕ) (p : Pending) (s u : Inner)
    → expire_one now i p s ≡ (u, j)
    → expire_loop fuel now (expire_one now i p s).1 (expire_one now i p s).0
      ≡ expire_loop fuel now j u
follow fuel now i j p s u r = ap (λ (x : Inner × ℕ). expire_loop fuel now x.1 x.0) r
