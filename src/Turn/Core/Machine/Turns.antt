-- ===== src/Turn/Core/Machine/Turns.antt =====
-- What `expire_transactions` does with each request, one after the other.
use mathlib.Core.Path.{subst}
use mathlib.Core.List.{append_assoc, append-nil}
use csqtt_antinet_module.Turn.Core.State.{
  timeout, datagram, stream, Pending, Control, Inner, retained, queue_packet,
}
use csqtt_antinet_module.Turn.Core.Completion.{
  complete_failure, remove_at, expire_loop, expire_transactions,
}
use csqtt_antinet_module.Turn.Core.Machine.{IsValid}
use csqtt_antinet_module.Turn.Core.Machine.Expiry.{complete_failure-pending}
use csqtt_antinet_module.Turn.Core.Machine.Timeouts.{expire_transactions-IsValid}
use csqtt_antinet_module.Prelude.{
  ltb→le, ltb→lt, ltb, All, ◌∙◌, ℕ, zero, suc, ◌+◌, ◌≤◌, ◌<◌, ◌≡◌, refl, sym, ap, ◌≢◌, ◌⊎◌, inl,
  inr, none, some, List, [], ◌∷◌, ◌++◌, arith, ◌==◌, if◌then◌else◌, Bool-cases, length, get_elem?,
  set, drop, Bytes,
}
use csqtt_antinet_module.Turn.Core.Machine.Reports.{IsReported, complete_failure-IsReported}
use csqtt_antinet_module.Turn.Core.Machine.Retries.{
  again, at_middle, past_end, remove_middle, set_middle, index_after, loop-stops, loop-goes_on,
  loop-empty, give_up, one-cases, follow,
}

-- The packet is put last in the queue of 16, which gives up its oldest when it is full; apart from
-- the requests, which are given, and the events, all else is as before.
pub record IsSent (packet : Bytes) (pending : List Pending) (s u : Inner) : Type 0 where
  pub kept : List Control
  pub room :
      ((length s.controls ≢ 16) × (kept ≡ s.controls))
      ⊎ ((length s.controls ≡ 16) × (kept ≡ drop 1 s.controls))
  pub sent : u ≡ record s {
    controls = kept ++ (record { packet = packet; destination = s.server } ∷ []);
    events = u.events;
    pending = pending;
  }

-- After the events of `s` comes one that says that the request has failed by a timeout, unless the
-- queue of 64 had no room for three more.
abbrev pub IsTold : Pending → (s u : Inner) → Type 0
IsTold p s u = (61 < length s.events) ⊎ IsReported p.operation s.events u.events

-- The requests of a core are gone through from `s` to `t`, each once and in their order: `done` are
-- those that are left of the ones before, and `todo` those that are still to come.
pub data Turns (now : ℕ) : (done todo : List Pending) → (s t : Inner) → Type 0 where
  -- The requests of the core are those that are left.
  over : (done : List Pending) (s : Inner) → s.pending ≡ done → Turns now done [] s s
  -- The time of the request has not come: it stays as it is.
  early :
      (done todo : List Pending) (p : Pending) (s t : Inner)
      → now < p.next_attempt
      → Turns now (done ++ (p ∷ [])) todo s t
      → Turns now done (p ∷ todo) s t
  -- It is sent again, at most six times and not over a stream.
  resent :
      (done todo : List Pending) (p : Pending) (s u t : Inner)
      → p.next_attempt ≤ now
      → p.transmissions < 7
      → s.transport ≡ datagram
      → IsSent p.packet (done ++ (again now p ∷ todo)) s u
      → Turns now (done ++ (again now p ∷ [])) todo u t
      → Turns now done (p ∷ todo) s t
  -- It fails by a timeout, and the others stay.
  failed :
      (done todo : List Pending) (p : Pending) (s u t : Inner)
      → p.next_attempt ≤ now
      → (7 ≤ p.transmissions) ⊎ (s.transport ≡ stream)
      → u
        ≡ complete_failure p.operation timeout 0 now
            (record s { controls = retained p.transaction s.controls; pending = done ++ todo })
      → u.pending ≡ done ++ todo
      → IsTold p s u
      → Turns now done todo u t
      → Turns now done (p ∷ todo) s t
  -- It fails by a timeout, which takes the allocation and all requests away.
  ended :
      (done todo : List Pending) (p : Pending) (s t : Inner)
      → p.next_attempt ≤ now
      → (7 ≤ p.transmissions) ⊎ (s.transport ≡ stream)
      → t
        ≡ complete_failure p.operation timeout 0 now
            (record s { controls = retained p.transaction s.controls; pending = done ++ todo })
      → t.pending ≡ []
      → IsTold p s t
      → Turns now done (p ∷ todo) s t

failure-IsTold :
    (now : ℕ) (p : Pending) (s : Inner) → IsTold p s (complete_failure p.operation timeout 0 now s)
failure-IsTold now p s = elim (Bool-cases (ltb 61 (length s.events))) [
  | inl full ↦ inl (ltb→lt 61 (length s.events) full)
  | inr free ↦
      inr (complete_failure-IsReported p.operation now s (ltb→le 61 (length s.events) free))
]

queue_packet-IsSent :
    (packet : Bytes) (pending : List Pending) (s : Inner)
    → IsSent packet pending s (record (queue_packet packet s) { pending = pending })
unfolding queue_packet
queue_packet-IsSent packet pending s = record {
  kept = if length s.controls == 16 then drop 1 s.controls else s.controls;
  room = elim (Bool-cases (length s.controls == 16)) [
    | inl full ↦ inr (ground arith, rw full refl)
    | inr free ↦ inl (ground arith, rw free refl)
  ];
  sent = refl;
}

given_up-fails :
    (done todo : List Pending) (now : ℕ) (p : Pending) (s : Inner)
    → s.pending ≡ done ++ (p ∷ todo)
    → give_up (length done) now p s
      ≡ complete_failure p.operation timeout 0 now
          (record s { controls = retained p.transaction s.controls; pending = done ++ todo })
unfolding give_up
given_up-fails done todo now p s e =
    ap
      (λ l.
        complete_failure p.operation timeout 0 now
          (record s { controls = retained p.transaction s.controls; pending = l }))
      (ap (remove_at (length done)) e ∙ remove_middle done todo p)

-- The turns after one that keeps a request, by the index of the loop.
kept-Turns :
    (todo : List Pending) (fuel now : ℕ) (done : List Pending) (q : Pending) (u : Inner)
    → Turns now (done ++ (q ∷ [])) todo u (expire_loop fuel now (length (done ++ (q ∷ []))) u)
    → Turns now (done ++ (q ∷ [])) todo u (expire_loop fuel now (length done + 1) u)
kept-Turns todo fuel now done q u turns =
    subst (λ k. Turns now (done ++ (q ∷ [])) todo u (expire_loop fuel now k u))
      (sym (index_after done q)) turns

regrouped : (done todo : List Pending) (q : Pending) → done ++ (q ∷ todo) ≡ done ++ (q ∷ []) ++ todo
regrouped done todo q = sym (append_assoc done (q ∷ []) todo)

loop-Turns :
    (todo : List Pending) (fuel now : ℕ) (done : List Pending) (s : Inner)
    → s.pending ≡ done ++ todo
    → length todo ≤ fuel
    → Turns now done todo s (expire_loop fuel now (length done) s)
loop-Turns [] fuel now done s e enough =
    let stop : get_elem? s.pending (length done) ≡ none =
      subst (λ l. get_elem? l (length done) ≡ none) (sym e) (past_end done) in
    subst (Turns now done [] s) (sym (loop-stops fuel now (length done) s stop))
      (over done s (e ∙ append-nil done))
loop-Turns (p ∷ todo) zero now done s e enough = absurd (omega arith)
loop-Turns (p ∷ todo) (suc fuel) now done s e enough =
    let i = length done in
    let here : get_elem? s.pending i ≡ some p =
      subst (λ l. get_elem? l i ≡ some p) (sym e) (at_middle done todo p) in
    let more : length todo ≤ fuel = omega arith in
    let T : Inner → Type 0 = Turns now done (p ∷ todo) s in
    let goes = loop-goes_on fuel now i p s here in
    elim (one-cases now i p s) [
      | inl (wait, r) ↦ subst T (sym (goes ∙ follow fuel now i (i + 1) p s s r)) (
          early done todo p s (expire_loop fuel now (i + 1) s) wait (
            kept-Turns todo fuel now done p s
              (loop-Turns todo fuel now (done ++ (p ∷ [])) s (e ∙ regrouped done todo p) more)))
      | inr (due, inl (few, (off, r))) ↦
          let l = set s.pending i (again now p) in
          let u : Inner = record (queue_packet p.packet s) { pending = l } in
          let placed : l ≡ done ++ (again now p ∷ todo) =
            ap (λ x. set x i (again now p)) e ∙ set_middle done todo p (again now p) in
          let sent = subst (λ x. IsSent p.packet x s u) placed (queue_packet-IsSent p.packet l s) in
          subst T (sym (goes ∙ follow fuel now i (i + 1) p s u r)) (
            resent done todo p s u (expire_loop fuel now (i + 1) u) due few off sent (
              kept-Turns todo fuel now done (again now p) u (
                loop-Turns todo fuel now (done ++ (again now p ∷ [])) u
                  (placed ∙ regrouped done todo (again now p)) more)))
      | inr (due, inr (why, r)) ↦
          let rest : List Pending = done ++ todo in
          let left : Inner = record s {
            controls = retained p.transaction s.controls;
            pending = rest;
          } in
          let u : Inner = complete_failure p.operation timeout 0 now left in
          let told : IsTold p s u = failure-IsTold now p left in
          let is_u = r ∙ ap (λ (x : Inner). (x, i)) (given_up-fails done todo now p s e) in
          subst T (sym (goes ∙ follow fuel now i i p s u is_u))
            (elim (complete_failure-pending p.operation timeout 0 now left) [
              | inl q ↦
                  failed done todo p s u (expire_loop fuel now i u) due why refl q told
                    (loop-Turns todo fuel now done u q more)
              | inr q ↦
                  let last = loop-empty fuel now i u q in
                  ended done todo p s (expire_loop fuel now i u) due why last
                    (ap (λ (x : Inner). x.pending) last ∙ q) (subst (IsTold p s) (sym last) told)
            ])
    ]

-- Each request of a valid core is gone through once, in order, until none is left or the allocation
-- is given up: one whose time has not come stays; one that has been sent fewer than seven times over
-- datagrams is queued to be sent again, with one transmission more and twice the timeout from now
-- on; another is taken away, with its queued packets, and fails by a timeout, which an event says
-- when the queue of events has room for three more. Afterwards the core is valid and each request
-- that is left has its next attempt in the future.
pub expire_transactions_lem :
    (now : ℕ) (s : Inner)
    → IsValid s
    → Turns now [] s.pending s (expire_transactions now s)
      × IsValid (expire_transactions now s)
      × All (λ p. now < p.next_attempt) (expire_transactions now s).pending
unfolding expire_transactions
expire_transactions_lem now s v =
    let kept = expire_transactions-IsValid now s v in
    (loop-Turns s.pending (length s.pending) now [] s refl (omega arith), kept.0, kept.1)
