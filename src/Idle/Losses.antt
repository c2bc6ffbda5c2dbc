-- ===== src/Idle/Losses.antt =====
-- A burst of lost paths opens one epoch, however the calls are interleaved.
pub mod Stages
pub mod Calls
use csqtt_antinet_module.Idle.{interleaved, Idle, LostStage, returned, LostCall, lost_step}
use mathlib.Core.Path.{subst}
use csqtt_antinet_module.Prelude.{
  ℕ, suc, ◌+◌, ◌-◌, ◌%◌, ◌<◌, ◌≡◌, refl, sym, ◌∙◌, ◌≢◌, ◌⊎◌, inl, inr, some, List, [], ◌∷◌, arith,
  ◌==◌, ==_iff, Bool-cases, Option-cases, get_elem?, set, get_elem?-set, get_elem?-set_other, All,
  All-get_elem?,
}
use csqtt_antinet_module.Idle.Losses.Calls.{
  calls_of, HasReturned, All-others, workers, at_set, get_elem?-workers, workers-set,
  workers-calls_of, calls_of-called,
}
use csqtt_antinet_module.Idle.Losses.Stages.{
  IsLive, IsPast, has_opened, has_cleared, has_announced, After, After-step, Before, Before-After,
  Before-step, Winner, Winner-IsOpen, Winner-step, announced_by,
}

module _ (s : Idle) (past : IsPast s) (room : s.gen_offset < 18446744073709551615) where
  -- The calls and the state in the middle of a burst.
  data Burst (ws : List ℕ) (calls : List LostCall) (t : Idle) : Type 0 where
    none_yet :
        t ≡ s
        → ((j : ℕ) (c : LostCall)
            → get_elem? calls j ≡ some c
            → Before s past room c.worker_id c.stage)
        → Burst ws calls t
    one_open :
        (i : ℕ) (c : LostCall)
        → get_elem? calls i ≡ some c
        → get_elem? ws i ≡ some c.worker_id
        → IsLive s c.worker_id
        → Winner s past room c.worker_id c.stage t
        → All-others i (λ d. After s past room d.stage) calls
        → Burst ws calls t

  -- The calls after one of them has done an operation.
  abbrev moved : List LostCall → ℕ → LostCall → Idle → List LostCall
  moved calls k c t = set calls k (record c { stage = (lost_step c.worker_id c.stage t).0 })

  begin-step :
      (ws : List ℕ) (calls : List LostCall) (k : ℕ) (c : LostCall)
      → workers calls ≡ ws
      → get_elem? calls k ≡ some c
      → ((j : ℕ) (d : LostCall)
          → get_elem? calls j ≡ some d
          → Before s past room d.worker_id d.stage)
      → Burst ws (moved calls k c s) (lost_step c.worker_id c.stage s).1
  begin-step ws calls k c names here before =
      let v : LostCall = record c { stage = (lost_step c.worker_id c.stage s).0 } in
      elim (Before-step s past room c.worker_id c.stage (before k c here)) [
        | inl (same, b) ↦ none_yet same (
            at_set (λ j d. Before s past room d.worker_id d.stage) calls k v here
              (λ j d apart g. before j d g) b)
        | inr (live, win) ↦
            one_open k v (get_elem?-set calls k v here)
              (subst (λ l. get_elem? l k ≡ some c.worker_id) names (get_elem?-workers calls k here))
              live win
              (λ j d apart g.
                Before-After s past room d.worker_id d.stage
                  (before j d (sym (get_elem?-set_other calls k j v (λ e. apart (sym e))) ∙ g)))
      ]

  open-step :
      (ws : List ℕ) (calls : List LostCall) (k : ℕ) (c : LostCall) (t : Idle) (i : ℕ) (w : LostCall)
      → get_elem? calls k ≡ some c
      → get_elem? calls i ≡ some w
      → get_elem? ws i ≡ some w.worker_id
      → IsLive s w.worker_id
      → Winner s past room w.worker_id w.stage t
      → All-others i (λ d. After s past room d.stage) calls
      → Burst ws (moved calls k c t) (lost_step c.worker_id c.stage t).1
  open-step ws calls k c t i w here at_i named live win others = elim (Bool-cases (k == i)) [
    | inl same ↦
        let is_i : k ≡ i = (==_iff k i).0 same in
        let is_w : c ≡ w =
          same_call
            (sym here ∙ (subst (λ x. get_elem? calls k ≡ get_elem? calls x) is_i refl ∙ at_i)) in
        let v : LostCall = record c { stage = (lost_step c.worker_id c.stage t).0 } in
        one_open k v (get_elem?-set calls k v here)
          (subst (λ x. get_elem? ws x ≡ some c.worker_id) (sym is_i)
            (subst (λ (x : LostCall). get_elem? ws i ≡ some x.worker_id) (sym is_w) named))
          (subst (λ (x : LostCall). IsLive s x.worker_id) (sym is_w) live)
          (Winner-step s past room c.worker_id c.stage t
            (subst (λ (x : LostCall). Winner s past room x.worker_id x.stage t) (sym is_w) win))
          (λ j d apart g.
            others j d (λ e. apart (e ∙ sym is_i))
              (sym (get_elem?-set_other calls k j v (λ e. apart (sym e))) ∙ g))
    | inr other ↦
        let apart : k ≢ i = λ e. ground (arith, other) in
        let v : LostCall = record c { stage = (lost_step c.worker_id c.stage t).0 } in
        let (kept, a) =
          After-step s past room c.worker_id c.stage t
            (Winner-IsOpen s past room w.worker_id w.stage t win) (others k c apart here) in
        one_open i w (get_elem?-set_other calls k i v apart ∙ at_i) named live
          (subst (Winner s past room w.worker_id w.stage) (sym kept) win)
          (λ j d not_i g.
            at_set (λ x y. x ≢ i → After s past room y.stage) calls k v here
              (λ x y p q r. others x y r q) (λ r. a) j d g not_i)
  ]
    where
      same_call : {x y : LostCall} → some x ≡ some y → x ≡ y
      same_call e = cc

  interleaved-Burst :
      (schedule ws : List ℕ) (calls : List LostCall) (t : Idle)
      → workers calls ≡ ws
      → Burst ws calls t
      → (workers (interleaved schedule calls t).0 ≡ ws)
        × Burst ws (interleaved schedule calls t).0 (interleaved schedule calls t).1
  unfolding interleaved
  interleaved-Burst [] ws calls t names b = (names, b)
  interleaved-Burst (k ∷ schedule) ws calls t names b = elim (Option-cases (get_elem? calls k)) [
    | inl e ↦ rw (interleaved, e) (interleaved-Burst schedule ws calls t names b)
    | inr (c, e) ↦
        rw (interleaved, e)
          (interleaved-Burst schedule ws (moved calls k c t) (lost_step c.worker_id c.stage t).1
            (workers-set calls k (lost_step c.worker_id c.stage t).0 e ∙ names)
            (Burst-step ws calls t k c names e b))
  ]
    where
      Burst-step :
          (ws : List ℕ) (calls : List LostCall) (t : Idle) (k : ℕ) (c : LostCall)
          → workers calls ≡ ws
          → get_elem? calls k ≡ some c
          → Burst ws calls t
          → Burst ws (moved calls k c t) (lost_step c.worker_id c.stage t).1
      Burst-step ws calls t k c names e (none_yet same before) =
          subst (λ u. Burst ws (moved calls k c u) (lost_step c.worker_id c.stage u).1) (sym same)
            (begin-step ws calls k c names e before)
      Burst-step ws calls t k c names e (one_open i w at_i named live win others) =
          open-step ws calls k c t i w e at_i named live win others

  none-IsLive :
      (calls : List LostCall)
      → ((j : ℕ) (c : LostCall)
          → get_elem? calls j ≡ some c
          → Before s past room c.worker_id c.stage)
      → All HasReturned calls
      → All (λ w. ¬ IsLive s w) (workers calls)
  none-IsLive [] before h = tt
  none-IsLive (c ∷ calls) before h = (
    subst (Before s past room c.worker_id) h.0 (before 0 c refl),
    none-IsLive calls (λ j d e. before (suc j) d e) h.1,
  )

  Winner-announced :
      (w : ℕ) (stage : LostStage) (t : Idle)
      → Winner s past room w stage t
      → stage ≡ returned
      → t ≡ announced_by s past room w
  Winner-announced w stage t has_opened e = absurd (cc)
  Winner-announced w stage t has_cleared e = absurd (cc)
  Winner-announced w stage t has_announced e = refl

  Outcome : List ℕ → Idle → Type 0
  Outcome ws t =
      ((t ≡ s) × All (λ w. ¬ IsLive s w) ws)
      ⊎ ((i w : ℕ) × (get_elem? ws i ≡ some w) × IsLive s w × (t ≡ announced_by s past room w))

  Burst-Outcome :
      (ws : List ℕ) (calls : List LostCall) (t : Idle)
      → workers calls ≡ ws
      → All HasReturned calls
      → Burst ws calls t
      → Outcome ws t
  unfolding Outcome
  Burst-Outcome ws calls t names done (none_yet same before) =
      inl (same, subst (All (λ w. ¬ IsLive s w)) names (none-IsLive calls before done))
  Burst-Outcome ws calls t names done (one_open i c at_i named live win others) = inr (
    i,
    c.worker_id,
    named,
    live,
    Winner-announced c.worker_id c.stage t win (All-get_elem? HasReturned calls i done at_i),
  )

  burst-Outcome :
      (ws schedule : List ℕ)
      → All HasReturned (interleaved schedule (calls_of ws) s).0
      → Outcome ws (interleaved schedule (calls_of ws) s).1
  burst-Outcome ws schedule done =
      let (names, b) = interleaved-Burst schedule ws (calls_of ws) s (workers-calls_of ws) (
        none_yet refl
          (λ j c e. subst (Before s past room c.worker_id) (sym (calls_of-called ws j c e)) tt)) in
      Burst-Outcome ws (interleaved schedule (calls_of ws) s).0
        (interleaved schedule (calls_of ws) s).1 names done b

-- The paths of these workers are lost at the same time, and their calls run in any interleaving of
-- their atomic operations to their ends, with no other change of the state. Then one new epoch is
-- opened, and announced once, if one of the workers is among those kept and had joined the present
-- epoch; it is the slot of one such worker that is cleared. Otherwise nothing changes.
pub losses_lem :
    (ws schedule : List ℕ) (s : Idle)
    → IsPast s
    → s.gen_offset < 18446744073709551615
    → All HasReturned (interleaved schedule (calls_of ws) s).0
    → (((interleaved schedule (calls_of ws) s).1 ≡ s) × All (λ w. ¬ IsLive s w) ws)
      ⊎ ((i w : ℕ) × (get_elem? ws i ≡ some w)
          × IsLive s w
          × ((interleaved schedule (calls_of ws) s).1 ≡ record s {
            gen_offset = s.gen_offset + 1;
            joined = set s.joined w 0;
            announce = (s.announce + 1) % 18446744073709551616;
          }))
unfolding Outcome
losses_lem ws schedule s past room done = burst-Outcome s past room ws schedule done
