-- ===== src/Shutdown/Attempts.antt =====
-- Which streams a request to disconnect tries, for how long, and when it stops.
pub mod Tests
use csqtt_antinet_module.Shutdown.{
  is_unrelated, observe_control_response, ShutdownCoordinator, Attempt, complete, control_streams,
  lead, heard, deliver, request_disconnect, disconnect_attempt, disconnect_budget,
}
use csqtt_antinet_module.Prelude.{
  ℕ, suc, ◌+◌, ◌-◌, ◌≤◌, ◌<◌, min, ◌≡◌, refl, ap, ◌∙◌, ◌⊎◌, inl, inr, Bool, true, false, not, ◌||◌,
  List, [], ◌∷◌, ◌++◌, arith, leb, if◌then◌else◌, leb→le, Bool-cases, Bytes, if-elim, All,
}

module _ (W : Type 0) where
  pub firsts : List (W × ℕ) → List W
  firsts [] = []
  firsts (t ∷ ts) = t.0 ∷ firsts ts

  heard-active :
      (responses : List Bytes) (s : ShutdownCoordinator W) → (heard W responses s).active ≡ s.active
  unfolding heard observe_control_response
  heard-active [] s = refl
  heard-active (response ∷ responses) s =
      heard-active responses (observe_control_response W response s).1
      ∙ if-elim {A = Bool × ShutdownCoordinator W} (λ r. r.1.active ≡ s.active)
          (is_unrelated response) (false, s)
          (if not s.active || s.completed
            then (false, s)
            else (true, record s { completed = true }))
          (λ e. refl)
          (λ e.
            if-elim {A = Bool × ShutdownCoordinator W} (λ r. r.1.active ≡ s.active)
              (not s.active || s.completed) (false, s) (true, record s { completed = true })
              (λ k. refl) (λ k. refl))

  -- The loop is over: no stream is left, an answer is there, or the deadline has passed.
  pub IsOver :
      (deadline : ℕ) (attempts : ℕ → Attempt) (left : List W) (s : ShutdownCoordinator W) → Type 0
  IsOver deadline attempts left s =
      (left ≡ [])
      ⊎ ((s.completed ≡ true)
          ⊎ ((i : ℕ) × ((deadline ≤ (attempts i).now) ⊎ (deadline ≤ (attempts i).after))))

  -- What the loop gives back, for the streams it was given.
  pub Delivered :
      (deadline : ℕ) (ws : List W) (attempts : ℕ → Attempt)
      (r : List (W × ℕ) × ShutdownCoordinator W)
      → Type 0
  Delivered deadline ws attempts r =
      (left : List W) × ((ws ≡ firsts r.0 ++ left)
        × (All (λ t. (1 ≤ t.1) × (t.1 ≤ disconnect_attempt)) r.0
            × (IsOver deadline attempts left r.1 × (r.1.active ≡ true))))

  in_time : (c : Bool) (deadline now : ℕ) → c || leb deadline now ≡ false → now < deadline
  in_time c deadline now h = ground arith

  stopped :
      (deadline : ℕ) (attempts : ℕ → Attempt) (i : ℕ) (s : ShutdownCoordinator W)
      → s.completed || leb deadline (attempts i).now ≡ true
      → (s.completed ≡ true)
        ⊎ ((i : ℕ) × ((deadline ≤ (attempts i).now) ⊎ (deadline ≤ (attempts i).after)))
  stopped deadline attempts i s h = elim (Bool-cases s.completed) [
    | inl c ↦ inl c
    | inr c ↦ inr (i, inl (passed s.completed deadline (attempts i).now c h))
  ]
    where
      passed : (c : Bool) (d n : ℕ) → c ≡ false → c || leb d n ≡ true → d ≤ n
      passed c d n e h = ground arith

  Timely : (deadline : ℕ) (attempts : ℕ → Attempt) (i : ℕ) → Type 0
  Timely deadline attempts i =
      (1 ≤ min disconnect_attempt (deadline - (attempts i).now))
      × (min disconnect_attempt (deadline - (attempts i).now) ≤ disconnect_attempt)

  timely :
      (deadline : ℕ) (attempts : ℕ → Attempt) (i : ℕ)
      → (attempts i).now < deadline
      → Timely deadline attempts i
  unfolding Timely
  timely deadline attempts i h = (omega arith, omega arith)

  further-Delivered :
      (deadline : ℕ) (w : W) (ws : List W) (attempts : ℕ → Attempt) (i : ℕ)
      (rest : List (W × ℕ) × ShutdownCoordinator W)
      → (attempts i).now < deadline
      → Delivered deadline ws attempts rest
      → Delivered deadline
          (w ∷ ws)
          attempts
          ((w, min disconnect_attempt (deadline - (attempts i).now)) ∷ rest.0, rest.1)
  unfolding Delivered firsts Timely
  further-Delivered deadline w ws attempts i rest early (left, (e, (bounds, over))) =
      (left, (ap (λ t. w ∷ t) e, ((timely deadline attempts i early, bounds), over)))

  last-Delivered :
      (deadline : ℕ) (w : W) (ws : List W) (attempts : ℕ → Attempt) (i : ℕ)
      → (attempts i).now < deadline
      → (s : ShutdownCoordinator W)
      → (s.completed ≡ true)
        ⊎ ((i : ℕ) × ((deadline ≤ (attempts i).now) ⊎ (deadline ≤ (attempts i).after)))
      → s.active ≡ true
      → Delivered deadline
          (w ∷ ws)
          attempts
          ((w, min disconnect_attempt (deadline - (attempts i).now)) ∷ [], s)
  unfolding Delivered firsts Timely IsOver
  last-Delivered deadline w ws attempts i early s over act =
      (ws, (refl, ((timely deadline attempts i early, tt), (inr over, act))))

  deliver-Delivered :
      (deadline : ℕ) (ws : List W) (attempts : ℕ → Attempt) (i : ℕ) (s : ShutdownCoordinator W)
      → s.active ≡ true
      → Delivered deadline ws attempts (deliver W deadline ws attempts i s)
  unfolding deliver firsts IsOver Delivered
  deliver-Delivered deadline [] attempts i s act = ([], (refl, (tt, (inl refl, act))))
  deliver-Delivered deadline (w ∷ ws) attempts i s act =
      let a = attempts i in
      let sent = heard W a.answers_sending s in
      let waited = heard W a.answers_waiting sent in
      let next = if a.delivered then waited else sent in
      let rest = deliver W deadline ws attempts (suc i) next in
      let try : W × ℕ = (w, min disconnect_attempt (deadline - a.now)) in
      let act_sent = heard-active a.answers_sending s ∙ act in
      let act_waited = heard-active a.answers_waiting sent ∙ act_sent in
      let act_next =
        if-elim {A = ShutdownCoordinator W} (λ t. t.active ≡ true) a.delivered waited sent
          (λ e. act_waited) (λ e. act_sent) in
      let induction = deliver-Delivered deadline ws attempts (suc i) next act_next in
      let Q : List (W × ℕ) × ShutdownCoordinator W → Type 0 =
        Delivered deadline (w ∷ ws) attempts in
      if-elim Q (s.completed || leb deadline a.now) ([], s)
        (if not a.delivered
          then (try ∷ rest.0, rest.1)
          else if leb deadline a.after
          then (try ∷ [], sent)
          else if waited.completed
          then (try ∷ [], waited)
          else (try ∷ rest.0, rest.1))
        (λ stop. (w ∷ ws, (refl, (tt, (inr (stopped deadline attempts i s stop), act)))))
        (λ go.
          let early = in_time s.completed deadline a.now go in
          let further = further-Delivered deadline w ws attempts i rest early induction in
          let last = last-Delivered deadline w ws attempts i early in
          if-elim Q (not a.delivered) (try ∷ rest.0, rest.1)
            (if leb deadline a.after
              then (try ∷ [], sent)
              else if waited.completed
              then (try ∷ [], waited)
              else (try ∷ rest.0, rest.1))
            (λ lost. further)
            (λ taken.
              if-elim Q (leb deadline a.after) (try ∷ [], sent)
                (if waited.completed then (try ∷ [], waited) else (try ∷ rest.0, rest.1))
                (λ late. last sent (inr (i, inr (leb→le deadline a.after late))) act_sent)
                (λ before.
                  if-elim Q waited.completed (try ∷ [], waited) (try ∷ rest.0, rest.1)
                    (λ answered. last waited (inl answered) act_waited) (λ silent. further))))

  complete-flags :
      (s : ShutdownCoordinator W)
      → ((complete W s).active ≡ s.active) × ((complete W s).completed ≡ true)
  unfolding complete
  complete-flags s =
      if-elim (λ t. (t.active ≡ s.active) × (t.completed ≡ true)) s.completed s
        (record s { completed = true }) (λ e. (refl, e)) (λ e. (refl, refl))

  pub led : ShutdownCoordinator W → ShutdownCoordinator W
  led s = record s { active = true; completed = false }

  request_disconnect-leader :
      (start : ℕ) (attempts : ℕ → Attempt) (s : ShutdownCoordinator W)
      → s.active ≡ false
      → let loop = deliver W (start + disconnect_budget) (control_streams W s) attempts 0 (led s) in
        request_disconnect W start attempts s ≡ (loop.0, complete W loop.1)
  unfolding request_disconnect lead led control_streams
  request_disconnect-leader start attempts s h = rw (request_disconnect, lead, h) refl

  request_disconnect-again :
      (start : ℕ) (attempts : ℕ → Attempt) (s : ShutdownCoordinator W)
      → s.active ≡ true
      → request_disconnect W start attempts s ≡ ([], s)
  unfolding request_disconnect lead
  request_disconnect-again start attempts s h = rw (request_disconnect, lead, h) refl

  -- A request that is the first makes the coordinator active and completed, has tried the streams
  -- that `control_streams` gives, in that order, from the first on, each for at least 1 and at most
  -- 80 milliseconds, and has left streams untried only when an answer came or a time at or after
  -- the deadline was seen. Any later request tries none and changes nothing.
  pub request_disconnect_lem :
      (start later : ℕ) (attempts further : ℕ → Attempt) (s : ShutdownCoordinator W)
      → s.active ≡ false
      → let deadline = start + disconnect_budget in
        let loop = deliver W deadline (control_streams W s) attempts 0 (led s) in
        let ended = request_disconnect W start attempts s in
        (ended.1.active ≡ true)
        × ((ended.1.completed ≡ true)
            × (Delivered deadline (control_streams W s) attempts (ended.0, loop.1)
                × (request_disconnect W later further ended.1 ≡ ([], ended.1))))
  unfolding led Delivered
  request_disconnect_lem start later attempts further s h =
      let deadline = start + disconnect_budget in
      let loop = deliver W deadline (control_streams W s) attempts 0 (led s) in
      let tried = deliver-Delivered deadline (control_streams W s) attempts 0 (led s) refl in
      let flags = complete-flags loop.1 in
      let act = flags.0 ∙ tried.1.1.1.1 in
      rw (request_disconnect-leader start attempts s h)
        (act, (flags.1, (tried, request_disconnect-again later further (complete W loop.1) act)))
