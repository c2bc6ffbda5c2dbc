-- ===== src/Turn/Core/Deadlines.antt =====
-- When the core wants to be polled, and how the timers of a granted allocation lie.
use csqtt_antinet_module.Stun.{Message}
use csqtt_antinet_module.Turn.Address.{SocketAddr}
use csqtt_antinet_module.Turn.Core.State.{
  Operation, allocate, refresh, Pending, Inner, earlier, earliest_attempt, next_deadline, set_state,
  complete, push_event,
}
use csqtt_antinet_module.Turn.Core.Requests.{Crypto, CoreError, attr_lifetime, lifetime_zero}
use csqtt_antinet_module.Turn.Core.Completion.{
  attribute_u32, or_requested, allocation_refresh_deadline, allocated, relayed_address,
  allocate_success, refresh_success, complete_success,
}
use csqtt_antinet_module.Turn.Core.Calls.{wait}
use csqtt_antinet_module.Prelude.{
  ℕ, suc, ◌+◌, ◌-◌, ◌*◌, ◌≤◌, ◌<◌, min, max, ◌≡◌, refl, sym, ap, ◌∙◌, ◌⊎◌, inl, inr, false, Option,
  none, some, List, [], ◌∷◌, ◌++◌, arith, leb, ◌==◌, Bool-cases, Option-cases, get_elem?, All,
  Bytes,
}
use csqtt_antinet_module.Prelude.{All-mono}

abbrev pub timer : Option ℕ → List ℕ
timer none = []
timer (some d) = d ∷ []

unfoldable pub attempts : List Pending → List ℕ
attempts [] = []
attempts (p ∷ pending) = p.next_attempt ∷ attempts pending

-- The next attempts of the requests and the five timers. The end of the allocation is not one: the
-- source looks at it in each poll, and asks for none because of it.
unfoldable pub deadlines : Inner → List ℕ
deadlines s =
    attempts s.pending
    ++ (timer s.allocation_refresh
        ++ (timer s.maintenance_refresh
            ++ (timer s.permission_retry ++ (timer s.channel_retry ++ timer s.keepalive))))

unfoldable earliest : List ℕ → Option ℕ
earliest [] = none
earliest (d ∷ ds) = earlier (some d) (earliest ds)

earlier_assoc : (a b c : Option ℕ) → earlier (earlier a b) c ≡ earlier a (earlier b c)
earlier_assoc none b c = refl
earlier_assoc (some a) none c = refl
earlier_assoc (some a) (some b) none = refl
earlier_assoc (some a) (some b) (some c) = ap some (omega arith)

earliest-append : (xs ys : List ℕ) → earliest (xs ++ ys) ≡ earlier (earliest xs) (earliest ys)
unfolding earliest
earliest-append [] ys = refl
earliest-append (x ∷ xs) ys =
    ap (earlier (some x)) (earliest-append xs ys)
    ∙ sym (earlier_assoc (some x) (earliest xs) (earliest ys))

earliest-timer : (o : Option ℕ) → earliest (timer o) ≡ o
unfolding earliest
earliest-timer none = refl
earliest-timer (some d) = refl

earliest-attempts : (l : List Pending) → earliest (attempts l) ≡ earliest_attempt l
unfolding earliest attempts earliest_attempt
earliest-attempts [] = refl
earliest-attempts (p ∷ l) = ap (earlier (some p.next_attempt)) (earliest-attempts l)

next_deadline-earliest : (s : Inner) → next_deadline s ≡ earliest (deadlines s)
unfolding next_deadline deadlines
next_deadline-earliest s = sym (simp (earliest-append, earliest-timer, earliest-attempts))

earliest-none : (l : List ℕ) → earliest l ≡ none → l ≡ []
unfolding earliest
earliest-none [] e = refl
earliest-none (d ∷ l) e = absurd (ground arith)

-- The earliest is one of them and not later than any.
earliest-some :
    (l : List ℕ) (m : ℕ)
    → earliest l ≡ some m
    → ((i : ℕ) × (get_elem? l i ≡ some m)) × All (λ d. m ≤ d) l
unfolding earliest
earliest-some [] m e = absurd (cc)
earliest-some (d ∷ l) m e = elim (Option-cases (earliest l)) [
  | inl q ↦
      let same : d ≡ m = ground arith in
      ((0, ap some same), (omega arith, rw (earliest-none l q) tt))
  | inr (k, q) ↦
      let ((i, at), low) = earliest-some l k q in
      let m_eq : m ≡ min d k = ground arith in
      let rest : All (λ x. m ≤ x) l =
        All-mono (λ x. k ≤ x) (λ x. m ≤ x) (λ x h. omega arith) l low in
      elim (Bool-cases (leb d k)) [
        | inl b ↦ let first : d ≡ m = ground arith in ((0, ap some first), (omega arith, rest))
        | inr b ↦
            let later : k ≡ m = ground arith in ((suc i, at ∙ ap some later), (omega arith, rest))
      ]
]

-- The wait is none when there is no deadline, and else lasts until the earliest one, or for a
-- millisecond if that has come.
pub wait-deadlines :
    (now : ℕ) (s : Inner)
    → ((wait now s ≡ none) × (deadlines s ≡ []))
      ⊎ ((w first : ℕ) × (wait now s ≡ some w)
          × (now + w ≡ max first (now + 1))
          × ((i : ℕ) × (get_elem? (deadlines s) i ≡ some first))
          × All (λ d. now + w ≤ max d (now + 1)) (deadlines s))
unfolding wait
wait-deadlines now s = elim (Option-cases (next_deadline s)) [
  | inl q ↦
      inl (rw (wait, q) refl, earliest-none (deadlines s) (sym (next_deadline-earliest s) ∙ q))
  | inr (m, q) ↦
      let (at, low) = earliest-some (deadlines s) m (sym (next_deadline-earliest s) ∙ q) in
      inr (
        max (m - now) 1,
        m,
        rw (wait, q) refl,
        omega arith,
        at,
        All-mono (λ d. m ≤ d) (λ d. now + max (m - now) 1 ≤ max d (now + 1)) (λ d h. omega arith)
            (deadlines s) low,
      )
]

refresh_before_expiry :
    (now interval : ℕ) (lifetime : Option ℕ)
    → (or_requested lifetime == 0) ≡ false
    → (now + 500 ≤ allocation_refresh_deadline now lifetime interval)
      × (allocation_refresh_deadline now lifetime interval < now + or_requested lifetime * 1000)
unfolding allocation_refresh_deadline
refresh_before_expiry now interval lifetime h = ground arith

-- The timers of a core whose server has granted it a lifetime.
pub record IsGranted (now : ℕ) (t : Inner) : Type 0 where
  pub next_refresh : ℕ
  pub expiry : ℕ
  pub refresh_set : t.allocation_refresh ≡ some next_refresh
  pub expiry_set : t.allocation_expires_at ≡ some expiry
  pub refresh_later : now + 500 ≤ next_refresh
  pub refresh_in_time : next_refresh < expiry
  pub no_failures : t.refresh_failures ≡ 0

refresh_success-IsGranted :
    (m : Message) (now : ℕ) (s : Inner)
    → (refresh_success m now s).1 ≡ none
    → IsGranted now (refresh_success m now s).0
unfolding refresh_success complete push_event
refresh_success-IsGranted m now s ok =
    let lifetime = attribute_u32 m attr_lifetime in
    elim (Bool-cases (or_requested lifetime == 0)) [
      | inl z ↦ absurd (
          let e : (refresh_success m now s).1 ≡ some lifetime_zero = rw (refresh_success, z) refl in
          cc)
      | inr z ↦
          let (low, high) = refresh_before_expiry now s.profile.allocation_refresh lifetime z in
          rw (refresh_success, z)
            (record {
              next_refresh = allocation_refresh_deadline now lifetime s.profile.allocation_refresh;
              expiry = now + or_requested lifetime * 1000;
              refresh_set = refl;
              expiry_set = refl;
              refresh_later = low;
              refresh_in_time = high;
              no_failures = refl;
            })
    ]

allocate_success-IsGranted :
    (crypto : Crypto) (m : Message) (transaction : Bytes) (now : ℕ) (s : Inner)
    (a : CoreError ⊎ SocketAddr)
    → relayed_address m s.peer ≡ a
    → s.shutting_down ≡ false
    → (allocate_success crypto m transaction now s).1 ≡ none
    → IsGranted now (allocate_success crypto m transaction now s).0
unfolding allocate_success allocated complete push_event set_state
allocate_success-IsGranted crypto m transaction now s (inl e) q on ok = absurd (
    let f : (allocate_success crypto m transaction now s).1 ≡ some e =
      rw (allocate_success, q) refl in
    cc)
allocate_success-IsGranted crypto m transaction now s (inr relay) q on ok =
    let lifetime = attribute_u32 m attr_lifetime in
    elim (Bool-cases (or_requested lifetime == 0)) [
      | inl z ↦ absurd (
          let e : (allocate_success crypto m transaction now s).1 ≡ some lifetime_zero =
            rw (allocate_success, q, z) refl in
          cc)
      | inr z ↦
          let (low, high) = refresh_before_expiry now s.profile.allocation_refresh lifetime z in
          rw (allocate_success, q, z, on)
            (record {
              next_refresh = allocation_refresh_deadline now lifetime s.profile.allocation_refresh;
              expiry = now + or_requested lifetime * 1000;
              refresh_set = refl;
              expiry_set = refl;
              refresh_later = low;
              refresh_in_time = high;
              no_failures = refl;
            })
    ]

-- When an Allocate or a Refresh response is taken, while the core is not shutting down, the next
-- refresh lies half a second ahead or more and before the end of the lifetime, whatever lifetime
-- the server gave.
pub complete_success-IsGranted :
    (crypto : Crypto) (operation : Operation) (m : Message) (transaction : Bytes) (now : ℕ)
    (s : Inner)
    → (operation ≡ allocate) ⊎ (operation ≡ refresh)
    → s.shutting_down ≡ false
    → (complete_success crypto operation m transaction now s).1 ≡ none
    → IsGranted now (complete_success crypto operation m transaction now s).0
unfolding complete_success
complete_success-IsGranted crypto allocate m transaction now s o on ok =
    allocate_success-IsGranted crypto m transaction now s (relayed_address m s.peer) refl on ok
complete_success-IsGranted crypto refresh m transaction now s o on ok =
    refresh_success-IsGranted m now s ok
complete_success-IsGranted crypto _ m transaction now s o on ok = absurd (ground arith)
