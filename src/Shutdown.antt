-- ===== src/Shutdown.antt =====
-- session.rs: `ShutdownCoordinator`, which asks the peer once to end the session. The lock makes
-- each call a step. An activity, an atomic counter that a registration shares with its stream, is
-- a cell of `activities`. `Notify` is what ends a wait: a wait is the responses that arrive in it.
pub mod Once
pub mod Recent
pub mod Attempts
use csqtt_antinet_module.Protocol.{denied, disconnected}
use Prim.Native.Nat.{compare, Ordering}
use csqtt_antinet_module.Prelude.Sorting.{then_with, sort_by, retain}
use csqtt_antinet_module.Prelude.{
  ℕ, suc, ◌+◌, ◌-◌, ◌%◌, min, max, Bool, true, false, not, ◌&&◌, ◌||◌, List, [], ◌∷◌, ◌++◌, leb,
  ◌==◌, if◌then◌else◌, length, set, get_or, Bytes, u64_mod, starts_with, bytes_eq,
}

-- Durations are in milliseconds.
abbrev pub disconnect_budget : ℕ
disconnect_budget = 700

abbrev pub disconnect_attempt : ℕ
disconnect_attempt = 80

pub record ShutdownRegistration : Type 0 where
  pub incarnation_id : ℕ
  pub activity : ℕ

-- What the outside does while one stream is tried: the time before the command is sent and
-- after, whether it is taken in time, and the responses that come in meanwhile and in the wait.
pub record Attempt : Type 0 where
  pub now : ℕ
  pub delivered : Bool
  pub answers_sending : List Bytes
  pub after : ℕ
  pub answers_waiting : List Bytes

-- A response that does not answer the request.
pub is_unrelated : Bytes → Bool
is_unrelated response = not (bytes_eq response disconnected) && not (starts_with response denied)

module _ (W : Type 0) where
  pub record ShutdownControlStream : Type 0 where
    pub incarnation_id : ℕ
    pub writer : W
    pub activity : ℕ

  pub record ShutdownCoordinator : Type 0 where
    pub active : Bool
    pub completed : Bool
    pub streams : List ShutdownControlStream
    pub next_activity : ℕ
    pub activities : List ℕ

  abbrev pub new : ShutdownCoordinator
  new = record {
    active = false;
    completed = false;
    streams = [];
    next_activity = 1;
    activities = [];
  }

  -- `fetch_add(1).max(1)`
  pub next_activity : ShutdownCoordinator → ℕ × ShutdownCoordinator
  next_activity s =
      (max s.next_activity 1, record s { next_activity = (s.next_activity + 1) % u64_mod })

  pub register : ℕ → W → ShutdownCoordinator → ShutdownRegistration × ShutdownCoordinator
  register incarnation writer s =
      let (activity, s') = next_activity s in
      let cell = length s'.activities in
      let stored = record s' { activities = s'.activities ++ (activity ∷ []) } in
      let stream : ShutdownControlStream = record {
        incarnation_id = incarnation;
        writer = writer;
        activity = cell;
      } in
      (
        record { incarnation_id = incarnation; activity = cell },
        if not s.active then record stored { streams = s.streams ++ (stream ∷ []) } else stored,
      )

  pub mark_activity : (cell : ℕ) → ShutdownCoordinator → ShutdownCoordinator
  mark_activity cell s =
      let (activity, s') = next_activity s in
      record s' { activities = set s'.activities cell activity }

  -- Registration's `drop`.
  pub unregister : ℕ → ShutdownCoordinator → ShutdownCoordinator
  unregister incarnation s = record s {
    streams = retain (λ t. not (t.incarnation_id == incarnation)) s.streams;
  }

  pub observe_control_response : Bytes → ShutdownCoordinator → Bool × ShutdownCoordinator
  observe_control_response response s =
      if is_unrelated response
      then (false, s)
      else if not s.active || s.completed
      then (false, s)
      else (true, record s { completed = true })

  pub complete : ShutdownCoordinator → ShutdownCoordinator
  complete s = if s.completed then s else record s { completed = true }

  -- The most recently active first, then the highest incarnation.
  pub by_activity : (left right : ℕ × ℕ × W) → Ordering
  by_activity left right = then_with (compare right.0 left.0) (compare right.1 left.1)

  pub loaded : List ℕ → List ShutdownControlStream → List (ℕ × ℕ × W)
  loaded activities [] = []
  loaded activities (t ∷ ts) =
      (get_or activities t.activity 0, t.incarnation_id, t.writer) ∷ loaded activities ts

  pub writers : List (ℕ × ℕ × W) → List W
  writers [] = []
  writers (t ∷ ts) = t.2 ∷ writers ts

  pub control_streams : ShutdownCoordinator → List W
  control_streams s = writers (sort_by by_activity (loaded s.activities s.streams))

  -- The start of `request_disconnect`: whether this call is the leader.
  pub lead : ShutdownCoordinator → Bool × ShutdownCoordinator
  lead s = if s.active then (false, s) else (true, record s { active = true; completed = false })

  pub heard : List Bytes → ShutdownCoordinator → ShutdownCoordinator
  heard [] s = s
  heard (response ∷ responses) s = heard responses (observe_control_response response s).1

  -- The loop over the streams, with the writers tried and the time each is given for the command.
  pub deliver :
      (deadline : ℕ)
      → List W
      → (attempts : ℕ → Attempt) → ℕ
      → ShutdownCoordinator
      → List (W × ℕ) × ShutdownCoordinator
  deliver deadline [] attempts i s = ([], s)
  deliver deadline (w ∷ ws) attempts i s =
      let a = attempts i in
      let sent = heard a.answers_sending s in
      let waited = heard a.answers_waiting sent in
      let try : W × ℕ = (w, min disconnect_attempt (deadline - a.now)) in
      let rest = deliver deadline ws attempts (suc i) (if a.delivered then waited else sent) in
      if s.completed || leb deadline a.now
      then ([], s)
      else if not a.delivered
      then (try ∷ rest.0, rest.1)
      else if leb deadline a.after
      then (try ∷ [], sent)
      else if waited.completed
      then (try ∷ [], waited)
      else (try ∷ rest.0, rest.1)

  -- A call that is not the leader waits until the request is completed, and sends nothing.
  pub request_disconnect :
      (start : ℕ)
      → (attempts : ℕ → Attempt) → ShutdownCoordinator
      → List (W × ℕ) × ShutdownCoordinator
  request_disconnect start attempts s =
      let (leader, led) = lead s in
      let tried = deliver (start + disconnect_budget) (control_streams led) attempts 0 led in
      if not leader then ([], led) else (tried.0, complete tried.1)
