-- ===== src/Turn/Core/Calls.antt =====
-- turn_core.rs: the calls of `NativeCore`, each under its lock, at one time of the clock.
use csqtt_antinet_module.Turn.Address.{SocketAddr}
use csqtt_antinet_module.Turn.Core.State.{
  Status, timeout, null, allocating, ready, deallocating, destroying, is_state, NativeEvent,
  forced_destroy, event, Operation, allocate, refresh, deallocate, permission, channel_bind, Inner,
  CsqttTurnProfile, TurnControlTransport, push_event, queue_packet, set_state, has_operation,
  next_deadline,
}
use csqtt_antinet_module.Turn.Core.Requests.{
  Crypto, CoreError, closed, invalid_argument, buffer_too_small, relay_unavailable, start_operation,
  is_none,
}
use csqtt_antinet_module.Turn.Core.Completion.{destroy_allocation, expire_transactions, is_due}
use csqtt_antinet_module.Prelude.{
  ℕ, ◌+◌, ◌-◌, max, ◌⊎◌, inl, inr, Bool, true, false, not, ◌&&◌, ◌||◌, Option, none, some, [], ◌∷◌,
  ◌++◌, ltb, leb, ◌==◌, if◌then◌else◌, length, Bytes,
}
use csqtt_antinet_module.Prelude.{to_be}

-- Names and passwords are given by their bytes.
unfoldable pub create :
    (server : SocketAddr)
    → (username password : Bytes) → (peer : SocketAddr) → CsqttTurnProfile
    → TurnControlTransport
    → CoreError ⊎ Inner
create server username password peer profile transport =
    if (server.port == 0) || (peer.port == 0)
    then inl invalid_argument
    else if (length username == 0)
        || ltb 512 (length username)
        || (length password == 0)
        || ltb 512 (length password)
    then inl invalid_argument
    else inr (record {
      server = server;
      peer = peer;
      username = username;
      password = password;
      realm = none;
      nonce = none;
      key = none;
      state = null;
      relay = none;
      channel = none;
      controls = [];
      events = [];
      pending = [];
      allocation_refresh = none;
      allocation_expires_at = none;
      maintenance_refresh = none;
      permission_retry = none;
      channel_retry = none;
      refresh_failures = 0;
      permission_failures = 0;
      channel_failures = 0;
      keepalive = none;
      shutting_down = false;
      destroyed = false;
      profile = profile;
      transport = transport;
    })

-- `require_open` and `require_ready`
abbrev pub require_open : Inner → Option CoreError
require_open s = if s.destroyed || s.shutting_down then some closed else none

abbrev pub require_ready : Inner → Option CoreError
require_ready s =
    if s.destroyed || s.shutting_down
    then some closed
    else if not (is_state s.state ready)
    then some invalid_argument
    else none

unfoldable pub start_allocation :
    Crypto → (transaction : Bytes) → (now : ℕ) → Inner → Inner × Option CoreError
start_allocation crypto transaction now s = elim (require_open s) [
  | some e ↦ (s, some e)
  | none ↦
      if not (is_state s.state null)
      then (s, some invalid_argument)
      else start_operation crypto allocate false 0 transaction now (set_state allocating s)
]

-- `start_channel` and `start_permission`
unfoldable pub start_ready :
    Crypto → Operation → (transaction : Bytes) → (now : ℕ) → Inner → Inner × Option CoreError
start_ready crypto operation transaction now s = elim (require_ready s) [
  | some e ↦ (s, some e)
  | none ↦ start_operation crypto operation true 0 transaction now s
]

abbrev pub start_channel : Crypto → Bytes → ℕ → Inner → Inner × Option CoreError
start_channel crypto transaction now s = start_ready crypto channel_bind transaction now s

abbrev pub start_permission : Crypto → Bytes → ℕ → Inner → Inner × Option CoreError
start_permission crypto transaction now s = start_ready crypto permission transaction now s

-- `?`: the next step, unless there is an error.
abbrev pub after :
    Inner × Option CoreError → (Inner → Inner × Option CoreError) → Inner × Option CoreError
after (s, none) next = next s
after (s, some e) next = (s, some e)

unfoldable pub queue_keepalive : Inner → Inner
queue_keepalive s = elim s.channel [
  | none ↦ s
  | some c ↦ queue_packet (to_be 2 c ++ (to_be 2 1 ++ (0xff ∷ 0 ∷ 0 ∷ 0 ∷ []))) s
]

-- The operation if it is due and none of its kind is pending; `clear` resets its timer.
unfoldable pub start_due :
    Crypto
    → (due : Bool) → Operation
    → (clear : Inner → Inner) → (transaction : Bytes) → (now : ℕ) → Inner
    → Inner × Option CoreError
start_due crypto due operation clear transaction now s =
    if due && not (has_operation operation s)
    then start_operation crypto operation true 0 transaction now (clear s)
    else (s, none)

abbrev pub clear_refresh : Inner → Inner
clear_refresh s = record s { allocation_refresh = none }

abbrev pub clear_permission : Inner → Inner
clear_permission s = record s { permission_retry = none }

abbrev pub clear_channel : Inner → Inner
clear_channel s = record s { channel_retry = none }

unfoldable pub renew_maintenance : (due : Bool) → (now : ℕ) → Inner → Inner
renew_maintenance due now s = record s {
  maintenance_refresh =
      if due then some (now + s.profile.maintenance_refresh) else s.maintenance_refresh;
}

unfoldable pub keep_alive : (now : ℕ) → Inner → Inner
keep_alive now s =
    if is_due now s.keepalive
    then queue_keepalive (record s { keepalive = some (now + s.profile.keepalive_interval) })
    else s

-- The part of `poll` for a ready allocation; three transaction ids for the requests it may start.
unfoldable pub maintain :
    Crypto → (first second third : Bytes) → (now : ℕ) → Inner → Inner × Option CoreError
maintain crypto first second third now s =
    let maintenance_due = is_due now s.maintenance_refresh in
    let permission_due = maintenance_due || is_due now s.permission_retry in
    let channel_due = maintenance_due || is_due now s.channel_retry in
    after (start_due crypto (is_due now s.allocation_refresh) refresh clear_refresh first now s)
      λ t.
        after
          (start_due crypto permission_due permission clear_permission second now
            (renew_maintenance maintenance_due now t))
          λ u.
            after (start_due crypto channel_due channel_bind clear_channel third now u)
              λ v. (keep_alive now v, none)

abbrev pub is_live : Inner → Bool
is_live s = not s.shutting_down && is_state s.state ready

-- The allocation is gone when its lifetime is over.
unfoldable pub expire_allocation : (now : ℕ) → Inner → Inner
expire_allocation now s =
    if is_live s && is_due now s.allocation_expires_at
    then destroy_allocation refresh timeout 0 s
    else s

-- How long to wait for the next deadline, a millisecond at least.
unfoldable pub wait : (now : ℕ) → Inner → Option ℕ
wait now s = elim (next_deadline s) [ none ↦ none | some d ↦ some (max (d - now) 1) ]

abbrev pub polled : (now : ℕ) → Inner × Option CoreError → Inner × (CoreError ⊎ Option ℕ)
polled now (s, none) = (s, inr (wait now s))
polled now (s, some e) = (s, inl e)

unfoldable pub poll :
    Crypto → (first second third : Bytes) → (now : ℕ) → Inner → Inner × (CoreError ⊎ Option ℕ)
poll crypto first second third now s =
    let t = expire_allocation now (expire_transactions now s) in
    if s.destroyed
    then (s, inr none)
    else polled now (if is_live t then maintain crypto first second third now t else (t, none))

-- Every timer of a live allocation at once.
abbrev pub due_now : (now : ℕ) → Inner → Inner
due_now now s = record s {
  allocation_refresh = some now;
  maintenance_refresh = some now;
  keepalive = some now;
}

-- The expiry as the server has it; `checked_sub` fails before the start of the clock.
unfoldable pub resynced : (gap now : ℕ) → (expires : Option ℕ) → Inner → Inner × Bool
resynced gap now none s = (due_now now s, false)
resynced gap now (some expires) s =
    if leb gap expires && ltb now (expires - gap)
    then (due_now now (record s { allocation_expires_at = some (expires - gap) }), false)
    else (destroy_allocation refresh timeout 0 s, true)

-- The state afterwards, and whether the allocation was torn down.
unfoldable pub resync_after_suspend : (gap now : ℕ) → Inner → Inner × Bool
resync_after_suspend gap now s =
    if s.destroyed || s.shutting_down || not (is_state s.state ready)
    then (s, false)
    else resynced gap now s.allocation_expires_at s

-- The first control packet, if it fits into the buffer of 1024 bytes.
unfoldable pub pull_control : Inner → Inner × (CoreError ⊎ Option (Bytes × SocketAddr))
pull_control s = elim s.controls [
  | [] ↦ (s, inr none)
  | c ∷ controls ↦ (
    record s { controls = controls },
    if ltb 1024 (length c.packet)
        then inl buffer_too_small
        else inr (some (c.packet, c.destination)),
  )
]

unfoldable pub pull_event : Inner → Inner × Option NativeEvent
pull_event s = elim s.events [
  | [] ↦ (s, none)
  | e ∷ events ↦ (record s { events = events }, some e)
]

unfoldable pub relay_address : Inner → CoreError ⊎ SocketAddr
relay_address s = elim s.relay [ none ↦ inl relay_unavailable | some a ↦ inr a ]

abbrev pub quiet : Inner → Inner
quiet s = record s {
  shutting_down = true;
  channel = none;
  maintenance_refresh = none;
  permission_retry = none;
  channel_retry = none;
  keepalive = none;
  controls = [];
}

unfoldable pub graceful_shutdown :
    Crypto → (transaction : Bytes) → (now : ℕ) → Inner → Inner × Option CoreError
graceful_shutdown crypto transaction now s =
    if s.destroyed || s.shutting_down
    then (s, none)
    else if is_state s.state ready
        || (is_state s.state destroying && not (is_none s.allocation_expires_at))
    then start_operation crypto deallocate true 0 transaction now
        (set_state deallocating (record (quiet s) { pending = [] }))
    else if not (is_state s.state allocating)
    then (record (quiet s) { pending = [] }, none)
    else (quiet s, none)

unfoldable pub force_destroy : Status → Inner → Inner
force_destroy status s =
    if s.destroyed
    then s
    else push_event (record (event forced_destroy) { status = status; state = destroying })
        (set_state destroying (record s { destroyed = true; controls = []; pending = [] }))
