-- ===== src/Turn/Core/Completion.antt =====
-- turn_core.rs: what the answer to a request, or the lack of one, does to the allocation.
use csqtt_antinet_module.Stun.{Message}
use csqtt_antinet_module.Turn.Address.{v4, v6, SocketAddr, is_ipv4, decode_xor_address}
use csqtt_antinet_module.Turn.Builder.{find_attribute}
use csqtt_antinet_module.Turn.Core.State.{
  channel_number, requested_allocation_lifetime_secs, from_socket_addr, Status, success, timeout,
  ready, deallocating, deallocated, destroying, is_state, relay_address, channel_bound,
  channel_rebind_exhausted, event, Operation, allocate, refresh, deallocate, permission,
  channel_bind, is_operation, Pending, Inner, push_event, set_state, complete, max_rto,
  max_transmissions, TurnControlTransport, datagram, stream, remove_queued_transaction,
  queue_packet,
}
use csqtt_antinet_module.Turn.Core.Requests.{
  Crypto, CoreError, no_relayed_address, malformed_address, invalid_relayed_address, lifetime_zero,
  lifetime_not_zero, attr_lifetime, start_operation,
}
use csqtt_antinet_module.Prelude.{
  ℕ, zero, suc, ◌+◌, ◌-◌, ◌*◌, ◌/◌, ◌%◌, ◌^◌, min, max, bit_xor, ◌⊎◌, inl, inr, Bool, true, false,
  not, ◌&&◌, ◌||◌, Option, none, some, List, [], ◌∷◌, ltb, leb, ◌==◌, if◌then◌else◌, length,
  get_elem?, set, Bytes, slice, from_be,
}

abbrev pub attr_xor_relayed_address : ℕ
attr_xor_relayed_address = 0x0016

abbrev pub max_channel_maintenance_failures : ℕ
max_channel_maintenance_failures = 4

unfoldable pub attribute_u32 : Message → ℕ → Option ℕ
attribute_u32 m kind = elim (find_attribute kind m) [
  | none ↦ none
  | some a ↦ if length a.value == 4 then some (from_be a.value) else none
]

abbrev pub or_requested : Option ℕ → ℕ
or_requested none = requested_allocation_lifetime_secs
or_requested (some lifetime) = lifetime

-- Half of the lifetime in milliseconds, at most the interval, at least half a second.
unfoldable pub allocation_refresh_deadline : (now : ℕ) → (lifetime : Option ℕ) → (interval : ℕ) → ℕ
allocation_refresh_deadline now lifetime interval =
    now + max (min interval (or_requested lifetime * 500)) 500

unfoldable pub keepalive_mix : SocketAddr → ℕ
keepalive_mix relay = elim relay.ip [
  | v4 octets ↦ bit_xor relay.port (from_be octets)
  | v6 octets ↦ bit_xor relay.port (from_be (slice octets 8 16))
]

unfoldable pub first_keepalive_deadline : (now interval : ℕ) → SocketAddr → ℕ
first_keepalive_deadline now interval relay =
    let span = max (interval / 5) 1 in
    now + (interval - span + keepalive_mix relay % (span * 2 + 1))

unfoldable pub destroy_allocation : Operation → Status → (stun_code : ℕ) → Inner → Inner
destroy_allocation operation status stun_code s =
    let t = complete operation status stun_code s in
    set_state (if is_operation operation deallocate then deallocated else destroying) (record t {
      controls = [];
      pending = [];
      channel = none;
      allocation_refresh = none;
      allocation_expires_at = none;
      maintenance_refresh = none;
      permission_retry = none;
      channel_retry = none;
      keepalive = none;
      relay = none;
    })

unfoldable pub destroy_after_channel_rebind_exhausted : Inner → Inner
destroy_after_channel_rebind_exhausted s = set_state destroying (
    push_event (record (event channel_rebind_exhausted) { status = timeout; state = destroying })
      (record s {
        controls = [];
        pending = [];
        channel = none;
        maintenance_refresh = none;
        permission_retry = none;
        channel_retry = none;
        keepalive = none;
      }))

-- `saturating_add` of a byte.
abbrev pub one_more : ℕ → ℕ
one_more failures = min (failures + 1) 255

-- A second after the first failure, then doubled up to 30 seconds.
unfoldable pub retry_delay : (failures : ℕ) → ℕ
retry_delay failures = min (1000 * 2 ^ min (failures - 1) 5) 30000

-- False: the channel has failed too often.
unfoldable pub schedule_maintenance_retry : Operation → (now : ℕ) → Inner → Inner × Bool
schedule_maintenance_retry refresh now s =
    let failures = one_more s.refresh_failures in
    (
      record s {
        refresh_failures = failures;
        allocation_refresh = some (now + retry_delay failures);
      },
      true,
    )
schedule_maintenance_retry permission now s =
    let failures = one_more s.permission_failures in
    (
      record s {
        permission_failures = failures;
        permission_retry = some (now + retry_delay failures);
      },
      true,
    )
schedule_maintenance_retry channel_bind now s =
    let failures = one_more s.channel_failures in
    if leb max_channel_maintenance_failures failures
    then (record s { channel_failures = failures }, false)
    else (
      record s { channel_failures = failures; channel_retry = some (now + retry_delay failures) },
      true,
    )
schedule_maintenance_retry allocate now s = (s, true)
schedule_maintenance_retry deallocate now s = (s, true)

-- `is_some_and(|deadline| now < deadline)` and `now >= deadline`
abbrev pub is_ahead : (now : ℕ) → Option ℕ → Bool
is_ahead now none = false
is_ahead now (some deadline) = ltb now deadline

abbrev pub is_due : (now : ℕ) → Option ℕ → Bool
is_due now none = false
is_due now (some deadline) = leb deadline now

abbrev pub is_maintenance : Operation → Bool
is_maintenance allocate = false
is_maintenance refresh = true
is_maintenance deallocate = false
is_maintenance permission = true
is_maintenance channel_bind = true

unfoldable pub complete_failure : Operation → Status → (stun_code now : ℕ) → Inner → Inner
complete_failure operation status stun_code now s =
    if is_maintenance operation && is_state s.state ready && is_ahead now s.allocation_expires_at
    then (let (t, scheduled) =
          schedule_maintenance_retry operation now (complete operation status stun_code s) in
        if scheduled then t else destroy_after_channel_rebind_exhausted t)
    else destroy_allocation operation status stun_code s

-- The relayed address of an Allocate response.
unfoldable pub relayed_address : Message → SocketAddr → CoreError ⊎ SocketAddr
relayed_address m peer = elim (find_attribute attr_xor_relayed_address m) [
  | none ↦ inl no_relayed_address
  | some a ↦ elim (decode_xor_address a.value m.transaction) [
    | none ↦ inl malformed_address
    | some relay ↦
        if (if is_ipv4 relay then not (is_ipv4 peer) else is_ipv4 peer) || (relay.port == 0)
        then inl invalid_relayed_address
        else inr relay
  ]
]

-- An Allocate response with a valid relayed address and lifetime: the timers and the relay.
unfoldable pub allocated : SocketAddr → (returned_lifetime : Option ℕ) → (now : ℕ) → Inner → Inner
allocated relay returned_lifetime now s =
    push_event (record (event relay_address) { address = from_socket_addr relay })
      (record s {
        relay = some relay;
        allocation_refresh =
            some (allocation_refresh_deadline now returned_lifetime s.profile.allocation_refresh);
        allocation_expires_at = some (now + or_requested returned_lifetime * 1000);
        refresh_failures = 0;
        maintenance_refresh = some (now + s.profile.maintenance_refresh);
        keepalive = some (first_keepalive_deadline now s.profile.keepalive_interval relay);
      })

unfoldable pub allocate_success :
    Crypto → Message → (transaction : Bytes) → (now : ℕ) → Inner → Inner × Option CoreError
allocate_success crypto m transaction now s = elim (relayed_address m s.peer) [
  | inl e ↦ (s, some e)
  | inr relay ↦
      let t = allocated relay (attribute_u32 m attr_lifetime) now s in
      if or_requested (attribute_u32 m attr_lifetime) == 0
      then (s, some lifetime_zero)
      else if s.shutting_down
      then start_operation crypto deallocate true 0 transaction now (set_state deallocating t)
      else (complete allocate success 0 (set_state ready t), none)
]

unfoldable pub refresh_success : Message → (now : ℕ) → Inner → Inner × Option CoreError
refresh_success m now s =
    let returned_lifetime = attribute_u32 m attr_lifetime in
    if or_requested returned_lifetime == 0 then (s, some lifetime_zero) else (
      complete refresh success 0 (record s {
        allocation_refresh =
            some (allocation_refresh_deadline now returned_lifetime s.profile.allocation_refresh);
        allocation_expires_at = some (now + or_requested returned_lifetime * 1000);
        refresh_failures = 0;
      }),
      none,
    )

unfoldable pub complete_success :
    Crypto
    → Operation
    → Message
    → (transaction : Bytes) → (now : ℕ) → Inner
    → Inner × Option CoreError
complete_success crypto allocate m transaction now s = allocate_success crypto m transaction now s
complete_success crypto refresh m transaction now s = refresh_success m now s
complete_success crypto deallocate m transaction now s =
    if elim (attribute_u32 m attr_lifetime) [ none ↦ false | some lifetime ↦ not (lifetime == 0) ]
    then (s, some lifetime_not_zero)
    else (
      set_state deallocated (
          complete deallocate success 0
            (record s { relay = none; allocation_refresh = none; allocation_expires_at = none })),
      none,
    )
complete_success crypto permission m transaction now s =
    (complete permission success 0 (record s { permission_failures = 0 }), none)
complete_success crypto channel_bind m transaction now s = (
  complete channel_bind success 0 (
      push_event
        (record (event channel_bound) {
          channel = channel_number;
          address = from_socket_addr s.peer;
        })
        (record s { channel = some channel_number; channel_failures = 0 })),
  none,
)

-- `pending.remove(index)`
unfoldable pub remove_at : ℕ → List Pending → List Pending
remove_at index [] = []
remove_at zero (p ∷ pending) = pending
remove_at (suc index) (p ∷ pending) = p ∷ remove_at index pending

abbrev pub is_stream : TurnControlTransport → Bool
is_stream datagram = false
is_stream stream = true

-- The request as it is sent again.
abbrev pub retransmitted : (now : ℕ) → Pending → Pending
retransmitted now p = record p {
  transmissions = p.transmissions + 1;
  rto = min (p.rto * 2) max_rto;
  next_attempt = now + min (p.rto * 2) max_rto;
}

-- One turn of the loop of `expire_transactions`: the state and the next index.
unfoldable pub expire_one : (now index : ℕ) → Pending → Inner → Inner × ℕ
expire_one now index p s =
    if ltb now p.next_attempt
    then (s, index + 1)
    else if leb max_transmissions p.transmissions || is_stream s.transport
    then (
      complete_failure p.operation timeout 0 now (
          remove_queued_transaction p.transaction
            (record s { pending = remove_at index s.pending })),
      index,
    )
    else (
      record (queue_packet p.packet s) { pending = set s.pending index (retransmitted now p) },
      index + 1,
    )

unfoldable pub expire_loop : (fuel now index : ℕ) → Inner → Inner
expire_loop zero now index s = s
expire_loop (suc fuel) now index s = elim (get_elem? s.pending index) [
  | none ↦ s
  | some p ↦ expire_loop fuel now (expire_one now index p s).1 (expire_one now index p s).0
]

-- Each turn moves on or takes a request away, so their number is fuel enough.
unfoldable pub expire_transactions : (now : ℕ) → Inner → Inner
expire_transactions now s = expire_loop (length s.pending) now 0 s
