-- ===== src/Turn/Core/State.antt =====
-- turn_core.rs: the state of a `NativeCore` (`Inner`) with its queues of control packets and events.
-- Times and durations are in milliseconds.
use csqtt_antinet_module.Turn.Address.{v4, v6, SocketAddr, is_ipv4}
use csqtt_antinet_module.Prelude.{
  ℕ, min, Bool, true, false, Option, none, some, List, [], ◌∷◌, ◌++◌, ◌==◌, if◌then◌else◌, length,
  drop, replicate, Bytes, get_range, bytes_eq,
}

abbrev pub control_capacity : ℕ
control_capacity = 16

abbrev pub event_capacity : ℕ
event_capacity = 64

abbrev pub initial_rto : ℕ
initial_rto = 200

abbrev pub max_rto : ℕ
max_rto = 1600

abbrev pub max_transmissions : ℕ
max_transmissions = 7

abbrev pub stream_transaction_timeout : ℕ
stream_transaction_timeout = 12000

abbrev pub requested_allocation_lifetime_secs : ℕ
requested_allocation_lifetime_secs = 600

abbrev pub channel_number : ℕ
channel_number = 0x4000

pub data TurnControlTransport : Type 0 where
  datagram stream : TurnControlTransport

pub record CsqttTurnProfile : Type 0 where
  pub allocation_refresh : ℕ
  pub maintenance_refresh : ℕ
  pub keepalive_interval : ℕ
  pub max_nonce_retries : ℕ

abbrev pub pjnath_compat : CsqttTurnProfile
pjnath_compat = record {
  allocation_refresh = 300000;
  maintenance_refresh = 175000;
  keepalive_interval = 10000;
  max_nonce_retries = 3;
}

pub record NativeAddress : Type 0 where
  pub family : ℕ
  pub port : ℕ
  pub ip : Bytes

abbrev pub no_address : NativeAddress
no_address = record { family = 0; port = 0; ip = replicate 16 0 }

pub from_socket_addr : SocketAddr → NativeAddress
from_socket_addr a = record {
  family = if is_ipv4 a then 4 else 6;
  port = a.port;
  ip = elim a.ip [ v4 octets ↦ octets ++ replicate 12 0 | v6 octets ↦ octets ];
}

-- The results of the calls, 0 and the negative numbers from `RESULT_EMPTY` on.
pub data Status : Type 0 where
  success empty buffer_too_small invalid_argument closed not_control timeout authentication
        protocol :
      Status

pub data State : Type 0 where
  null allocating ready deallocating deallocated destroying : State

-- The number of a state, for `==` on states.
abbrev pub state_number : State → ℕ
state_number null = 0
state_number allocating = 3
state_number ready = 4
state_number deallocating = 5
state_number deallocated = 6
state_number destroying = 7

abbrev pub is_state : State → State → Bool
is_state a b = state_number a == state_number b

pub data EventKind : Type 0 where
  state_changed request_complete channel_bound relay_address control_overflow forced_destroy
        event_overflow stun_response_error channel_rebind_exhausted :
      EventKind

pub record NativeEvent : Type 0 where
  pub kind : EventKind
  pub method : ℕ
  pub status : Status
  pub stun_code : ℕ
  pub state : State
  pub previous_state : State
  pub dropped : ℕ
  pub channel : ℕ
  pub address : NativeAddress

-- An event of a kind with every other field at its default.
abbrev pub event : EventKind → NativeEvent
event kind = record {
  kind = kind;
  method = 0;
  status = success;
  stun_code = 0;
  state = null;
  previous_state = null;
  dropped = 0;
  channel = 0;
  address = no_address;
}

pub data Operation : Type 0 where
  allocate refresh deallocate permission channel_bind : Operation

abbrev pub method : Operation → ℕ
method allocate = 3
method refresh = 4
method deallocate = 4
method permission = 8
method channel_bind = 9

abbrev pub operation_number : Operation → ℕ
operation_number allocate = 0
operation_number refresh = 1
operation_number deallocate = 2
operation_number permission = 3
operation_number channel_bind = 4

abbrev pub is_operation : Operation → Operation → Bool
is_operation a b = operation_number a == operation_number b

pub record Pending : Type 0 where
  pub operation : Operation
  pub transaction : Bytes
  pub packet : Bytes
  pub next_attempt : ℕ
  pub rto : ℕ
  pub transmissions : ℕ
  pub nonce_retries : ℕ
  pub authenticated : Bool

pub record Control : Type 0 where
  pub packet : Bytes
  pub destination : SocketAddr

pub record Inner : Type 0 where
  pub server : SocketAddr
  pub peer : SocketAddr
  pub username : Bytes
  pub password : Bytes
  pub realm : Option Bytes
  pub nonce : Option Bytes
  pub key : Option Bytes
  pub state : State
  pub relay : Option SocketAddr
  pub channel : Option ℕ
  pub controls : List Control
  pub events : List NativeEvent
  pub pending : List Pending
  pub allocation_refresh : Option ℕ
  pub allocation_expires_at : Option ℕ
  pub maintenance_refresh : Option ℕ
  pub permission_retry : Option ℕ
  pub channel_retry : Option ℕ
  pub refresh_failures : ℕ
  pub permission_failures : ℕ
  pub channel_failures : ℕ
  pub keepalive : Option ℕ
  pub shutting_down : Bool
  pub destroyed : Bool
  pub profile : CsqttTurnProfile
  pub transport : TurnControlTransport

-- A full queue of events drops its oldest and reports that in place of the new one.
unfoldable pub pushed : NativeEvent → List NativeEvent → List NativeEvent
pushed e events =
    if length events == event_capacity
    then drop 1 events
      ++ record (event event_overflow) { status = buffer_too_small; dropped = 1 } ∷ []
    else events ++ e ∷ []

unfoldable pub push_event : NativeEvent → Inner → Inner
push_event e s = record s { events = pushed e s.events }

-- A full queue of control packets drops its oldest, with an event.
unfoldable pub queue_packet : Bytes → Inner → Inner
queue_packet packet s =
    let full = length s.controls == control_capacity in
    let overflow = record (event control_overflow) { status = buffer_too_small; dropped = 1 } in
    record s {
      controls =
          (if full then drop 1 s.controls else s.controls)
          ++ record { packet = packet; destination = s.server } ∷ [];
      events = if full then pushed overflow s.events else s.events;
    }

unfoldable pub set_state : State → Inner → Inner
set_state state s = record s {
  state = state;
  events =
      if is_state s.state state
      then s.events
      else pushed (record (event state_changed) { state = state; previous_state = s.state })
          s.events;
}

-- `packet.get(8..20) == Some(transaction)`
abbrev pub has_transaction : Bytes → Control → Bool
has_transaction transaction c = elim (get_range c.packet 8 20) [
  | none ↦ false
  | some bytes ↦ bytes_eq bytes transaction
]

unfoldable pub retained : Bytes → List Control → List Control
retained transaction [] = []
retained transaction (c ∷ controls) =
    let rest = retained transaction controls in
    if has_transaction transaction c then rest else c ∷ rest

unfoldable pub remove_queued_transaction : Bytes → Inner → Inner
remove_queued_transaction transaction s = record s { controls = retained transaction s.controls }

unfoldable pub find_operation : Operation → List Pending → Option Pending
find_operation operation [] = none
find_operation operation (p ∷ pending) =
    if is_operation p.operation operation then some p else find_operation operation pending

-- `has_operation`
abbrev pub has_operation : Operation → Inner → Bool
has_operation operation s = elim (find_operation operation s.pending) [
  | none ↦ false
  | some p ↦ true
]

unfoldable pub complete : Operation → Status → (stun_code : ℕ) → Inner → Inner
complete operation status stun_code s =
    push_event
      (record (event request_complete) {
        method = method operation;
        status = status;
        stun_code = stun_code;
        state = s.state;
        channel = elim s.channel [ none ↦ 0 | some c ↦ c ];
        address = elim s.relay [ none ↦ no_address | some a ↦ from_socket_addr a ];
      })
      s

-- The earlier of two deadlines.
abbrev pub earlier : Option ℕ → Option ℕ → Option ℕ
earlier none b = b
earlier (some a) none = some a
earlier (some a) (some b) = some (min a b)

unfoldable pub earliest_attempt : List Pending → Option ℕ
earliest_attempt [] = none
earliest_attempt (p ∷ pending) = earlier (some p.next_attempt) (earliest_attempt pending)

unfoldable pub next_deadline : Inner → Option ℕ
next_deadline s = earlier (earliest_attempt s.pending) (
    earlier s.allocation_refresh (
      earlier s.maintenance_refresh
        (earlier s.permission_retry (earlier s.channel_retry s.keepalive))))
