-- ===== src/Turn/Core/Requests.antt =====
-- turn_core.rs: `set_auth`, `build_request` and `start_operation`. The random transaction id and the
-- clock are arguments, the digests a parameter.
use csqtt_antinet_module.Turn.Address.{SocketAddr, is_ipv4}
use csqtt_antinet_module.Turn.Builder.{
  MessageBuilder, with_transaction, add_attribute, xor_address, finish, finish_authenticated,
}
use csqtt_antinet_module.Turn.Core.State.{
  TurnControlTransport, datagram, stream, Operation, allocate, refresh, deallocate, permission,
  channel_bind, method, is_operation, Inner, initial_rto, stream_transaction_timeout,
  requested_allocation_lifetime_secs, queue_packet, find_operation,
}
use csqtt_antinet_module.Prelude.{
  ℕ, ◌+◌, Bool, true, false, ◌&&◌, ◌||◌, Option, none, some, [], ◌∷◌, ◌++◌, if◌then◌else◌, Bytes,
}
use csqtt_antinet_module.Prelude.{to_be}

-- MD5, HMAC-SHA1 and CRC-32 of the libraries that the source uses.
pub record Crypto : Type 0 where
  pub md5 : Bytes → Bytes
  pub hmac : Bytes → Bytes → Bytes
  pub crc32 : Bytes → ℕ

-- Why a call of the core fails.
pub data CoreError : Type 0 where
  closed invalid_argument authentication_incomplete message_too_large buffer_too_small
        no_relayed_address malformed_address invalid_relayed_address lifetime_zero lifetime_not_zero
        relay_unavailable :
      CoreError

abbrev pub attr_username : ℕ
attr_username = 0x0006

abbrev pub attr_channel_number : ℕ
attr_channel_number = 0x000c

abbrev pub attr_lifetime : ℕ
attr_lifetime = 0x000d

abbrev pub attr_xor_peer_address : ℕ
attr_xor_peer_address = 0x0012

abbrev pub attr_realm : ℕ
attr_realm = 0x0014

abbrev pub attr_nonce : ℕ
attr_nonce = 0x0015

abbrev pub attr_requested_address_family : ℕ
attr_requested_address_family = 0x0017

abbrev pub attr_requested_transport : ℕ
attr_requested_transport = 0x0019

unfoldable pub set_auth : Crypto → (realm nonce : Bytes) → Inner → Inner
set_auth crypto realm nonce s = record s {
  key = some (crypto.md5 (s.username ++ (b':' ∷ (realm ++ (b':' ∷ s.password)))));
  realm = some realm;
  nonce = some nonce;
}

-- The attributes of a request before its credentials.
unfoldable pub operation_attributes : Operation → SocketAddr → MessageBuilder → MessageBuilder
operation_attributes allocate peer m =
    add_attribute attr_lifetime (to_be 4 requested_allocation_lifetime_secs) (
      add_attribute attr_requested_address_family ((if is_ipv4 peer then 1 else 2) ∷ 0 ∷ 0 ∷ 0 ∷ [])
        (add_attribute attr_requested_transport (17 ∷ 0 ∷ 0 ∷ 0 ∷ []) m))
operation_attributes refresh peer m =
    add_attribute attr_lifetime (to_be 4 requested_allocation_lifetime_secs) m
operation_attributes deallocate peer m = add_attribute attr_lifetime (to_be 4 0) m
operation_attributes permission peer m = xor_address attr_xor_peer_address peer m
operation_attributes channel_bind peer m =
    xor_address attr_xor_peer_address peer
      (add_attribute attr_channel_number (0x40 ∷ 0 ∷ 0 ∷ 0 ∷ []) m)

abbrev pub or_empty : Option Bytes → Bytes
or_empty none = []
or_empty (some b) = b

-- `none`: the message is too large, or the key is missing.
unfoldable pub build_request :
    Crypto → Operation → Bytes → (authenticated : Bool) → Inner → Option Bytes
build_request crypto operation transaction authenticated s =
    let m =
      operation_attributes operation s.peer (with_transaction (method operation) transaction) in
    let signed =
      add_attribute attr_nonce (or_empty s.nonce)
        (add_attribute attr_realm (or_empty s.realm) (add_attribute attr_username s.username m)) in
    if authenticated
    then elim s.key [
      | none ↦ none
      | some key ↦ finish_authenticated crypto.crc32 crypto.hmac key signed
    ]
    else finish crypto.crc32 m

abbrev pub transaction_timeout : TurnControlTransport → ℕ
transaction_timeout datagram = initial_rto
transaction_timeout stream = stream_transaction_timeout

abbrev pub is_none {ℓ} : {A : Type ℓ} → Option A → Bool
is_none none = true
is_none (some a) = false

-- The state afterwards, and the error if there is one.
unfoldable pub start_operation :
    Crypto
    → Operation
    → (authenticated : Bool) → (nonce_retries : ℕ) → (transaction : Bytes) → (now : ℕ) → Inner
    → Inner × Option CoreError
start_operation crypto operation authenticated nonce_retries transaction now s =
    elim (find_operation operation s.pending) [
      | some p ↦ (if is_operation operation channel_bind then queue_packet p.packet s else s, none)
      | none ↦
          if authenticated && (is_none s.realm || is_none s.nonce || is_none s.key)
          then (s, some authentication_incomplete)
          else elim (build_request crypto operation transaction authenticated s) [
            | none ↦ (s, some message_too_large)
            | some packet ↦ (
              record (queue_packet packet s) {
                pending =
                    s.pending
                    ++ record {
                      operation = operation;
                      transaction = transaction;
                      packet = packet;
                      next_attempt = now + transaction_timeout s.transport;
                      rto = initial_rto;
                      transmissions = 1;
                      nonce_retries = nonce_retries;
                      authenticated = authenticated;
                    }
                      ∷ [];
              },
              none,
            )
          ]
    ]
