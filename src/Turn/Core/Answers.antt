-- ===== src/Turn/Core/Answers.antt =====
-- turn_core.rs: `input_stun`, the answers that the server gives to requests.
use csqtt_antinet_module.Stun.{
  Attribute, Message, Class, request, indication, decode, class, fingerprint_valid,
}
use csqtt_antinet_module.Stun as Stun
use csqtt_antinet_module.Turn.Builder.{find_attribute, verify_integrity}
use csqtt_antinet_module.Turn.Core.State.{
  Status, success, invalid_argument, not_control, authentication, protocol, State, NativeEvent,
  stun_response_error, event, Operation, channel_bind, is_operation, method, Pending, Inner,
  push_event, remove_queued_transaction,
}
use csqtt_antinet_module.Turn.Core.Requests.{
  Crypto, attr_realm, attr_nonce, set_auth, start_operation,
}
use csqtt_antinet_module.Turn.Core.Completion.{
  complete_failure, complete_success, destroy_allocation,
}
use csqtt_antinet_module.Prelude.{
  ℕ, ◌+◌, ◌*◌, inl, inr, Bool, true, false, not, ◌&&◌, ◌||◌, Option, none, some, List, [], ◌∷◌, ltb,
  ◌==◌, if◌then◌else◌, length, Bytes, byte, bytes_eq,
}

abbrev pub attr_error_code : ℕ
attr_error_code = 0x0009

abbrev pub error_at : Bytes → Option ℕ
error_at value =
    if ltb (length value) 4 || ltb 6 (byte value 2) || ltb 99 (byte value 3)
    then none
    else some (byte value 2 * 100 + byte value 3)

unfoldable pub error_code : Message → Option ℕ
error_code m = elim (find_attribute attr_error_code m) [ none ↦ none | some a ↦ error_at a.value ]

abbrev pub is_code : ℕ → Option ℕ → Bool
is_code code none = false
is_code code (some c) = c == code

unfoldable pub response_requires_integrity : Message → Bool
response_requires_integrity m = elim (class m) [
  | request ↦ false
  | indication ↦ false
  | Class.success ↦ true
  | Class.error ↦ not (
      is_code 400 (error_code m)
      || is_code 401 (error_code m)
      || is_code 420 (error_code m)
      || is_code 438 (error_code m))
]

abbrev pub is_error : Message → Bool
is_error m = elim (class m) [ Class.error ↦ true | _ ↦ false ]

abbrev pub is_response : Message → Bool
is_response m = elim (class m) [ request ↦ false | indication ↦ false | _ ↦ true ]

-- `message.fingerprint_valid() == Some(valid)`; a decoded message makes the iterator never panic.
abbrev pub fingerprint_is : Bool → Option (Option Bool) → Bool
fingerprint_is valid (some (some b)) = if valid then b else not b
fingerprint_is valid other = false

unfoldable pub is_fingerprinted_allocation_mismatch : Crypto → Message → Bool
is_fingerprinted_allocation_mismatch crypto m =
    is_error m
    && is_code 437 (error_code m)
    && fingerprint_is true (fingerprint_valid crypto.crc32 m)

unfoldable pub requires_allocation_recreate : Operation → ℕ → Bool
requires_allocation_recreate operation code =
    (code == 437) || (is_operation operation channel_bind && (code == 400))

-- The request that a response belongs to, and the other ones.
unfoldable pub take_pending :
    (transaction : Bytes) → (code : ℕ) → List Pending → Option (Pending × List Pending)
take_pending transaction code [] = none
take_pending transaction code (p ∷ pending) =
    if bytes_eq p.transaction transaction && (method p.operation == code)
    then some (p, pending)
    else elim (take_pending transaction code pending) [
      | none ↦ none
      | some (q, rest) ↦ some (q, p ∷ rest)
    ]

abbrev pub response_error : (method : ℕ) → Status → (code : ℕ) → State → NativeEvent
response_error method status code state = record (event stun_response_error) {
  method = method;
  status = status;
  stun_code = code;
  state = state;
}

-- The request fails with the code of the server.
unfoldable pub refused : Pending → (code now : ℕ) → Inner → Inner
refused p code now s =
    complete_failure p.operation protocol code now
      (push_event (response_error (method p.operation) success code s.state) s)

abbrev pub value_of : Option Attribute → Option Bytes
value_of none = none
value_of (some a) = some a.value

-- The realm and nonce of a challenge; a stale nonce may leave the realm out.
unfoldable pub credentials : (code : ℕ) → Message → Inner → Option (Bytes × Bytes)
credentials code m s =
    let realm : Option Bytes = elim (value_of (find_attribute attr_realm m)) [
      | some realm ↦ some realm
      | none ↦ if code == 438 then s.realm else none
    ] in
    elim realm [
      | none ↦ none
      | some r ↦ elim (value_of (find_attribute attr_nonce m)) [
        | none ↦ none
        | some nonce ↦ some (r, nonce)
      ]
    ]

-- The answer to a challenge: the request again with credentials, or a failure.
unfoldable pub challenged :
    Crypto → Pending → (code : ℕ) → Message → (transaction : Bytes) → (now : ℕ) → Inner → Inner
challenged crypto p code m transaction now s =
    let again = (code == 401 || (code == 438)) && ltb p.nonce_retries s.profile.max_nonce_retries in
    elim (if again then credentials code m s else none) [
      | none ↦ refused p code now s
      | some (realm, nonce) ↦
          (let (t, failed) =
              start_operation crypto p.operation true (p.nonce_retries + 1) transaction now
                (set_auth crypto realm nonce s) in
            elim failed [ none ↦ t | some e ↦ refused p code now t ])
    ]

unfoldable pub error_answer :
    Crypto → Pending → Message → (transaction : Bytes) → (now : ℕ) → Inner → Inner
error_answer crypto p m transaction now s =
    let code : ℕ = elim (error_code m) [ none ↦ 0 | some c ↦ c ] in
    if code == 0
    then complete_failure p.operation protocol 0 now
        (push_event (response_error (method p.operation) protocol 0 s.state) s)
    else if requires_allocation_recreate p.operation code
    then destroy_allocation p.operation protocol code
        (push_event (response_error (method p.operation) success code s.state) s)
    else challenged crypto p code m transaction now s

-- The response is taken for the request, which is no longer pending.
unfoldable pub answered :
    Crypto → Pending → Message → (transaction : Bytes) → (now : ℕ) → Inner → Inner × Status
answered crypto p m transaction now s =
    if is_error m
    then (error_answer crypto p m transaction now s, success)
    else if not p.authenticated
    then (complete_failure p.operation authentication 0 now s, authentication)
    else (let (t, failed) = complete_success crypto p.operation m transaction now s in
        elim failed [
          | none ↦ (t, success)
          | some e ↦ (complete_failure p.operation protocol 0 now t, protocol)
        ])

-- The response fails the integrity check; the request stays pending.
unfoldable pub rejected : Pending → Message → Inner → Inner
rejected p m s =
    if is_error m
    then elim (error_code m) [
      | none ↦ s
      | some code ↦ push_event (response_error (method p.operation) authentication code s.state) s
    ]
    else s

-- Whether a response to the request passes for the server's.
unfoldable pub passes : Crypto → (packet : Bytes) → Pending → Message → (key : Option Bytes) → Bool
passes crypto packet p m key =
    not p.authenticated
    || not (response_requires_integrity m)
    || verify_integrity crypto.hmac packet m key
    || is_fingerprinted_allocation_mismatch crypto m

unfoldable pub input_message :
    Crypto → (packet : Bytes) → Message → (transaction : Bytes) → (now : ℕ) → Inner → Inner × Status
input_message crypto packet m transaction now s =
    if not (is_response m)
    then (s, not_control)
    else if fingerprint_is false (fingerprint_valid crypto.crc32 m)
    then (s, invalid_argument)
    else elim (take_pending m.transaction (Stun.method m) s.pending) [
      | none ↦ (s, not_control)
      | some (p, others) ↦
          if passes crypto packet p m s.key
          then answered crypto p m transaction now
              (remove_queued_transaction m.transaction (record s { pending = others }))
          else (rejected p m s, authentication)
    ]

-- `transaction` is for a request that the answer leads to.
unfoldable pub input_stun :
    Crypto → (packet : Bytes) → (transaction : Bytes) → (now : ℕ) → Inner → Inner × Status
input_stun crypto packet transaction now s = elim (decode packet) [
  | inl e ↦ (s, invalid_argument)
  | inr m ↦ input_message crypto packet m transaction now s
]
