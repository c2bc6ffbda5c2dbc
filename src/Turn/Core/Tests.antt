-- ===== src/Turn/Core/Tests.antt =====
-- The theorems on the core, applied to one that has sent its Allocate request.
use csqtt_antinet_module.Stun.{find}
use csqtt_antinet_module.Stun.{class, attribute, attributes, collect, next, Message, decode, scan}
use csqtt_antinet_module.Turn.Builder.{verify_integrity}
use csqtt_antinet_module.Turn.Core.State.{
  next_deadline, earliest_attempt, set_state, push_event, null, timeout, destroying, datagram,
  pjnath_compat, allocate, refresh, Inner, success, allocating,
}
use csqtt_antinet_module.Turn.Core.Requests.{Crypto}
use csqtt_antinet_module.Turn.Core.Completion.{
  refresh_success, attribute_u32, expire_transactions, complete_success,
}
use csqtt_antinet_module.Turn.Core.Answers.{
  response_requires_integrity, is_fingerprinted_allocation_mismatch, input_stun,
}
use csqtt_antinet_module.Turn.Core.Calls.{create, force_destroy, wait, poll}
use csqtt_antinet_module.Turn.Core.Machine.Steps.{force_destroy-IsValid}
use csqtt_antinet_module.Turn.Address.{v4, SocketAddr}
use csqtt_antinet_module.Turn.Core.Deadlines.{deadlines, IsGranted, complete_success-IsGranted}
use csqtt_antinet_module.Turn.Core.Waiting.{IsWaiting, wait-poll}
use csqtt_antinet_module.Turn.Core.Machine.{IsValid}
use csqtt_antinet_module.Turn.Core.Machine.Turns.{Turns, expire_transactions_lem}
use csqtt_antinet_module.Turn.Core.Machine.Runs.{Call, perform, run, run-IsValid}
use csqtt_antinet_module.Turn.Core.Machine.Guards.{
  SameButEvents, forged-input_stun, perform-destroyed,
}
use csqtt_antinet_module.Prelude.{
  ℕ, ◌+◌, ◌%◌, ◌≤◌, ◌<◌, max, ◌≡◌, refl, ◌≢◌, ◌⊎◌, inr, true, false, none, some, List, [], ◌∷◌,
  arith, length, get_elem?, replicate, All, Bytes, u32_mod, bytes_eq,
}

-- Stand-ins for the digests, with their sizes.
abbrev crypto : Crypto
crypto = record {
  md5 = λ b. replicate 16 1;
  hmac = λ key b. replicate 20 (length b % 256);
  crc32 = λ b. length b % u32_mod;
}

abbrev server : SocketAddr
server = record { ip = v4 (127 ∷ 0 ∷ 0 ∷ 1 ∷ []); port = 3478 }

abbrev id : Bytes
id = replicate 12 7

abbrev new : Inner
new = record {
  server = server;
  peer = server;
  username = b'u' ∷ [];
  password = b'p' ∷ [];
  realm = none;
  nonce = none;
  key = none;
  state = null;
  relay = none;
  channel = none;
  controls = [];
  events = [];
  pending = [];
  allocation_refresh = none;
  allocation_expires_at = none;
  maintenance_refresh = none;
  permission_retry = none;
  channel_retry = none;
  refresh_failures = 0;
  permission_failures = 0;
  channel_failures = 0;
  keepalive = none;
  shutting_down = false;
  destroyed = false;
  profile = pjnath_compat;
  transport = datagram;
}

created : create server (b'u' ∷ []) (b'p' ∷ []) server pjnath_compat datagram ≡ inr new
unfolding create
created = refl

abbrev calls : List Call
calls = Call.allocation_started id 1000 ∷ Call.polled id id id 1300 ∷ Call.control_pulled ∷ []

run-IsValid_example : IsValid (run crypto calls new)
run-IsValid_example =
    run-IsValid crypto server (b'u' ∷ []) (b'p' ∷ []) server pjnath_compat datagram calls {s = new}
      created

abbrev started : Inner
started = run crypto (Call.allocation_started id 1000 ∷ []) new

started-IsValid : IsValid started
started-IsValid =
    run-IsValid crypto server (b'u' ∷ []) (b'p' ∷ []) server pjnath_compat datagram
      (Call.allocation_started id 1000 ∷ []) {s = new} created

expire_transactions_lem_example :
    Turns 1300 [] started.pending started (expire_transactions 1300 started)
    × IsValid (expire_transactions 1300 started)
    × All (λ p. 1300 < p.next_attempt) (expire_transactions 1300 started).pending
expire_transactions_lem_example = expire_transactions_lem 1300 started started-IsValid

-- A success response with no attributes, and an authenticated request that it would belong to.
abbrev response : Bytes
response = 1 ∷ 3 ∷ 0 ∷ 0 ∷ 0x21 ∷ 0x12 ∷ 0xa4 ∷ 0x42 ∷ id

abbrev message : Message
message = record { raw = response; kind = 0x0103; transaction = id; end = 20 }

abbrev waiting : Inner
waiting = record new {
  state = allocating;
  key = some (replicate 16 1);
  pending =
      record {
        operation = allocate;
        transaction = id;
        packet = [];
        next_attempt = 200;
        rto = 200;
        transmissions = 1;
        nonce_retries = 1;
        authenticated = true;
      }
      ∷ [];
}

decoded : decode response ≡ inr message
unfolding decode scan bytes_eq
decoded = refl

needs : response_requires_integrity message ≡ true
unfolding response_requires_integrity class
needs = refl

forged : verify_integrity crypto.hmac response message waiting.key ≡ false
unfolding verify_integrity attribute attributes collect next find
forged = refl

unmatched : is_fingerprinted_allocation_mismatch crypto message ≡ false
unfolding is_fingerprinted_allocation_mismatch class
unmatched = refl

forged-input_stun_example :
    let (t, status) = input_stun crypto response id 100 waiting in
    SameButEvents waiting t × (status ≢ success)
forged-input_stun_example =
    forged-input_stun crypto response id 100 waiting {m = message} decoded (refl, tt) needs forged
      unmatched

new-IsValid : IsValid new
unfolding run
new-IsValid =
    run-IsValid crypto server (b'u' ∷ []) (b'p' ∷ []) server pjnath_compat datagram [] {s = new}
      created

abbrev over : Inner
over = force_destroy timeout new

over-destroyed : over.destroyed ≡ true
unfolding force_destroy set_state push_event
over-destroyed = refl

perform-destroyed_example :
    let t = perform crypto (Call.polled id id id 1300) over in
    SameButEvents over t × (t.state ≡ destroying) × (t.controls ≡ []) × (t.pending ≡ [])
perform-destroyed_example =
    perform-destroyed crypto (Call.polled id id id 1300) over
      (force_destroy-IsValid timeout new new-IsValid) over-destroyed

waiting-101 : IsWaiting 100 101 (wait 100 waiting)
unfolding wait next_deadline earliest_attempt
waiting-101 = omega arith

wait-poll_example :
    ((poll crypto id id id 101 waiting).0 ≡ waiting)
    × (((wait 100 waiting ≡ none) × (deadlines waiting ≡ []))
        ⊎ ((w earliest : ℕ) × (wait 100 waiting ≡ some w)
            × (100 + w ≡ max earliest (100 + 1))
            × ((i : ℕ) × (get_elem? (deadlines waiting) i ≡ some earliest))
            × All (λ d. 100 + w ≤ max d (100 + 1)) (deadlines waiting)))
wait-poll_example = wait-poll crypto id id id 100 101 waiting waiting-101 (omega arith) refl

-- A Refresh response that gives no lifetime.
abbrev refreshed : Message
refreshed = record message { kind = 0x0104 }

granted : (complete_success crypto refresh refreshed id 100 new).1 ≡ none
unfolding complete_success refresh_success attribute_u32 attribute attributes collect next find
granted = refl

complete_success-IsGranted_example :
    IsGranted 100 (complete_success crypto refresh refreshed id 100 new).0
complete_success-IsGranted_example =
    complete_success-IsGranted crypto refresh refreshed id 100 new (inr refl) refl granted
