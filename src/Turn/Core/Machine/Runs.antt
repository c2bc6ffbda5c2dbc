-- ===== src/Turn/Core/Machine/Runs.antt =====
-- The core under any calls in any order.
use csqtt_antinet_module.Turn.Address.{SocketAddr}
use csqtt_antinet_module.Turn.Core.State.{
  Status, null, permission, channel_bind, Inner, CsqttTurnProfile, TurnControlTransport,
}
use csqtt_antinet_module.Turn.Core.Requests.{Crypto}
use csqtt_antinet_module.Turn.Core.Answers.{input_stun}
use csqtt_antinet_module.Turn.Core.Calls.{
  create, start_allocation, start_channel, start_permission, poll, resync_after_suspend,
  pull_control, pull_event, graceful_shutdown, force_destroy,
}
use csqtt_antinet_module.Turn.Core.Machine.{Distinct, IsValid}
use csqtt_antinet_module.Turn.Core.Machine.Answering.{input_stun-IsValid}
use csqtt_antinet_module.Turn.Core.Machine.Polling.{poll-IsValid}
use csqtt_antinet_module.Turn.Core.Machine.Steps.{
  start_allocation-IsValid, start_ready-IsValid, resync_after_suspend-IsValid,
  graceful_shutdown-IsValid, force_destroy-IsValid, pull_control-IsValid, pull_event-IsValid,
}
use csqtt_antinet_module.Prelude.{ℕ, ◌≡◌, refl, inr, false, List, [], ◌∷◌, arith, Bytes}

-- A call with what it is given: transaction ids, the time, a packet.
pub data Call : Type 0 where
  allocation_started channel_started permission_started shut_down :
      (transaction : Bytes) → (now : ℕ) → Call
  stun_received : (packet transaction : Bytes) → (now : ℕ) → Call
  polled : (first second third : Bytes) → (now : ℕ) → Call
  resumed : (gap now : ℕ) → Call
  control_pulled event_pulled : Call
  destroyed : Status → Call

unfoldable pub perform : Crypto → Call → Inner → Inner
perform crypto (Call.allocation_started t now) s = (start_allocation crypto t now s).0
perform crypto (Call.channel_started t now) s = (start_channel crypto t now s).0
perform crypto (Call.permission_started t now) s = (start_permission crypto t now s).0
perform crypto (Call.shut_down t now) s = (graceful_shutdown crypto t now s).0
perform crypto (Call.stun_received packet t now) s = (input_stun crypto packet t now s).0
perform crypto (Call.polled first second third now) s = (poll crypto first second third now s).0
perform crypto (Call.resumed gap now) s = (resync_after_suspend gap now s).0
perform crypto Call.control_pulled s = (pull_control s).0
perform crypto Call.event_pulled s = (pull_event s).0
perform crypto (Call.destroyed status) s = force_destroy status s

unfoldable pub run : Crypto → List Call → Inner → Inner
run crypto [] s = s
run crypto (c ∷ calls) s = run crypto calls (perform crypto c s)

perform-IsValid :
    (crypto : Crypto) (c : Call) (s : Inner) → IsValid s → IsValid (perform crypto c s)
unfolding perform
perform-IsValid crypto (Call.allocation_started t now) s v =
    start_allocation-IsValid crypto t now s v
perform-IsValid crypto (Call.channel_started t now) s v =
    start_ready-IsValid crypto channel_bind t now s refl v
perform-IsValid crypto (Call.permission_started t now) s v =
    start_ready-IsValid crypto permission t now s refl v
perform-IsValid crypto (Call.shut_down t now) s v = graceful_shutdown-IsValid crypto t now s v
perform-IsValid crypto (Call.stun_received packet t now) s v =
    input_stun-IsValid crypto packet t now s v
perform-IsValid crypto (Call.polled first second third now) s v =
    poll-IsValid crypto first second third now s v
perform-IsValid crypto (Call.resumed gap now) s v = resync_after_suspend-IsValid gap now s v
perform-IsValid crypto Call.control_pulled s v = pull_control-IsValid s v
perform-IsValid crypto Call.event_pulled s v = pull_event-IsValid s v
perform-IsValid crypto (Call.destroyed status) s v = force_destroy-IsValid status s v

run-IsValid_from :
    (crypto : Crypto) (calls : List Call) (s : Inner) → IsValid s → IsValid (run crypto calls s)
unfolding run
run-IsValid_from crypto [] s v = v
run-IsValid_from crypto (c ∷ calls) s v =
    run-IsValid_from crypto calls (perform crypto c s) (perform-IsValid crypto c s v)

create_fields :
    (server : SocketAddr) (username password : Bytes) (peer : SocketAddr)
    (profile : CsqttTurnProfile) (transport : TurnControlTransport) {s : Inner}
    → create server username password peer profile transport ≡ inr s
    → (s.controls ≡ [])
      × (s.events ≡ [])
      × (s.pending ≡ [])
      × (s.state ≡ null)
      × (s.destroyed ≡ false)
unfolding create
create_fields server username password peer profile transport e = ground arith

create-IsValid :
    (server : SocketAddr) (username password : Bytes) (peer : SocketAddr)
    (profile : CsqttTurnProfile) (transport : TurnControlTransport) {s : Inner}
    → create server username password peer profile transport ≡ inr s
    → IsValid s
create-IsValid server username password peer profile transport {s} e =
    let (controls, events, pending, state, on) =
      create_fields server username password peer profile transport e in
    record {
      controls_bounded = rw controls (omega arith);
      events_bounded = rw events (omega arith);
      under_way = rw pending tt;
      distinct = rw pending (unfold Distinct in tt);
      live = λ q. absurd (cc);
      held = λ q. absurd (cc);
      ended = λ q. absurd (cc);
    }

-- Whatever calls a core gets after it is created, packets from the network included: at most 16
-- control packets and 64 events wait; at most one request of each kind is under way, each in the
-- one state that its kind belongs to, sent 1 to 7 times with a timeout of 200 to 1600 ms and
-- within the limit of nonce retries; a ready core is neither shut down nor destroyed and has a
-- relayed address and an expiry; and a destroyed core sends nothing.
pub run-IsValid :
    (crypto : Crypto) (server : SocketAddr) (username password : Bytes) (peer : SocketAddr)
    (profile : CsqttTurnProfile) (transport : TurnControlTransport) (calls : List Call) {s : Inner}
    → create server username password peer profile transport ≡ inr s
    → IsValid (run crypto calls s)
run-IsValid crypto server username password peer profile transport calls {s} e =
    run-IsValid_from crypto calls s
      (create-IsValid server username password peer profile transport e)
