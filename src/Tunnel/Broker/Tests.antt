-- ===== src/Tunnel/Broker/Tests.antt =====
-- The theorems on src/tunnel/broker.ts at concrete brokers.
use agentgather.Common.{
  ℕ, ◌≡◌, ◌≢◌, ◌-◌, ◌++◌, ◌⊎◌, ◌↔◌, inl, refl, none, some, Option, List, [], ◌∷◌, arith, length,
  JsString, js, get, str_eq, str_eq_iff, ok, throw, Distinct,
}
use agentgather.Tunnel.Protocol.{RouteMetadata, HostRegistration, ForwardedResponse}
use agentgather.Tunnel.Limits.{new_guards, broker_limits}
use agentgather.Tunnel.Relay.{new_hub}
use agentgather.Tunnel.Broker.{
  BrokerConfig, TunnelBroker, Url, route_closed_after, new_route, register, refresh, find_entry,
  current_route, check_slug, assert_local_target, is_local_host, take_slug, close_old, store_target,
  matches_slug_pattern, starts_alnum, ends_alnum,
}
use agentgather.Tunnel.Broker.Calls.{
  heartbeat, close_route, claim_relay, respond_relay, resolve, expired_error, closed_error,
}
use agentgather.Tunnel.Broker.Routes.{Keeps, unknown_route}
use agentgather.Tunnel.Broker.Histories.{
  Call, registers, polls, heartbeats, closes, snapshots, run, Unregistered, run-Keeps, resolve_dead,
}
use agentgather.Tunnel.Broker.Disowning.{IsSoleOwner}
use agentgather.Tunnel.Broker.Taking.{slug_taken}
use agentgather.Tunnel.Broker.Freeing.{MintsOther}
use agentgather.Tunnel.Broker.Ownership.{
  IsAttended, IsWellFormed, register-taken_iff, register_takes_over,
}
use agentgather.Tunnel.Broker.Metered.{close_twice_metered}

abbrev room : JsString
room = js "quiet-room"

abbrev config : BrokerConfig
config = record { route_ttl_ms = 900000; max_route_lifetime_ms = 28800000; host_grace_ms = 45000 }

abbrev old_route : RouteMetadata
old_route = new_route config 1000 room (js "r1") (js "c1")

-- A broker with one route, which a host with a local target holds.
abbrev broker : TunnelBroker
broker = record {
  config = config;
  routes = (room, old_route) ∷ [];
  targets = (room, js "http://127.0.0.1:7777") ∷ [];
  guards = new_guards broker_limits;
  relay = new_hub (record {
    claim_timeout_ms = 30000;
    response_timeout_ms = 60000;
    response_body_bytes = 1024;
  });
  metered = [];
}

abbrev parse_url : JsString → Option Url
parse_url text = some (record { protocol = js "http:"; hostname = js "127.0.0.1" })

abbrev byte_length : JsString → ℕ
byte_length text = length text

abbrev calls : List (ℕ × Call)
calls =
    (2000, heartbeats (some (js "r1")) (some (js "c1")))
    ∷ (3000, snapshots)
    ∷ (4000, closes (some (js "r1")) (some (js "c1")))
    ∷ []

calls-Unregistered : Unregistered parse_url byte_length room calls
calls-Unregistered = (λ h. h, (λ h. h, (λ h. h, tt)))

broker-Distinct : Distinct broker.routes
unfolding get
broker-Distinct = (refl, tt)

broker_stores : get room broker.routes ≡ some old_route
unfolding get str_eq
broker_stores = refl

run-Keeps_example : Keeps room broker (run parse_url byte_length calls broker)
run-Keeps_example =
    run-Keeps parse_url byte_length room calls broker calls-Unregistered broker-Distinct

resolve_dead_example :
    ((resolve 90000000 room (run parse_url byte_length calls broker)).1 ≡ throw expired_error)
    ⊎ ((resolve 90000000 room (run parse_url byte_length calls broker)).1 ≡ throw closed_error)
resolve_dead_example =
    resolve_dead parse_url byte_length room calls broker old_route 90000000 broker-Distinct
      broker_stores calls-Unregistered (inl (omega arith))

abbrev registration : HostRegistration
registration = record { route_slug = room; target = some (js "http://127.0.0.1:8888") }

registration-IsWellFormed : IsWellFormed parse_url registration broker
unfolding matches_slug_pattern starts_alnum ends_alnum assert_local_target is_local_host str_eq
registration-IsWellFormed = (refl, refl)

register-taken_iff_example :
    ((register parse_url 5000 (js "r2") (js "c2") registration broker).1 ≡ throw slug_taken) ↔ (
      (r : RouteMetadata) × (get registration.route_slug broker.routes ≡ some r)
      × IsAttended broker.config 5000 r)
register-taken_iff_example =
    register-taken_iff parse_url 5000 (js "r2") (js "c2") registration broker
      registration-IsWellFormed

broker-IsSoleOwner : IsSoleOwner (js "r1") (js "c1") room broker
unfolding get str_eq
broker-IsSoleOwner k t stored mine = ground (arith, str_eq_iff room k)

other_id : js "r2" ≢ js "r1"
unfolding str_eq
other_id e = ground (arith, str_eq_iff (js "r2") (js "r1"))

abbrev response : ForwardedResponse
response = record { status = 200; headers = []; body_base64 = none }

-- At 600000 the host of the route has been silent for longer than the grace.
taken_over :
    (register parse_url 600000 (js "r2") (js "c2") registration broker).1
    ≡ ok (new_route config 600000 room (js "r2") (js "c2"))
unfolding register check_slug take_slug current_route refresh matches_slug_pattern starts_alnum
    ends_alnum assert_local_target is_local_host str_eq get close_old store_target
taken_over = refl

-- The new host polls, and then, with a new connection, takes another slug, with a new route id.
abbrev calls_after : List (ℕ × Call)
calls_after =
    (600001, polls (some (js "r2")) (some (js "c2")))
    ∷ (600002, registers (js "r3") (js "c1") (record { route_slug = js "den-two"; target = none }))
    ∷ (600003, heartbeats (some (js "r1")) (some (js "c1")))
    ∷ []

third_id : js "r3" ≢ js "r1"
unfolding str_eq
third_id e = ground (arith, str_eq_iff (js "r3") (js "r1"))

calls_after-MintsOther : MintsOther (js "r1") calls_after
calls_after-MintsOther = (λ x. x, (third_id, (λ x. x, tt)))

register_takes_over_example :
    let c =
      run parse_url byte_length calls_after
        (register parse_url 600000 (js "r2") (js "c2") registration broker).0 in
    ((heartbeat 700000 (some (js "r1")) (some (js "c1")) c).1 ≡ throw unknown_route)
    × ((close_route 700000 (some (js "r1")) (some (js "c1")) c).1 ≡ throw unknown_route)
    × ((claim_relay 700000 (some (js "r1")) (some (js "c1")) c).1 ≡ throw unknown_route)
    × ((respond_relay byte_length 700000 (some (js "r1")) (some (js "c1")) (js "q1") response c).1
        ≡ throw unknown_route)
register_takes_over_example =
    register_takes_over parse_url byte_length 600000 700000 (js "r2") (js "c2") (js "r1") (js "c1")
      (js "q1") registration response broker (new_route config 600000 room (js "r2") (js "c2"))
      calls_after broker-Distinct broker-IsSoleOwner other_id calls_after-MintsOther taken_over

broker_finds : find_entry (some (js "r1")) (some (js "c1")) broker.routes ≡ some (room, old_route)
unfolding find_entry str_eq
broker_finds = refl

broker_targets : get room broker.targets ≡ some (js "http://127.0.0.1:7777")
unfolding get str_eq
broker_targets = refl

close_twice_metered_example :
    let c = (close_route 2000 (some (js "r1")) (some (js "c1")) broker).0 in
    (c.metered ≡ [])
    × ((close_route 3000 (some (js "r1")) (some (js "c1")) c).0.metered
        ≡ [] ++ route_closed_after room (3000 - 1000) ∷ [])
close_twice_metered_example =
    close_twice_metered (some (js "r1")) (some (js "c1")) 2000 3000 room
      (js "http://127.0.0.1:7777") old_route broker broker-Distinct broker_finds broker_targets
