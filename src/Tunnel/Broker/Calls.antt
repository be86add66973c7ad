-- ===== src/Tunnel/Broker/Calls.antt =====
-- src/tunnel/broker.ts: what a host and a participant ask of a registered route. `forward` is cut
-- where it waits: `begin_forward` up to the choice of the way, `begin_relay` up to the queued
-- request, `end_forward` for its `finally`.
use agentgather.Common.{
  ℕ, ◌+◌, ◌-◌, Bool, true, false, ◌||◌, Option, none, some, List, [], ◌∷◌, ◌++◌, map, JsString, get,
  set, delete, ok, throw, Outcome, if◌then◌else◌,
}
use agentgather.Tunnel.Protocol.{
  TunnelError, RouteMetadata, RouteStatus, active, expired, closed, ForwardedRequest,
  ForwardedResponse, tunnel_error, invalid_heartbeat, route_not_found, route_expired, route_closed,
  host_unavailable, Action, ◌>>=◌, ◌>>◌,
}
use agentgather.Tunnel.Limits.{RequestGuardInput, Handle}
use agentgather.Tunnel.Limits
use agentgather.Tunnel.Relay.{Envelope}
use agentgather.Tunnel.Relay
use agentgather.Tunnel.Broker.{
  BrokerConfig, TunnelBroker, route_closed_after, put_route, refresh, current_route,
  find_by_connection, is_active,
}

abbrev pub closed_error : TunnelError
closed_error = tunnel_error route_closed 410 "this route has been closed"

abbrev pub expired_error : TunnelError
expired_error = tunnel_error route_expired 410 "this route has expired"

abbrev pub missing : Option JsString → Bool
missing none = true
missing (some id) = false

-- Active routes only: `if (status === "closed") throw …; if (status === "expired") throw …`.
abbrev pub require_active :
    RouteStatus → TunnelBroker → TunnelBroker × Outcome TunnelError (Unit {0})
require_active active b = (b, ok tt)
require_active closed b = (b, throw closed_error)
require_active expired b = (b, throw expired_error)

-- The writes of `heartbeat` on the route it found, and the refresh of what it returns.
unfoldable pub beat : ℕ → JsString → RouteMetadata → Action TunnelBroker RouteMetadata
beat now slug r b =
    let r' = refresh b.config now (record r {
      last_seen_at = now;
      expires_at = now + b.config.route_ttl_ms;
      last_heartbeat_at = now;
    }) in
    (put_route slug r' b, ok r')

unfoldable pub heartbeat_route : ℕ → JsString × RouteMetadata → Action TunnelBroker RouteMetadata
unfolding beat
heartbeat_route now (slug, r) = do require_active r.status; beat now slug r

unfoldable pub require_ids : Option JsString → Option JsString → Action TunnelBroker (Unit {0})
require_ids id connection b =
    if missing id || missing connection
    then (b, throw (tunnel_error invalid_heartbeat 400 "heartbeat is missing route identifiers"))
    else (b, ok tt)

unfoldable pub heartbeat : ℕ → Option JsString → Option JsString → Action TunnelBroker RouteMetadata
unfolding require_ids heartbeat_route find_by_connection
heartbeat now id connection = do
  require_ids id connection
  found ← find_by_connection now id connection
  heartbeat_route now found

-- `if (wasPublic) onPublicRouteClosed(slug, Math.max(0, now - created_at))`.
unfoldable pub meter_close : ℕ → Option JsString → RouteMetadata → TunnelBroker → TunnelBroker
meter_close now (some target) r b = b
meter_close now none r b = record b {
  metered = b.metered ++ route_closed_after r.route_slug (now - r.created_at) ∷ [];
}

unfoldable pub close_found : ℕ → JsString × RouteMetadata → Action TunnelBroker JsString
unfolding meter_close
close_found now (slug, r) b =
    let shut = record b {
      routes = set slug (record r { status = closed }) b.routes;
      targets = delete r.route_slug b.targets;
      relay = Relay.close_route r.route_slug b.relay;
    } in
    (meter_close now (get r.route_slug b.targets) r shut, ok r.route_slug)

unfoldable pub close_route : ℕ → Option JsString → Option JsString → Action TunnelBroker JsString
unfolding close_found find_by_connection
close_route now id connection = do
  found ← find_by_connection now id connection
  close_found now found

unfoldable pub resolved : Option RouteMetadata → Action TunnelBroker RouteMetadata
resolved none b =
    (b, throw (tunnel_error route_not_found 404 "no route is registered for this slug"))
resolved (some r) b =
    let (b', checked) = require_active r.status b in
    elim checked [ ok _ ↦ (b', ok r) | throw e ↦ (b', throw e) ]

unfoldable pub resolve : ℕ → JsString → Action TunnelBroker RouteMetadata
unfolding resolved current_route
resolve now slug b = let (b', found) = current_route now slug b in resolved found b'

-- `snapshot`: every stored route is refreshed.
unfoldable pub snapshot : ℕ → TunnelBroker → TunnelBroker × List RouteMetadata
snapshot now b =
    let routes = map (λ e. (e.0, refresh b.config now e.1)) b.routes in
    (record b { routes = routes }, map (λ e. e.1) routes)

-- `touch`: the idle timer of a route that is stored as active starts again.
unfoldable pub touched : BrokerConfig → ℕ → RouteMetadata → RouteMetadata
touched c now r =
    if is_active r.status
    then record r { last_seen_at = now; expires_at = now + c.route_ttl_ms }
    else r

unfoldable pub touch : ℕ → JsString → TunnelBroker → TunnelBroker
unfolding touched
touch now slug b = elim (get slug b.routes) [
  | none ↦ b
  | some r ↦ put_route slug (touched b.config now r) b
]

abbrev inactive_error : RouteStatus → TunnelError
inactive_error closed = tunnel_error route_closed 410 "route is not active"
inactive_error _ = tunnel_error route_expired 410 "route is not active"

-- `markHostSeen`, `touch` and the claim of the hub.
unfoldable pub poll :
    ℕ → JsString → RouteMetadata → TunnelBroker → TunnelBroker × Option ForwardedRequest
unfolding touch
poll now slug r b =
    let seen = touch now r.route_slug (put_route slug (record r { last_heartbeat_at = now }) b) in
    let (hub, request) = Relay.claim now r.route_slug seen.relay in
    (record seen { relay = hub }, request)

unfoldable pub claim_found :
    ℕ → JsString × RouteMetadata → Action TunnelBroker (Option ForwardedRequest)
unfolding poll
claim_found now (slug, r) b =
    if is_active r.status
    then (let (b', request) = poll now slug r b in (b', ok request))
    else (b, throw (inactive_error r.status))

unfoldable pub claim_relay :
    ℕ → Option JsString → Option JsString → Action TunnelBroker (Option ForwardedRequest)
unfolding claim_found find_by_connection
claim_relay now id connection = do
  found ← find_by_connection now id connection
  claim_found now found

unfoldable pub respond_hub :
    (JsString → ℕ) → JsString → ForwardedResponse → Action TunnelBroker (Unit {0})
respond_hub byte_length request_id response b =
    let (hub, r) = Relay.respond byte_length request_id response b.relay in
    (record b { relay = hub }, r)

unfoldable pub respond_relay :
    (JsString → ℕ)
    → ℕ
    → Option JsString
    → Option JsString
    → JsString
    → ForwardedResponse
    → Action TunnelBroker (Unit {0})
unfolding respond_hub find_by_connection
respond_relay byte_length now id connection request_id response = do
  found ← find_by_connection now id connection
  respond_hub byte_length request_id response

-- `forward` up to its first wait: the guards admit the request, the idle timer starts again, and
-- the target that is registered, if any, decides the way.
unfoldable pub begin_forward :
    ℕ → RequestGuardInput → Action TunnelBroker (Handle × Option JsString)
unfolding touch
begin_forward now input b =
    let (guards, r) = Limits.enter now input b.guards in
    let entered = touch now input.route_slug (record b { guards = guards }) in
    elim r [
      | throw e ↦ (record b { guards = guards }, throw e)
      | ok handle ↦ (entered, ok (handle, get input.route_slug entered.targets))
    ]

abbrev unattended : TunnelError
unattended = tunnel_error host_unavailable 504 "host tunnel is not attending this route"

unfoldable pub relay_found :
    ℕ → JsString → JsString → Envelope → Option RouteMetadata → Action TunnelBroker (Unit {0})
relay_found now slug request_id envelope none b = (b, throw unattended)
relay_found now slug request_id envelope (some r) b =
    if r.host_connected
    then (record b { relay = Relay.enqueue now request_id slug envelope b.relay }, ok tt)
    else (b, throw unattended)

-- `forwardViaRelay` up to its wait for the host's answer, for a body that was read; the request is
-- queued under the id that `mintId` makes.
unfoldable pub begin_relay : ℕ → JsString → JsString → Envelope → Action TunnelBroker (Unit {0})
unfolding current_route relay_found
begin_relay now slug request_id envelope b =
    let (b', found) = current_route now slug b in relay_found now slug request_id envelope found b'

-- The `finally` of `forward`.
unfoldable pub end_forward : Handle → TunnelBroker → TunnelBroker
end_forward handle b = record b { guards = (Limits.release b.guards handle).0 }
