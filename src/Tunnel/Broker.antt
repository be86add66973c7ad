-- ===== src/Tunnel/Broker.antt =====
-- src/tunnel/broker.ts: the table of routes. Each method takes the reading `now` of the broker's
-- clock that it works with; the ids that `mintId` makes come from the caller; `parse_url` is the
-- platform's `new URL`. The hooks of the meter are recorded in `metered`, oldest first.
pub mod Calls
pub mod Routes
pub mod Keeping
pub mod Registering
pub mod Histories
pub mod Disowning
pub mod Taking
pub mod Freeing
pub mod Ownership
pub mod Metered
mod Tests
use agentgather.Common.{
  ℕ, ◌+◌, ◌-◌, Bool, true, false, not, ◌&&◌, ◌||◌, Option, none, some, List, [], ◌∷◌, ◌++◌,
  JsString, JsMap, js, get, set, delete, str_eq, ok, throw, leb, ltb, length, every, if◌then◌else◌,
}
use agentgather.Tunnel.Protocol.{
  TunnelError, RouteMetadata, RouteStatus, active, expired, closed, HostRegistration,
  ForwardedRequest, ForwardedResponse, tunnel_error, invalid_registration, route_slug_taken,
  invalid_heartbeat, route_not_found, route_expired, route_closed, host_unavailable, Action, ◌>>=◌,
  ◌>>◌,
}
use agentgather.Tunnel.Limits.{BrokerGuards, RequestGuardInput, Handle}
use agentgather.Tunnel.Limits
use agentgather.Tunnel.Relay.{RelayHub, Envelope}
use agentgather.Tunnel.Relay

pub record BrokerConfig : Type 0 where
  pub route_ttl_ms : ℕ
  pub max_route_lifetime_ms : ℕ
  pub host_grace_ms : ℕ

pub data MeterCall : Type 0 where
  route_registered : JsString → MeterCall
  route_closed_after : JsString → ℕ → MeterCall

pub record TunnelBroker : Type 0 where
  pub config : BrokerConfig
  pub routes : JsMap RouteMetadata
  pub targets : JsMap JsString
  pub guards : BrokerGuards
  pub relay : RelayHub
  pub metered : List MeterCall

-- What `assertLocalTarget` reads of a parsed URL.
pub record Url : Type 0 where
  pub protocol : JsString
  pub hostname : JsString

abbrev pub is_alnum : ℕ → Bool
is_alnum c = (leb b'a' c && leb c b'z') || (leb b'0' c && leb c b'9')

abbrev pub is_slug_char : ℕ → Bool
is_slug_char c = is_alnum c || (leb b'-' c && leb c b'-')

ends_alnum : JsString → Bool
ends_alnum [] = false
ends_alnum (c ∷ []) = is_alnum c
ends_alnum (c ∷ d ∷ s) = ends_alnum (d ∷ s)

starts_alnum : JsString → Bool
starts_alnum [] = false
starts_alnum (c ∷ s) = is_alnum c

-- SLUG_PATTERN, /^[a-z0-9](?:[a-z0-9-]{0,61}[a-z0-9])?$/.
unfoldable pub matches_slug_pattern : JsString → Bool
unfolding ends_alnum starts_alnum
matches_slug_pattern s = starts_alnum s && ends_alnum s && every is_slug_char s && leb (length s) 63

is_local_host : JsString → Bool
is_local_host h =
    str_eq h (js "127.0.0.1")
    || str_eq h (js "localhost")
    || str_eq h (js "::1")
    || str_eq h (js "[::1]")

pub assert_local_target : (JsString → Option Url) → Option JsString → Action TunnelBroker (Unit {0})
unfolding is_local_host
assert_local_target parse_url none b = (b, ok tt)
assert_local_target parse_url (some target) b = elim (parse_url target) [
  | none ↦ (b, throw (tunnel_error invalid_registration 400 "target is not a valid URL"))
  | some url ↦
      if not (str_eq url.protocol (js "http:")) && not (str_eq url.protocol (js "https:"))
      then (b, throw (tunnel_error invalid_registration 400 "target must use http or https"))
      else if not (is_local_host url.hostname)
      then (b, throw (tunnel_error invalid_registration 400 "target must be a local address"))
      else (b, ok tt)
]

abbrev pub is_active : RouteStatus → Bool
is_active active = true
is_active _ = false

-- The status that `refresh` leaves: an active route expires when it is idle or too old.
abbrev pub status_at : BrokerConfig → ℕ → RouteMetadata → RouteStatus
status_at c now r =
    if is_active r.status
      && (leb r.expires_at now || leb (r.created_at + c.max_route_lifetime_ms) now)
    then expired
    else r.status

unfoldable pub refresh : BrokerConfig → ℕ → RouteMetadata → RouteMetadata
refresh c now r = record r {
  status = status_at c now r;
  host_connected = is_active (status_at c now r) && leb (now - r.last_heartbeat_at) c.host_grace_ms;
}

abbrev pub put_route : JsString → RouteMetadata → TunnelBroker → TunnelBroker
put_route slug r b = record b { routes = set slug r b.routes }

-- `currentRoute`: the stored route itself is refreshed.
unfoldable pub current_route : ℕ → JsString → TunnelBroker → TunnelBroker × Option RouteMetadata
current_route now slug b = elim (get slug b.routes) [
  | none ↦ (b, none)
  | some r ↦ let r' = refresh b.config now r in (put_route slug r' b, some r')
]

-- Two ids of a request may be missing: `===` with a route's id then fails.
abbrev same_id : JsString → Option JsString → Bool
same_id id none = false
same_id id (some given) = str_eq id given

unfoldable pub find_entry :
    Option JsString → Option JsString → JsMap RouteMetadata → Option (JsString × RouteMetadata)
find_entry id connection [] = none
find_entry id connection ((slug, r) ∷ routes) =
    if same_id r.route_id id && same_id r.host_connection_id connection
    then some (slug, r)
    else find_entry id connection routes

unfoldable pub find_by_connection :
    ℕ → Option JsString → Option JsString → Action TunnelBroker (JsString × RouteMetadata)
find_by_connection now id connection b = elim (find_entry id connection b.routes) [
  | none ↦ (b, throw (tunnel_error route_not_found 404 "no route matches these identifiers"))
  | some (slug, r) ↦ let r' = refresh b.config now r in (put_route slug r' b, ok (slug, r'))
]

abbrev pub new_route : BrokerConfig → ℕ → JsString → JsString → JsString → RouteMetadata
new_route c now slug id connection = record {
  route_slug = slug;
  route_id = id;
  host_connection_id = connection;
  created_at = now;
  last_seen_at = now;
  last_heartbeat_at = now;
  expires_at = now + c.route_ttl_ms;
  status = active;
  host_connected = true;
}

-- Whether the route that `currentRoute` found blocks the slug.
abbrev pub blocks : Option RouteMetadata → Bool
blocks none = false
blocks (some r) = is_active r.status && r.host_connected

close_old : Option RouteMetadata → JsString → TunnelBroker → TunnelBroker
close_old none slug b = b
close_old (some r) slug b = record b { relay = Relay.close_route slug b.relay }

store_target : Option JsString → JsString → TunnelBroker → TunnelBroker
store_target (some target) slug b = record b { targets = set slug target b.targets }
store_target none slug b = record b {
  targets = delete slug b.targets;
  metered = b.metered ++ route_registered slug ∷ [];
}

-- The part of `register` behind the checks of its argument.
take_slug : ℕ → JsString → JsString → JsString → Option JsString → Action TunnelBroker RouteMetadata
unfolding current_route close_old store_target
take_slug now id connection slug target b =
    let (b', existing) = current_route now slug b in
    let route = new_route b.config now slug id connection in
    if blocks existing
    then (b', throw (tunnel_error route_slug_taken 409 "an active host already holds this slug"))
    else (store_target target slug (put_route slug route (close_old existing slug b')), ok route)

pub check_slug : JsString → Action TunnelBroker (Unit {0})
unfolding matches_slug_pattern
check_slug slug b =
    if matches_slug_pattern slug
    then (b, ok tt)
    else (b, throw (tunnel_error invalid_registration 400 "route slug is missing or malformed"))

unfoldable pub register :
    (JsString → Option Url)
    → ℕ
    → JsString
    → JsString
    → HostRegistration
    → Action TunnelBroker RouteMetadata
unfolding check_slug assert_local_target take_slug
register parse_url now id connection registration = do
  check_slug registration.route_slug
  assert_local_target parse_url registration.target
  take_slug now id connection registration.route_slug registration.target
