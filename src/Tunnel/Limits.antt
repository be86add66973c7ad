-- ===== src/Tunnel/Limits.antt =====
-- src/tunnel/limits.ts: the broker's concurrency and rate limits. `this.now()` is the argument
-- `now` of each call; a `Map` is a `JsMap`; the release handle of `enter` is a value.
pub mod Rate
pub mod Runs
mod Tests
pub mod Accounting
use Prim.Native.String.{String}
use agentgather.Common.{
  ℕ, ◌+◌, ◌-◌, ◌*◌, Bool, true, false, ◌&&◌, [], Option, none, some, JsString, JsMap, get, set,
  delete, ok, throw, leb, ◌==◌, if◌then◌else◌,
}
use agentgather.Tunnel.Protocol.{
  TunnelErrorCode, route_request_limit, wait_limit, rate_limited, request_too_large, TunnelError,
  tunnel_error, Action, ◌>>=◌, ◌>>◌,
}

pub record BrokerLimits : Type 0 where
  pub host_connections_per_route : ℕ
  pub concurrent_requests_per_route : ℕ
  pub concurrent_waits_per_route : ℕ
  pub request_body_bytes : ℕ
  pub response_body_bytes : ℕ
  pub idle_timeout_ms : ℕ
  pub max_route_lifetime_ms : ℕ
  pub unauthenticated_per_ip_per_minute : ℕ
  pub requests_per_route_per_minute : ℕ

abbrev pub broker_limits : BrokerLimits
broker_limits = record {
  host_connections_per_route = 1;
  concurrent_requests_per_route = 64;
  concurrent_waits_per_route = 32;
  request_body_bytes = 64 * 1024;
  response_body_bytes = 1024 * 1024;
  idle_timeout_ms = 15 * 60000;
  max_route_lifetime_ms = 8 * 60 * 60000;
  unauthenticated_per_ip_per_minute = 60;
  requests_per_route_per_minute = 600;
}

abbrev pub rate_window_ms : ℕ
rate_window_ms = 60000

pub record InFlight : Type 0 where
  pub total : ℕ
  pub waits : ℕ

pub record RateWindow : Type 0 where
  pub reset_at : ℕ
  pub count : ℕ

pub record RequestGuardInput : Type 0 where
  pub route_slug : JsString
  pub client_ip : JsString
  pub is_wait : Bool
  pub authenticated : Bool

pub record BrokerGuards : Type 0 where
  pub limits : BrokerLimits
  pub inflight : JsMap InFlight
  pub route_rate : JsMap RateWindow
  pub ip_rate : JsMap RateWindow

-- What the closure returned by `enter` captures.
pub record Handle : Type 0 where
  pub input : RequestGuardInput
  pub released : Bool

abbrev pub new_guards : BrokerLimits → BrokerGuards
new_guards limits = record { limits = limits; inflight = []; route_rate = []; ip_rate = [] }

abbrev status_for : TunnelErrorCode → ℕ
status_for request_too_large = 413
status_for _ = 429

abbrev pub limit_error : TunnelErrorCode → String → TunnelError
limit_error code message = tunnel_error code (status_for code) message

-- One window of `admitRate`: the window afterwards, and whether the request is admitted.
unfoldable pub admit_window : ℕ → ℕ → Option RateWindow → RateWindow × Bool
admit_window per_minute now none = (record { reset_at = now + rate_window_ms; count = 1 }, true)
admit_window per_minute now (some w) =
    if leb w.reset_at now
    then (record { reset_at = now + rate_window_ms; count = 1 }, true)
    else if leb per_minute w.count
    then (w, false)
    else (record w { count = w.count + 1 }, true)

unfoldable pub admit_rate : ℕ → JsString → ℕ → Action (JsMap RateWindow) (Unit {0})
unfolding admit_window
admit_rate now key per_minute windows =
    let (w, admitted) = admit_window per_minute now (get key windows) in
    if admitted
    then (set key w windows, ok tt)
    else (windows, throw (limit_error rate_limited "request rate limit exceeded"))

admit_route : ℕ → RequestGuardInput → Action BrokerGuards (Unit {0})
unfolding admit_rate
admit_route now input g =
    let (windows, r) =
      admit_rate now input.route_slug g.limits.requests_per_route_per_minute g.route_rate in
    (record g { route_rate = windows }, r)

admit_ip : ℕ → RequestGuardInput → Action BrokerGuards (Unit {0})
unfolding admit_rate
admit_ip now input g =
    let (windows, r) =
      admit_rate now input.client_ip g.limits.unauthenticated_per_ip_per_minute g.ip_rate in
    if input.authenticated then (g, ok tt) else (record g { ip_rate = windows }, r)

abbrev pub counts_of : Option InFlight → InFlight
counts_of none = record { total = 0; waits = 0 }
counts_of (some c) = c

-- `counts.total += 1; if (input.isWait) counts.waits += 1`.
abbrev bump : Bool → InFlight → InFlight
bump is_wait c = record { total = c.total + 1; waits = if is_wait then c.waits + 1 else c.waits }

admit_concurrent : RequestGuardInput → Action BrokerGuards Handle
admit_concurrent input g =
    let counts = counts_of (get input.route_slug g.inflight) in
    if leb g.limits.concurrent_requests_per_route counts.total
    then (g, throw (limit_error route_request_limit "too many concurrent requests for this route"))
    else if input.is_wait && leb g.limits.concurrent_waits_per_route counts.waits
    then (g, throw (limit_error wait_limit "too many concurrent wait requests for this route"))
    else (
      record g { inflight = set input.route_slug (bump input.is_wait counts) g.inflight },
      ok (record { input = input; released = false }),
    )

unfoldable pub enter : ℕ → RequestGuardInput → Action BrokerGuards Handle
unfolding admit_route admit_ip admit_concurrent
enter now input = do admit_route now input; admit_ip now input; admit_concurrent input

-- `Math.max(0, n - 1)` is the truncated subtraction.
abbrev lower : Bool → InFlight → InFlight
lower is_wait c = record { total = c.total - 1; waits = if is_wait then c.waits - 1 else c.waits }

release_counts : RequestGuardInput → JsMap InFlight → Option InFlight → JsMap InFlight
release_counts input m none = m
release_counts input m (some c) =
    let c' = lower input.is_wait c in
    if (c'.total == 0) && (c'.waits == 0)
    then delete input.route_slug m
    else set input.route_slug c' m

unfoldable pub release : BrokerGuards → Handle → BrokerGuards × Handle
unfolding release_counts
release g h = if h.released then (g, h) else (
  record g { inflight = release_counts h.input g.inflight (get h.input.route_slug g.inflight) },
  record h { released = true },
)
