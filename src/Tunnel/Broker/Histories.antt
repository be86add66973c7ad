-- ===== src/Tunnel/Broker/Histories.antt =====
-- Histories of calls of src/tunnel/broker.ts, and what they cannot do to a registered route.
use agentgather.Common.{
  ℕ, ◌+◌, ◌≤◌, ◌≡◌, ◌≢◌, refl, Option, none, some, List, [], ◌∷◌, arith, JsString, get, Distinct,
  Outcome, throw, ◌⊎◌, inl, inr,
}
use agentgather.Tunnel.Protocol.{
  TunnelError, RouteMetadata, RouteStatus, active, expired, closed, HostRegistration,
  ForwardedResponse,
}
use agentgather.Tunnel.Limits.{RequestGuardInput, Handle}
use agentgather.Tunnel.Relay.{Envelope}
use agentgather.Tunnel.Broker.{TunnelBroker, BrokerConfig, Url, refresh, status_at, register}
use agentgather.Tunnel.Broker.Calls.{
  heartbeat, close_route, resolve, snapshot, claim_relay, respond_relay, begin_forward, begin_relay,
  end_forward, closed_error, expired_error,
}
use agentgather.Tunnel.Broker.Routes.{SameRoute, Evolves, Keeps, Keeps-refl, Keeps-trans, rank}
use agentgather.Tunnel.Broker.Registering.{register-Keeps}
use agentgather.Tunnel.Broker.Keeping.{
  heartbeat-Keeps, close_route-Keeps, resolve-Keeps, snapshot-Keeps, claim_relay-Keeps,
  respond_relay-Keeps, begin_forward-Keeps, begin_relay-Keeps, end_forward-Keeps,
}

-- A call of the broker, with the ids that it mints.
pub data Call : Type 0 where
  registers : (id connection : JsString) → HostRegistration → Call
  heartbeats closes polls : (id connection : Option JsString) → Call
  responds : (id connection : Option JsString) (request_id : JsString) → ForwardedResponse → Call
  resolves : JsString → Call
  snapshots : Call
  begins_forward : RequestGuardInput → Call
  begins_relay : (slug request_id : JsString) → Envelope → Call
  ends_forward : Handle → Call

abbrev pub IsOf : JsString → Call → Type 0
IsOf j (registers id connection registration) = registration.route_slug ≡ j
IsOf j _ = ⊥

module _ (parse_url : JsString → Option Url) (byte_length : JsString → ℕ) where
  abbrev pub after : ℕ × Call → TunnelBroker → TunnelBroker
  after (now, registers id connection registration) b =
      (register parse_url now id connection registration b).0
  after (now, heartbeats id connection) b = (heartbeat now id connection b).0
  after (now, closes id connection) b = (close_route now id connection b).0
  after (now, polls id connection) b = (claim_relay now id connection b).0
  after (now, responds id connection request_id response) b =
      (respond_relay byte_length now id connection request_id response b).0
  after (now, resolves slug) b = (resolve now slug b).0
  after (now, snapshots) b = (snapshot now b).0
  after (now, begins_forward input) b = (begin_forward now input b).0
  after (now, begins_relay slug request_id envelope) b =
      (begin_relay now slug request_id envelope b).0
  after (now, ends_forward handle) b = end_forward handle b

  abbrev pub run : List (ℕ × Call) → TunnelBroker → TunnelBroker
  run [] b = b
  run (c ∷ cs) b = run cs (after c b)

  -- No call of the history registers the slug again.
  abbrev pub Unregistered : JsString → List (ℕ × Call) → Type 0
  Unregistered j [] = Unit {0}
  Unregistered j ((now, c) ∷ cs) = (¬ IsOf j c) × Unregistered j cs

  pub after-Keeps :
      (j : JsString) (now : ℕ) (c : Call) (b : TunnelBroker)
      → ¬ IsOf j c
      → Distinct b.routes
      → Keeps j b (after (now, c) b)
  after-Keeps j now (registers id connection registration) b n d =
      register-Keeps j parse_url now id connection registration b n d
  after-Keeps j now (heartbeats id connection) b n d = heartbeat-Keeps j now id connection b d
  after-Keeps j now (closes id connection) b n d = close_route-Keeps j now id connection b d
  after-Keeps j now (polls id connection) b n d = claim_relay-Keeps j now id connection b d
  after-Keeps j now (responds id connection request_id response) b n d =
      respond_relay-Keeps j byte_length now id connection request_id response b d
  after-Keeps j now (resolves slug) b n d = resolve-Keeps j now slug b d
  after-Keeps j now snapshots b n d = snapshot-Keeps j now b d
  after-Keeps j now (begins_forward input) b n d = begin_forward-Keeps j now input b d
  after-Keeps j now (begins_relay slug request_id envelope) b n d =
      begin_relay-Keeps j now slug request_id envelope b d
  after-Keeps j now (ends_forward handle) b n d = end_forward-Keeps j handle b d

  -- Over a history that does not register the slug `j` again, its route keeps its slug, its ids and
  -- the time of its creation, and its status never goes back from closed to expired or active, nor
  -- from expired to active; no route appears at `j`; and no slug gets two routes.
  pub run-Keeps :
      (j : JsString) (cs : List (ℕ × Call)) (b : TunnelBroker)
      → Unregistered j cs
      → Distinct b.routes
      → Keeps j b (run cs b)
  run-Keeps j [] b n d = Keeps-refl j b d
  run-Keeps j ((now, c) ∷ cs) b n d =
      let first = after-Keeps j now c b n.0 d in
      Keeps-trans j first (run-Keeps j cs (after (now, c) b) n.1 first.distinct)

-- What `resolve` answers for a stored route of a given status.
abbrev pub refusal : RouteStatus → TunnelError
refusal closed = closed_error
refusal _ = expired_error

resolve_stored :
    (now : ℕ) (j : JsString) (b : TunnelBroker) (r : RouteMetadata)
    → get j b.routes ≡ some r
    → 1 ≤ rank (status_at b.config now r)
    → (resolve now j b).1 ≡ throw (refusal (status_at b.config now r))
unfolding resolve refresh
resolve_stored now j b r found dead = ground arith

Evolves-some :
    (r : RouteMetadata) (o : Option RouteMetadata)
    → Evolves (some r) o
    → (s : RouteMetadata) × (o ≡ some s) × SameRoute r s
Evolves-some r none e = absurd e
Evolves-some r (some s) e = (s, refl, e)

dead_status :
    (c : BrokerConfig) (now : ℕ) (r s : RouteMetadata)
    → SameRoute r s
    → (r.created_at + c.max_route_lifetime_ms ≤ now) ⊎ (r.status ≢ active)
    → 1 ≤ rank (status_at c now s)
dead_status c now r s same over = ground arith

refused :
    (status : RouteStatus) (answer : Outcome TunnelError RouteMetadata)
    → answer ≡ throw (refusal status)
    → (answer ≡ throw expired_error) ⊎ (answer ≡ throw closed_error)
refused active answer e = inl e
refused expired answer e = inl e
refused closed answer e = inr e

-- Whatever calls are made, heartbeats included, a route whose maximal lifetime is over, or that was
-- stored as expired or closed, is resolved with the error route_expired or route_closed, unless its
-- slug is registered again.
pub resolve_dead :
    (parse_url : JsString → Option Url) (byte_length : JsString → ℕ) (j : JsString)
    (cs : List (ℕ × Call)) (b : TunnelBroker) (r : RouteMetadata) (now : ℕ)
    → Distinct b.routes
    → get j b.routes ≡ some r
    → Unregistered parse_url byte_length j cs
    → (r.created_at + b.config.max_route_lifetime_ms ≤ now) ⊎ (r.status ≢ active)
    → ((resolve now j (run parse_url byte_length cs b)).1 ≡ throw expired_error)
      ⊎ ((resolve now j (run parse_url byte_length cs b)).1 ≡ throw closed_error)
resolve_dead parse_url byte_length j cs b r now d found n over =
    let final = run parse_url byte_length cs b in
    let kept = run-Keeps parse_url byte_length j cs b n d in
    let (s, stored, same) = Evolves-some r (get j final.routes) (rw found at kept.route) in
    let dead = dead_status b.config now r s same over in
    refused (status_at final.config now s) (resolve now j final).1
      (resolve_stored now j final s stored (rw kept.config dead))
