-- ===== src/Tunnel/Broker/Ownership.antt =====
-- Who holds a slug in src/tunnel/broker.ts: when a registration is refused, and what it takes from
-- the host that held the slug before.
use agentgather.Common.{
  List, ℕ, ◌+◌, ◌-◌, ◌≤◌, ◌<◌, ◌≡◌, ◌≢◌, ◌↔◌, ◌∙◌, refl, true, Option, some, arith, JsString, get,
  Distinct, ok, throw, Option-cases, inl, inr,
}
use agentgather.Tunnel.Protocol.{
  RouteMetadata, active, HostRegistration, ForwardedResponse, bind_ok, ◌>>◌,
}
use agentgather.Tunnel.Broker.{
  TunnelBroker, Url, BrokerConfig, refresh, register, check_slug, assert_local_target, take_slug,
  matches_slug_pattern,
}
use agentgather.Tunnel.Broker.Calls.{heartbeat, close_route, claim_relay, respond_relay}
use agentgather.Tunnel.Broker.Routes.{unknown_route}
use agentgather.Tunnel.Broker.Registering.{assert_local_target_state}
use agentgather.Tunnel.Broker.Histories.{Call, run}
use agentgather.Tunnel.Broker.Taking.{slug_taken}
use agentgather.Tunnel.Broker.Freeing.{MintsOther, register-IsFree, run-IsFree, IsFree-OwnsNone}
use agentgather.Tunnel.Broker.Disowning.{IsSoleOwner, disowned}

-- The registration has a well-formed slug and, if it names a target, a local one.
abbrev pub IsWellFormed : (JsString → Option Url) → HostRegistration → TunnelBroker → Type 0
IsWellFormed parse_url registration b =
    (matches_slug_pattern registration.route_slug ≡ true)
    × ((assert_local_target parse_url registration.target b).1 ≡ ok tt)

register_well_formed :
    (parse_url : JsString → Option Url) (now : ℕ) (id connection : JsString)
    (registration : HostRegistration) (b : TunnelBroker)
    → IsWellFormed parse_url registration b
    → register parse_url now id connection registration b
      ≡ take_slug now id connection registration.route_slug registration.target b
unfolding register check_slug
register_well_formed parse_url now id connection registration b (slug, target) =
    let take = take_slug now id connection registration.route_slug registration.target in
    bind_ok (check_slug registration.route_slug)
      (λ _. assert_local_target parse_url registration.target >> take) b b tt
      (rw (slug, check_slug) refl)
    ∙ bind_ok (assert_local_target parse_url registration.target) (λ _. take) b b tt
        (ground (arith, assert_local_target_state parse_url registration.target b))

-- The host of a stored route is attending: the route is in its life and the last sign of its host
-- is no older than the grace.
pub record IsAttended (c : BrokerConfig) (now : ℕ) (r : RouteMetadata) : Type 0 where
  pub active : r.status ≡ active
  pub idle : now < r.expires_at
  pub lifetime : now < r.created_at + c.max_route_lifetime_ms
  pub present : now - r.last_heartbeat_at ≤ c.host_grace_ms

refused_taken :
    (now : ℕ) (id connection slug : JsString) (target : Option JsString) (b : TunnelBroker)
    → ((take_slug now id connection slug target b).1 ≡ throw slug_taken)
      ↔ ((r : RouteMetadata) × (get slug b.routes ≡ some r) × IsAttended b.config now r)
unfolding take_slug refresh
refused_taken now id connection slug target b = elim (Option-cases (get slug b.routes)) [
  | inl absent ↦ (λ e. ground arith, λ h. ground arith)
  | inr (r, stored) ↦ (
    λ e. (
      r,
      stored,
      record {
        active = ground arith;
        idle = ground arith;
        lifetime = ground arith;
        present = ground arith;
      },
    ),
    λ h. ground arith,
  )
]

-- A well-formed registration is refused exactly when a stored route of its slug is attended.
pub register-taken_iff :
    (parse_url : JsString → Option Url) (now : ℕ) (id connection : JsString)
    (registration : HostRegistration) (b : TunnelBroker)
    → IsWellFormed parse_url registration b
    → ((register parse_url now id connection registration b).1 ≡ throw slug_taken) ↔ (
        (r : RouteMetadata) × (get registration.route_slug b.routes ≡ some r)
        × IsAttended b.config now r)
register-taken_iff parse_url now id connection registration b w =
    rw (register_well_formed parse_url now id connection registration b w)
      (refused_taken now id connection registration.route_slug registration.target b)

-- After a registration took a slug over, whatever calls follow it, the ids of the host that held the
-- slug before are of no use: its heartbeat, its close, its poll and its response are each answered
-- route_not_found. This is so if only the route of that slug had these ids before, and if neither
-- the registration nor a later one mints the old route id again.
pub register_takes_over :
    (parse_url : JsString → Option Url) (byte_length : JsString → ℕ) (now later : ℕ)
    (id connection old_id old_connection request_id : JsString) (registration : HostRegistration)
    (response : ForwardedResponse) (b : TunnelBroker) (r : RouteMetadata) (cs : List (ℕ × Call))
    → Distinct b.routes
    → IsSoleOwner old_id old_connection registration.route_slug b
    → id ≢ old_id
    → MintsOther old_id cs
    → (register parse_url now id connection registration b).1 ≡ ok r
    → let c =
        run parse_url byte_length cs (register parse_url now id connection registration b).0 in
      ((heartbeat later (some old_id) (some old_connection) c).1 ≡ throw unknown_route)
      × ((close_route later (some old_id) (some old_connection) c).1 ≡ throw unknown_route)
      × ((claim_relay later (some old_id) (some old_connection) c).1 ≡ throw unknown_route)
      × ((respond_relay byte_length later
            (some old_id)
            (some old_connection)
            request_id
            response
            c).1
          ≡ throw unknown_route)
register_takes_over parse_url byte_length now later id connection old_id old_connection request_id
      registration response b r cs d sole new others taken =
    let c = (register parse_url now id connection registration b).0 in
    let free =
      register-IsFree old_id old_connection parse_url now id connection registration b r d sole new
        taken in
    let last = run-IsFree parse_url byte_length old_id old_connection cs c others free in
    disowned byte_length later old_id old_connection request_id response
      (run parse_url byte_length cs c) (IsFree-OwnsNone old_id old_connection _ last)
