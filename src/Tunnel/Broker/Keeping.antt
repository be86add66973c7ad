-- ===== src/Tunnel/Broker/Keeping.antt =====
-- Every call of src/tunnel/broker.ts but a registration leaves the registration of the slug `j` in
-- place.
use mathlib.Core.Option
use agentgather.Common.{
  ℕ, ◌≡◌, refl, Option, none, some, arith, JsString, get, get-set_self, Distinct, Distinct-map,
  get-map, Outcome, ok, throw, Bool-cases, Option-cases, inl, inr,
}
use agentgather.Tunnel.Protocol.{
  TunnelError, RouteMetadata, RouteStatus, active, expired, closed, Action, ForwardedResponse,
  bind_cases, ◌>>=◌,
}
use agentgather.Tunnel.Limits.{RequestGuardInput, Handle}
use agentgather.Tunnel.Limits
use agentgather.Tunnel.Relay.{Envelope}
use agentgather.Tunnel.Broker.{
  BrokerConfig, TunnelBroker, refresh, is_active, put_route, current_route, find_entry,
  find_by_connection,
}
use agentgather.Tunnel.Broker.Calls.{
  heartbeat, require_ids, heartbeat_route, beat, require_active, close_route, close_found,
  meter_close, resolve, resolved, snapshot, touch, touched, claim_relay, claim_found, poll,
  respond_relay, respond_hub, begin_forward, relay_found, begin_relay, end_forward,
}
use agentgather.Tunnel.Broker.Routes.{
  SameRoute, Evolves, Keeps, Keeps-refl, Keeps-trans, Keeps-routes, put_route-Keeps,
  current_route-Keeps, refresh-SameRoute, find_entry_sound, find_by_connection_cases, refreshed,
}

require_active_state : (status : RouteStatus) (b : TunnelBroker) → (require_active status b).0 ≡ b
require_active_state active b = refl
require_active_state expired b = refl
require_active_state closed b = refl

require_ids_state :
    (id connection : Option JsString) (b : TunnelBroker) → (require_ids id connection b).0 ≡ b
unfolding require_ids
require_ids_state id connection b = ground arith

resolved_state : (o : Option RouteMetadata) (b : TunnelBroker) → (resolved o b).0 ≡ b
unfolding resolved
resolved_state none b = refl
resolved_state (some r) b = ground arith

closing-SameRoute : (r : RouteMetadata) → SameRoute r (record r { status = closed })
closing-SameRoute r = record {
  slug = refl;
  id = refl;
  connection = refl;
  created = refl;
  status = ground arith;
}

seen-SameRoute : (now : ℕ) (r : RouteMetadata) → SameRoute r (record r { last_heartbeat_at = now })
seen-SameRoute now r = record {
  slug = refl;
  id = refl;
  connection = refl;
  created = refl;
  status = omega arith;
}

touched-SameRoute : (c : BrokerConfig) (now : ℕ) (r : RouteMetadata) → SameRoute r (touched c now r)
unfolding touched
touched-SameRoute c now r = ground arith

config-meter_close :
    (now : ℕ) (target : Option JsString) (r : RouteMetadata) (b : TunnelBroker)
    → (meter_close now target r b).config ≡ b.config
unfolding meter_close
config-meter_close now none r b = refl
config-meter_close now (some target) r b = refl

routes-meter_close :
    (now : ℕ) (target : Option JsString) (r : RouteMetadata) (b : TunnelBroker)
    → (meter_close now target r b).routes ≡ b.routes
unfolding meter_close
routes-meter_close now none r b = refl
routes-meter_close now (some target) r b = refl

Evolves-refresh :
    (c : BrokerConfig) (now : ℕ) (o : Option RouteMetadata)
    → Evolves o (Option.map (refresh c now) o)
Evolves-refresh c now none = tt
Evolves-refresh c now (some r) = refresh-SameRoute c now r

module _ (j : JsString) where
  refreshed-Keeps :
      (now : ℕ) (slug : JsString) (r : RouteMetadata) (id connection : Option JsString)
      (b : TunnelBroker)
      → Distinct b.routes
      → find_entry id connection b.routes ≡ some (slug, r)
      → Keeps j b (refreshed now slug r b)
  refreshed-Keeps now slug r id connection b d e =
      put_route-Keeps j slug r (refresh b.config now r) b d
        (find_entry_sound id connection slug r b.routes d e) (refresh-SameRoute b.config now r)

  -- A call that begins with `findByConnection` keeps `j` if what follows does.
  found-Keeps :
      {A : Type 0} (now : ℕ) (id connection : Option JsString)
      (f : JsString × RouteMetadata → Action TunnelBroker A) (b : TunnelBroker)
      → Distinct b.routes
      → ((slug : JsString) (r : RouteMetadata) (c : TunnelBroker)
          → get slug c.routes ≡ some r
          → Distinct c.routes
          → Keeps j c (f (slug, r) c).0)
      → Keeps j b ((find_by_connection now id connection >>= f) b).0
  found-Keeps now id connection f b d step =
      find_by_connection_cases (λ r. Keeps j b r.0) now id connection f b (Keeps-refl j b d)
        (λ slug r e.
          let first = refreshed-Keeps now slug r id connection b d e in
          Keeps-trans j first (
            step slug (refresh b.config now r) (refreshed now slug r b)
              (get-set_self slug (refresh b.config now r) b.routes) first.distinct))

  beat-Keeps :
      (now : ℕ) (slug : JsString) (r : RouteMetadata) (b : TunnelBroker)
      → get slug b.routes ≡ some r
      → Distinct b.routes
      → Keeps j b (beat now slug r b).0
  unfolding beat refresh
  beat-Keeps now slug r b found d =
      put_route-Keeps j slug r _ b d found (record {
        slug = refl;
        id = refl;
        connection = refl;
        created = refl;
        status = ground arith;
      })

  heartbeat_route-Keeps :
      (now : ℕ) (slug : JsString) (r : RouteMetadata) (b : TunnelBroker)
      → get slug b.routes ≡ some r
      → Distinct b.routes
      → Keeps j b (heartbeat_route now (slug, r) b).0
  unfolding heartbeat_route
  heartbeat_route-Keeps now slug r b found d =
      bind_cases (λ p. Keeps j b p.0) (require_active r.status) (λ _. beat now slug r) b
        (λ e h. rw (require_active_state r.status b) (Keeps-refl j b d))
        (λ u h. rw (require_active_state r.status b) (beat-Keeps now slug r b found d))

  pub heartbeat-Keeps :
      (now : ℕ) (id connection : Option JsString) (b : TunnelBroker)
      → Distinct b.routes
      → Keeps j b (heartbeat now id connection b).0
  unfolding heartbeat
  heartbeat-Keeps now id connection b d =
      bind_cases (λ p. Keeps j b p.0) (require_ids id connection)
        (λ _. find_by_connection now id connection >>= heartbeat_route now) b
        (λ e h. rw (require_ids_state id connection b) (Keeps-refl j b d))
        (λ u h.
          rw (require_ids_state id connection b)
            (found-Keeps now id connection (heartbeat_route now) b d (heartbeat_route-Keeps now)))

  close_found-Keeps :
      (now : ℕ) (slug : JsString) (r : RouteMetadata) (b : TunnelBroker)
      → get slug b.routes ≡ some r
      → Distinct b.routes
      → Keeps j b (close_found now (slug, r) b).0
  unfolding close_found
  close_found-Keeps now slug r b found d =
      let shut = record r { status = closed } in
      let first = put_route-Keeps j slug r shut b d found (closing-SameRoute r) in
      Keeps-trans j first (
        Keeps-routes j (put_route slug shut b) _ first.distinct
          (config-meter_close now (get r.route_slug b.targets) r _)
          (routes-meter_close now (get r.route_slug b.targets) r _))

  pub close_route-Keeps :
      (now : ℕ) (id connection : Option JsString) (b : TunnelBroker)
      → Distinct b.routes
      → Keeps j b (close_route now id connection b).0
  unfolding close_route
  close_route-Keeps now id connection b d =
      found-Keeps now id connection (close_found now) b d (close_found-Keeps now)

  pub resolve-Keeps :
      (now : ℕ) (slug : JsString) (b : TunnelBroker)
      → Distinct b.routes
      → Keeps j b (resolve now slug b).0
  unfolding resolve
  resolve-Keeps now slug b d =
      rw (resolved_state (current_route now slug b).1 (current_route now slug b).0)
        (current_route-Keeps j now slug b d)

  touch-Keeps :
      (now : ℕ) (slug : JsString) (b : TunnelBroker)
      → Distinct b.routes
      → Keeps j b (touch now slug b)
  unfolding touch
  touch-Keeps now slug b d = elim (Option-cases (get slug b.routes)) [
    | inl absent ↦ rw (absent, touch) (Keeps-refl j b d)
    | inr (r, found) ↦
        rw (found, touch)
          (put_route-Keeps j slug r (touched b.config now r) b d found
            (touched-SameRoute b.config now r))
  ]

  poll-Keeps :
      (now : ℕ) (slug : JsString) (r : RouteMetadata) (b : TunnelBroker)
      → get slug b.routes ≡ some r
      → Distinct b.routes
      → Keeps j b (poll now slug r b).0
  unfolding poll
  poll-Keeps now slug r b found d =
      let seen = record r { last_heartbeat_at = now } in
      let first = put_route-Keeps j slug r seen b d found (seen-SameRoute now r) in
      let second = touch-Keeps now r.route_slug (put_route slug seen b) first.distinct in
      Keeps-trans j (Keeps-trans j first second) (Keeps-routes j _ _ second.distinct refl refl)

  claim_found-Keeps :
      (now : ℕ) (slug : JsString) (r : RouteMetadata) (b : TunnelBroker)
      → get slug b.routes ≡ some r
      → Distinct b.routes
      → Keeps j b (claim_found now (slug, r) b).0
  unfolding claim_found
  claim_found-Keeps now slug r b found d = elim (Bool-cases (is_active r.status)) [
    | inl on ↦ rw (on, claim_found) (poll-Keeps now slug r b found d)
    | inr off ↦ rw (off, claim_found) (Keeps-refl j b d)
  ]

  pub claim_relay-Keeps :
      (now : ℕ) (id connection : Option JsString) (b : TunnelBroker)
      → Distinct b.routes
      → Keeps j b (claim_relay now id connection b).0
  unfolding claim_relay
  claim_relay-Keeps now id connection b d =
      found-Keeps now id connection (claim_found now) b d (claim_found-Keeps now)

  pub respond_relay-Keeps :
      (byte_length : JsString → ℕ) (now : ℕ) (id connection : Option JsString)
      (request_id : JsString) (response : ForwardedResponse) (b : TunnelBroker)
      → Distinct b.routes
      → Keeps j b (respond_relay byte_length now id connection request_id response b).0
  unfolding respond_relay respond_hub
  respond_relay-Keeps byte_length now id connection request_id response b d =
      found-Keeps now id connection (λ _. respond_hub byte_length request_id response) b d
        (λ slug r c found dc. Keeps-routes j c _ dc refl refl)

  pub begin_forward-Keeps :
      (now : ℕ) (input : RequestGuardInput) (b : TunnelBroker)
      → Distinct b.routes
      → Keeps j b (begin_forward now input b).0
  unfolding begin_forward
  begin_forward-Keeps now input b d = entered (Limits.enter now input b.guards).1
    where
      guarded : TunnelBroker
      guarded = record b { guards = (Limits.enter now input b.guards).0 }

      entered :
          (r : Outcome TunnelError Handle)
          → Keeps j b
              (elim r as (λ _. TunnelBroker × Outcome TunnelError (Handle × Option JsString)) [
                | throw e ↦ (guarded, throw e)
                | ok handle ↦ (
                  touch now input.route_slug guarded,
                  ok (handle, get input.route_slug (touch now input.route_slug guarded).targets),
                )
              ]).0
      entered (throw e) = Keeps-routes j b guarded d refl refl
      entered (ok handle) =
          Keeps-trans j (Keeps-routes j b guarded d refl refl)
            (touch-Keeps now input.route_slug guarded d)

  relay_found-Keeps :
      (now : ℕ) (slug request_id : JsString) (envelope : Envelope) (found : Option RouteMetadata)
      (b : TunnelBroker)
      → Distinct b.routes
      → Keeps j b (relay_found now slug request_id envelope found b).0
  unfolding relay_found
  relay_found-Keeps now slug request_id envelope none b d = Keeps-refl j b d
  relay_found-Keeps now slug request_id envelope (some r) b d = elim (Bool-cases r.host_connected) [
    | inl on ↦ rw (on, relay_found) (Keeps-routes j b _ d refl refl)
    | inr off ↦ rw (off, relay_found) (Keeps-refl j b d)
  ]

  pub begin_relay-Keeps :
      (now : ℕ) (slug request_id : JsString) (envelope : Envelope) (b : TunnelBroker)
      → Distinct b.routes
      → Keeps j b (begin_relay now slug request_id envelope b).0
  unfolding begin_relay
  begin_relay-Keeps now slug request_id envelope b d =
      let first = current_route-Keeps j now slug b d in
      Keeps-trans j first (
        relay_found-Keeps now slug request_id envelope (current_route now slug b).1
          (current_route now slug b).0 first.distinct)

  pub snapshot-Keeps :
      (now : ℕ) (b : TunnelBroker) → Distinct b.routes → Keeps j b (snapshot now b).0
  unfolding snapshot
  snapshot-Keeps now b d = record {
    config = refl;
    distinct = Distinct-map (refresh b.config now) b.routes d;
    route =
        rw (get-map (refresh b.config now) j b.routes)
          (Evolves-refresh b.config now (get j b.routes));
  }

  pub end_forward-Keeps :
      (handle : Handle) (b : TunnelBroker) → Distinct b.routes → Keeps j b (end_forward handle b)
  unfolding end_forward
  end_forward-Keeps handle b d = Keeps-routes j b _ d refl refl
