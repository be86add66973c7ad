-- ===== src/Tunnel/Broker/Disowning.antt =====
-- A connection to which no route of src/tunnel/broker.ts belongs: what its calls are answered.
use agentgather.Common.{
  ℕ, ◌≡◌, ◌≢◌, refl, ap, sym, Bool, true, false, ◌&&◌, none, some, [], ◌∷◌, arith, JsString, JsMap,
  get, set, get-set, get-set_ne, Distinct, Distinct-set, str_eq, str_eq_iff, throw, Bool-cases,
  Option-cases, inl, inr,
}
use agentgather.Tunnel.Protocol.{RouteMetadata, ForwardedResponse, bind_throw, ◌>>=◌, Action}
use agentgather.Tunnel.Broker.{
  TunnelBroker, refresh, current_route, find_entry, same_id, find_by_connection,
}
use agentgather.Tunnel.Broker.Calls.{
  heartbeat, heartbeat_route, close_route, close_found, claim_relay, claim_found, respond_relay,
  respond_hub,
}
use agentgather.Tunnel.Broker.Routes.{find_entry_sound, find_by_connection-none, unknown_route}

-- The connection ids of a request are those of the route.
abbrev pub owns : JsString → JsString → RouteMetadata → Bool
owns id connection r =
    same_id r.route_id (some id) && same_id r.host_connection_id (some connection)

pub find_entry-owns :
    (id connection slug : JsString) (r : RouteMetadata) (routes : JsMap RouteMetadata)
    → find_entry (some id) (some connection) routes ≡ some (slug, r)
    → owns id connection r ≡ true
unfolding find_entry
find_entry-owns id connection slug r [] e = ground arith
find_entry-owns id connection slug r ((k, s) ∷ routes) e =
    ground (arith, find_entry-owns id connection slug r routes)

-- No entry of the table belongs to the connection.
abbrev pub OwnsNone : JsString → JsString → JsMap RouteMetadata → Type 0
OwnsNone id connection routes = find_entry (some id) (some connection) routes ≡ none

pub OwnsNone-set :
    (id connection slug : JsString) (new : RouteMetadata) (routes : JsMap RouteMetadata)
    → Distinct routes
    → ((k : JsString) (t : RouteMetadata)
        → get k routes ≡ some t
        → owns id connection t ≡ true
        → k ≡ slug)
    → owns id connection new ≡ false
    → OwnsNone id connection (set slug new routes)
OwnsNone-set id connection slug new routes d sole fresh =
    elim (Option-cases (find_entry (some id) (some connection) (set slug new routes))) [
      | inl e ↦ e
      | inr (p, e) ↦
          let stored =
            find_entry_sound (some id) (some connection) p.0 p.1 (set slug new routes)
              (Distinct-set slug new routes d) e in
          let mine = find_entry-owns id connection p.0 p.1 (set slug new routes) e in
          absurd (contradiction p.0 p.1 stored mine)
    ]
  where
    contradiction :
        (k : JsString) (t : RouteMetadata)
        → get k (set slug new routes) ≡ some t
        → owns id connection t ≡ true
        → ⊥
    contradiction k t stored mine =
        ground (arith, get-set slug k new routes, str_eq_iff slug k, sole k t)

get-current_route_ne :
    (now : ℕ) (slug k : JsString) (b : TunnelBroker)
    → slug ≢ k
    → get k (current_route now slug b).0.routes ≡ get k b.routes
unfolding current_route
get-current_route_ne now slug k b other = elim (Option-cases (get slug b.routes)) [
  | inl absent ↦ rw (absent, current_route) refl
  | inr (r, stored) ↦
      rw (stored, current_route) (get-set_ne slug k (refresh b.config now r) b.routes other)
]

-- Only the route of the slug belongs to the connection.
abbrev pub IsSoleOwner : JsString → JsString → JsString → TunnelBroker → Type 0
IsSoleOwner id connection slug b =
    (k : JsString) (t : RouteMetadata)
    → get k b.routes ≡ some t
    → owns id connection t ≡ true
    → k ≡ slug

pub current_route-IsSoleOwner :
    (now : ℕ) (id connection slug : JsString) (b : TunnelBroker)
    → IsSoleOwner id connection slug b
    → IsSoleOwner id connection slug (current_route now slug b).0
current_route-IsSoleOwner now id connection slug b sole k t stored mine =
    elim (Bool-cases (str_eq slug k)) [
      | inl same ↦ sym ((str_eq_iff slug k).0 same)
      | inr other ↦
          sole k t
            (rw (get-current_route_ne now slug k b (λ e. ground (arith, str_eq_iff slug k))) at
              stored)
            mine
    ]

unfound :
    {A : Type 0} (now : ℕ) (id connection : JsString)
    (f : JsString × RouteMetadata → Action TunnelBroker A) (c : TunnelBroker)
    → OwnsNone id connection c.routes
    → ((find_by_connection now (some id) (some connection) >>= f) c).1 ≡ throw unknown_route
unfound now id connection f c none_owned =
    ap (λ p. p.1)
      (bind_throw (find_by_connection now (some id) (some connection)) f c c unknown_route
        (find_by_connection-none now (some id) (some connection) c none_owned))

pub disowned :
    (byte_length : JsString → ℕ) (now : ℕ) (id connection request_id : JsString)
    (response : ForwardedResponse) (c : TunnelBroker)
    → OwnsNone id connection c.routes
    → ((heartbeat now (some id) (some connection) c).1 ≡ throw unknown_route)
      × ((close_route now (some id) (some connection) c).1 ≡ throw unknown_route)
      × ((claim_relay now (some id) (some connection) c).1 ≡ throw unknown_route)
      × ((respond_relay byte_length now (some id) (some connection) request_id response c).1
          ≡ throw unknown_route)
unfolding heartbeat close_route claim_relay respond_relay
disowned byte_length now id connection request_id response c none_owned = (
  unfound now id connection (heartbeat_route now) c none_owned,
  unfound now id connection (close_found now) c none_owned,
  unfound now id connection (claim_found now) c none_owned,
  unfound now id connection (λ _. respond_hub byte_length request_id response) c none_owned,
)
