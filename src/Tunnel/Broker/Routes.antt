-- ===== src/Tunnel/Broker/Routes.antt =====
-- How the calls of src/tunnel/broker.ts change the route of a slug.
use agentgather.Common.{
  ℕ, ◌≤◌, ◌≡◌, ◌∙◌, subst, sym, refl, Option, none, some, [], ◌∷◌, arith, JsString, JsMap, get, set,
  get-set, Distinct, Distinct-set, str_eq, str_eq_iff, str_eq_refl, Outcome, ok, throw, Bool-cases,
  Option-cases, inl, inr,
}
use agentgather.Tunnel.Protocol.{
  TunnelError, RouteMetadata, RouteStatus, active, expired, closed, Action, bind_ok, bind_throw,
  ◌>>=◌, tunnel_error, route_not_found,
}
use agentgather.Tunnel.Broker.{
  BrokerConfig, TunnelBroker, refresh, put_route, current_route, find_entry, find_by_connection,
}

abbrev pub rank : RouteStatus → ℕ
rank active = 0
rank expired = 1
rank closed = 2

-- The same registration, with a status that is no earlier in its life.
pub record SameRoute (r s : RouteMetadata) : Type 0 where
  pub slug : s.route_slug ≡ r.route_slug
  pub id : s.route_id ≡ r.route_id
  pub connection : s.host_connection_id ≡ r.host_connection_id
  pub created : s.created_at ≡ r.created_at
  pub status : rank r.status ≤ rank s.status

abbrev pub Evolves : Option RouteMetadata → Option RouteMetadata → Type 0
Evolves none none = Unit {0}
Evolves (some r) (some s) = SameRoute r s
Evolves _ _ = ⊥

pub SameRoute-refl : (r : RouteMetadata) → SameRoute r r
SameRoute-refl r = record {
  slug = refl;
  id = refl;
  connection = refl;
  created = refl;
  status = omega arith;
}

pub SameRoute-trans : {r s t : RouteMetadata} → SameRoute r s → SameRoute s t → SameRoute r t
SameRoute-trans h k = record {
  slug = k.slug ∙ h.slug;
  id = k.id ∙ h.id;
  connection = k.connection ∙ h.connection;
  created = k.created ∙ h.created;
  status = omega (arith, h.status, k.status);
}

pub Evolves-refl : (o : Option RouteMetadata) → Evolves o o
Evolves-refl none = tt
Evolves-refl (some r) = SameRoute-refl r

pub Evolves-trans : (o p q : Option RouteMetadata) → Evolves o p → Evolves p q → Evolves o q
Evolves-trans none none none h k = tt
Evolves-trans (some r) (some s) (some t) h k = SameRoute-trans h k
Evolves-trans none none (some t) h k = k
Evolves-trans none (some s) q h k = absurd h
Evolves-trans (some r) none q h k = absurd h
Evolves-trans (some r) (some s) none h k = k

pub refresh-SameRoute :
    (c : BrokerConfig) (now : ℕ) (r : RouteMetadata) → SameRoute r (refresh c now r)
unfolding refresh
refresh-SameRoute c now r = record {
  slug = refl;
  id = refl;
  connection = refl;
  created = refl;
  status = ground arith;
}

-- A call that leaves the registration of `j` in place.
pub record Keeps (j : JsString) (b c : TunnelBroker) : Type 0 where
  pub config : c.config ≡ b.config
  pub distinct : Distinct c.routes
  pub route : Evolves (get j b.routes) (get j c.routes)

pub Keeps-refl : (j : JsString) (b : TunnelBroker) → Distinct b.routes → Keeps j b b
Keeps-refl j b d = record { config = refl; distinct = d; route = Evolves-refl (get j b.routes) }

pub Keeps-trans : (j : JsString) {b c d : TunnelBroker} → Keeps j b c → Keeps j c d → Keeps j b d
Keeps-trans j {b} {c} {d} h k = record {
  config = k.config ∙ h.config;
  distinct = k.distinct;
  route = Evolves-trans (get j b.routes) (get j c.routes) (get j d.routes) h.route k.route;
}

-- Only the table of routes matters.
pub Keeps-routes :
    (j : JsString) (b c : TunnelBroker)
    → Distinct b.routes
    → c.config ≡ b.config
    → c.routes ≡ b.routes
    → Keeps j b c
Keeps-routes j b c d same e = record {
  config = same;
  distinct = rw e d;
  route = rw e (Evolves-refl (get j b.routes));
}

Evolves-set :
    (j slug : JsString) (r s : RouteMetadata) (routes : JsMap RouteMetadata)
    → get slug routes ≡ some r
    → SameRoute r s
    → Evolves (get j routes) (get j (set slug s routes))
Evolves-set j slug r s routes found same = elim (Bool-cases (str_eq slug j)) [
  | inl here ↦
      let at : get j routes ≡ some r = ground (arith, str_eq_iff slug j) in
      rw (at, get-set slug j s routes, here) same
  | inr there ↦ rw (get-set slug j s routes, there) (Evolves-refl (get j routes))
]

pub put_route-Keeps :
    (j slug : JsString) (r s : RouteMetadata) (b : TunnelBroker)
    → Distinct b.routes
    → get slug b.routes ≡ some r
    → SameRoute r s
    → Keeps j b (put_route slug s b)
put_route-Keeps j slug r s b d found same = record {
  config = refl;
  distinct = Distinct-set slug s b.routes d;
  route = Evolves-set j slug r s b.routes found same;
}

pub current_route-Keeps :
    (j : JsString) (now : ℕ) (slug : JsString) (b : TunnelBroker)
    → Distinct b.routes
    → Keeps j b (current_route now slug b).0
unfolding current_route
current_route-Keeps j now slug b d = elim (Option-cases (get slug b.routes)) [
  | inl absent ↦ rw (absent, current_route) (Keeps-refl j b d)
  | inr (r, found) ↦
      rw (found, current_route)
        (put_route-Keeps j slug r (refresh b.config now r) b d found
          (refresh-SameRoute b.config now r))
]

-- What `findByConnection` finds is the stored route of its slug.
pub find_entry_sound :
    (id connection : Option JsString) (slug : JsString) (r : RouteMetadata)
    (routes : JsMap RouteMetadata)
    → Distinct routes
    → find_entry id connection routes ≡ some (slug, r)
    → get slug routes ≡ some r
unfolding find_entry get
find_entry_sound id connection slug r [] d e = ground arith
find_entry_sound id connection slug r ((k, s) ∷ routes) d e =
    ground (
      arith,
      find_entry_sound id connection slug r routes d.1,
      str_eq_iff k slug,
      str_eq_refl k,
      d.0,
    )

abbrev pub refreshed : ℕ → JsString → RouteMetadata → TunnelBroker → TunnelBroker
refreshed now slug r b = put_route slug (refresh b.config now r) b

abbrev pub unknown_route : TunnelError
unknown_route = tunnel_error route_not_found 404 "no route matches these identifiers"

pub find_by_connection-none :
    (now : ℕ) (id connection : Option JsString) (b : TunnelBroker)
    → find_entry id connection b.routes ≡ none
    → find_by_connection now id connection b ≡ (b, throw unknown_route)
unfolding find_by_connection
find_by_connection-none now id connection b e = rw (e, find_by_connection) refl

pub find_by_connection-some :
    (now : ℕ) (id connection : Option JsString) (b : TunnelBroker) (slug : JsString)
    (r : RouteMetadata)
    → find_entry id connection b.routes ≡ some (slug, r)
    → find_by_connection now id connection b
      ≡ (refreshed now slug r b, ok (slug, refresh b.config now r))
unfolding find_by_connection
find_by_connection-some now id connection b slug r e = rw (e, find_by_connection) refl

-- A property of the calls that begin with `findByConnection`.
pub find_by_connection_cases {ℓ} :
    {A : Type 0} (P : TunnelBroker × Outcome TunnelError A → Type ℓ) (now : ℕ)
    (id connection : Option JsString) (f : JsString × RouteMetadata → Action TunnelBroker A)
    (b : TunnelBroker)
    → P (b, throw unknown_route)
    → ((slug : JsString) (r : RouteMetadata)
        → find_entry id connection b.routes ≡ some (slug, r)
        → P (f (slug, refresh b.config now r) (refreshed now slug r b)))
    → P ((find_by_connection now id connection >>= f) b)
find_by_connection_cases P now id connection f b failed found =
    elim (Option-cases (find_entry id connection b.routes)) [
      | inl e ↦
          subst P
            (sym (
              bind_throw (find_by_connection now id connection) f b b unknown_route
                (find_by_connection-none now id connection b e)))
            failed
      | inr (p, e) ↦
          subst P
            (sym (
              bind_ok (find_by_connection now id connection) f b (refreshed now p.0 p.1 b)
                (p.0, refresh b.config now p.1)
                (find_by_connection-some now id connection b p.0 p.1 e)))
            (found p.0 p.1 e)
    ]
