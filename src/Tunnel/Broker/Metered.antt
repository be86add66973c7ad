-- ===== src/Tunnel/Broker/Metered.antt =====
-- What src/tunnel/broker.ts reports to the meter when a host closes its route.
use mathlib.Core.List.{append-nil}
use agentgather.Common.{
  ℕ, ◌-◌, ◌≡◌, refl, Option, none, some, List, [], ◌∷◌, ◌++◌, arith, JsString, JsMap, get, set,
  delete, get-delete_self, Distinct, Distinct-set, str_eq_iff, str_eq_refl, ◌∙◌, sym, Option-cases,
  inl, inr,
}
use agentgather.Tunnel.Protocol.{RouteMetadata, closed, bind_ok}
use agentgather.Tunnel.Broker.{
  TunnelBroker, BrokerConfig, MeterCall, route_closed_after, refresh, find_entry,
  find_by_connection,
}
use agentgather.Tunnel.Broker.Calls.{close_route, close_found, meter_close}
use agentgather.Tunnel.Broker.Routes.{find_by_connection-some, find_entry_sound, refreshed}

abbrev shut : BrokerConfig → ℕ → RouteMetadata → RouteMetadata
shut c now r = record (refresh c now r) { status = closed }

abbrev reported : ℕ → RouteMetadata → Option JsString → List MeterCall
reported now r none = route_closed_after r.route_slug (now - r.created_at) ∷ []
reported now r (some target) = []

module _ (id connection : Option JsString) where
  find_entry-set :
      (slug : JsString) (r s : RouteMetadata) (routes : JsMap RouteMetadata)
      → Distinct routes
      → find_entry id connection routes ≡ some (slug, r)
      → s.route_id ≡ r.route_id
      → s.host_connection_id ≡ r.host_connection_id
      → find_entry id connection (set slug s routes) ≡ some (slug, s)
  unfolding find_entry set
  find_entry-set slug r s [] d e same_route same_host = ground arith
  find_entry-set slug r s ((k, t) ∷ routes) d e same_route same_host = ground (
    arith,
    find_entry-set slug r s routes d.1,
    find_entry_sound id connection slug r routes d.1,
    str_eq_iff k slug,
    str_eq_refl slug,
    d.0,
  )

  close_route-eq :
      (now : ℕ) (slug : JsString) (r : RouteMetadata) (b : TunnelBroker)
      → find_entry id connection b.routes ≡ some (slug, r)
      → close_route now id connection b
        ≡ close_found now (slug, refresh b.config now r) (refreshed now slug r b)
  unfolding close_route
  close_route-eq now slug r b e =
      bind_ok (find_by_connection now id connection) (close_found now) b (refreshed now slug r b)
        (slug, refresh b.config now r) (find_by_connection-some now id connection b slug r e)

  -- What a close of the found route does to the routes, the targets and the meter.
  close_route_lem :
      (now : ℕ) (slug : JsString) (r : RouteMetadata) (b : TunnelBroker)
      → find_entry id connection b.routes ≡ some (slug, r)
      → let c = (close_route now id connection b).0 in
        (c.routes ≡ set slug (shut b.config now r) (refreshed now slug r b).routes)
        × (c.targets ≡ delete r.route_slug b.targets)
        × (c.metered ≡ b.metered ++ reported now r (get r.route_slug b.targets))
  unfolding close_found meter_close refresh
  close_route_lem now slug r b e = elim (Option-cases (get r.route_slug b.targets)) [
    | inl public ↦ rw (close_route-eq now slug r b e) (
      rw (public, close_found, meter_close) refl,
      rw (public, close_found, meter_close) refl,
      rw (public, close_found, meter_close) refl,
    )
    | inr (target, direct) ↦ rw (close_route-eq now slug r b e) (
      rw (direct, close_found, meter_close) refl,
      rw (direct, close_found, meter_close) refl,
      rw (direct, close_found, meter_close) (sym (append-nil b.metered)),
    )
  ]

  -- A host that closes its route a second time: the first close of a route with a local target is
  -- not reported to the meter, and the second one is, as that of a public route.
  pub close_twice_metered :
      (now later : ℕ) (slug target : JsString) (r : RouteMetadata) (b : TunnelBroker)
      → Distinct b.routes
      → find_entry id connection b.routes ≡ some (slug, r)
      → get r.route_slug b.targets ≡ some target
      → let c = (close_route now id connection b).0 in
        (c.metered ≡ b.metered)
        × ((close_route later id connection c).0.metered
            ≡ b.metered ++ route_closed_after r.route_slug (later - r.created_at) ∷ [])
  unfolding refresh
  close_twice_metered now later slug target r b d e direct =
      let c = (close_route now id connection b).0 in
      let (routes, targets, metered) = close_route_lem now slug r b e in
      let unreported : c.metered ≡ b.metered = metered ∙ rw direct (append-nil b.metered) in
      let refreshed_entry = find_entry-set slug r (refresh b.config now r) b.routes d e refl refl in
      let shut_entry =
        find_entry-set slug (refresh b.config now r) (shut b.config now r)
          (refreshed now slug r b).routes (Distinct-set slug (refresh b.config now r) b.routes d)
          refreshed_entry refl refl in
      let (routes', targets', metered') =
        close_route_lem later slug (shut b.config now r) c (rw routes shut_entry) in
      let gone : get r.route_slug c.targets ≡ none =
        rw targets (get-delete_self r.route_slug b.targets) in
      (unreported, metered' ∙ rw (gone, unreported) refl)
