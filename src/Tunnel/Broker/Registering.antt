-- ===== src/Tunnel/Broker/Registering.antt =====
-- A registration of another slug in src/tunnel/broker.ts leaves the registration of the slug `j`
-- in place.
use agentgather.Common.{
  ℕ, ◌≡◌, ◌≢◌, refl, Option, none, some, arith, JsString, get, get-set_ne, Distinct, Distinct-set,
  Bool-cases, inl, inr,
}
use agentgather.Tunnel.Protocol.{RouteMetadata, HostRegistration, bind_cases, ◌>>◌}
use agentgather.Tunnel.Broker.{
  TunnelBroker, Url, put_route, current_route, register, check_slug, assert_local_target, take_slug,
  blocks, close_old, store_target, new_route,
}
use agentgather.Tunnel.Broker.Routes.{
  Evolves-refl, Keeps, Keeps-refl, Keeps-trans, Keeps-routes, current_route-Keeps,
}

pub assert_local_target_state :
    (parse_url : JsString → Option Url) (target : Option JsString) (b : TunnelBroker)
    → (assert_local_target parse_url target b).0 ≡ b
unfolding assert_local_target
assert_local_target_state parse_url none b = refl
assert_local_target_state parse_url (some target) b = ground arith

pub check_slug_state : (slug : JsString) (b : TunnelBroker) → (check_slug slug b).0 ≡ b
unfolding check_slug
check_slug_state slug b = ground arith

module _ (j : JsString) where
  assert_local_target-Keeps :
      (parse_url : JsString → Option Url) (target : Option JsString) (b : TunnelBroker)
      → Distinct b.routes
      → Keeps j b (assert_local_target parse_url target b).0
  assert_local_target-Keeps parse_url target b d =
      rw (assert_local_target_state parse_url target b) (Keeps-refl j b d)

  store_target-Keeps :
      (target : Option JsString) (slug : JsString) (b : TunnelBroker)
      → Distinct b.routes
      → Keeps j b (store_target target slug b)
  unfolding store_target
  store_target-Keeps none slug b d = Keeps-routes j b _ d refl refl
  store_target-Keeps (some target) slug b d = Keeps-routes j b _ d refl refl

  close_old-Keeps :
      (old : Option RouteMetadata) (slug : JsString) (b : TunnelBroker)
      → Distinct b.routes
      → Keeps j b (close_old old slug b)
  unfolding close_old
  close_old-Keeps none slug b d = Keeps-refl j b d
  close_old-Keeps (some r) slug b d = Keeps-routes j b _ d refl refl

  other_route-Keeps :
      (slug : JsString) (r : RouteMetadata) (b : TunnelBroker)
      → slug ≢ j
      → Distinct b.routes
      → Keeps j b (put_route slug r b)
  other_route-Keeps slug r b other d = record {
    config = refl;
    distinct = Distinct-set slug r b.routes d;
    route = rw (get-set_ne slug j r b.routes other) (Evolves-refl (get j b.routes));
  }

  take_slug-Keeps :
      (now : ℕ) (id connection slug : JsString) (target : Option JsString) (b : TunnelBroker)
      → slug ≢ j
      → Distinct b.routes
      → Keeps j b (take_slug now id connection slug target b).0
  unfolding take_slug
  take_slug-Keeps now id connection slug target b other d =
      let first = current_route-Keeps j now slug b d in
      let b' = (current_route now slug b).0 in
      let old = (current_route now slug b).1 in
      let second = close_old-Keeps old slug b' first.distinct in
      let route = new_route b.config now slug id connection in
      let third = other_route-Keeps slug route (close_old old slug b') other second.distinct in
      elim (Bool-cases (blocks old)) [
        | inl taken ↦ rw (taken, take_slug) first
        | inr free ↦
            rw (free, take_slug)
              (Keeps-trans j first (
                Keeps-trans j second
                  (Keeps-trans j third (store_target-Keeps target slug _ third.distinct))))
      ]

  pub register-Keeps :
      (parse_url : JsString → Option Url) (now : ℕ) (id connection : JsString)
      (registration : HostRegistration) (b : TunnelBroker)
      → registration.route_slug ≢ j
      → Distinct b.routes
      → Keeps j b (register parse_url now id connection registration b).0
  unfolding register
  register-Keeps parse_url now id connection registration b other d =
      let slug = registration.route_slug in
      let take = take_slug now id connection slug registration.target in
      bind_cases (λ p. Keeps j b p.0) (check_slug slug)
        (λ _. assert_local_target parse_url registration.target >> take) b
        (λ e h. rw (check_slug_state slug b) (Keeps-refl j b d))
        (λ u h. rw (check_slug_state slug b) (
          bind_cases (λ p. Keeps j b p.0) (assert_local_target parse_url registration.target)
            (λ _. take) b (λ e k. assert_local_target-Keeps parse_url registration.target b d)
            (λ v k.
              rw (assert_local_target_state parse_url registration.target b)
                (take_slug-Keeps now id connection slug registration.target b other d))))
