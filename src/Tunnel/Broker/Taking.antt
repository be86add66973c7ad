-- ===== src/Tunnel/Broker/Taking.antt =====
-- A registration of src/tunnel/broker.ts that takes a slug: what it answers and stores.
use agentgather.Common.{
  ◌⊎◌, ℕ, ◌≡◌, ◌∙◌, refl, ap, true, false, Option, none, some, JsString, set, Distinct, ok, throw,
  Bool-cases, inl, inr,
}
use agentgather.Tunnel.Protocol.{
  TunnelError, RouteMetadata, HostRegistration, tunnel_error, route_slug_taken, bind_cases, ◌>>◌,
}
use agentgather.Tunnel.Broker.{
  TunnelBroker, Url, put_route, current_route, register, check_slug, assert_local_target, take_slug,
  blocks, close_old, store_target, new_route,
}
use agentgather.Tunnel.Broker.Routes.{current_route-Keeps, Keeps, Keeps-refl}
use agentgather.Tunnel.Broker.Registering.{check_slug_state, assert_local_target_state}

abbrev pub slug_taken : TunnelError
slug_taken = tunnel_error route_slug_taken 409 "an active host already holds this slug"

routes-store_target :
    (target : Option JsString) (slug : JsString) (b : TunnelBroker)
    → (store_target target slug b).routes ≡ b.routes
unfolding store_target
routes-store_target none slug b = refl
routes-store_target (some target) slug b = refl

routes-close_old :
    (old : Option RouteMetadata) (slug : JsString) (b : TunnelBroker)
    → (close_old old slug b).routes ≡ b.routes
unfolding close_old
routes-close_old none slug b = refl
routes-close_old (some r) slug b = refl

take_slug_taken :
    (now : ℕ) (id connection slug : JsString) (target : Option JsString) (b : TunnelBroker)
    → blocks (current_route now slug b).1 ≡ true
    → (take_slug now id connection slug target b).1 ≡ throw slug_taken
unfolding take_slug
take_slug_taken now id connection slug target b h = rw (h, take_slug) refl

take_slug_free :
    (now : ℕ) (id connection slug : JsString) (target : Option JsString) (b : TunnelBroker)
    → blocks (current_route now slug b).1 ≡ false
    → take_slug now id connection slug target b ≡ (
      store_target target slug (
          put_route slug
            (new_route b.config now slug id connection)
            (close_old (current_route now slug b).1 slug (current_route now slug b).0)),
      ok (new_route b.config now slug id connection),
    )
unfolding take_slug
take_slug_free now id connection slug target b h = rw (h, take_slug) refl

take_slug_ok :
    (now : ℕ) (id connection slug : JsString) (target : Option JsString) (b : TunnelBroker)
    (r : RouteMetadata)
    → (take_slug now id connection slug target b).1 ≡ ok r
    → (r ≡ new_route b.config now slug id connection)
      × ((take_slug now id connection slug target b).0.routes
          ≡ set slug
              (new_route b.config now slug id connection)
              (current_route now slug b).0.routes)
take_slug_ok now id connection slug target b r e =
    let b' = (current_route now slug b).0 in
    let old = (current_route now slug b).1 in
    let route = new_route b.config now slug id connection in
    elim (Bool-cases (blocks old)) [
      | inl taken ↦ cc (take_slug_taken now id connection slug target b taken)
      | inr free ↦
          let same = take_slug_free now id connection slug target b free in
          rw same (
            cc same,
            routes-store_target target slug (put_route slug route (close_old old slug b'))
                ∙ ap (set slug route) (routes-close_old old slug b'),
          )
    ]

pub register_ok :
    (parse_url : JsString → Option Url) (now : ℕ) (id connection : JsString)
    (registration : HostRegistration) (b : TunnelBroker) (r : RouteMetadata)
    → (register parse_url now id connection registration b).1 ≡ ok r
    → (r ≡ new_route b.config now registration.route_slug id connection)
      × ((register parse_url now id connection registration b).0.routes
          ≡ set registration.route_slug r (current_route now registration.route_slug b).0.routes)
unfolding register
register_ok parse_url now id connection registration b r e =
    let slug = registration.route_slug in
    let take = take_slug now id connection slug registration.target in
    bind_cases (λ p. p.1 ≡ ok r → Took p.0) (check_slug slug)
      (λ _. assert_local_target parse_url registration.target >> take) b (λ e h k. cc)
      (λ u h. rw (check_slug_state slug b) (
        bind_cases (λ p. p.1 ≡ ok r → Took p.0) (assert_local_target parse_url registration.target)
          (λ _. take) b (λ e h k. cc)
          (λ v k. rw (assert_local_target_state parse_url registration.target b) (λ done.
            let (new, routes) = take_slug_ok now id connection slug registration.target b r done in
            (new, rw new routes)))))
      e
  where
    Took : TunnelBroker → Type 0
    Took c =
        (r ≡ new_route b.config now registration.route_slug id connection)
        × (c.routes
            ≡ set registration.route_slug r (current_route now registration.route_slug b).0.routes)

-- A registration either puts a new route at its slug, or leaves every registration in place.
abbrev Registers : ℕ → JsString → JsString → HostRegistration → TunnelBroker → TunnelBroker → Type 0
Registers now id connection registration b c =
    (c.routes
      ≡ set registration.route_slug (new_route b.config now registration.route_slug id connection)
          (current_route now registration.route_slug b).0.routes)
    ⊎ ((j : JsString) → Keeps j b c)

module _ (now : ℕ) (id connection : JsString) (registration : HostRegistration) (b : TunnelBroker)
    (d : Distinct b.routes) where
  take_slug_cases :
      Registers now id connection registration b
        (take_slug now id connection registration.route_slug registration.target b).0
  unfolding take_slug
  take_slug_cases =
      let slug = registration.route_slug in
      elim (Bool-cases (blocks (current_route now slug b).1)) [
        | inl taken ↦ inr (λ j. rw (taken, take_slug) (current_route-Keeps j now slug b d))
        | inr free ↦
            let same = take_slug_free now id connection slug registration.target b free in
            inl
              (take_slug_ok now id connection slug registration.target b
                (new_route b.config now slug id connection) (ap (λ p. p.1) same)).1
      ]

  pub register_cases :
      (parse_url : JsString → Option Url)
      → Registers now id connection registration b
          (register parse_url now id connection registration b).0
  unfolding register
  register_cases parse_url =
      let slug = registration.route_slug in
      let take = take_slug now id connection slug registration.target in
      let here = λ (c : TunnelBroker). Registers now id connection registration b c in
      bind_cases (λ p. here p.0) (check_slug slug)
        (λ _. assert_local_target parse_url registration.target >> take) b
        (λ e h. rw (check_slug_state slug b) (inr (λ j. Keeps-refl j b d)))
        (λ u h. rw (check_slug_state slug b) (
          bind_cases (λ p. here p.0) (assert_local_target parse_url registration.target) (λ _. take)
            b
            (λ e k.
              rw (assert_local_target_state parse_url registration.target b)
                (inr (λ j. Keeps-refl j b d)))
            (λ v k.
              rw (assert_local_target_state parse_url registration.target b) take_slug_cases)))
