-- ===== src/Tunnel/Broker/Freeing.antt =====
-- A connection of src/tunnel/broker.ts to which no route belongs, over a history of calls.
use agentgather.Common.{
  ℕ, ◌≡◌, ◌≢◌, refl, sym, ◌∙◌, false, Option, none, some, List, [], ◌∷◌, arith, JsString, get, set,
  get-set, Distinct, Distinct-set, str_eq, str_eq_iff, ok, Bool-cases, Option-cases, inl, inr,
}
use agentgather.Tunnel.Protocol.{RouteMetadata, HostRegistration}
use agentgather.Tunnel.Broker.{
  find_entry, TunnelBroker, Url, BrokerConfig, current_route, register, new_route,
}
use agentgather.Tunnel.Broker.Routes.{current_route-Keeps}
use agentgather.Tunnel.Broker.Disowning.{OwnsNone, IsSoleOwner, current_route-IsSoleOwner}
use agentgather.Tunnel.Broker.Disowning.{owns, find_entry-owns}
use agentgather.Tunnel.Broker.Routes.{SameRoute, Evolves, Keeps, find_entry_sound}
use agentgather.Tunnel.Broker.Taking.{register_ok, register_cases}
use agentgather.Tunnel.Broker.Histories.{
  Call, registers, heartbeats, closes, polls, responds, resolves, snapshots, begins_forward,
  begins_relay, ends_forward, after, run, after-Keeps, IsOf,
}

some_inj : {r t : RouteMetadata} → ◌≡◌ {A = Option RouteMetadata} (some r) (some t) → r ≡ t
some_inj e = cc

-- No route of the table belongs to the connection.
pub record IsFree (id connection : JsString) (b : TunnelBroker) : Type 0 where
  pub distinct : Distinct b.routes
  pub free :
      (k : JsString) (t : RouteMetadata) → get k b.routes ≡ some t → owns id connection t ≡ false

module _ (id connection : JsString) where
  pub IsFree-OwnsNone :
      (b : TunnelBroker) → IsFree id connection b → OwnsNone id connection b.routes
  IsFree-OwnsNone b h = elim (Option-cases (find_entry (some id) (some connection) b.routes)) [
    | inl e ↦ e
    | inr (p, e) ↦
        let stored = find_entry_sound (some id) (some connection) p.0 p.1 b.routes h.distinct e in
        let mine = find_entry-owns id connection p.0 p.1 b.routes e in
        absurd (cc (sym mine ∙ h.free p.0 p.1 stored))
  ]

  owns-SameRoute :
      (r t : RouteMetadata)
      → SameRoute r t
      → owns id connection r ≡ false
      → owns id connection t ≡ false
  owns-SameRoute r t same h = rw (same.id, same.connection) h

  owns-Evolves :
      (o : Option RouteMetadata) (t : RouteMetadata)
      → Evolves o (some t)
      → ((r : RouteMetadata) → o ≡ some r → owns id connection r ≡ false)
      → owns id connection t ≡ false
  owns-Evolves none t e h = absurd e
  owns-Evolves (some r) t e h = owns-SameRoute r t e (h r refl)

  -- A route that is still that of its slug.
  kept-free :
      (k : JsString) (b c : TunnelBroker) (t : RouteMetadata)
      → IsFree id connection b
      → Keeps k b c
      → get k c.routes ≡ some t
      → owns id connection t ≡ false
  kept-free k b c t h kept stored =
      owns-Evolves (get k b.routes) t (rw stored at kept.route) (h.free k)

  Keeps-IsFree :
      (b c : TunnelBroker)
      → IsFree id connection b
      → ((k : JsString) → Keeps k b c)
      → IsFree id connection c
  Keeps-IsFree b c h kept = record {
    distinct = (kept []).distinct;
    free = λ k t stored. kept-free k b c t h (kept k) stored;
  }

  -- A new route at a slug whose minted route id is another one.
  set-IsFree :
      (slug : JsString) (new : RouteMetadata) (b c : TunnelBroker)
      → Distinct b.routes
      → ((k : JsString) (t : RouteMetadata)
          → str_eq slug k ≡ false
          → get k b.routes ≡ some t
          → owns id connection t ≡ false)
      → owns id connection new ≡ false
      → c.routes ≡ set slug new b.routes
      → IsFree id connection c
  set-IsFree slug new b c d others fresh same = record {
    distinct = rw same (Distinct-set slug new b.routes d);
    free = λ k t stored. at k t (rw same at stored);
  }
    where
      at :
          (k : JsString) (t : RouteMetadata)
          → get k (set slug new b.routes) ≡ some t
          → owns id connection t ≡ false
      at k t stored = elim (Bool-cases (str_eq slug k)) [
        | inl here ↦
            let found : some t ≡ some new =
              sym stored ∙ (get-set slug k new b.routes ∙ rw here refl) in
            rw (some_inj found) fresh
        | inr apart ↦
            let found : get k b.routes ≡ some t =
              sym (get-set slug k new b.routes ∙ rw apart refl) ∙ stored in
            others k t apart found
      ]

  new_route-other :
      (c : BrokerConfig) (now : ℕ) (slug id' connection' : JsString)
      → id' ≢ id
      → owns id connection (new_route c now slug id' connection') ≡ false
  new_route-other c now slug id' connection' other = ground (arith, str_eq_iff id' id)

  -- The registration that takes the slug of the only route that belongs to the connection.
  pub register-IsFree :
      (parse_url : JsString → Option Url) (now : ℕ) (new_id new_connection : JsString)
      (registration : HostRegistration) (b : TunnelBroker) (r : RouteMetadata)
      → Distinct b.routes
      → IsSoleOwner id connection registration.route_slug b
      → new_id ≢ id
      → (register parse_url now new_id new_connection registration b).1 ≡ ok r
      → IsFree id connection (register parse_url now new_id new_connection registration b).0
  register-IsFree parse_url now new_id new_connection registration b r d sole other taken =
      let slug = registration.route_slug in
      let b' = (current_route now slug b).0 in
      let (route, routes) =
        register_ok parse_url now new_id new_connection registration b r taken in
      set-IsFree slug r b' (register parse_url now new_id new_connection registration b).0
        (current_route-Keeps slug now slug b d).distinct
        (λ k t apart stored. elim (Bool-cases (owns id connection t)) [
          | inl mine ↦
              let same = current_route-IsSoleOwner now id connection slug b sole k t stored mine in
              ground (arith, str_eq_iff slug k)
          | inr none_of_it ↦ none_of_it
        ])
        (rw route (new_route-other b.config now slug new_id new_connection other)) routes

  registers-IsFree :
      (parse_url : JsString → Option Url) (now : ℕ) (new_id new_connection : JsString)
      (registration : HostRegistration) (b : TunnelBroker)
      → new_id ≢ id
      → IsFree id connection b
      → IsFree id connection (register parse_url now new_id new_connection registration b).0
  registers-IsFree parse_url now new_id new_connection registration b other h =
      let slug = registration.route_slug in
      let b' = (current_route now slug b).0 in
      let c = (register parse_url now new_id new_connection registration b).0 in
      elim (register_cases now new_id new_connection registration b h.distinct parse_url) [
        | inl routes ↦
            set-IsFree slug (new_route b.config now slug new_id new_connection) b' c
              (current_route-Keeps slug now slug b h.distinct).distinct
              (λ k t apart stored.
                kept-free k b b' t h (current_route-Keeps k now slug b h.distinct) stored)
              (new_route-other b.config now slug new_id new_connection other) routes
        | inr kept ↦ Keeps-IsFree b c h kept
      ]

abbrev IsMinting : JsString → Call → Type 0
IsMinting id (registers new_id connection registration) = new_id ≡ id
IsMinting id _ = ⊥

-- No registration of the history mints the route id.
abbrev pub MintsOther : JsString → List (ℕ × Call) → Type 0
MintsOther id [] = Unit {0}
MintsOther id ((now, c) ∷ cs) = (¬ IsMinting id c) × MintsOther id cs

module _ (parse_url : JsString → Option Url) (byte_length : JsString → ℕ)
    (id connection : JsString) where
  after-IsFree :
      (now : ℕ) (c : Call) (b : TunnelBroker)
      → ¬ IsMinting id c
      → IsFree id connection b
      → IsFree id connection (after parse_url byte_length (now, c) b)
  after-IsFree now c b n h = by_call c n
    where
      kept :
          (c : Call)
          → ((k : JsString) → ¬ IsOf k c)
          → IsFree id connection (after parse_url byte_length (now, c) b)
      kept c other =
          Keeps-IsFree id connection b (after parse_url byte_length (now, c) b) h
            (λ k. after-Keeps parse_url byte_length k now c b (other k) h.distinct)

      by_call :
          (c : Call)
          → ¬ IsMinting id c
          → IsFree id connection (after parse_url byte_length (now, c) b)
      by_call (registers new_id new_connection registration) n =
          registers-IsFree id connection parse_url now new_id new_connection registration b n h
      by_call (heartbeats i k) n = kept (heartbeats i k) (λ j x. x)
      by_call (closes i k) n = kept (closes i k) (λ j x. x)
      by_call (polls i k) n = kept (polls i k) (λ j x. x)
      by_call (responds i k q response) n = kept (responds i k q response) (λ j x. x)
      by_call (resolves slug) n = kept (resolves slug) (λ j x. x)
      by_call snapshots n = kept snapshots (λ j x. x)
      by_call (begins_forward input) n = kept (begins_forward input) (λ j x. x)
      by_call (begins_relay slug q envelope) n = kept (begins_relay slug q envelope) (λ j x. x)
      by_call (ends_forward handle) n = kept (ends_forward handle) (λ j x. x)

  pub run-IsFree :
      (cs : List (ℕ × Call)) (b : TunnelBroker)
      → MintsOther id cs
      → IsFree id connection b
      → IsFree id connection (run parse_url byte_length cs b)
  run-IsFree [] b n h = h
  run-IsFree ((now, c) ∷ cs) b n h =
      run-IsFree cs (after parse_url byte_length (now, c) b) n.1 (after-IsFree now c b n.0 h)
