-- ===== src/Tunnel/Relay/Settling.antt =====
-- What becomes of the requests of src/tunnel/relay.ts over any history of calls and timers.
use agentgather.Common.{
  ℕ, ◌+◌, ◌≤◌, ◌≡◌, ◌∙◌, refl, Bool, false, Option, none, some, List, [], ◌∷◌, arith, JsString,
  JsMap, Distinct, get, get-delete, str_eq, str_eq_iff, if◌then◌else◌, Bool-cases, Option-cases,
  inl, inr, ◌||◌, ◌&&◌,
}
use agentgather.Tunnel.Protocol.{TunnelError, ForwardedResponse}
use agentgather.Tunnel.Relay.{
  RelayHub, InFlight, Envelope, RelayOptions, new_hub, enqueue, claim, remove_item, settle, fail,
  respond, close_items, close_route, expire, closed_error,
}
use agentgather.Tunnel.Relay.Queue.{waiting, nonempty}
use agentgather.Tunnel.Relay.Laws.{
  IsSynced, new_hub-IsSynced, enqueue-IsSynced, claim-IsSynced, respond-IsSynced,
  close_route-IsSynced, expire-IsSynced,
}
use agentgather.Tunnel.Relay.Occurrences.{
  occurrences, occurrences-respond, occurrences-close_route, occurrences-expire, occurrences-claim,
  occurrences-enqueue,
}

-- A call of the hub, or a timer that runs.
pub data Event : Type 0 where
  enqueues : (now : ℕ) (id slug : JsString) → Envelope → Event
  claims : (now : ℕ) (slug : JsString) → Event
  responds : (id : JsString) → ForwardedResponse → Event
  closes : (slug : JsString) → Event
  expires : (now : ℕ) (id : JsString) → Event

module _ (byte_length : JsString → ℕ) where
  abbrev pub after : Event → RelayHub → RelayHub
  after (enqueues now id slug envelope) hub = enqueue now id slug envelope hub
  after (claims now slug) hub = (claim now slug hub).0
  after (responds id response) hub = (respond byte_length id response hub).0
  after (closes slug) hub = close_route slug hub
  after (expires now id) hub = expire now id hub

  abbrev pub run : List Event → RelayHub → RelayHub
  run [] hub = hub
  run (e ∷ es) hub = run es (after e hub)

  -- Every id that is minted is new to the hub.
  abbrev pub MintsFresh : List Event → RelayHub → Type 0
  MintsFresh [] hub = Unit {0}
  MintsFresh (enqueues now id slug envelope ∷ es) hub =
      (occurrences id hub ≡ 0) × MintsFresh es (enqueue now id slug envelope hub)
  MintsFresh (e ∷ es) hub = MintsFresh es (after e hub)

abbrev enqueued : JsString → Event → ℕ
enqueued j (enqueues now id slug envelope) = if str_eq id j then 1 else 0
enqueued j _ = 0

-- How many of the calls enqueue the request `j`.
abbrev pub times_enqueued : JsString → List Event → ℕ
times_enqueued j [] = 0
times_enqueued j (e ∷ es) = enqueued j e + times_enqueued j es

absent_of_occurrences :
    (id : JsString) (hub : RelayHub) → occurrences id hub ≡ 0 → get id hub.inflight ≡ none
absent_of_occurrences id hub h = ground arith

-- What holds of the hub after a history that starts from `hub`.
record Accounted (j : JsString) (enqueues_of_j : ℕ) (hub final : RelayHub) : Type 0 where
  synced : IsSynced final
  counted : occurrences j final ≡ enqueues_of_j + occurrences j hub
  once : occurrences j hub ≤ 1 → occurrences j final ≤ 1

Accounted-next :
    (j : JsString) (n k : ℕ) (hub middle final : RelayHub)
    → Accounted j n middle final
    → occurrences j middle ≡ k + occurrences j hub
    → (occurrences j hub ≤ 1 → occurrences j middle ≤ 1)
    → Accounted j (k + n) hub final
Accounted-next j n k hub middle final a e once = record {
  synced = a.synced;
  counted = omega (arith, a.counted, e);
  once = λ h. a.once (once h);
}

Accounted-keep :
    (j : JsString) (n : ℕ) (hub middle final : RelayHub)
    → Accounted j n middle final
    → occurrences j middle ≡ occurrences j hub
    → Accounted j (0 + n) hub final
Accounted-keep j n hub middle final a e =
    Accounted-next j n 0 hub middle final a (omega (arith, e)) (λ h. omega (arith, e))

module _ (byte_length : JsString → ℕ) (j : JsString) where
  run-Accounted :
      (es : List Event) (hub : RelayHub)
      → MintsFresh byte_length es hub
      → IsSynced hub
      → Accounted j (times_enqueued j es) hub (run byte_length es hub)
  run-Accounted [] hub f v = record { synced = v; counted = omega arith; once = λ h. h }
  run-Accounted (enqueues now id slug envelope ∷ es) hub f v =
      let fresh = absent_of_occurrences id hub f.0 in
      let counted = occurrences-enqueue j now id slug envelope hub fresh in
      Accounted-next j (times_enqueued j es) (if str_eq id j then 1 else 0) hub
        (enqueue now id slug envelope hub) _
        (run-Accounted es (enqueue now id slug envelope hub) f.1
          (enqueue-IsSynced now id slug envelope hub fresh v))
        counted (λ h. ground (arith, counted, str_eq_iff id j, f.0))
  run-Accounted (claims now slug ∷ es) hub f v =
      Accounted-keep j (times_enqueued j es) hub (claim now slug hub).0 _
        (run-Accounted es (claim now slug hub).0 f (claim-IsSynced now slug hub v))
        (occurrences-claim j now slug hub v)
  run-Accounted (responds id response ∷ es) hub f v =
      Accounted-keep j (times_enqueued j es) hub (respond byte_length id response hub).0 _
        (run-Accounted es (respond byte_length id response hub).0 f
          (respond-IsSynced byte_length id response hub v))
        (occurrences-respond j byte_length id response hub)
  run-Accounted (closes slug ∷ es) hub f v =
      Accounted-keep j (times_enqueued j es) hub (close_route slug hub) _
        (run-Accounted es (close_route slug hub) f (close_route-IsSynced slug hub v))
        (occurrences-close_route j slug hub)
  run-Accounted (expires now id ∷ es) hub f v =
      Accounted-keep j (times_enqueued j es) hub (expire now id hub) _
        (run-Accounted es (expire now id hub) f (expire-IsSynced now id hub v))
        (occurrences-expire j now id hub)

  -- Over any history of calls and timers from an empty hub whose minted ids are new, a request that
  -- was enqueued is known to the hub exactly once, in flight or settled, and one that was not is
  -- not known; so no request is lost and none is settled twice.
  pub settled_once :
      (options : RelayOptions) (es : List Event)
      → MintsFresh byte_length es (new_hub options)
      → (occurrences j (run byte_length es (new_hub options)) ≡ times_enqueued j es)
        × (times_enqueued j es ≤ 1)
  unfolding get
  settled_once options es f =
      let a = run-Accounted es (new_hub options) f (new_hub-IsSynced options) in
      (omega (arith, a.counted), omega (arith, a.counted, a.once (omega arith)))

-- After any history of calls and timers from an empty hub whose minted ids are new, the queue of
-- each route lists its unclaimed requests, oldest first.
pub run-queued :
    (byte_length : JsString → ℕ) (options : RelayOptions) (es : List Event) (slug : JsString)
    → MintsFresh byte_length es (new_hub options)
    → get slug (run byte_length es (new_hub options)).pending
      ≡ nonempty (waiting slug (run byte_length es (new_hub options)).inflight)
run-queued byte_length options es slug f =
    (run-Accounted byte_length slug es (new_hub options) f (new_hub-IsSynced options)).synced.queued
      slug

get-fail :
    (j id : JsString) (error : TunnelError) (hub : RelayHub)
    → get j (fail id error hub).inflight ≡ (if str_eq id j then none else get j hub.inflight)
unfolding fail settle remove_item
get-fail j id error hub = elim (Option-cases (get id hub.inflight)) [
  | inl gone ↦ rw (gone, fail) (ground (arith, str_eq_iff id j))
  | inr (item, found) ↦ rw (found, fail) (get-delete id j hub.inflight)
]

-- The loop of `closeRoute` reaches `j`.
abbrev reached : JsString → JsString → JsMap InFlight → Bool
reached j slug [] = false
reached j slug ((id, item) ∷ items) = (str_eq id j && str_eq item.slug slug) || reached j slug items

get-close_items :
    (j slug : JsString) (items : JsMap InFlight) (hub : RelayHub)
    → get j (close_items slug items hub).inflight
      ≡ (if reached j slug items then none else get j hub.inflight)
unfolding close_items
get-close_items j slug [] hub = refl
get-close_items j slug ((id, item) ∷ items) hub = elim (Bool-cases (str_eq item.slug slug)) [
  | inl mine ↦
      rw (mine, close_items)
        (ground (
          arith,
          get-close_items j slug items (fail id closed_error hub),
          get-fail j id closed_error hub,
        ))
  | inr other ↦ rw (other, close_items) (ground (arith, get-close_items j slug items hub))
]

abbrev pub off_route : JsString → Option InFlight → Option InFlight
off_route slug none = none
off_route slug (some item) = if str_eq item.slug slug then none else some item

reached_absent :
    (j slug : JsString) (items : JsMap InFlight) → get j items ≡ none → reached j slug items ≡ false
unfolding get
reached_absent j slug [] e = refl
reached_absent j slug ((id, item) ∷ items) e = ground (arith, reached_absent j slug items)

reached-eq :
    (j slug : JsString) (items : JsMap InFlight)
    → Distinct items
    → (if reached j slug items then none else get j items) ≡ off_route slug (get j items)
unfolding get
reached-eq j slug [] d = refl
reached-eq j slug ((id, item) ∷ items) d =
    ground (arith, reached-eq j slug items d.1, str_eq_iff id j, d.0, reached_absent j slug items)

-- Closing a route drops every request of the route, claimed or not, and no other.
pub get-close_route :
    (j slug : JsString) (hub : RelayHub)
    → IsSynced hub
    → get j (close_route slug hub).inflight ≡ off_route slug (get j hub.inflight)
unfolding close_route
get-close_route j slug hub v =
    get-close_items j slug hub.inflight hub ∙ reached-eq j slug hub.inflight v.distinct
