-- ===== src/Tunnel/Relay/Occurrences.antt =====
-- How often the hub of src/tunnel/relay.ts knows a request, after each call of it.
use agentgather.Common.{
  ℕ, ◌+◌, ◌≡◌, ◌∙◌, refl, Option, none, some, [], ◌∷◌, arith, count, count-append, JsString, JsMap,
  get, get-set, get-delete, str_eq, str_eq_iff, if◌then◌else◌, Bool-cases, Option-cases, inl, inr,
  ltb, leb,
}
use agentgather.Tunnel.Protocol.{TunnelError, ForwardedResponse}
use agentgather.Tunnel.Relay.{
  RelayHub, InFlight, Envelope, Settlement, new_item, enqueue, mark_claimed, claimed_item, claim,
  remove_item, settle, fail, respond, close_items, close_route, expire, rejected, resolved,
  body_bytes, too_large, closed_error,
}
use agentgather.Tunnel.Relay.Laws.{IsSynced, claim_lem}

abbrev present : Option InFlight → ℕ
present none = 0
present (some item) = 1

-- How often the hub knows a request: in flight, or settled.
abbrev pub occurrences : JsString → RelayHub → ℕ
occurrences j hub = present (get j hub.inflight) + count (λ e. str_eq e.0 j) hub.settled

occurrences-settle :
    (j id : JsString) (outcome : Settlement) (item : InFlight) (hub : RelayHub)
    → get id hub.inflight ≡ some item
    → occurrences j (settle id outcome item hub) ≡ occurrences j hub
unfolding settle remove_item
occurrences-settle j id outcome item hub found = ground (
  arith,
  get-delete id j hub.inflight,
  str_eq_iff id j,
  count-append (λ (e : JsString × Settlement). str_eq e.0 j) hub.settled ((id, outcome) ∷ []),
)

occurrences-fail :
    (j id : JsString) (error : TunnelError) (hub : RelayHub)
    → occurrences j (fail id error hub) ≡ occurrences j hub
unfolding fail
occurrences-fail j id error hub = elim (Option-cases (get id hub.inflight)) [
  | inl gone ↦ rw (gone, fail) refl
  | inr (item, found) ↦ rw (found, fail) (occurrences-settle j id (rejected error) item hub found)
]

pub occurrences-respond :
    (j : JsString) (byte_length : JsString → ℕ) (id : JsString) (response : ForwardedResponse)
    (hub : RelayHub)
    → occurrences j (respond byte_length id response hub).0 ≡ occurrences j hub
unfolding respond
occurrences-respond j byte_length id response hub = elim (Option-cases (get id hub.inflight)) [
  | inl gone ↦ rw (gone, respond) refl
  | inr (item, found) ↦
      elim (Bool-cases
        (ltb hub.options.response_body_bytes (body_bytes byte_length response.body_base64))) [
          | inl over ↦ rw (found, over, respond) (occurrences-fail j id too_large hub)
          | inr fits ↦
              rw (found, fits, respond) (occurrences-settle j id (resolved response) item hub found)
        ]
]

occurrences-close_items :
    (j slug : JsString) (items : JsMap InFlight) (hub : RelayHub)
    → occurrences j (close_items slug items hub) ≡ occurrences j hub
unfolding close_items
occurrences-close_items j slug [] hub = refl
occurrences-close_items j slug ((id, item) ∷ items) hub =
    elim (Bool-cases (str_eq item.slug slug)) [
      | inl mine ↦
          rw (mine, close_items)
            (occurrences-close_items j slug items (fail id closed_error hub)
              ∙ occurrences-fail j id closed_error hub)
      | inr other ↦ rw (other, close_items) (occurrences-close_items j slug items hub)
    ]

pub occurrences-close_route :
    (j slug : JsString) (hub : RelayHub) → occurrences j (close_route slug hub) ≡ occurrences j hub
unfolding close_route
occurrences-close_route j slug hub = occurrences-close_items j slug hub.inflight hub

pub occurrences-expire :
    (j : JsString) (now : ℕ) (id : JsString) (hub : RelayHub)
    → occurrences j (expire now id hub) ≡ occurrences j hub
unfolding expire
occurrences-expire j now id hub = elim (Option-cases (get id hub.inflight)) [
  | inl gone ↦ rw (gone, expire) refl
  | inr (item, found) ↦ elim (Bool-cases (leb item.timer.at now)) [
    | inl due ↦ rw (found, due, expire) (occurrences-fail j id _ hub)
    | inr early ↦ rw (found, early, expire) refl
  ]
]

pub occurrences-claim :
    (j : JsString) (now : ℕ) (slug : JsString) (hub : RelayHub)
    → IsSynced hub
    → occurrences j (claim now slug hub).0 ≡ occurrences j hub
unfolding mark_claimed
occurrences-claim j now slug hub v = elim (claim_lem now slug hub v) [
  | inl (w, same) ↦ rw same refl
  | inr (id, rest, item, w, found, waits, same) ↦ rw same (
      ground
        (arith, str_eq_iff id j, get-set id j (claimed_item now hub.options item) hub.inflight))
]

pub occurrences-enqueue :
    (j : JsString) (now : ℕ) (id slug : JsString) (envelope : Envelope) (hub : RelayHub)
    → get id hub.inflight ≡ none
    → occurrences j (enqueue now id slug envelope hub)
      ≡ (if str_eq id j then 1 else 0) + occurrences j hub
unfolding enqueue
occurrences-enqueue j now id slug envelope hub fresh =
    ground (
      arith,
      str_eq_iff id j,
      get-set id j (new_item now id slug envelope hub.options) hub.inflight,
    )
