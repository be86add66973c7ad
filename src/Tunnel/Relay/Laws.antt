-- ===== src/Tunnel/Relay/Laws.antt =====
-- The pending queues of src/tunnel/relay.ts list the waiting requests of each route, in order.
use mathlib.Core.List.{append-nil}
use agentgather.Common.{
  ◌⊎◌, ℕ, ◌≡◌, refl, true, Option, none, some, List, [], ◌∷◌, ◌++◌, arith, JsString, JsMap,
  Distinct, Distinct-set, Distinct-delete, get, get-set, get-delete, str_eq, str_eq_iff,
  str_eq_refl, if◌then◌else◌, ltb, leb, Bool-cases, Option-cases, inl, inr,
}
use agentgather.Tunnel.Protocol.{TunnelError, ForwardedRequest, ForwardedResponse}
use agentgather.Tunnel.Relay.{
  RelayHub, InFlight, Envelope, Settlement, RelayOptions, new_item, enqueue, put_queue,
  mark_claimed, claimed_item, claim, splice, remove_item, settle, fail, respond, close_items,
  close_route, expire, queue_or_empty, rejected, resolved, body_bytes, too_large, closed_error,
}
use agentgather.Tunnel.Relay.Queue.{
  waiting, nonempty, waits_on, waiting-set_fresh, waiting-delete, splice_other, waiting-set_claimed,
  waiting_head,
}

-- No id is in flight twice, and a route's queue lists its waiting requests.
pub record IsSynced (hub : RelayHub) : Type 0 where
  pub distinct : Distinct hub.inflight
  pub queued : (slug : JsString) → get slug hub.pending ≡ nonempty (waiting slug hub.inflight)

pub new_hub-IsSynced :
    (options : RelayOptions)
    → IsSynced (record { options = options; pending = []; inflight = []; settled = [] })
unfolding get waiting
new_hub-IsSynced options = record { distinct = tt; queued = λ slug. refl }

nonempty-append :
    (ids : List JsString) (id : JsString)
    → nonempty (ids ++ id ∷ []) ≡ some (queue_or_empty (nonempty ids) ++ id ∷ [])
nonempty-append [] id = refl
nonempty-append (x ∷ ids) id = refl

-- A request with an id that is not in flight joins the end of its route's queue.
pub enqueue-IsSynced :
    (now : ℕ) (id slug : JsString) (envelope : Envelope) (hub : RelayHub)
    → get id hub.inflight ≡ none
    → IsSynced hub
    → IsSynced (enqueue now id slug envelope hub)
unfolding enqueue
enqueue-IsSynced now id slug envelope hub fresh v = record {
  distinct = Distinct-set id (new_item now id slug envelope hub.options) hub.inflight v.distinct;
  queued = λ j. ground (
    arith,
    get-set slug j (queue_or_empty (get slug hub.pending) ++ id ∷ []) hub.pending,
    str_eq_iff slug j,
    v.queued slug,
    v.queued j,
    waiting-set_fresh j id (new_item now id slug envelope hub.options) hub.inflight fresh,
    nonempty-append (waiting slug hub.inflight) id,
    append-nil (waiting j hub.inflight),
  );
}

get-put_queue :
    (slug j : JsString) (ids : List JsString) (pending : JsMap (List JsString))
    → get j (put_queue slug ids pending) ≡ (if str_eq slug j then nonempty ids else get j pending)
get-put_queue slug j [] pending = get-delete slug j pending
get-put_queue slug j (id ∷ ids) pending = get-set slug j (id ∷ ids) pending

-- On a synced hub the loop of `claim` stops at the first id of the queue.
pub claim_lem :
    (now : ℕ) (slug : JsString) (hub : RelayHub)
    → IsSynced hub
    → ((waiting slug hub.inflight ≡ []) × (claim now slug hub ≡ (hub, none)))
      ⊎ ((id : JsString) × (rest : List JsString) × (item : InFlight) × (waiting slug hub.inflight
            ≡ id ∷ rest)
          × (get id hub.inflight ≡ some item)
          × (waits_on slug item ≡ true)
          × (claim now slug hub ≡ mark_claimed now slug id rest item hub))
unfolding claim
claim_lem now slug hub v = split (waiting slug hub.inflight) refl
  where
    split :
        (w : List JsString)
        → waiting slug hub.inflight ≡ w
        → ((waiting slug hub.inflight ≡ []) × (claim now slug hub ≡ (hub, none)))
          ⊎ ((id : JsString) × (rest : List JsString) × (item : InFlight) × (waiting slug
                  hub.inflight
                ≡ id ∷ rest)
              × (get id hub.inflight ≡ some item)
              × (waits_on slug item ≡ true)
              × (claim now slug hub ≡ mark_claimed now slug id rest item hub))
    split [] e = inl (e, ground (arith, v.queued slug))
    split (id ∷ rest) e =
        let (item, found, waits) = waiting_head slug id rest hub.inflight v.distinct e in
        inr (id, rest, item, e, found, waits, ground (arith, v.queued slug))

splice_head : (id : JsString) (ids : List JsString) → splice id (id ∷ ids) ≡ ids
unfolding splice
splice_head id ids = rw (str_eq_refl id) refl

mark_claimed-IsSynced :
    (now : ℕ) (slug id : JsString) (rest : List JsString) (item : InFlight) (hub : RelayHub)
    → IsSynced hub
    → waiting slug hub.inflight ≡ id ∷ rest
    → get id hub.inflight ≡ some item
    → waits_on slug item ≡ true
    → IsSynced (mark_claimed now slug id rest item hub).0
unfolding mark_claimed
mark_claimed-IsSynced now slug id rest item hub v w found waits = record {
  distinct = Distinct-set id (claimed_item now hub.options item) hub.inflight v.distinct;
  queued = λ j. ground (
    arith,
    get-put_queue slug j rest hub.pending,
    str_eq_iff slug j,
    str_eq_iff item.slug slug,
    str_eq_iff item.slug j,
    v.queued j,
    waiting-set_claimed j id item (claimed_item now hub.options item) hub.inflight v.distinct found
        refl,
    splice_other j id item hub.inflight v.distinct found,
    splice_head id rest,
  );
}

remove_item-IsSynced :
    (id : JsString) (item : InFlight) (hub : RelayHub)
    → IsSynced hub
    → get id hub.inflight ≡ some item
    → IsSynced (remove_item id item hub)
unfolding remove_item
remove_item-IsSynced id item hub v found = record {
  distinct = Distinct-delete id hub.inflight v.distinct;
  queued = λ j. ground (
    arith,
    get-put_queue item.slug j (splice id (waiting item.slug hub.inflight)) hub.pending,
    str_eq_iff item.slug j,
    v.queued j,
    v.queued item.slug,
    waiting-delete j id hub.inflight v.distinct,
    splice_other j id item hub.inflight v.distinct found,
  );
}

pub claim-IsSynced :
    (now : ℕ) (slug : JsString) (hub : RelayHub) → IsSynced hub → IsSynced (claim now slug hub).0
claim-IsSynced now slug hub v = elim (claim_lem now slug hub v) [
  | inl (_, same) ↦ rw same v
  | inr (id, rest, item, w, found, waits, same) ↦
      rw same (mark_claimed-IsSynced now slug id rest item hub v w found waits)
]

settle-IsSynced :
    (id : JsString) (outcome : Settlement) (item : InFlight) (hub : RelayHub)
    → IsSynced hub
    → get id hub.inflight ≡ some item
    → IsSynced (settle id outcome item hub)
unfolding settle
settle-IsSynced id outcome item hub v found =
    let kept = remove_item-IsSynced id item hub v found in
    record { distinct = kept.distinct; queued = kept.queued }

pub fail-IsSynced :
    (id : JsString) (error : TunnelError) (hub : RelayHub)
    → IsSynced hub
    → IsSynced (fail id error hub)
unfolding fail
fail-IsSynced id error hub v = elim (Option-cases (get id hub.inflight)) [
  | inl gone ↦ rw (gone, fail) v
  | inr (item, found) ↦ rw (found, fail) (settle-IsSynced id (rejected error) item hub v found)
]

pub respond-IsSynced :
    (byte_length : JsString → ℕ) (id : JsString) (response : ForwardedResponse) (hub : RelayHub)
    → IsSynced hub
    → IsSynced (respond byte_length id response hub).0
unfolding respond
respond-IsSynced byte_length id response hub v = elim (Option-cases (get id hub.inflight)) [
  | inl gone ↦ rw (gone, respond) v
  | inr (item, found) ↦
      let large =
        ltb hub.options.response_body_bytes (body_bytes byte_length response.body_base64) in
      elim (Bool-cases large) [
        | inl over ↦ rw (found, over, respond) (fail-IsSynced id too_large hub v)
        | inr fits ↦
            rw (found, fits, respond) (settle-IsSynced id (resolved response) item hub v found)
      ]
]

close_items-IsSynced :
    (slug : JsString) (items : JsMap InFlight) (hub : RelayHub)
    → IsSynced hub
    → IsSynced (close_items slug items hub)
unfolding close_items
close_items-IsSynced slug [] hub v = v
close_items-IsSynced slug ((id, item) ∷ items) hub v = elim (Bool-cases (str_eq item.slug slug)) [
  | inl mine ↦
      rw (mine, close_items)
        (close_items-IsSynced slug items _ (fail-IsSynced id closed_error hub v))
  | inr other ↦ rw (other, close_items) (close_items-IsSynced slug items hub v)
]

pub close_route-IsSynced :
    (slug : JsString) (hub : RelayHub) → IsSynced hub → IsSynced (close_route slug hub)
unfolding close_route
close_route-IsSynced slug hub v = close_items-IsSynced slug hub.inflight hub v

pub expire-IsSynced :
    (now : ℕ) (id : JsString) (hub : RelayHub) → IsSynced hub → IsSynced (expire now id hub)
unfolding expire
expire-IsSynced now id hub v = elim (Option-cases (get id hub.inflight)) [
  | inl gone ↦ rw (gone, expire) v
  | inr (item, found) ↦ elim (Bool-cases (leb item.timer.at now)) [
    | inl due ↦ rw (found, due, expire) (fail-IsSynced id _ hub v)
    | inr early ↦ rw (found, early, expire) v
  ]
]

abbrev pub tail : List JsString → List JsString
tail [] = []
tail (id ∷ ids) = ids

-- What `claim` answers: the envelope of the request that has waited longest.
abbrev pub head_envelope : List JsString → JsMap InFlight → Option ForwardedRequest
head_envelope [] items = none
head_envelope (id ∷ ids) items = elim (get id items) [
  | none ↦ none
  | some item ↦ some item.envelope
]

-- A claim hands out the longest waiting request of the route, if any waits, and takes it off the
-- waiting requests of the route, while those of every other route stay as they are.
pub claim_oldest :
    (now : ℕ) (slug j : JsString) (hub : RelayHub)
    → IsSynced hub
    → ((claim now slug hub).1 ≡ head_envelope (waiting slug hub.inflight) hub.inflight)
      × (waiting j (claim now slug hub).0.inflight
          ≡ (if str_eq slug j then tail (waiting j hub.inflight) else waiting j hub.inflight))
unfolding mark_claimed
claim_oldest now slug j hub v = elim (claim_lem now slug hub v) [
  | inl (w, same) ↦ rw same (ground arith, ground (arith, str_eq_iff slug j))
  | inr (id, rest, item, w, found, waits, same) ↦ rw same (
    ground arith,
    ground (
      arith,
      str_eq_iff slug j,
      str_eq_iff item.slug slug,
      str_eq_iff item.slug j,
      waiting-set_claimed j id item (claimed_item now hub.options item) hub.inflight v.distinct
          found refl,
      splice_other j id item hub.inflight v.distinct found,
      splice_head id rest,
    ),
  )
]
