-- ===== src/Tunnel/Relay.antt =====
-- src/tunnel/relay.ts: the queue between participants and the host. A promise that is resolved or
-- rejected is an entry of `settled`, oldest first; a timer is a field of the item that it watches,
-- and `expire` is its callback. Request ids come from the caller, who mints them.
pub mod Queue
pub mod Laws
pub mod Occurrences
pub mod Settling
mod Tests
use Prim.Native.String.{String}
use agentgather.Common.{
  ℕ, ◌+◌, Bool, true, false, ◌||◌, Option, none, some, List, [], ◌∷◌, ◌++◌, JsString, JsMap, get,
  set, delete, str_eq, ok, throw, ltb, leb, if◌then◌else◌,
}
use agentgather.Tunnel.Protocol.{
  TunnelError, ForwardedRequest, ForwardedResponse, tunnel_error, host_unavailable, unknown_request,
  response_too_large, route_closed, Action,
}

pub record RelayOptions : Type 0 where
  pub claim_timeout_ms : ℕ
  pub response_timeout_ms : ℕ
  pub response_body_bytes : ℕ

-- `Omit<ForwardedRequest, "request_id">`.
pub record Envelope : Type 0 where
  pub route_slug : JsString
  pub method : JsString
  pub path : JsString
  pub headers : JsMap JsString
  pub body_base64 : Option JsString

pub record Timer : Type 0 where
  pub at : ℕ
  pub message : String

pub record InFlight : Type 0 where
  pub envelope : ForwardedRequest
  pub slug : JsString
  pub claimed : Bool
  pub timer : Timer

pub data Settlement : Type 0 where
  resolved : ForwardedResponse → Settlement
  rejected : TunnelError → Settlement

pub record RelayHub : Type 0 where
  pub options : RelayOptions
  pub pending : JsMap (List JsString)
  pub inflight : JsMap InFlight
  pub settled : List (JsString × Settlement)

abbrev pub new_hub : RelayOptions → RelayHub
new_hub options = record { options = options; pending = []; inflight = []; settled = [] }

abbrev with_id : JsString → Envelope → ForwardedRequest
with_id id e = record {
  request_id = id;
  route_slug = e.route_slug;
  method = e.method;
  path = e.path;
  headers = e.headers;
  body_base64 = e.body_base64;
}

abbrev queue_or_empty : Option (List JsString) → List JsString
queue_or_empty none = []
queue_or_empty (some q) = q

abbrev new_item : ℕ → JsString → JsString → Envelope → RelayOptions → InFlight
new_item now id slug envelope options = record {
  envelope = with_id id envelope;
  slug = slug;
  claimed = false;
  timer = record {
    at = now + options.claim_timeout_ms;
    message = "host tunnel did not attend the request";
  };
}

unfoldable pub enqueue : ℕ → JsString → JsString → Envelope → RelayHub → RelayHub
enqueue now id slug envelope hub = record hub {
  inflight = set id (new_item now id slug envelope hub.options) hub.inflight;
  pending = set slug (queue_or_empty (get slug hub.pending) ++ id ∷ []) hub.pending;
}

-- `if (queue.length === 0) this.pending.delete(slug)`, for a queue that the map holds.
abbrev put_queue : JsString → List JsString → JsMap (List JsString) → JsMap (List JsString)
put_queue slug [] pending = delete slug pending
put_queue slug (id ∷ ids) pending = set slug (id ∷ ids) pending

abbrev claimed_item : ℕ → RelayOptions → InFlight → InFlight
claimed_item now options item = record item {
  claimed = true;
  timer = record {
    at = now + options.response_timeout_ms;
    message = "host tunnel did not respond in time";
  };
}

pub mark_claimed :
    ℕ
    → JsString
    → JsString
    → List JsString
    → InFlight
    → RelayHub
    → RelayHub × Option ForwardedRequest
mark_claimed now slug id rest item hub = (
  record hub {
    inflight = set id (claimed_item now hub.options item) hub.inflight;
    pending = put_queue slug rest hub.pending;
  },
  some item.envelope,
)

-- `item === undefined || item.claimed`.
abbrev claimable : Option InFlight → Option InFlight
claimable none = none
claimable (some item) = if item.claimed then none else some item

-- The while loop of `claim`, over what is left of the queue.
claim_from : ℕ → JsString → List JsString → RelayHub → RelayHub × Option ForwardedRequest
unfolding mark_claimed
claim_from now slug [] hub = (record hub { pending = delete slug hub.pending }, none)
claim_from now slug (id ∷ rest) hub =
    let later = claim_from now slug rest hub in
    elim (claimable (get id hub.inflight)) [
      | none ↦ later
      | some item ↦ mark_claimed now slug id rest item hub
    ]

unfoldable pub claim : ℕ → JsString → RelayHub → RelayHub × Option ForwardedRequest
unfolding claim_from
claim now slug hub = elim (get slug hub.pending) [
  | none ↦ (hub, none)
  | some queue ↦ claim_from now slug queue hub
]

-- `queue.splice(queue.indexOf(id), 1)`.
unfoldable splice : JsString → List JsString → List JsString
splice id [] = []
splice id (j ∷ ids) = if str_eq j id then ids else j ∷ splice id ids

pub remove_item : JsString → InFlight → RelayHub → RelayHub
unfolding splice
remove_item id item hub = record hub {
  inflight = delete id hub.inflight;
  pending = elim (get item.slug hub.pending) [
    | none ↦ hub.pending
    | some queue ↦ put_queue item.slug (splice id queue) hub.pending
  ];
}

-- `this.remove(id)` followed by the call of the item's `resolve` or `reject`.
pub settle : JsString → Settlement → InFlight → RelayHub → RelayHub
unfolding remove_item
settle id outcome item hub =
    let left = remove_item id item hub in
    record left { settled = left.settled ++ (id, outcome) ∷ [] }

unfoldable pub fail : JsString → TunnelError → RelayHub → RelayHub
unfolding settle
fail id error hub = elim (get id hub.inflight) [
  | none ↦ hub
  | some item ↦ settle id (rejected error) item hub
]

abbrev too_large : TunnelError
too_large = tunnel_error response_too_large 502 "forwarded response exceeds the broker limit"

-- `byte_length` is `Buffer.byteLength(_, "base64")`.
abbrev body_bytes : (JsString → ℕ) → Option JsString → ℕ
body_bytes byte_length none = 0
body_bytes byte_length (some body) = byte_length body

unfoldable pub respond : (JsString → ℕ) → JsString → ForwardedResponse → Action RelayHub (Unit {0})
unfolding fail settle
respond byte_length id response hub = elim (get id hub.inflight) [
  | none ↦ (hub, throw (tunnel_error unknown_request 404 "no in-flight request for this id"))
  | some item ↦
      if ltb hub.options.response_body_bytes (body_bytes byte_length response.body_base64)
      then (fail id too_large hub, throw too_large)
      else (settle id (resolved response) item hub, ok tt)
]

abbrev closed_error : TunnelError
closed_error = tunnel_error route_closed 410 "this route has been closed"

-- The loop of `closeRoute`, over the copy of the entries.
close_items : JsString → JsMap InFlight → RelayHub → RelayHub
unfolding fail
close_items slug [] hub = hub
close_items slug ((id, item) ∷ items) hub =
    close_items slug items (if str_eq item.slug slug then fail id closed_error hub else hub)

unfoldable pub close_route : JsString → RelayHub → RelayHub
unfolding close_items
close_route slug hub = close_items slug hub.inflight hub

-- The callback of the timer that is set on a request; it runs when its time has come.
unfoldable pub expire : ℕ → JsString → RelayHub → RelayHub
unfolding fail
expire now id hub = elim (get id hub.inflight) [
  | none ↦ hub
  | some item ↦
      if leb item.timer.at now
      then fail id (tunnel_error host_unavailable 504 item.timer.message) hub
      else hub
]
