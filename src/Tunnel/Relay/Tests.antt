-- ===== src/Tunnel/Relay/Tests.antt =====
-- The theorems on src/tunnel/relay.ts at concrete histories.
use agentgather.Common.{
  ℕ, ◌≡◌, ◌≤◌, refl, none, some, List, [], ◌∷◌, length, JsString, js, get, set, str_eq,
  if◌then◌else◌,
}
use agentgather.Tunnel.Protocol.{ForwardedResponse}
use agentgather.Tunnel.Relay.{RelayHub, RelayOptions, Envelope, new_hub, enqueue, claim}
use agentgather.Tunnel.Relay.Queue.{waiting}
use agentgather.Tunnel.Relay.Laws.{
  IsSynced, new_hub-IsSynced, enqueue-IsSynced, tail, head_envelope, claim_oldest,
}
use agentgather.Tunnel.Relay.Occurrences.{occurrences}
use agentgather.Tunnel.Relay.Settling.{
  Event, enqueues, claims, responds, MintsFresh, run, times_enqueued, settled_once,
}

abbrev room : JsString
room = js "quiet-room"

abbrev options : RelayOptions
options = record {
  claim_timeout_ms = 30000;
  response_timeout_ms = 60000;
  response_body_bytes = 1024;
}

abbrev envelope : Envelope
envelope = record {
  route_slug = room;
  method = js "GET";
  path = js "/";
  headers = [];
  body_base64 = none;
}

abbrev response : ForwardedResponse
response = record { status = 200; headers = []; body_base64 = some (js "aGk=") }

abbrev one_waiting : RelayHub
one_waiting = enqueue 1 (js "q1") room envelope (new_hub options)

one_waiting-IsSynced : IsSynced one_waiting
unfolding get
one_waiting-IsSynced =
    enqueue-IsSynced 1 (js "q1") room envelope (new_hub options) refl (new_hub-IsSynced options)

claim_oldest_example :
    ((claim 5 room one_waiting).1
      ≡ head_envelope (waiting room one_waiting.inflight) one_waiting.inflight)
    × (waiting room (claim 5 room one_waiting).0.inflight ≡ (
        if str_eq room room
        then tail (waiting room one_waiting.inflight)
        else waiting room one_waiting.inflight))
claim_oldest_example = claim_oldest 5 room room one_waiting one_waiting-IsSynced

abbrev byte_length : JsString → ℕ
byte_length s = length s

abbrev history : List Event
history =
    enqueues 1 (js "q1") room envelope
    ∷ enqueues 2 (js "q2") room envelope
    ∷ claims 3 room
    ∷ responds (js "q1") response
    ∷ []

history-MintsFresh : MintsFresh byte_length history (new_hub options)
unfolding enqueue get set str_eq
history-MintsFresh = (refl, (refl, tt))

settled_once_example :
    (occurrences (js "q1") (run byte_length history (new_hub options))
      ≡ times_enqueued (js "q1") history)
    × (times_enqueued (js "q1") history ≤ 1)
settled_once_example = settled_once byte_length (js "q1") options history history-MintsFresh
