-- ===== src/Server/Wait.antt =====
-- src/server/wait.ts: the waits of the long poll. A wait is named by a number; its promise is
-- resolved when the number joins `resolved`. `abort` is the listener of the wait's signal.
pub mod Notifying
mod Tests
use agentgather.Common.{
  ℕ, Bool, true, false, Option, none, some, List, [], ◌∷◌, ◌++◌, JsString, JsMap, get, set, delete,
  str_eq, any, ◌==◌, if◌then◌else◌,
}
use agentgather.Protocol.Types.{RoomStatus, opened, closed, Message}

pub record WaitHub : Type 0 where
  pub waiters : JsMap (List ℕ)
  pub resolved : List ℕ

abbrev pub new_wait_hub : WaitHub
new_wait_hub = record { waiters = []; resolved = [] }

abbrev waiters_or_new : Option (List ℕ) → List ℕ
waiters_or_new none = []
waiters_or_new (some ids) = ids

unfoldable pub wait : ℕ → JsString → WaitHub → WaitHub
wait id room hub = record hub {
  waiters = set room (waiters_or_new (get room hub.waiters) ++ id ∷ []) hub.waiters;
}

unfoldable pub remove_waiter : ℕ → List ℕ → List ℕ
remove_waiter id [] = []
remove_waiter id (j ∷ ids) = if j == id then ids else j ∷ remove_waiter id ids

abbrev put_waiters : JsString → List ℕ → JsMap (List ℕ) → JsMap (List ℕ)
put_waiters room [] waiters = delete room waiters
put_waiters room (id ∷ ids) waiters = set room (id ∷ ids) waiters

-- The closure `done` of a wait.
unfoldable pub done : JsString → ℕ → WaitHub → WaitHub
unfolding remove_waiter
done room id hub = record {
  waiters = elim (get room hub.waiters) [
    | none ↦ hub.waiters
    | some ids ↦ put_waiters room (remove_waiter id ids) hub.waiters
  ];
  resolved = hub.resolved ++ id ∷ [];
}

-- The loop of `notify`, over the copy of the set.
unfoldable pub finish_all : JsString → List ℕ → WaitHub → WaitHub
unfolding done
finish_all room [] hub = hub
finish_all room (id ∷ ids) hub = finish_all room ids (done room id hub)

unfoldable pub notify : JsString → WaitHub → WaitHub
unfolding finish_all
notify room hub = elim (get room hub.waiters) [ none ↦ hub | some ids ↦ finish_all room ids hub ]

pub record BuildWaitResponseOptions : Type 0 where
  pub room : JsString
  pub room_status : RoomStatus
  pub participant : JsString
  pub messages : List Message
  pub since_id : ℕ
  pub heartbeat : Bool
  pub keep_waiting : Bool

pub record WaitResponse : Type 0 where
  pub room : JsString
  pub room_status : RoomStatus
  pub participant : JsString
  pub heartbeat : Bool
  pub messages : List Message
  pub mentioned : Bool
  pub next_since_id : ℕ
  pub keep_waiting : Bool
  pub next_cmd : Option JsString

-- `options.messages.at(-1)?.id ?? options.sinceId`.
unfoldable pub last_id : List Message → ℕ → ℕ
last_id [] since_id = since_id
last_id (m ∷ messages) since_id = last_id messages m.id

-- `next_cmd` is the command line for a participant and an id, built from the base URL.
unfoldable pub build_wait_response :
    (JsString → ℕ → JsString) → BuildWaitResponseOptions → WaitResponse
unfolding last_id
build_wait_response next_cmd o = record {
  room = o.room;
  room_status = o.room_status;
  participant = o.participant;
  heartbeat = o.heartbeat;
  messages = o.messages;
  mentioned = any (λ m. any (str_eq o.participant) m.mentions) o.messages;
  next_since_id = last_id o.messages o.since_id;
  keep_waiting = o.keep_waiting;
  next_cmd = elim o.room_status [
    | opened ↦ some (next_cmd o.participant (last_id o.messages o.since_id))
    | closed ↦ none
  ];
}
