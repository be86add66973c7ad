-- ===== src/Storage/Rooms.antt =====
-- src/storage/room-store.ts: one room's directory. A file is an `Option`, absent until it is
-- written, and its JSON text is the value that it reads back as. The writer lock makes each
-- function that takes it one transition of the directory; what a function wrote before it throws
-- stays written. `now` is the time that the caller gives.
pub mod Log
pub mod Sending
pub mod Recovery
pub mod Sessions
pub mod Calls
pub mod Repeats
pub mod Members
mod Tests
use agentgather.Common.{
  ℕ, ◌+◌, ◌-◌, ◌≡◌, Bool, true, false, not, ◌&&◌, ◌||◌, Option, none, some, List, [], ◌∷◌, ◌++◌,
  map, max, JsString, JsMap, get, set, str_eq, Outcome, ok, throw, ltb, leb, if◌then◌else◌, find,
  length,
}
use agentgather.Protocol.Types.{
  RoomState, RoomStatus, opened, closed, Participant, Message, ActiveSession, AttendancePolicy,
  manual_ok, RoomBrief, ClientMessageInput, MessageType, system,
}
use agentgather.Protocol.Slug.{is_safe_slug}
use agentgather.Protocol.Mentions.{parse_mentions}
use agentgather.Protocol.Messages.{
  MessageError, MessageRecord, client_message_input_from_record, is_safe_integer, build_message,
}

pub data RoomError : Type 0 where
  unsafe_slug not_found already_exists brief_too_long room_log_full : RoomError
  active_session_exists bad_delay bad_cursor : RoomError
  bad_message : MessageError → RoomError

pub record CursorRecord : Type 0 where
  pub alias : JsString
  pub since_id : ℕ
  pub updated_at : ℕ

pub record RoomFiles : Type 0 where
  pub state : Option RoomState
  pub participants : Option (List Participant)
  pub brief : Option JsString
  pub messages : Option (List Message)
  pub cursors : JsMap CursorRecord

abbrev pub Action : Type 0 → Type 0
Action A = RoomFiles → RoomFiles × Outcome RoomError A

infixl 5 ◌>>=◌ ◌>>◌
abbrev pub ◌>>=◌ : {A B : Type 0} → Action A → (A → Action B) → Action B
◌>>=◌ m f s = let (s', r) = m s in elim r [ ok a ↦ f a s' | throw e ↦ (s', throw e) ]

abbrev pub ◌>>◌ : {B : Type 0} → Action (Unit {0}) → Action B → Action B
m >> k = m >>= λ _. k

abbrev pub return : {A : Type 0} → A → Action A
return a s = (s, ok a)

abbrev pub fail : {A : Type 0} → RoomError → Action A
fail e s = (s, throw e)

abbrev pub guard : Bool → RoomError → Action (Unit {0})
guard b e s = if b then (s, ok tt) else (s, throw e)

abbrev pub assert_safe_slug : JsString → Action (Unit {0})
assert_safe_slug s = guard (is_safe_slug s) unsafe_slug

-- `readFile`, which throws where there is no file.
abbrev pub or_not_found : {A : Type 0} → Option A → Action A
or_not_found none s = (s, throw not_found)
or_not_found (some a) s = (s, ok a)

-- `createSecureFile`, which opens with the flag `wx`.
abbrev absent : {A : Type 0} → Option A → Bool
absent none = true
absent (some a) = false

abbrev policy_or_default : Option AttendancePolicy → Option AttendancePolicy
policy_or_default none = some manual_ok
policy_or_default (some p) = some p

abbrev pub with_room_defaults : RoomState → RoomState
with_room_defaults s = record s { attendance_policy = policy_or_default s.attendance_policy }

abbrev pub map_ok :
    {A B : Type 0} → (A → B) → RoomFiles × Outcome RoomError A → RoomFiles × Outcome RoomError B
map_ok f (s, ok a) = (s, ok (f a))
map_ok f (s, throw e) = (s, throw e)

unfoldable pub read_room_state : Action RoomState
read_room_state s = map_ok with_room_defaults (or_not_found s.state s)

abbrev pub read_participants : Action (List Participant)
read_participants s = or_not_found s.participants s

abbrev pub read_messages : Action (List Message)
read_messages s = or_not_found s.messages s

abbrev pub write_state : RoomState → Action (Unit {0})
write_state state s = (record s { state = some state }, ok tt)

-- `appendSecureFile` makes the file if it is not there.
abbrev or_empty : Option (List Message) → List Message
or_empty none = []
or_empty (some ms) = ms

abbrev pub append_line : Message → Action (Unit {0})
append_line m s = (record s { messages = some (or_empty s.messages ++ m ∷ []) }, ok tt)

abbrev pub max_brief_length : ℕ
max_brief_length = 16000

abbrev pub or_option : {A : Type 0} → Option A → Option A → Option A
or_option none b = b
or_option (some a) b = some a

pub record CreateRoomOptions : Type 0 where
  pub room_id : JsString
  pub host_alias : JsString
  pub now : ℕ
  pub expires_at : Option ℕ
  pub brief_body : Option JsString
  pub attendance_policy : Option AttendancePolicy

abbrev text_or_empty : Option JsString → JsString
text_or_empty none = []
text_or_empty (some s) = s

abbrev new_state : CreateRoomOptions → RoomState
new_state o = record {
  id = o.room_id;
  status = opened;
  attendance_policy = policy_or_default o.attendance_policy;
  created_at = o.now;
  updated_at = o.now;
  expires_at = o.expires_at;
  next_message_id = 1;
  brief_version = 1;
  brief_updated_at = o.now;
  brief_updated_by = o.host_alias;
  active_session = none;
  auto_continue_enabled = none;
  auto_continue_delay_s = none;
}

create_state : RoomState → Action (Unit {0})
create_state state s =
    if absent s.state then (record s { state = some state }, ok tt) else (s, throw already_exists)

create_participants : Action (Unit {0})
create_participants s =
    if absent s.participants
    then (record s { participants = some [] }, ok tt)
    else (s, throw already_exists)

create_brief : JsString → Action (Unit {0})
create_brief body s =
    if absent s.brief then (record s { brief = some body }, ok tt) else (s, throw already_exists)

create_messages : Action (Unit {0})
create_messages s =
    if absent s.messages
    then (record s { messages = some [] }, ok tt)
    else (s, throw already_exists)

unfoldable pub create_room : CreateRoomOptions → Action RoomState
unfolding create_state create_participants create_brief create_messages
create_room o = do
  assert_safe_slug o.room_id
  assert_safe_slug o.host_alias
  guard (leb (length (text_or_empty o.brief_body)) max_brief_length) brief_too_long
  create_state (new_state o)
  create_participants
  create_brief (text_or_empty o.brief_body)
  create_messages
  return (new_state o)

-- A stored message with the same sender and the same client id.
abbrev pub same_client_id : JsString → JsString → Message → Bool
same_client_id from id m =
    str_eq m.from from && (elim m.client_msg_id [ none ↦ false | some c ↦ str_eq c id ])

unfoldable pub existing_message : JsString → Option JsString → List Message → Option Message
existing_message from none messages = none
existing_message from (some id) messages = find (same_client_id from id) messages

abbrev pub is_full : Option ℕ → List Message → Bool
is_full none messages = false
is_full (some limit) messages = leb limit (length messages)

abbrev aliases : List Participant → List JsString
aliases = map (λ p. p.alias)

-- `createMessage`.
unfoldable pub create_message :
    ClientMessageInput → RoomState → List Participant → JsString → ℕ → Message
unfolding build_message parse_mentions
create_message input state participants from now = build_message input (record {
  id = state.next_message_id;
  room = state.id;
  from = from;
  now = now;
  mentions = parse_mentions input.text (aliases participants);
  type = none;
})

abbrev pub state_after : RoomState → Message → ℕ → RoomState
state_after state m now = record state { updated_at = now; next_message_id = m.id + 1 }

-- The last two writes of an append; a crash may fall between them.
unfoldable pub store_message : RoomState → Message → ℕ → Action (Unit {0})
store_message state m now = do append_line m; write_state (state_after state m now)

unfoldable pub append_new :
    ClientMessageInput
    → JsString
    → ℕ
    → Option ℕ
    → RoomState
    → List Participant
    → List Message
    → Action (Message × Bool)
unfolding create_message store_message
append_new input from now max_messages state participants messages s =
    if is_full max_messages messages
    then (s, throw room_log_full)
    else (let m = create_message input state participants from now in
        map_ok (λ _. (m, false)) (store_message state m now s))

abbrev input_of : Outcome MessageError ClientMessageInput → Action ClientMessageInput
input_of (ok input) s = (s, ok input)
input_of (throw e) s = (s, throw (bad_message e))

unfoldable pub resend_or_append :
    Option Message
    → ClientMessageInput
    → JsString
    → ℕ
    → Option ℕ
    → RoomState
    → List Participant
    → List Message
    → Action (Message × Bool)
unfolding append_new
resend_or_append (some old) input from now max_messages state participants messages s =
    (s, ok (old, true))
resend_or_append none input from now max_messages state participants messages s =
    append_new input from now max_messages state participants messages s

-- The part of `appendMessageResult` under the lock.
unfoldable pub append_locked :
    ClientMessageInput → JsString → ℕ → Option ℕ → Action (Message × Bool)
unfolding resend_or_append read_room_state existing_message
append_locked input from now max_messages = do
  state ← read_room_state
  participants ← read_participants
  messages ← read_messages
  resend_or_append (existing_message from input.client_msg_id messages) input from now max_messages
      state participants messages

unfoldable pub append_message_result :
    JsString → JsString → Option MessageRecord → ℕ → Option ℕ → Action (Message × Bool)
unfolding append_locked client_message_input_from_record
append_message_result room_id from raw now max_messages = do
  assert_safe_slug room_id
  assert_safe_slug from
  input ← input_of (client_message_input_from_record raw)
  append_locked input from now max_messages
