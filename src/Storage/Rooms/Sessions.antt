-- ===== src/Storage/Rooms/Sessions.antt =====
-- src/storage/room-store.ts: what the host changes in a room's state: its policy, its brief, its
-- chat session, its end.
pub mod Running
pub mod Brief
mod Tests
use agentgather.Common.{
  ℕ, ◌+◌, Bool, true, false, not, ◌&&◌, ok, throw, Option, none, some, List, map, JsString, length,
  leb, if◌then◌else◌,
}
use agentgather.Protocol.Types.{
  RoomState, closed, ActiveSession, AttendancePolicy, RoomBrief, ClientMessageInput, Message,
  Participant, system,
}
use agentgather.Protocol.Mentions.{parse_mentions}
use agentgather.Protocol.Messages.{build_message}
use agentgather.Storage.Rooms.{
  Action, ◌>>=◌, ◌>>◌, return, fail, guard, assert_safe_slug, read_room_state, read_participants,
  write_state, with_room_defaults, or_not_found, max_brief_length, store_message,
  active_session_exists, brief_too_long, bad_delay, RoomFiles,
}

-- The part of `update_attendance_policy` under the lock.
unfoldable pub update_attendance_policy_locked : AttendancePolicy → ℕ → Action RoomState
unfolding read_room_state
update_attendance_policy_locked policy now = do
  state ← read_room_state
  let updated = record (with_room_defaults state) {
    attendance_policy = some policy;
    updated_at = now;
  }
  write_state updated
  return updated

unfoldable pub update_attendance_policy :
    JsString → JsString → AttendancePolicy → ℕ → Action RoomState
unfolding update_attendance_policy_locked
update_attendance_policy room_id updated_by policy now = do
  assert_safe_slug room_id
  assert_safe_slug updated_by
  update_attendance_policy_locked policy now

abbrev auto_continue_delay_min_s : ℕ
auto_continue_delay_min_s = 30

abbrev auto_continue_delay_max_s : ℕ
auto_continue_delay_max_s = 300

abbrev auto_continue_delay_default_s : ℕ
auto_continue_delay_default_s = 30

-- On natural numbers; the source also refuses what is no integer.
abbrev pub is_valid_auto_continue_delay : ℕ → Bool
is_valid_auto_continue_delay n = leb auto_continue_delay_min_s n && leb n auto_continue_delay_max_s

abbrev pub valid_or_absent : Option ℕ → Bool
valid_or_absent none = true
valid_or_absent (some n) = is_valid_auto_continue_delay n

-- `delay ?? state.auto_continue_delay_s ?? AUTO_CONTINUE_DELAY_DEFAULT_S`.
abbrev delay_or : Option ℕ → Option ℕ → ℕ
delay_or (some n) stored = n
delay_or none (some n) = n
delay_or none none = auto_continue_delay_default_s

-- The part of `update_loop_guard_preference` under the lock.
unfoldable pub update_loop_guard_preference_locked : Bool → Option ℕ → ℕ → Action RoomState
unfolding read_room_state
update_loop_guard_preference_locked enabled delay now = do
  state ← read_room_state
  let updated = record (with_room_defaults state) {
    auto_continue_enabled = some enabled;
    auto_continue_delay_s = some (delay_or delay state.auto_continue_delay_s);
    updated_at = now;
  }
  write_state updated
  return updated

unfoldable pub update_loop_guard_preference :
    JsString → JsString → Bool → Option ℕ → ℕ → Action RoomState
unfolding update_loop_guard_preference_locked
update_loop_guard_preference room_id updated_by enabled delay now = do
  assert_safe_slug room_id
  assert_safe_slug updated_by
  guard (valid_or_absent delay) bad_delay
  update_loop_guard_preference_locked enabled delay now

abbrev write_brief : JsString → Action (Unit {0})
write_brief body s = (record s { brief = some body }, ok tt)

abbrev pub brief_of : JsString → RoomState → RoomBrief
brief_of body state = record {
  body = body;
  brief_version = state.brief_version;
  brief_updated_at = state.brief_updated_at;
  brief_updated_by = state.brief_updated_by;
}

abbrev brief_state : RoomState → JsString → ℕ → RoomState
brief_state state updated_by now = record state {
  updated_at = now;
  brief_version = state.brief_version + 1;
  brief_updated_at = now;
  brief_updated_by = updated_by;
}

-- The part of `update_brief` under the lock.
unfoldable pub update_brief_locked : JsString → JsString → ℕ → Action RoomBrief
unfolding read_room_state
update_brief_locked updated_by body now = do
  state ← read_room_state
  write_brief body
  write_state (brief_state state updated_by now)
  return (brief_of body (brief_state state updated_by now))

unfoldable pub update_brief : JsString → JsString → JsString → ℕ → Action RoomBrief
unfolding update_brief_locked
update_brief room_id updated_by body now = do
  assert_safe_slug room_id
  assert_safe_slug updated_by
  guard (leb (length body) max_brief_length) brief_too_long
  update_brief_locked updated_by body now

abbrev read_brief_file : Action JsString
read_brief_file s = or_not_found s.brief s

unfoldable pub read_brief : Action RoomBrief
unfolding read_room_state
read_brief = do state ← read_room_state; body ← read_brief_file; return (brief_of body state)

-- The message that `appendServerMessage` builds.
unfoldable server_message : JsString → JsString → ℕ → RoomState → List Participant → Message
unfolding build_message parse_mentions
server_message from text now state participants =
    build_message (record { text = text; type = none; reply_to = none; client_msg_id = none })
      (record {
        id = state.next_message_id;
        room = state.id;
        from = from;
        now = now;
        mentions = parse_mentions text (map (λ p. p.alias) participants);
        type = some system;
      })

-- The part of `append_server_message` under the lock.
unfoldable pub append_server_message_locked : JsString → JsString → ℕ → Action Message
unfolding read_room_state server_message store_message
append_server_message_locked from text now = do
  state ← read_room_state
  participants ← read_participants
  store_message state (server_message from text now state participants) now
  return (server_message from text now state participants)

unfoldable pub append_server_message : JsString → JsString → JsString → ℕ → Action Message
unfolding append_server_message_locked
append_server_message room_id from text now = do
  assert_safe_slug room_id
  assert_safe_slug from
  append_server_message_locked from text now

unfoldable pub close_room : ℕ → Action RoomState
unfolding read_room_state
close_room now = do
  state ← read_room_state
  let shut = record state { active_session = none; status = closed; updated_at = now }
  write_state shut
  return shut

-- A session that was stored and not stamped as ended.
abbrev pub running : Option ActiveSession → Option ActiveSession
running none = none
running (some a) = elim a.ended_at [ none ↦ some a | some t ↦ none ]

abbrev pub new_session : JsString → JsString → ℕ → Option AttendancePolicy → ℕ → ActiveSession
new_session channel_id started_by expected_duration_m requested_mode now = record {
  channel_id = channel_id;
  started_at = now;
  expected_duration_m = expected_duration_m;
  requested_mode = requested_mode;
  started_by = started_by;
  ended_at = none;
}

unfoldable pub start_if_idle :
    RoomState → Option ActiveSession → ActiveSession → ℕ → Action ActiveSession
start_if_idle state (some a) session now s = (s, throw active_session_exists)
start_if_idle state none session now s = (
  record s { state = some (record state { updated_at = now; active_session = some session }) },
  ok session,
)

-- The part of `start_active_session` under the lock.
unfoldable pub start_active_session_locked :
    JsString → JsString → ℕ → Option AttendancePolicy → ℕ → Action ActiveSession
unfolding read_room_state start_if_idle
start_active_session_locked channel_id started_by expected_duration_m requested_mode now = do
  state ← read_room_state
  start_if_idle state (running state.active_session)
      (new_session channel_id started_by expected_duration_m requested_mode now) now

unfoldable pub start_active_session :
    JsString → JsString → JsString → ℕ → Option AttendancePolicy → ℕ → Action ActiveSession
unfolding start_active_session_locked
start_active_session room_id channel_id started_by expected_duration_m requested_mode now = do
  assert_safe_slug room_id
  assert_safe_slug started_by
  start_active_session_locked channel_id started_by expected_duration_m requested_mode now

unfoldable pub end_running : ℕ → RoomState → Option ActiveSession → Action (Option ActiveSession)
end_running now state none s = (s, ok none)
end_running now state (some a) s = (
  record s { state = some (record state { active_session = none; updated_at = now }) },
  ok (some (record a { ended_at = some now })),
)

-- The part of `end_active_session` under the lock.
unfoldable pub end_active_session_locked : ℕ → Action (Option ActiveSession)
unfolding read_room_state end_running
end_active_session_locked now = do
  state ← read_room_state
  end_running now state (running state.active_session)

unfoldable pub end_active_session : JsString → ℕ → Action (Option ActiveSession)
unfolding end_active_session_locked
end_active_session room_id now = do assert_safe_slug room_id; end_active_session_locked now
