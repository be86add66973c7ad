-- ===== src/Storage/Rooms/Sessions/Tests.antt =====
-- The theorems on sessions and briefs of src/storage/room-store.ts at a concrete room.
use agentgather.Common.{ℕ, ◌+◌, ◌≡◌, refl, none, some, List, [], ◌∷◌, arith, js, ok, throw, true}
use agentgather.Protocol.Types.{RoomState, RoomBrief, opened, manual_ok, ActiveSession}
use agentgather.Protocol.Slug.{is_safe_slug}
use agentgather.Protocol.Slug.Laws.{is_safe_slug_iff}
use agentgather.Storage.Rooms.{RoomFiles, active_session_exists, read_room_state}
use agentgather.Storage.Rooms.Sessions.{
  start_active_session, start_active_session_locked, start_if_idle, end_active_session, new_session,
}
use agentgather.Storage.Rooms.Calls.{Call, server_sends, writes_brief, recovers, run}
use agentgather.Storage.Rooms.Sessions.Running.{session_runs_on}

abbrev state : RoomState
state = record {
  id = js "room";
  status = opened;
  attendance_policy = some manual_ok;
  created_at = 100;
  updated_at = 100;
  expires_at = none;
  next_message_id = 1;
  brief_version = 1;
  brief_updated_at = 100;
  brief_updated_by = js "ann";
  active_session = none;
  auto_continue_enabled = none;
  auto_continue_delay_s = none;
}

abbrev room : RoomFiles
room = record {
  state = some state;
  participants = some [];
  brief = some [];
  messages = some [];
  cursors = [];
}

room-is_safe_slug : is_safe_slug (js "room") ≡ true
room-is_safe_slug = (is_safe_slug_iff (js "room")).1 (omega arith, omega arith, refl)

ann-is_safe_slug : is_safe_slug (js "ann") ≡ true
ann-is_safe_slug = (is_safe_slug_iff (js "ann")).1 (omega arith, omega arith, refl)

abbrev session : ActiveSession
session = new_session (js "main") (js "ann") 60 none 200

abbrev started_room : RoomFiles
started_room = record room {
  state = some (record state { updated_at = 200; active_session = some session });
}

start-session :
    start_active_session (js "room") (js "main") (js "ann") 60 none 200 room
    ≡ (started_room, ok session)
unfolding start_active_session start_active_session_locked start_if_idle read_room_state
start-session = rw (room-is_safe_slug, ann-is_safe_slug) refl

abbrev calls : List (ℕ × Call)
calls =
    (210, server_sends (js "ann") (js "welcome"))
    ∷ (220, writes_brief (js "ann") (js "ship it"))
    ∷ (230, recovers)
    ∷ []

session_runs_on_example :
    ((start_active_session
        (js "room")
        (js "side")
        (js "ann")
        5
        none
        300
        (run (js "room") calls started_room)).1
      ≡ throw active_session_exists)
    × ((end_active_session (js "room") 300 (run (js "room") calls started_room)).1
        ≡ ok (some (record session { ended_at = some 300 })))
session_runs_on_example =
    session_runs_on (js "room") (js "main") (js "ann") 60 none 200 (js "side") (js "ann") 5 none 300
      calls room started_room session room-is_safe_slug ann-is_safe_slug start-session

abbrev written : RoomBrief
written = record {
  body = js "ship it";
  brief_version = 1 + 1;
  brief_updated_at = 400;
  brief_updated_by = js "ann";
}
