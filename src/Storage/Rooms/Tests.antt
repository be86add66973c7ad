-- ===== src/Storage/Rooms/Tests.antt =====
-- The theorems on src/storage/room-store.ts at a concrete room.
use agentgather.Common.{ℕ, List, ◌∷◌, ◌≡◌, refl, true, false, none, some, [], js, ok}
use agentgather.Protocol.Types.{RoomState, opened, manual_ok, Message, ClientMessageInput}
use agentgather.Storage.Rooms.{append_locked, append_line, existing_message}
use agentgather.Storage.Rooms.Log.{
  Room, files, IsSound, with_message, new_message, append_locked_eq,
}
use agentgather.Storage.Rooms.Calls.{server_sends, recovers}
use agentgather.Storage.Rooms.Repeats.{RoomCall, others, closes, run_any}
use agentgather.Storage.Rooms.Sending.{IsAppended, append_locked-IsSound, resend_idempotent}
use agentgather.Storage.Rooms.Recovery.{recover_room_state, crash_repaired}

abbrev state : RoomState
state = record {
  id = js "room";
  status = opened;
  attendance_policy = some manual_ok;
  created_at = 100;
  updated_at = 100;
  expires_at = none;
  next_message_id = 1;
  brief_version = 1;
  brief_updated_at = 100;
  brief_updated_by = js "ann";
  active_session = none;
  auto_continue_enabled = none;
  auto_continue_delay_s = none;
}

abbrev empty_room : Room
empty_room = record {
  state = state;
  participants = [];
  messages = [];
  brief = some [];
  cursors = [];
}

empty_room-IsSound : IsSound empty_room
empty_room-IsSound = record { ascending = tt; below = tt }

abbrev input : ClientMessageInput
input = record { text = js "hello"; type = none; reply_to = none; client_msg_id = some (js "m-1") }

append_locked-IsSound_example :
    (r' : Room) × ((append_locked input (js "ann") 200 (some 9) (files empty_room)).0 ≡ files r')
    × IsAppended empty_room r'
append_locked-IsSound_example =
    append_locked-IsSound input (js "ann") 200 (some 9) empty_room empty_room-IsSound

abbrev stored : Message
stored = new_message input (js "ann") 200 empty_room

first_send :
    append_locked input (js "ann") 200 none (files empty_room)
    ≡ (files (with_message empty_room stored 200), ok (stored, false))
unfolding existing_message
first_send = append_locked_eq input (js "ann") 200 none empty_room

-- Another message comes in between, the room recovers and is closed.
abbrev between : List (ℕ × RoomCall)
between =
    (210, others (server_sends (js "host") (js "welcome")))
    ∷ (220, others recovers)
    ∷ (230, closes)
    ∷ []

resend_idempotent_example :
    append_locked input
      (js "ann")
      300
      (some 1)
      (run_any (js "room") between (files (with_message empty_room stored 200)))
    ≡ (run_any (js "room") between (files (with_message empty_room stored 200)), ok (stored, true))
resend_idempotent_example =
    resend_idempotent input input (js "ann") (js "m-1") 200 300 none (some 1) empty_room
      (files (with_message empty_room stored 200)) stored false (js "room") between refl refl
      first_send

crash_repaired_example :
    (r' : Room) × (s : RoomState) × (recover_room_state (append_line stored (files empty_room)).0
      ≡ (files r', ok s))
    × (r'.messages ≡ (with_message empty_room stored 200).messages)
    × (r'.state.next_message_id ≡ (with_message empty_room stored 200).state.next_message_id)
    × IsSound r'
crash_repaired_example = crash_repaired input (js "ann") 200 empty_room empty_room-IsSound
