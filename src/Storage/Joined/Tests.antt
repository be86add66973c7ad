-- ===== src/Storage/Joined/Tests.antt =====
-- The theorems on src/storage/joined-rooms-store.ts at concrete rooms.
use agentgather.Common.{ℕ, ◌≡◌, refl, true, false, some, none, [], ◌∷◌, js, JsString, count, str_eq}
use agentgather.Storage.Joined.{
  JoinedRoom, JoinedRoomTarget, human, agent, DeviceHome, read_joined_rooms, find_row, is_row,
  refresh_joined_room_metadata,
}
use agentgather.Storage.Joined.Selection.{set_joined_rooms_archived, delete_joined_rooms}
use agentgather.Storage.Joined.Keys.{is_target}
use agentgather.Storage.Joined.Bulk.{
  archived_rows, differs, other_rows, set_joined_rooms_archived_lem, delete_joined_rooms_lem,
}
use agentgather.Storage.Joined.Identity.{Refreshed, refresh_lem}

abbrev row : JoinedRoom
row = record {
  room_id = js "room";
  title = js "Plans";
  alias = js "ann";
  base_url = js "https://a.test";
  joined_at = 100;
  last_seen = 100;
  kind = some human;
  seats = none;
  archived = false;
}

abbrev home : DeviceHome ℕ
home = record { rooms = some (row ∷ []); histories = [] }

-- An entry of another participant.
abbrev entry : JoinedRoom
entry = record row { alias = js "bot"; kind = some agent; title = js "room"; last_seen = 200 }

row_found : find_row (js "room") (js "https://a.test") (read_joined_rooms home) ≡ some row
unfolding str_eq
row_found = refl

refresh_example :
    (q : JoinedRoom) × (find_row
        (js "room")
        (js "https://a.test")
        (read_joined_rooms (refresh_joined_room_metadata entry none home))
      ≡ some q)
    × Refreshed entry none row q
    × ((id url : JsString)
        → is_row id url entry ≡ false
        → find_row id url (read_joined_rooms (refresh_joined_room_metadata entry none home))
          ≡ find_row id url (read_joined_rooms home))
refresh_example = refresh_lem entry row none home row_found refl

abbrev target : JoinedRoomTarget
target = record { room_id = js "room"; base_url = js "https://a.test" }

set_joined_rooms_archived_example :
    (read_joined_rooms (set_joined_rooms_archived (target ∷ []) true home).0
      ≡ archived_rows (target ∷ []) true (read_joined_rooms home))
    × ((set_joined_rooms_archived (target ∷ []) true home).0.histories ≡ home.histories)
    × ((set_joined_rooms_archived (target ∷ []) true home).1.matched
        ≡ count (is_target (target ∷ [])) (read_joined_rooms home))
    × ((set_joined_rooms_archived (target ∷ []) true home).1.changed
        ≡ count (differs (target ∷ []) true) (read_joined_rooms home))
set_joined_rooms_archived_example = set_joined_rooms_archived_lem (target ∷ []) true home

delete_joined_rooms_example :
    read_joined_rooms (delete_joined_rooms (λ text. text) (target ∷ []) home).0
    ≡ other_rows (target ∷ []) (read_joined_rooms home)
delete_joined_rooms_example = delete_joined_rooms_lem (λ text. text) (target ∷ []) home
