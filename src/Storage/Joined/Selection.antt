-- ===== src/Storage/Joined/Selection.antt =====
-- Archiving and deleting in src/storage/joined-rooms-store.ts, of one row or of many.
use agentgather.Common.{
  pos, difference, ℕ, Bool, true, false, not, ◌&&◌, ◌+◌, ◌-◌, ◌==◌, Option, none, some, List, [],
  ◌∷◌, ◌++◌, JsString, JsMap, get, set, delete, ltb, if◌then◌else◌, any, filter, length,
}
use agentgather.Common.Decimal.{decimal}
use agentgather.Storage.Joined.{
  JoinedRoom, JoinedRoomTarget, DeviceHome, BulkJoinedRoomResult, read_joined_rooms,
  write_joined_rooms, is_row,
}

-- `joinedRoomKey`.
unfoldable pub joined_room_key : JsString → JsString → JsString
unfolding decimal
joined_room_key room_id base_url = decimal (length room_id) ++ b':' ∷ (room_id ++ b'|' ∷ base_url)

abbrev pub row_key : JoinedRoom → JsString
row_key room = joined_room_key room.room_id room.base_url

abbrev pub target_key : JoinedRoomTarget → JsString
target_key target = joined_room_key target.room_id target.base_url

unfoldable pub dedupe_onto : List JoinedRoomTarget → JsMap JoinedRoomTarget → JsMap JoinedRoomTarget
unfolding joined_room_key
dedupe_onto [] unique = unique
dedupe_onto (target ∷ targets) unique = dedupe_onto targets (set (target_key target) target unique)

unfoldable pub dedupe_targets : List JoinedRoomTarget → JsMap JoinedRoomTarget
unfolding dedupe_onto
dedupe_targets targets = dedupe_onto targets []

abbrev pub is_found : Option JoinedRoomTarget → Bool
is_found none = false
is_found (some target) = true

-- `unique.has(joinedRoomKey(room))`.
abbrev pub is_selected : JsMap JoinedRoomTarget → JoinedRoom → Bool
is_selected unique room = is_found (get (row_key room) unique)

abbrev pub with_archived : Bool → JoinedRoom → JoinedRoom
with_archived archived room = record room { archived = archived }

abbrev pub bool_eq : Bool → Bool → Bool
bool_eq true b = b
bool_eq false b = not b

-- The row is selected and not yet as it is to be.
abbrev pub to_change : JsMap JoinedRoomTarget → Bool → JoinedRoom → Bool
to_change unique archived room = is_selected unique room && not (bool_eq room.archived archived)

-- The loop of `setJoinedRoomsArchived`.
unfoldable pub archive_rows :
    JsMap JoinedRoomTarget → Bool → List JoinedRoom → List JoinedRoom × ℕ × ℕ
archive_rows unique archived [] = ([], 0, 0)
archive_rows unique archived (room ∷ rooms) =
    let (rest, matched, changed) = archive_rows unique archived rooms in
    if not (is_selected unique room)
    then (room ∷ rest, matched, changed)
    else if bool_eq room.archived archived
    then (room ∷ rest, matched + 1, changed)
    else (with_archived archived room ∷ rest, matched + 1, changed + 1)

abbrev pub no_targets : BulkJoinedRoomResult
no_targets = record { requested = 0; matched = 0; changed = 0; missing = pos 0 }

-- The first row of the target gets the flag.
unfoldable pub archive_first : JoinedRoomTarget → Bool → List JoinedRoom → List JoinedRoom
archive_first target archived [] = []
archive_first target archived (room ∷ rooms) =
    let rest = archive_first target archived rooms in
    if is_row target.room_id target.base_url room
    then with_archived archived room ∷ rooms
    else room ∷ rest

-- `joinedHistoryPath`, below the directory of the histories.
abbrev pub history_path : (JsString → JsString) → JsString → JsString → JsString
history_path digest room_id base_url = digest (
    decimal (length room_id)
    ++ b':' ∷ (room_id ++ 10 ∷ (decimal (length base_url) ++ b':' ∷ base_url)))

module _ {H : Type 0} where
  unfoldable pub set_joined_room_archived :
      JoinedRoomTarget → Bool → DeviceHome H → DeviceHome H × Bool
  unfolding archive_first
  set_joined_room_archived target archived home =
      let rooms = read_joined_rooms home in
      if any (is_row target.room_id target.base_url) rooms
      then (write_joined_rooms (archive_first target archived rooms) home, true)
      else (home, false)

  abbrev pub write_if_changed : List JoinedRoom → ℕ → DeviceHome H → DeviceHome H
  write_if_changed rooms changed home =
      if ltb 0 changed then write_joined_rooms rooms home else home

  unfoldable pub set_joined_rooms_archived :
      List JoinedRoomTarget → Bool → DeviceHome H → DeviceHome H × BulkJoinedRoomResult
  unfolding dedupe_targets archive_rows
  set_joined_rooms_archived targets archived home =
      let unique = dedupe_targets targets in
      let (rooms, matched, changed) = archive_rows unique archived (read_joined_rooms home) in
      if length unique == 0 then (home, no_targets) else (
        write_if_changed rooms changed home,
        record {
          requested = length unique;
          matched = matched;
          changed = changed;
          missing = difference (length unique) matched;
        },
      )

  unfoldable pub delete_joined_history :
      (JsString → JsString) → JoinedRoomTarget → DeviceHome H → DeviceHome H
  delete_joined_history digest target home = record home {
    histories = delete (history_path digest target.room_id target.base_url) home.histories;
  }

  unfoldable pub delete_histories :
      (JsString → JsString) → JsMap JoinedRoomTarget → DeviceHome H → DeviceHome H
  unfolding delete_joined_history
  delete_histories digest [] home = home
  delete_histories digest ((key, target) ∷ unique) home =
      delete_histories digest unique (delete_joined_history digest target home)

  unfoldable pub delete_joined_rooms :
      (JsString → JsString)
      → List JoinedRoomTarget
      → DeviceHome H
      → DeviceHome H × BulkJoinedRoomResult
  unfolding dedupe_targets delete_histories
  delete_joined_rooms digest targets home =
      let unique = dedupe_targets targets in
      let rooms = read_joined_rooms home in
      let next = filter (λ room. not (is_selected unique room)) rooms in
      let removed = length rooms - length next in
      if length unique == 0 then (home, no_targets) else (
        delete_histories digest unique (write_if_changed next removed home),
        record {
          requested = length unique;
          matched = removed;
          changed = removed;
          missing = difference (length unique) removed;
        },
      )

  unfoldable pub delete_joined_room :
      (JsString → JsString) → JoinedRoomTarget → DeviceHome H → DeviceHome H × Bool
  unfolding delete_joined_history
  delete_joined_room digest target home =
      let rooms = read_joined_rooms home in
      let next = filter (λ room. not (is_row target.room_id target.base_url room)) rooms in
      if length next == length rooms
      then (delete_joined_history digest target home, false)
      else (delete_joined_history digest target (write_joined_rooms next home), true)
