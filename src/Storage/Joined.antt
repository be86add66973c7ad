-- ===== src/Storage/Joined.antt =====
-- src/storage/joined-rooms-store.ts: the rooms that this device's user has joined, and when their
-- saved histories are removed. Each function that takes the writer lock is one transition; an absent
-- file is `none`. `digest` is the hash that names the file of a history.
pub mod Keys
pub mod Identity
pub mod Selection
pub mod Bulk
pub mod History
mod Tests
use agentgather.Common.{
  ℤ, ℕ, Bool, true, false, not, ◌&&◌, ◌+◌, ◌-◌, ◌==◌, Option, none, some, List, [], ◌∷◌, ◌++◌, map,
  js, JsString, JsMap, get, set, delete, str_eq, ltb, if◌then◌else◌, any, filter, find, length,
  count,
}
use agentgather.Common.Decimal.{decimal}

pub data JoinedRoomKind : Type 0 where
  human agent : JoinedRoomKind

pub record JoinedRoomSeat : Type 0 where
  pub alias : JsString
  pub kind : Option JoinedRoomKind

pub record JoinedRoom : Type 0 where
  pub room_id : JsString
  pub title : JsString
  pub alias : JsString
  pub base_url : JsString
  pub joined_at : ℕ
  pub last_seen : ℕ
  pub kind : Option JoinedRoomKind
  pub seats : Option (List JoinedRoomSeat)
  pub archived : Bool

pub record JoinedRoomTarget : Type 0 where
  pub room_id : JsString
  pub base_url : JsString

-- The files below the home directory; `H` is what a history file holds.
pub record DeviceHome (H : Type 0) : Type 0 where
  pub rooms : Option (List JoinedRoom)
  pub histories : JsMap H

pub record BulkJoinedRoomResult : Type 0 where
  pub requested : ℕ
  pub matched : ℕ
  pub changed : ℕ
  pub missing : ℤ

abbrev pub rooms_or_none : Option (List JoinedRoom) → List JoinedRoom
rooms_or_none none = []
rooms_or_none (some rooms) = rooms

abbrev pub read_joined_rooms : {H : Type 0} → DeviceHome H → List JoinedRoom
read_joined_rooms home = rooms_or_none home.rooms

abbrev pub write_joined_rooms : {H : Type 0} → List JoinedRoom → DeviceHome H → DeviceHome H
write_joined_rooms rooms home = record home { rooms = some rooms }

abbrev pub is_row : JsString → JsString → JoinedRoom → Bool
is_row room_id base_url room = str_eq room.room_id room_id && str_eq room.base_url base_url

abbrev pub find_row : JsString → JsString → List JoinedRoom → Option JoinedRoom
find_row room_id base_url rooms = find (is_row room_id base_url) rooms

abbrev pub is_text : JsString → Bool
is_text [] = false
is_text (c ∷ s) = true

abbrev is_real_title : JsString → JsString → Bool
is_real_title room_id title = is_text title && not (str_eq title room_id)

abbrev title_of_row : Option JoinedRoom → JsString
title_of_row none = []
title_of_row (some row) = row.title

unfoldable pub best_title : JoinedRoom → Option JoinedRoom → JsString
best_title entry existing =
    if is_real_title entry.room_id entry.title
    then entry.title
    else if is_real_title entry.room_id (title_of_row existing)
    then title_of_row existing
    else if is_text entry.title
    then entry.title
    else entry.room_id

-- The alias that the row opens as.
unfoldable pub selected_alias : Bool → JoinedRoom → Option JoinedRoom → JsString
selected_alias keep_selected_alias entry none = entry.alias
selected_alias keep_selected_alias entry (some row) =
    if keep_selected_alias && is_text row.alias then row.alias else entry.alias

abbrev pub or_kind : Option JoinedRoomKind → Option JoinedRoomKind → Option JoinedRoomKind
or_kind none other = other
or_kind (some k) other = some k

unfoldable pub selected_kind : JoinedRoom → JsString → Option JoinedRoom → Option JoinedRoomKind
selected_kind entry alias none = or_kind entry.kind none
selected_kind entry alias (some row) =
    or_kind entry.kind (if str_eq row.alias alias then row.kind else none)

abbrev seat_list : Option (List JoinedRoomSeat) → List JoinedRoomSeat
seat_list none = []
seat_list (some seats) = seats

-- The first loop of `mergeSeats`.
unfoldable pub stored_seats : List JoinedRoomSeat → JsMap JoinedRoomSeat → JsMap JoinedRoomSeat
stored_seats [] merged = merged
stored_seats (seat ∷ seats) merged =
    stored_seats seats (if is_text seat.alias then set seat.alias seat merged else merged)

abbrev kind_of_seat : Option JoinedRoomSeat → Option JoinedRoomKind
kind_of_seat none = none
kind_of_seat (some seat) = seat.kind

unfoldable pub learn_seat : JoinedRoomSeat → JsMap JoinedRoomSeat → JsMap JoinedRoomSeat
learn_seat seat merged =
    if is_text seat.alias
    then set seat.alias
        (record {
          alias = seat.alias;
          kind = or_kind seat.kind (kind_of_seat (get seat.alias merged));
        })
        merged
    else merged

-- The second loop.
unfoldable pub learned_seats : List JoinedRoomSeat → JsMap JoinedRoomSeat → JsMap JoinedRoomSeat
unfolding learn_seat
learned_seats [] merged = merged
learned_seats (seat ∷ seats) merged = learned_seats seats (learn_seat seat merged)

abbrev selected_seat : JsString → Option JoinedRoomKind → List JoinedRoomSeat
selected_seat alias kind = if is_text alias then record { alias = alias; kind = kind } ∷ [] else []

unfoldable pub merge_seats :
    Option (List JoinedRoomSeat)
    → Option (List JoinedRoomSeat)
    → JsString
    → Option JoinedRoomKind
    → List JoinedRoomSeat
unfolding stored_seats learned_seats
merge_seats existing incoming alias kind =
    map (λ e. e.1)
      (learned_seats (seat_list incoming ++ selected_seat alias kind)
        (stored_seats (seat_list existing) []))

abbrev some_seats : List JoinedRoomSeat → Option (List JoinedRoomSeat)
some_seats [] = none
some_seats (seat ∷ seats) = some (seat ∷ seats)

abbrev joined_at_of : JoinedRoom → Option JoinedRoom → ℕ
joined_at_of entry none = entry.joined_at
joined_at_of entry (some row) = row.joined_at

abbrev seats_of_row : Option JoinedRoom → Option (List JoinedRoomSeat)
seats_of_row none = none
seats_of_row (some row) = row.seats

-- `entry.archived ?? existing`: an entry says nothing, or that it is archived or not.
abbrev archived_of : Option Bool → Option JoinedRoom → Bool
archived_of (some b) existing = b
archived_of none none = false
archived_of none (some row) = row.archived

-- The row that an entry makes of the one that stands there.
unfoldable pub merged_row : Bool → JoinedRoom → Option Bool → Option JoinedRoom → JoinedRoom
unfolding best_title selected_alias selected_kind merge_seats
merged_row keep_selected_alias entry archived existing =
    let alias = selected_alias keep_selected_alias entry existing in
    let kind = selected_kind entry alias existing in
    record {
      room_id = entry.room_id;
      title = best_title entry existing;
      alias = alias;
      base_url = entry.base_url;
      joined_at = joined_at_of entry existing;
      last_seen = entry.last_seen;
      kind = kind;
      seats = some_seats (merge_seats (seats_of_row existing) entry.seats alias kind);
      archived = archived_of archived existing;
    }

-- `rooms[index] = record`, or `push`.
unfoldable pub put_row : JoinedRoom → List JoinedRoom → List JoinedRoom
put_row row [] = row ∷ []
put_row row (r ∷ rooms) =
    let rest = put_row row rooms in
    if is_row row.room_id row.base_url r then row ∷ rooms else r ∷ rest

-- The archived flag of an entry is given apart, since it may be absent from it.
unfoldable pub upsert_joined_room_locked :
    {H : Type 0} → Bool → JoinedRoom → Option Bool → DeviceHome H → DeviceHome H
unfolding merged_row put_row
upsert_joined_room_locked keep_selected_alias entry archived home =
    let rooms = read_joined_rooms home in
    write_joined_rooms
      (put_row
        (merged_row keep_selected_alias entry archived
          (find_row entry.room_id entry.base_url rooms))
        rooms)
      home

unfoldable pub record_joined_room :
    {H : Type 0} → JoinedRoom → Option Bool → DeviceHome H → DeviceHome H
unfolding upsert_joined_room_locked
record_joined_room entry archived home = upsert_joined_room_locked false entry archived home

unfoldable pub refresh_joined_room_metadata :
    {H : Type 0} → JoinedRoom → Option Bool → DeviceHome H → DeviceHome H
unfolding upsert_joined_room_locked
refresh_joined_room_metadata entry archived home =
    upsert_joined_room_locked true entry archived home
