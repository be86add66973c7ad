-- ===== src/Storage/Joined/Identity.antt =====
-- Who a joined room opens as, in src/storage/joined-rooms-store.ts.
use agentgather.Common.{
  ◌≡◌, refl, Bool, true, false, Option, none, some, List, [], ◌∷◌, arith, JsString, if◌then◌else◌,
  str_eq, str_eq_iff, str_eq_refl,
}
use agentgather.Storage.Joined.{
  or_kind, JoinedRoom, DeviceHome, read_joined_rooms, is_row, find_row, is_text, put_row,
  merged_row, selected_alias, selected_kind, upsert_joined_room_locked,
  refresh_joined_room_metadata, record_joined_room,
}

-- The row of another key stays, and that of the row's key is the row.
find-put_row :
    (row : JoinedRoom) (rooms : List JoinedRoom) (id url : JsString)
    → find_row id url (put_row row rooms)
      ≡ (if is_row id url row then some row else find_row id url rooms)
unfolding put_row
find-put_row row [] id url = refl
find-put_row row (r ∷ rooms) id url = ground (
  arith,
  find-put_row row rooms id url,
  str_eq_iff row.room_id id,
  str_eq_iff row.base_url url,
  str_eq_iff r.room_id id,
  str_eq_iff r.base_url url,
  str_eq_iff r.room_id row.room_id,
  str_eq_iff r.base_url row.base_url,
)

-- The row of the entry's key after a call, for the row that stood there; the rows of other keys.
pub record Refreshed (entry : JoinedRoom) (archived : Option Bool) (r q : JoinedRoom) : Type 0 where
  pub alias : q.alias ≡ r.alias
  pub joined_at : q.joined_at ≡ r.joined_at
  pub kind : q.kind ≡ or_kind entry.kind r.kind
  pub flag : archived ≡ none → q.archived ≡ r.archived

-- A refresh of a row that has an alias keeps the alias that it opens as, the time of its joining and,
-- unless it says otherwise, its archived flag, and leaves every other row; but the kind of an entry
-- goes to the row even if the entry is of another alias.
pub refresh_lem :
    {H : Type 0} (entry r : JoinedRoom) (archived : Option Bool) (home : DeviceHome H)
    → find_row entry.room_id entry.base_url (read_joined_rooms home) ≡ some r
    → is_text r.alias ≡ true
    → (q : JoinedRoom) × (find_row entry.room_id entry.base_url
          (read_joined_rooms (refresh_joined_room_metadata entry archived home))
        ≡ some q)
      × Refreshed entry archived r q
      × ((id url : JsString)
          → is_row id url entry ≡ false
          → find_row id url (read_joined_rooms (refresh_joined_room_metadata entry archived home))
            ≡ find_row id url (read_joined_rooms home))
unfolding refresh_joined_room_metadata upsert_joined_room_locked merged_row selected_alias
    selected_kind
refresh_lem entry r archived home e named =
    let row = merged_row true entry archived (some r) in
    let rooms = read_joined_rooms home in
    let alias : (if is_text r.alias then r.alias else entry.alias) ≡ r.alias = rw (named) refl in
    (
      row,
      rw (e) (
          ground (
            arith,
            find-put_row row rooms entry.room_id entry.base_url,
            str_eq_refl entry.room_id,
            str_eq_refl entry.base_url,
          )),
      record {
        alias = alias;
        joined_at = refl;
        kind = rw (named, str_eq_refl r.alias) refl;
        flag = λ h. rw (h) refl;
      },
      λ id url other. rw (e) (ground (arith, find-put_row row rooms id url, other)),
    )

-- Recording a join opens the row as the entry's alias; a kind that was stored for another alias is
-- not carried over to it, and one that was stored for it stays, unless the entry brings a kind.
pub record_lem :
    {H : Type 0} (entry r : JoinedRoom) (archived : Option Bool) (home : DeviceHome H)
    → find_row entry.room_id entry.base_url (read_joined_rooms home) ≡ some r
    → (q : JoinedRoom) × (find_row entry.room_id entry.base_url
          (read_joined_rooms (record_joined_room entry archived home))
        ≡ some q)
      × (q.alias ≡ entry.alias)
      × (q.kind ≡ or_kind entry.kind (if str_eq r.alias entry.alias then r.kind else none))
      × ((id url : JsString)
          → is_row id url entry ≡ false
          → find_row id url (read_joined_rooms (record_joined_room entry archived home))
            ≡ find_row id url (read_joined_rooms home))
unfolding record_joined_room upsert_joined_room_locked merged_row selected_alias selected_kind
record_lem entry r archived home e =
    let row = merged_row false entry archived (some r) in
    let rooms = read_joined_rooms home in
    (
      row,
      rw (e) (
          ground (
            arith,
            find-put_row row rooms entry.room_id entry.base_url,
            str_eq_refl entry.room_id,
            str_eq_refl entry.base_url,
          )),
      refl,
      refl,
      λ id url other. rw (e) (ground (arith, find-put_row row rooms id url, other)),
    )
