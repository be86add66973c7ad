-- ===== src/Storage/Rooms/Sessions/Brief.antt =====
-- The brief of a room of src/storage/room-store.ts: what was written reads back.
use agentgather.Common.{ℕ, ◌+◌, ◌≤◌, ◌≡◌, refl, true, some, arith, JsString, ok, length, leb}
use agentgather.Protocol.Types.{RoomState, RoomBrief}
use agentgather.Protocol.Slug.{is_safe_slug}
use agentgather.Storage.Rooms.{RoomFiles, read_room_state, with_room_defaults, max_brief_length}
use agentgather.Storage.Rooms.Sessions.{
  update_brief, update_brief_locked, read_brief, brief_of, brief_state,
}

abbrev briefed : JsString → JsString → ℕ → RoomState → RoomState
briefed by body now state = brief_state (with_room_defaults state) by now

update_brief_eq :
    (room_id by body : JsString) (now : ℕ) (s : RoomFiles) (state : RoomState)
    → is_safe_slug room_id ≡ true
    → is_safe_slug by ≡ true
    → leb (length body) max_brief_length ≡ true
    → update_brief room_id by body now (record s { state = some state }) ≡ (
      record s { state = some (briefed by body now state); brief = some body },
      ok (brief_of body (briefed by body now state)),
    )
unfolding update_brief update_brief_locked read_room_state
update_brief_eq room_id by body now s state safe safe_by fits = rw (safe, safe_by, fits) refl

-- In a room with a state, an update of the brief with safe slugs and a body that is not too long
-- returns a brief with that body, that editor and the next version, and the same brief is read back.
pub read_brief-update_brief :
    (room_id by body : JsString) (now : ℕ) (s : RoomFiles) (state : RoomState)
    → is_safe_slug room_id ≡ true
    → is_safe_slug by ≡ true
    → length body ≤ max_brief_length
    → let written : RoomBrief = record {
      body = body;
      brief_version = state.brief_version + 1;
      brief_updated_at = now;
      brief_updated_by = by;
    } in
      let room : RoomFiles = record s { state = some state } in
      ((update_brief room_id by body now room).1 ≡ ok written)
      × ((read_brief (update_brief room_id by body now room).0).1 ≡ ok written)
unfolding read_brief read_room_state
read_brief-update_brief room_id by body now s state safe safe_by short =
    let fits : leb (length body) max_brief_length ≡ true = ground arith in
    rw (update_brief_eq room_id by body now s state safe safe_by fits) (refl, refl)
