-- ===== src/Storage/Boardrooms.antt =====
-- src/storage/boardroom-store.ts: a room's channels and how far each participant has read in them.
-- The files of the board stand beside those of the room; a file is an `Option`, or an entry of a map
-- from its path below the directory. Each function that takes the writer lock is one transition.
pub mod Access
pub mod Channels
pub mod Reading
pub mod Renaming
mod Tests
use agentgather.Common.{
  ℕ, Bool, true, false, not, ◌&&◌, Option, none, some, List, [], ◌∷◌, ◌++◌, map, JsString, JsMap,
  get, set, str_eq, Outcome, ok, throw, if◌then◌else◌, any, find,
}
use agentgather.Common.Stateful.{
  Stateful, ◌>>=◌, ◌>>◌, and_then, return, fail, require, lift, or_fail, modify,
}
use agentgather.Protocol.Types.{RoomState, Message}
use agentgather.Protocol.Messages.{is_safe_integer}
use agentgather.Protocol.Slug.{is_safe_slug}
use agentgather.Protocol.Forum.{ForumPost, ForumComment, ForumError}
use agentgather.Protocol.Boardroom.{
  Boardroom, BoardroomError, Channel, ChannelReadCursor, ChannelView, active, default_channel_id,
  default_channel, derive_default_boardroom, assert_valid_boardroom, has_channel, summarize_unread,
}
use agentgather.Storage.Rooms.{RoomFiles, RoomError, read_room_state, read_messages}
use agentgather.Storage.Rooms.Members.{read_cursor}

-- A post's directory: post.json, if it was written, and the lines of comments.jsonl.
pub record Thread : Type 0 where
  pub post : Option ForumPost
  pub comments : List ForumComment

pub record BoardFiles : Type 0 where
  pub room : RoomFiles
  pub boardroom : Option Boardroom
  pub cursors : JsMap ChannelReadCursor
  -- The directories of forum/, and in each those of its posts.
  pub forum : JsMap (JsMap Thread)

pub data BoardError : Type 0 where
  unsafe_slug bad_cursor channel_exists channel_not_found not_a_forum : BoardError
  post_exists post_not_found : BoardError
  room_error : RoomError → BoardError
  bad_board : BoardroomError → BoardError
  forum_error : ForumError → BoardError

abbrev pub Action : Type 0 → Type 0
Action A = Stateful BoardFiles BoardError A

abbrev pub assert_safe_slug : JsString → Action (Unit {0})
assert_safe_slug value = require (is_safe_slug value) unsafe_slug

abbrev pub from_room :
    {A : Type 0} → BoardFiles → RoomFiles × Outcome RoomError A → BoardFiles × Outcome BoardError A
from_room s (room, ok a) = (record s { room = room }, ok a)
from_room s (room, throw e) = (record s { room = room }, throw (room_error e))

-- A function of the room store.
abbrev pub in_room : {A : Type 0} → (RoomFiles → RoomFiles × Outcome RoomError A) → Action A
in_room call s = from_room s (call s.room)

abbrev pub from_board : {A : Type 0} → Outcome BoardroomError A → Action A
from_board (ok a) s = (s, ok a)
from_board (throw e) s = (s, throw (bad_board e))

unfoldable pub legacy_boardroom : RoomState → Boardroom
unfolding derive_default_boardroom
legacy_boardroom state = derive_default_boardroom state.id state.created_at state.updated_at none

unfoldable pub boardroom_or_legacy : Option Boardroom → Action Boardroom
unfolding legacy_boardroom read_room_state
boardroom_or_legacy (some b) = return (record b { legacy = false })
boardroom_or_legacy none = do state ← in_room read_room_state; return (legacy_boardroom state)

-- `readBoardroom` and `readBoardroomUnlocked`.
unfoldable pub read_boardroom : Action Boardroom
unfolding boardroom_or_legacy
read_boardroom s = boardroom_or_legacy s.boardroom s

abbrev pub write_boardroom_file : Boardroom → Action (Unit {0})
write_boardroom_file b = modify (λ s. record s { boardroom = some b })

unfoldable pub persist_boardroom : Boardroom → Action Boardroom
unfolding assert_valid_boardroom
persist_boardroom b = do
  from_board (assert_valid_boardroom (record b { legacy = false }))
  write_boardroom_file (record b { legacy = false })
  return (record b { legacy = false })

unfoldable pub write_boardroom : JsString → Boardroom → Action Boardroom
unfolding persist_boardroom
write_boardroom room_id b = do
  assert_safe_slug room_id
  persist_boardroom (record b { id = room_id })

pub record CreateBoardroomOptions : Type 0 where
  pub name : Option JsString
  pub channels : Option (List Channel)

abbrev channels_or_default : Option (List Channel) → ℕ → List Channel
channels_or_default (some (c ∷ channels)) now = c ∷ channels
channels_or_default _ now = default_channel now ∷ []

unfoldable pub new_boardroom : JsString → CreateBoardroomOptions → ℕ → Boardroom
unfolding default_channel
new_boardroom room_id options now = record {
  id = room_id;
  name = options.name;
  channels = channels_or_default options.channels now;
  lifecycle = active;
  created_at = now;
  updated_at = now;
  legacy = false;
}

unfoldable pub create_boardroom : JsString → CreateBoardroomOptions → ℕ → Action Boardroom
unfolding new_boardroom persist_boardroom
create_boardroom room_id options now = do
  assert_safe_slug room_id
  persist_boardroom (new_boardroom room_id options now)

-- The metadata that an update of the channels writes.
abbrev pub with_channels : List Channel → ℕ → Boardroom → Boardroom
with_channels channels now current = record current {
  channels = channels;
  updated_at = now;
  legacy = false;
}

-- The part of `addChannel` under the lock.
unfoldable pub add_channel_locked : Channel → ℕ → Action Boardroom
unfolding read_boardroom persist_boardroom
add_channel_locked channel now = do
  current ← read_boardroom
  require (not (has_channel channel.id current.channels)) channel_exists
  persist_boardroom (with_channels (current.channels ++ channel ∷ []) now current)

unfoldable pub add_channel : JsString → Channel → ℕ → Action Boardroom
unfolding add_channel_locked
add_channel room_id channel now = do assert_safe_slug room_id; add_channel_locked channel now

unfoldable pub rename_in : JsString → JsString → List Channel → List Channel
rename_in channel_id name channels =
    map (λ c. if str_eq c.id channel_id then record c { name = name } else c) channels

-- The part of `renameChannel` under the lock.
unfoldable pub rename_channel_locked : JsString → JsString → ℕ → Action Boardroom
unfolding read_boardroom persist_boardroom rename_in
rename_channel_locked channel_id name now = do
  current ← read_boardroom
  require (has_channel channel_id current.channels) channel_not_found
  persist_boardroom (with_channels (rename_in channel_id name current.channels) now current)

unfoldable pub rename_channel : JsString → JsString → JsString → ℕ → Action Boardroom
unfolding rename_channel_locked
rename_channel room_id channel_id name now = do
  assert_safe_slug room_id
  assert_safe_slug channel_id
  rename_channel_locked channel_id name now

-- `channelCursorPath`, below the directory of the cursors.
abbrev pub channel_cursor_path : JsString → JsString → JsString
channel_cursor_path channel_id participant_id = channel_id ++ b'/' ∷ participant_id

unfoldable pub cursor_or_legacy : JsString → JsString → Option ChannelReadCursor → Action ℕ
unfolding read_cursor
cursor_or_legacy channel_id participant_id (some c) = return c.since_id
cursor_or_legacy channel_id participant_id none =
    if str_eq channel_id default_channel_id then in_room (read_cursor participant_id) else return 0

unfoldable pub read_channel_cursor_file : JsString → JsString → Action ℕ
unfolding cursor_or_legacy
read_channel_cursor_file channel_id participant_id s =
    cursor_or_legacy channel_id participant_id
      (get (channel_cursor_path channel_id participant_id) s.cursors) s

unfoldable pub read_channel_cursor : JsString → JsString → Action ℕ
unfolding read_channel_cursor_file
read_channel_cursor channel_id participant_id = do
  assert_safe_slug channel_id
  assert_safe_slug participant_id
  read_channel_cursor_file channel_id participant_id

abbrev write_cursor_file : ChannelReadCursor → Action (Unit {0})
write_cursor_file c = modify (λ s. record s {
  cursors = set (channel_cursor_path c.channel_id c.participant_id) c s.cursors;
})

-- The test of `parsePositiveInteger`, on a natural number.
unfoldable pub write_channel_cursor : JsString → JsString → ℕ → ℕ → Action ChannelReadCursor
write_channel_cursor channel_id participant_id since_id now = do
  assert_safe_slug channel_id
  assert_safe_slug participant_id
  require (is_safe_integer since_id) bad_cursor
  write_cursor_file (record {
    participant_id = participant_id;
    channel_id = channel_id;
    since_id = since_id;
    updated_at = now;
  })
  return (record {
    participant_id = participant_id;
    channel_id = channel_id;
    since_id = since_id;
    updated_at = now;
  })

abbrev pub find_channel : JsString → List Channel → Option Channel
find_channel id channels = find (λ c. str_eq c.id id) channels

abbrev pub messages_of_channel : JsString → Action (List Message)
messages_of_channel channel_id =
    if str_eq channel_id default_channel_id then in_room read_messages else return []

-- The view of a channel that was found.
unfoldable pub view_of : JsString → Channel → List Message → ℕ → ChannelView
unfolding summarize_unread
view_of channel_id channel messages last_read_id = record {
  channel_id = channel_id;
  type = channel.type;
  messages = messages;
  unread = (summarize_unread messages last_read_id).unread;
  last_read_id = last_read_id;
  latest_id = (summarize_unread messages last_read_id).latest_id;
}

unfoldable pub read_channel_view : JsString → JsString → Action ChannelView
unfolding read_boardroom read_channel_cursor view_of
read_channel_view channel_id participant_id = do
  assert_safe_slug channel_id
  assert_safe_slug participant_id
  boardroom ← read_boardroom
  channel ← or_fail (find_channel channel_id boardroom.channels) channel_not_found
  messages ← messages_of_channel channel_id
  last_read_id ← read_channel_cursor channel_id participant_id
  return (view_of channel_id channel messages last_read_id)
