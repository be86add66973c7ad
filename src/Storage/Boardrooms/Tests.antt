-- ===== src/Storage/Boardrooms/Tests.antt =====
-- The theorems on src/storage/boardroom-store.ts at a concrete room.
use agentgather.Common.{
  ◌≡◌, ◌≢◌, refl, true, some, none, List, [], ◌∷◌, js, ok, get, JsString, str_eq,
}
use mathlib.Core.Option
use agentgather.Protocol.Types.{RoomState, Message, opened, manual_ok, client, message}
use agentgather.Protocol.Boardroom.{
  Boardroom, Channel, ChannelReadCursor, ChannelView, active, chat, forum,
}
use agentgather.Protocol.Slug.{is_safe_slug}
use agentgather.Storage.Boardrooms.{
  BoardFiles, read_boardroom, rename_channel, find_channel, read_channel_view, write_channel_cursor,
  legacy_boardroom,
}
use agentgather.Storage.Boardrooms.Channels.{
  IsBoard, IsBoardroom, Change, create, add, rename, after_all, after_all-IsBoard,
}
use agentgather.Storage.Boardrooms.Renaming.{with_name, rename_channel_lem}
use agentgather.Storage.Boardrooms.Reading.{mark_read_lem}

abbrev state : RoomState
state = record {
  id = js "room";
  status = opened;
  attendance_policy = some manual_ok;
  created_at = 100;
  updated_at = 100;
  expires_at = none;
  next_message_id = 2;
  brief_version = 1;
  brief_updated_at = 100;
  brief_updated_by = js "ann";
  active_session = none;
  auto_continue_enabled = none;
  auto_continue_delay_s = none;
}

abbrev hello : Message
hello = record {
  id = 1;
  room = js "room";
  ts = 150;
  from = js "ann";
  type = client message;
  text = js "hello";
  reply_to = none;
  client_msg_id = none;
  mentions = [];
}

-- A room from before boardrooms, with one message.
abbrev files : BoardFiles
files = record {
  room = record {
    state = some state;
    participants = some [];
    brief = some [];
    messages = some (hello ∷ []);
    cursors = [];
  };
  boardroom = none;
  cursors = [];
  forum = [];
}

abbrev board : Boardroom
board = legacy_boardroom state

board-IsBoardroom : IsBoardroom board
unfolding legacy_boardroom is_safe_slug
board-IsBoardroom = record { safe = refl; some_channel = refl; channels = (refl, refl, tt) }

slug_room : is_safe_slug (js "room") ≡ true
unfolding is_safe_slug
slug_room = refl

slug_general : is_safe_slug (js "general") ≡ true
unfolding is_safe_slug
slug_general = refl

slug_bob : is_safe_slug (js "bob") ≡ true
unfolding is_safe_slug
slug_bob = refl

abbrev ideas : Channel
ideas = record {
  id = js "ideas";
  name = js "Ideas";
  type = forum;
  lifecycle = active;
  created_at = 200;
}

abbrev changes : List Change
changes =
    add ideas 200
    ∷ add ideas 210
    ∷ rename (js "ideas") (js "Plans") 220
    ∷ create (record { name = none; channels = some (ideas ∷ ideas ∷ []) }) 230
    ∷ []

after_all-IsBoard_example : IsBoard (after_all (js "room") changes files).boardroom
after_all-IsBoard_example = after_all-IsBoard (js "room") changes files tt

board_read : read_boardroom files ≡ (files, ok board)
unfolding read_boardroom
board_read = refl

rename_channel_example :
    (t : BoardFiles) × (c : Boardroom) × (rename_channel
        (js "room")
        (js "general")
        (js "Lobby")
        200
        files
      ≡ (t, ok c))
    × (read_boardroom t ≡ (t, ok c))
    × IsBoardroom c
    × (find_channel (js "general") c.channels
        ≡ Option.map
            (with_name (js "general") (js "Lobby"))
            (find_channel (js "general") board.channels))
    × ((other : JsString)
        → js "general" ≢ other
        → find_channel other c.channels ≡ find_channel other board.channels)
unfolding legacy_boardroom str_eq
rename_channel_example =
    rename_channel_lem (js "room") (js "general") (js "Lobby") 200 files board slug_room
      slug_general board_read board-IsBoardroom refl

abbrev view : ChannelView
view = record {
  channel_id = js "general";
  type = chat;
  messages = hello ∷ [];
  unread = 1;
  last_read_id = 0;
  latest_id = 1;
}

first_view : read_channel_view (js "general") (js "bob") files ≡ (files, ok view)
unfolding read_channel_view is_safe_slug str_eq get
first_view = refl

mark_read_example :
    (u : BoardFiles) × (c : ChannelReadCursor) × (write_channel_cursor
        (js "general")
        (js "bob")
        1
        300
        files
      ≡ (u, ok c))
    × (w : ChannelView) × (read_channel_view (js "general") (js "bob") u ≡ (u, ok w))
    × (w.messages ≡ view.messages)
    × (w.unread ≡ 0)
    × (w.last_read_id ≡ 1)
    × (w.latest_id ≡ 1)
mark_read_example =
    mark_read_lem (js "general") (js "bob") 300 files files view slug_general slug_bob first_view
      refl
