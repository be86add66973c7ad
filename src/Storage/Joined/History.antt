-- ===== src/Storage/Joined/History.antt =====
-- src/storage/joined-history-store.ts: what this device keeps of the history of a joined room.
-- `redact` is `redactSnapshotText`, four replacements by regular expressions and a cut;
-- `serialized_bytes` is the length of the file's text in UTF-8.
pub mod Trimming
pub mod Merging
mod Tests
use agentgather.Common.{
  js, ℕ, zero, suc, Bool, true, false, ◌&&◌, ◌||◌, ◌+◌, ◌-◌, ◌==◌, Option, none, some, List, [],
  ◌∷◌, ◌++◌, map, JsString, JsMap, get, set, str_eq, ltb, leb, if◌then◌else◌, length, max,
}
use agentgather.Storage.Joined.{JoinedRoomTarget, DeviceHome}
use agentgather.Storage.Joined.Selection.{history_path}

pub record SnapshotMessage : Type 0 where
  pub id : ℕ
  pub from : JsString
  pub ts : JsString
  -- A file or a room of an older version may leave it out.
  pub type : Option JsString
  pub text : JsString

pub record SnapshotForumComment : Type 0 where
  pub id : JsString
  pub author : JsString
  pub ts : JsString
  pub body : JsString

pub record SnapshotForumPost : Type 0 where
  pub id : JsString
  pub channel : JsString
  pub title : JsString
  pub author : JsString
  pub ts : JsString
  pub status : JsString
  pub body : JsString
  pub comments : List SnapshotForumComment

pub record JoinedHistorySnapshot : Type 0 where
  pub room_id : JsString
  pub base_url : JsString
  pub cursor : ℕ
  pub saved_at : JsString
  pub messages : List SnapshotMessage
  pub forum_posts : List SnapshotForumPost

abbrev pub snapshot_max_messages : ℕ
snapshot_max_messages = 250

abbrev pub snapshot_max_forum_posts : ℕ
snapshot_max_forum_posts = 50

abbrev pub snapshot_max_comments_per_post : ℕ
snapshot_max_comments_per_post = 100

abbrev pub snapshot_max_bytes : ℕ
snapshot_max_bytes = 200000

-- `slice(k)` of an array.
abbrev pub drop : {A : Type 0} → ℕ → List A → List A
drop k [] = []
drop k (x ∷ xs) = if k == 0 then x ∷ xs else drop (k - 1) xs

-- `slice(-n)`, for an `n` that is not 0.
abbrev pub take_last : {A : Type 0} → ℕ → List A → List A
take_last n xs = drop (length xs - n) xs

-- A file that is there and is not a snapshot of its room is damaged.
pub data HistoryFile : Type 0 where
  damaged : HistoryFile
  readable : JoinedHistorySnapshot → HistoryFile

pub data JoinedHistoryRead : Type 0 where
  absent unreadable : JoinedHistoryRead
  found : JoinedHistorySnapshot → JoinedHistoryRead

unfoldable pub read_file : JsString → JsString → Option HistoryFile → JoinedHistoryRead
read_file room_id base_url none = absent
read_file room_id base_url (some damaged) = unreadable
read_file room_id base_url (some (readable s)) =
    if str_eq s.room_id room_id && str_eq s.base_url base_url then found s else unreadable

unfoldable pub read_joined_history :
    (JsString → JsString) → JsString → JsString → DeviceHome HistoryFile → JoinedHistoryRead
unfolding read_file
read_joined_history digest room_id base_url home =
    read_file room_id base_url (get (history_path digest room_id base_url) home.histories)

-- `message.type ?? "chat"`.
abbrev type_or_chat : Option JsString → JsString
type_or_chat none = js "chat"
type_or_chat (some type) = type

module _ (redact : JsString → JsString) where
  unfoldable pub redacted : SnapshotMessage → SnapshotMessage
  redacted m = record {
    id = m.id;
    from = redact m.from;
    ts = redact m.ts;
    type = some (redact (type_or_chat m.type));
    text = redact m.text;
  }

  -- `byId.set(message.id, ...)`.
  unfoldable pub put_message : SnapshotMessage → List SnapshotMessage → List SnapshotMessage
  put_message m [] = m ∷ []
  put_message m (k ∷ messages) =
      let rest = put_message m messages in if k.id == m.id then m ∷ messages else k ∷ rest

  unfoldable pub put_messages : List SnapshotMessage → List SnapshotMessage → List SnapshotMessage
  unfolding redacted put_message
  put_messages [] by_id = by_id
  put_messages (m ∷ messages) by_id = put_messages messages (put_message (redacted m) by_id)

  unfoldable pub insert_message : SnapshotMessage → List SnapshotMessage → List SnapshotMessage
  insert_message m [] = m ∷ []
  insert_message m (k ∷ messages) =
      let rest = insert_message m messages in if leb m.id k.id then m ∷ k ∷ messages else k ∷ rest

  unfoldable pub sort_messages : List SnapshotMessage → List SnapshotMessage
  unfolding insert_message
  sort_messages [] = []
  sort_messages (m ∷ messages) = insert_message m (sort_messages messages)

  unfoldable pub merge_messages : List SnapshotMessage → List SnapshotMessage → List SnapshotMessage
  unfolding put_messages sort_messages
  merge_messages current incoming = sort_messages (put_messages (current ++ incoming) [])

  unfoldable pub redacted_comment : SnapshotForumComment → SnapshotForumComment
  redacted_comment c = record {
    id = redact c.id;
    author = redact c.author;
    ts = redact c.ts;
    body = redact c.body;
  }

  abbrev comments_of : Option SnapshotForumPost → List SnapshotForumComment
  comments_of none = []
  comments_of (some p) = p.comments

  -- The comments of a load, or those that are stored if it brings none.
  abbrev best_comments :
      List SnapshotForumComment → Option SnapshotForumPost → List SnapshotForumComment
  best_comments [] existing = comments_of existing
  best_comments (c ∷ comments) existing = c ∷ comments

  unfoldable pub redacted_post : SnapshotForumPost → Option SnapshotForumPost → SnapshotForumPost
  unfolding redacted_comment
  redacted_post p existing = record {
    id = redact p.id;
    channel = redact p.channel;
    title = redact p.title;
    author = redact p.author;
    ts = redact p.ts;
    status = redact p.status;
    body = redact p.body;
    comments =
        map redacted_comment
          (take_last snapshot_max_comments_per_post (best_comments p.comments existing));
  }

  unfoldable pub stored_posts :
      List SnapshotForumPost → JsMap SnapshotForumPost → JsMap SnapshotForumPost
  stored_posts [] by_id = by_id
  stored_posts (p ∷ posts) by_id = stored_posts posts (set p.id p by_id)

  unfoldable pub loaded_posts :
      List SnapshotForumPost → JsMap SnapshotForumPost → JsMap SnapshotForumPost
  unfolding redacted_post
  loaded_posts [] by_id = by_id
  loaded_posts (p ∷ posts) by_id =
      loaded_posts posts (set (redact p.id) (redacted_post p (get (redact p.id) by_id)) by_id)

  unfoldable pub merge_forum_posts :
      List SnapshotForumPost → List SnapshotForumPost → List SnapshotForumPost
  unfolding stored_posts loaded_posts
  merge_forum_posts current incoming =
      map (λ e. e.1) (loaded_posts incoming (stored_posts current []))

unfoldable pub highest : List SnapshotMessage → ℕ → ℕ
highest [] n = n
highest (m ∷ messages) n = highest messages (max n m.id)

unfoldable pub cut_counts : JoinedHistorySnapshot → JoinedHistorySnapshot
cut_counts s = record s {
  messages =
      if ltb snapshot_max_messages (length s.messages)
      then drop (length s.messages - snapshot_max_messages) s.messages
      else s.messages;
  forum_posts =
      if ltb snapshot_max_forum_posts (length s.forum_posts)
      then drop (length s.forum_posts - snapshot_max_forum_posts) s.forum_posts
      else s.forum_posts;
}

module _ (serialized_bytes : JoinedHistorySnapshot → ℕ) where
  -- The test of the `while`.
  unfoldable pub is_too_long : JoinedHistorySnapshot → Bool
  is_too_long s =
      ltb snapshot_max_bytes (serialized_bytes s)
      && (ltb 1 (length s.messages) || ltb 0 (length s.forum_posts))

  -- The body of the `while`.
  unfoldable pub drop_oldest : JoinedHistorySnapshot → JoinedHistorySnapshot
  drop_oldest s =
      if ltb 0 (length s.forum_posts)
      then record s { forum_posts = drop 1 s.forum_posts }
      else record s { messages = drop 1 s.messages }

  unfoldable pub trim : ℕ → JoinedHistorySnapshot → JoinedHistorySnapshot
  unfolding is_too_long drop_oldest
  trim zero s = s
  trim (suc fuel) s = let rest = trim fuel (drop_oldest s) in if is_too_long s then rest else s

  abbrev pub entries : JoinedHistorySnapshot → ℕ
  entries s = length s.messages + length s.forum_posts

  unfoldable pub bound : JoinedHistorySnapshot → JoinedHistorySnapshot
  unfolding cut_counts trim highest
  bound s =
      let kept = trim (entries (cut_counts s)) (cut_counts s) in
      record kept { cursor = highest kept.messages 0 }

-- A batch of history that a surface has loaded.
pub record HistoryEntry : Type 0 where
  pub room_id : JsString
  pub base_url : JsString
  pub messages : List SnapshotMessage
  pub forum_posts : List SnapshotForumPost
  pub saved_at : JsString

abbrev snapshot_or_new : HistoryEntry → JoinedHistoryRead → JoinedHistorySnapshot
snapshot_or_new entry (found s) = s
snapshot_or_new entry _ = record {
  room_id = entry.room_id;
  base_url = entry.base_url;
  cursor = 0;
  saved_at = entry.saved_at;
  messages = [];
  forum_posts = [];
}

module _ (redact : JsString → JsString) (serialized_bytes : JoinedHistorySnapshot → ℕ) where
  unfoldable pub next_snapshot : HistoryEntry → JoinedHistorySnapshot → JoinedHistorySnapshot
  unfolding merge_messages merge_forum_posts bound highest
  next_snapshot entry current =
      let messages = merge_messages redact current.messages entry.messages in
      bound serialized_bytes (record {
        room_id = entry.room_id;
        base_url = entry.base_url;
        cursor = highest messages 0;
        saved_at = entry.saved_at;
        messages = messages;
        forum_posts = merge_forum_posts redact current.forum_posts entry.forum_posts;
      })

  -- `is_still_tracked` is what the guard answers under the lock.
  unfoldable pub record_joined_history :
      (JsString → JsString)
      → HistoryEntry
      → Bool
      → DeviceHome HistoryFile
      → DeviceHome HistoryFile × Option JoinedHistorySnapshot
  unfolding read_joined_history next_snapshot
  record_joined_history digest entry is_still_tracked home =
      let next =
        next_snapshot entry
          (snapshot_or_new entry (read_joined_history digest entry.room_id entry.base_url home)) in
      if is_still_tracked
      then (
        record home {
          histories =
              set (history_path digest entry.room_id entry.base_url) (readable next) home.histories;
        },
        some next,
      )
      else (home, none)
