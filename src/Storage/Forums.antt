-- ===== src/Storage/Forums.antt =====
-- src/storage/forum-store.ts: the posts of a room's forum channels and their comments. The directory
-- of a post is an entry of its channel's map, in the order in which it was made. `random_hex` is what
-- `randomBytes` gives for a post without an id. Texts of timestamps are ordered as the times are.
pub mod Calls
pub mod Creating
pub mod Posts
pub mod Comments
pub mod Numbering
mod Tests
use agentgather.Common.{
  ℕ, Bool, true, false, not, ◌+◌, Option, none, some, List, [], ◌∷◌, ◌++◌, js, JsString, JsMap, get,
  set, Outcome, ok, throw, leb, ltb, if◌then◌else◌, length,
}
use agentgather.Common.Decimal.{decimal}
use agentgather.Common.Stateful.{Stateful, ◌>>=◌, ◌>>◌, and_then, return, require, or_fail, modify}
use agentgather.Protocol.Slug.{is_safe_slug}
use agentgather.Protocol.Forum.{
  ForumPost, ForumComment, ForumPostStatus, ForumError, forum_schema_version,
  default_forum_post_status, assert_forum_title, assert_forum_body, assert_valid_forum_post,
  assert_valid_forum_comment, normalize_forum_tags, parse_forum_status, status_text,
}
use agentgather.Protocol.Boardroom.{ChannelType, forum, chat, Boardroom}
use agentgather.Storage.Boardrooms.{
  Thread, BoardFiles, BoardError, Action, assert_safe_slug, read_boardroom, find_channel,
  forum_error, channel_not_found, not_a_forum, post_exists, post_not_found,
}

pub record CreateForumPostInput : Type 0 where
  pub author : JsString
  pub title : JsString
  pub body : JsString
  pub id : Option JsString
  pub status : Option ForumPostStatus
  pub tags : Option (List JsString)

abbrev pub from_forum : {A : Type 0} → Outcome ForumError A → Action A
from_forum (ok a) s = (s, ok a)
from_forum (throw e) s = (s, throw (forum_error e))

abbrev pub is_forum : ChannelType → Bool
is_forum forum = true
is_forum chat = false

unfoldable pub assert_forum_channel : JsString → Action (Unit {0})
unfolding read_boardroom
assert_forum_channel channel_id = do
  boardroom ← read_boardroom
  channel ← or_fail (find_channel channel_id boardroom.channels) channel_not_found
  require (is_forum channel.type) not_a_forum

abbrev pub or_else : {A : Type 0} → Option A → A → A
or_else none a = a
or_else (some b) a = b

-- `forum/<channel>` in the room's directory, and the post's directory in it.
abbrev pub channel_dir : JsString → BoardFiles → Option (JsMap Thread)
channel_dir channel_id s = get channel_id s.forum

abbrev pub threads : Option (JsMap Thread) → JsMap Thread
threads none = []
threads (some posts) = posts

abbrev pub no_thread : Thread
no_thread = record { post = none; comments = [] }

abbrev pub thread : JsString → JsString → BoardFiles → Thread
thread channel_id id s = or_else (get id (threads (channel_dir channel_id s))) no_thread

abbrev pub with_thread : JsString → JsString → Thread → BoardFiles → BoardFiles
with_thread channel_id id t s = record s {
  forum = set channel_id (set id t (threads (channel_dir channel_id s))) s.forum;
}

abbrev pub write_post : JsString → JsString → ForumPost → Action (Unit {0})
write_post channel_id id post =
    modify (λ s. with_thread channel_id id (record (thread channel_id id s) { post = some post }) s)

-- `writeJsonNew`: the flag `wx` fails on a file that is there.
unfoldable pub write_new_post :
    JsString → JsString → ForumPost → Option ForumPost → Action (Unit {0})
write_new_post channel_id id post (some old) s = (s, throw post_exists)
write_new_post channel_id id post none s = write_post channel_id id post s

-- The part of `createForumPost` under the lock.
unfoldable pub create_locked : JsString → JsString → ForumPost → Action ForumPost
unfolding write_new_post
create_locked channel_id id post = do
  λ s. write_new_post channel_id id post (thread channel_id id s).post s
  return post

unfoldable pub new_post : JsString → CreateForumPostInput → JsString → List JsString → ℕ → ForumPost
new_post channel_id input id tags now = record {
  schema_version = forum_schema_version;
  id = id;
  channel_id = channel_id;
  author = input.author;
  title = input.title;
  body = input.body;
  status = or_else input.status default_forum_post_status;
  tags = tags;
  created_at = now;
  updated_at = now;
}

abbrev pub new_post_id : Option JsString → JsString → JsString
new_post_id none random_hex = js "post-" ++ random_hex
new_post_id (some id) random_hex = id

unfoldable pub create_forum_post :
    (JsString → JsString) → JsString → CreateForumPostInput → JsString → ℕ → Action ForumPost
unfolding assert_forum_channel create_locked new_post
create_forum_post to_lower_case channel_id input random_hex now = do
  assert_safe_slug channel_id
  assert_safe_slug input.author
  from_forum (assert_forum_title input.title)
  from_forum (assert_forum_body input.body)
  assert_forum_channel channel_id
  assert_safe_slug (new_post_id input.id random_hex)
  tags ← from_forum (normalize_forum_tags to_lower_case (or_else input.tags []))
  from_forum (
      assert_valid_forum_post to_lower_case
        (new_post channel_id input (new_post_id input.id random_hex) tags now))
  create_locked channel_id (new_post_id input.id random_hex)
      (new_post channel_id input (new_post_id input.id random_hex) tags now)

check_then :
    ForumComment
    → Outcome ForumError (Unit {0})
    → Outcome ForumError (List ForumComment)
    → Outcome ForumError (List ForumComment)
check_then c (throw e) rest = throw e
check_then c (ok u) (throw e) = throw e
check_then c (ok u) (ok comments) = ok (c ∷ comments)

unfoldable pub check_comments : List ForumComment → Outcome ForumError (List ForumComment)
unfolding check_then assert_valid_forum_comment
check_comments [] = ok []
check_comments (c ∷ comments) =
    check_then c (assert_valid_forum_comment c) (check_comments comments)

unfoldable pub read_comments_log : JsString → JsString → Action (List ForumComment)
unfolding check_comments
read_comments_log channel_id id s = from_forum (check_comments (thread channel_id id s).comments) s

-- `assertValidForumPost(await readJson(postFile))`.
unfoldable pub read_post_file : (JsString → JsString) → JsString → JsString → Action ForumPost
unfolding assert_valid_forum_post
read_post_file to_lower_case channel_id id = do
  post ← (λ s. or_fail (thread channel_id id s).post post_not_found s)
  from_forum (assert_valid_forum_post to_lower_case post)
  return post

unfoldable pub read_forum_post :
    (JsString → JsString) → JsString → JsString → Action (ForumPost × List ForumComment)
unfolding assert_forum_channel read_post_file read_comments_log
read_forum_post to_lower_case channel_id post_id = do
  assert_safe_slug channel_id
  assert_safe_slug post_id
  assert_forum_channel channel_id
  post ← read_post_file to_lower_case channel_id post_id
  comments ← read_comments_log channel_id post_id
  return (post, comments)

-- `Array.prototype.sort` is stable.
unfoldable pub insert_post : ForumPost → List ForumPost → List ForumPost
insert_post post [] = post ∷ []
insert_post post (p ∷ posts) =
    let rest = insert_post post posts in
    if leb post.created_at p.created_at then post ∷ p ∷ posts else p ∷ rest

unfoldable pub sort_posts : List ForumPost → List ForumPost
unfolding insert_post
sort_posts [] = []
sort_posts (p ∷ posts) = insert_post p (sort_posts posts)

collect_then :
    ForumPost
    → Outcome ForumError (Unit {0})
    → Outcome ForumError (List ForumPost)
    → Outcome ForumError (List ForumPost)
collect_then p (throw e) rest = throw e
collect_then p (ok u) (throw e) = throw e
collect_then p (ok u) (ok posts) = ok (p ∷ posts)

collect_post :
    (JsString → JsString)
    → Option ForumPost
    → Outcome ForumError (List ForumPost)
    → Outcome ForumError (List ForumPost)
unfolding collect_then
collect_post to_lower_case none rest = rest
collect_post to_lower_case (some p) rest =
    collect_then p (assert_valid_forum_post to_lower_case p) rest

-- The loop of `listForumPosts`: a directory without a post is passed over.
unfoldable pub collect_posts :
    (JsString → JsString) → JsMap Thread → Outcome ForumError (List ForumPost)
unfolding collect_then collect_post assert_valid_forum_post
collect_posts to_lower_case [] = ok []
collect_posts to_lower_case ((id, t) ∷ entries) =
    collect_post to_lower_case t.post (collect_posts to_lower_case entries)

unfoldable pub list_forum_posts : (JsString → JsString) → JsString → Action (List ForumPost)
unfolding assert_forum_channel collect_posts sort_posts
list_forum_posts to_lower_case channel_id = do
  assert_safe_slug channel_id
  assert_forum_channel channel_id
  posts ← (λ s. from_forum (collect_posts to_lower_case (threads (channel_dir channel_id s))) s)
  return (sort_posts posts)

unfoldable pub new_comment : JsString → JsString → JsString → JsString → ℕ → ℕ → ForumComment
unfolding decimal
new_comment channel_id post_id author body existing now = record {
  schema_version = forum_schema_version;
  id = js "c" ++ decimal (existing + 1);
  post_id = post_id;
  channel_id = channel_id;
  author = author;
  body = body;
  created_at = now;
}

abbrev append_comment : JsString → JsString → ForumComment → Action (Unit {0})
append_comment channel_id id c = modify (λ s.
    with_thread channel_id id
      (record (thread channel_id id s) { comments = (thread channel_id id s).comments ++ c ∷ [] })
      s)

-- The part of `addForumComment` under the lock.
unfoldable pub comment_locked :
    (JsString → JsString) → JsString → JsString → JsString → JsString → ℕ → Action ForumComment
unfolding read_post_file read_comments_log new_comment
comment_locked to_lower_case channel_id post_id author body now = do
  post ← read_post_file to_lower_case channel_id post_id
  existing ← read_comments_log channel_id post_id
  from_forum (
      assert_valid_forum_comment (new_comment channel_id post_id author body (length existing) now))
  append_comment channel_id post_id
      (new_comment channel_id post_id author body (length existing) now)
  return (new_comment channel_id post_id author body (length existing) now)

unfoldable pub add_forum_comment :
    (JsString → JsString) → JsString → JsString → JsString → JsString → ℕ → Action ForumComment
unfolding assert_forum_channel comment_locked
add_forum_comment to_lower_case channel_id post_id author body now = do
  assert_safe_slug channel_id
  assert_safe_slug post_id
  assert_safe_slug author
  from_forum (assert_forum_body body)
  assert_forum_channel channel_id
  comment_locked to_lower_case channel_id post_id author body now

-- The part of `setForumPostStatus` under the lock.
unfoldable pub status_locked :
    (JsString → JsString) → JsString → JsString → ForumPostStatus → ℕ → Action ForumPost
unfolding read_post_file
status_locked to_lower_case channel_id post_id status now = do
  post ← read_post_file to_lower_case channel_id post_id
  from_forum
      (assert_valid_forum_post to_lower_case (record post { status = status; updated_at = now }))
  write_post channel_id post_id (record post { status = status; updated_at = now })
  return (record post { status = status; updated_at = now })

unfoldable pub set_forum_post_status :
    (JsString → JsString) → JsString → JsString → ForumPostStatus → ℕ → Action ForumPost
unfolding status_locked parse_forum_status
set_forum_post_status to_lower_case channel_id post_id status now = do
  assert_safe_slug channel_id
  assert_safe_slug post_id
  parsed ← from_forum (parse_forum_status (status_text status))
  status_locked to_lower_case channel_id post_id status now
