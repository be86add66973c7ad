-- ===== src/Protocol/Forum.antt =====
-- src/protocol/forum.ts: posts and comments of a forum channel. `to_lower_case` is
-- `String.prototype.toLowerCase`; timestamps are epoch milliseconds.
pub mod Tags
mod Tests
use agentgather.Common.{
  ℕ, Bool, true, false, not, ◌&&◌, Option, none, some, List, [], ◌∷◌, ◌++◌, JsString, js, str_eq,
  Outcome, ok, throw, guard, ◌>>=◌, ◌>>◌, leb, ◌==◌, if◌then◌else◌, any, length,
}
use agentgather.Protocol.Slug.{is_safe_slug}
use agentgather.Protocol.Spaces.{trim}

abbrev pub forum_schema_version : ℕ
forum_schema_version = 1

pub data ForumPostStatus : Type 0 where
  opened answered resolved closed : ForumPostStatus

abbrev pub forum_post_statuses : List ForumPostStatus
forum_post_statuses = opened ∷ answered ∷ resolved ∷ closed ∷ []

abbrev pub default_forum_post_status : ForumPostStatus
default_forum_post_status = opened

unfoldable pub status_text : ForumPostStatus → JsString
status_text opened = js "open"
status_text answered = js "answered"
status_text resolved = js "resolved"
status_text closed = js "closed"

abbrev pub max_forum_tags : ℕ
max_forum_tags = 12

abbrev pub max_forum_title_length : ℕ
max_forum_title_length = 200

abbrev pub max_forum_body_length : ℕ
max_forum_body_length = 16000

pub record ForumPost : Type 0 where
  pub schema_version : ℕ
  pub id : JsString
  pub channel_id : JsString
  pub author : JsString
  pub title : JsString
  pub body : JsString
  pub status : ForumPostStatus
  pub tags : List JsString
  pub created_at : ℕ
  pub updated_at : ℕ

pub record ForumComment : Type 0 where
  pub schema_version : ℕ
  pub id : JsString
  pub post_id : JsString
  pub channel_id : JsString
  pub author : JsString
  pub body : JsString
  pub created_at : ℕ

pub data ForumError : Type 0 where
  bad_status bad_tag too_many_tags title_required title_too_long body_too_long : ForumError
  bad_schema_version unsafe_slug comment_body_required : ForumError

status_among : List ForumPostStatus → JsString → Outcome ForumError ForumPostStatus
unfolding status_text
status_among [] value = throw bad_status
status_among (s ∷ statuses) value =
    let rest = status_among statuses value in if str_eq (status_text s) value then ok s else rest

unfoldable pub parse_forum_status : JsString → Outcome ForumError ForumPostStatus
unfolding status_among
parse_forum_status value = status_among forum_post_statuses value

abbrev pub has_tag : JsString → List JsString → Bool
has_tag tag tags = any (str_eq tag) tags

abbrev is_empty : JsString → Bool
is_empty [] = true
is_empty (c ∷ s) = false

-- One turn of the loop, for a tag that is trimmed and in lower case.
unfoldable pub push_tag : JsString → List JsString → Outcome ForumError (List JsString)
push_tag tag out =
    if is_empty tag
    then ok out
    else if has_tag tag out
    then ok out
    else if is_safe_slug tag
    then ok (out ++ tag ∷ [])
    else throw bad_tag

-- The loop of `normalizeForumTags`, from the tags `out`.
unfoldable pub push_tags :
    (JsString → JsString) → List JsString → List JsString → Outcome ForumError (List JsString)
unfolding push_tag
push_tags to_lower_case [] out = ok out
push_tags to_lower_case (raw ∷ tags) out = do
  next ← push_tag (to_lower_case (trim raw)) out
  push_tags to_lower_case tags next

unfoldable pub normalize_forum_tags :
    (JsString → JsString) → List JsString → Outcome ForumError (List JsString)
unfolding push_tags
normalize_forum_tags to_lower_case tags = do
  out ← push_tags to_lower_case tags []
  guard (leb (length out) max_forum_tags) too_many_tags
  ok out

unfoldable pub assert_forum_title : JsString → Outcome ForumError (Unit {0})
assert_forum_title title = do
  guard (not (is_empty (trim title))) title_required
  guard (leb (length title) max_forum_title_length) title_too_long

unfoldable pub assert_forum_body : JsString → Outcome ForumError (Unit {0})
assert_forum_body body = guard (leb (length body) max_forum_body_length) body_too_long

unfoldable pub assert_schema_version : ℕ → Outcome ForumError (Unit {0})
assert_schema_version version = guard (version == forum_schema_version) bad_schema_version

abbrev pub assert_slug : JsString → Outcome ForumError (Unit {0})
assert_slug value = guard (is_safe_slug value) unsafe_slug

abbrev drop_value : {A : Type 0} → Outcome ForumError A → Outcome ForumError (Unit {0})
drop_value (ok a) = ok tt
drop_value (throw e) = throw e

-- The status is one of the type's, so that `parseForumStatus` accepts its text.
unfoldable pub assert_valid_forum_post :
    (JsString → JsString) → ForumPost → Outcome ForumError (Unit {0})
unfolding assert_schema_version assert_forum_title assert_forum_body parse_forum_status
    normalize_forum_tags
assert_valid_forum_post to_lower_case post = do
  assert_schema_version post.schema_version
  assert_slug post.id
  assert_slug post.channel_id
  assert_slug post.author
  assert_forum_title post.title
  assert_forum_body post.body
  drop_value (parse_forum_status (status_text post.status))
  drop_value (normalize_forum_tags to_lower_case post.tags)

unfoldable pub assert_valid_forum_comment : ForumComment → Outcome ForumError (Unit {0})
unfolding assert_schema_version assert_forum_body
assert_valid_forum_comment comment = do
  assert_schema_version comment.schema_version
  assert_slug comment.id
  assert_slug comment.post_id
  assert_slug comment.channel_id
  assert_slug comment.author
  guard (not (is_empty (trim comment.body))) comment_body_required
  assert_forum_body comment.body
