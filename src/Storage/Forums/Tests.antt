-- ===== src/Storage/Forums/Tests.antt =====
-- The theorems on src/storage/forum-store.ts at a concrete room. Its tags are in lower case, so that
-- the identity stands for `toLowerCase`.
use agentgather.Common.{
  ◌≡◌, refl, false, some, none, List, [], ◌∷◌, ◌++◌, js, ok, get, set, str_eq, JsString,
}
use agentgather.Common.Stateful.{FailsOr}
use agentgather.Protocol.Slug.{is_safe_slug}
use agentgather.Protocol.Forum.{
  ForumPost, resolved, opened, normalize_forum_tags, assert_forum_title, assert_forum_body,
  assert_valid_forum_post,
}
use agentgather.Protocol.Spaces.{trim}
use agentgather.Protocol.Boardroom.{Channel, active, forum}
use agentgather.Storage.Boardrooms.{BoardFiles}
use agentgather.Storage.Forums.{
  CreateForumPostInput, create_forum_post, add_forum_comment, thread, with_thread,
}
use agentgather.Storage.Forums.Posts.{IsPosted, create_forum_post_lem}
use agentgather.Storage.Forums.Comments.{next_comment, add_forum_comment_cases}
use agentgather.Storage.Forums.Calls.{Call, create, comment, mark, after_all}
use agentgather.Storage.Forums.Numbering.{AreNumbered, IsNumbered, HaveOwnIds, comment_ids_lem}

abbrev ideas : Channel
ideas = record {
  id = js "ideas";
  name = js "Ideas";
  type = forum;
  lifecycle = active;
  created_at = 200;
}

abbrev files : BoardFiles
files = record {
  room = record { state = none; participants = none; brief = none; messages = none; cursors = [] };
  boardroom = some (record {
    id = js "room";
    name = none;
    channels = ideas ∷ [];
    lifecycle = active;
    created_at = 200;
    updated_at = 200;
    legacy = false;
  });
  cursors = [];
  forum = [];
}

abbrev input : CreateForumPostInput
input = record {
  author = js "ann";
  title = js "Plan";
  body = js "What next?";
  id = some (js "p-1");
  status = none;
  tags = some (js "todo" ∷ js "todo" ∷ []);
}

abbrev to_lower_case : JsString → JsString
to_lower_case text = text

abbrev post : ForumPost
post = record {
  schema_version = 1;
  id = js "p-1";
  channel_id = js "ideas";
  author = js "ann";
  title = js "Plan";
  body = js "What next?";
  status = opened;
  tags = js "todo" ∷ [];
  created_at = 300;
  updated_at = 300;
}

abbrev posted_files : BoardFiles
posted_files =
    with_thread (js "ideas") (js "p-1") (record { post = some post; comments = [] }) files

first_post :
    create_forum_post to_lower_case (js "ideas") input (js "00") 300 files ≡ (posted_files, ok post)
unfolding create_forum_post is_safe_slug str_eq get set trim normalize_forum_tags assert_forum_title
    assert_forum_body assert_valid_forum_post
first_post = refl

bare : (thread (js "ideas") (js "p-1") files).comments ≡ []
unfolding get
bare = refl

create_forum_post_example : IsPosted to_lower_case (js "ideas") post files posted_files
create_forum_post_example =
    create_forum_post_lem to_lower_case (js "ideas") input (js "00") 300 files posted_files post
      first_post bare

add_forum_comment_example :
    FailsOr
      (add_forum_comment to_lower_case (js "ideas") (js "p-1") (js "bob") (js "Ship") 400)
      posted_files
      (λ r. r ≡ (
        with_thread
            (js "ideas")
            (js "p-1")
            (record (thread (js "ideas") (js "p-1") posted_files) {
              comments =
                  (thread (js "ideas") (js "p-1") posted_files).comments
                  ++ next_comment (js "ideas") (js "p-1") (js "bob") (js "Ship") 400 posted_files
                    ∷ [];
            })
            posted_files,
        ok (next_comment (js "ideas") (js "p-1") (js "bob") (js "Ship") 400 posted_files),
      ))
add_forum_comment_example =
    add_forum_comment_cases to_lower_case (js "ideas") (js "p-1") (js "bob") (js "Ship") 400
      posted_files

abbrev calls : List Call
calls =
    create (js "ideas") input (js "00") 300
    ∷ comment (js "ideas") (js "p-1") (js "bob") (js "Ship") 400
    ∷ mark (js "ideas") (js "p-1") resolved 500
    ∷ comment (js "ideas") (js "p-1") (js "ann") (js "Done") 600
    ∷ []

files-IsNumbered : IsNumbered files
unfolding get
files-IsNumbered channel id = tt

comment_ids_example :
    AreNumbered 0 (thread (js "ideas") (js "p-1") (after_all to_lower_case calls files)).comments
    × HaveOwnIds (thread (js "ideas") (js "p-1") (after_all to_lower_case calls files)).comments
comment_ids_example =
    comment_ids_lem to_lower_case calls files files-IsNumbered (js "ideas") (js "p-1")
