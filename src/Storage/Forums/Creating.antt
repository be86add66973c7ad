-- ===== src/Storage/Forums/Creating.antt =====
-- What a call of `createForumPost` of src/storage/forum-store.ts tests and writes.
use agentgather.Common.{
  ℕ, ◌≡◌, ◌≢◌, refl, sym, ap, subst, ◌∙◌, Bool, true, false, Option, none, some, List, [], JsString,
  set, get-set_self, get-set_ne, Outcome, ok, throw,
}
use agentgather.Common.Stateful.{
  ◌>>=◌, FailsOr, fails, ends, FailsOr-eq, FailsOr-require, FailsOr-reads,
}
use agentgather.Protocol.Slug.{is_safe_slug}
use agentgather.Protocol.Forum.{
  ForumPost, ForumError, assert_forum_title, assert_forum_body, assert_valid_forum_post,
  normalize_forum_tags,
}
use agentgather.Protocol.Boardroom.{Boardroom, Channel}
use agentgather.Storage.Boardrooms.{
  forum_error, unsafe_slug, Thread, BoardFiles, BoardError, Action, read_boardroom, find_channel,
  channel_not_found, not_a_forum, post_exists,
}
use agentgather.Storage.Boardrooms.Access.{ReadsRoom, ReadsRoom-board}
use agentgather.Storage.Forums.{
  CreateForumPostInput, from_forum, is_forum, assert_forum_channel, thread, threads, channel_dir,
  with_thread, write_new_post, create_locked, new_post, new_post_id, or_else, create_forum_post,
}

module _ (channel_id id : JsString) (t : Thread) (s : BoardFiles) where
  pub thread-with_thread_self : thread channel_id id (with_thread channel_id id t s) ≡ t
  thread-with_thread_self =
      rw
        (
          get-set_self channel_id (set id t (threads (channel_dir channel_id s))) s.forum,
          get-set_self id t (threads (channel_dir channel_id s)),
        )
        refl

  pub thread-with_thread_id :
      (other : JsString)
      → id ≢ other
      → thread channel_id other (with_thread channel_id id t s) ≡ thread channel_id other s
  thread-with_thread_id other h =
      rw
        (
          get-set_self channel_id (set id t (threads (channel_dir channel_id s))) s.forum,
          get-set_ne id other t (threads (channel_dir channel_id s)) h,
        )
        refl

  pub thread-with_thread_channel :
      (channel other : JsString)
      → channel_id ≢ channel
      → thread channel other (with_thread channel_id id t s) ≡ thread channel other s
  thread-with_thread_channel channel other h =
      rw (get-set_ne channel_id channel (set id t (threads (channel_dir channel_id s))) s.forum h)
        refl

pub FailsOr-from_forum :
    {A B : Type 0} {R : BoardFiles × Outcome BoardError B → Type 0} (o : Outcome ForumError A)
    {rest : A → Action B} {s : BoardFiles}
    → ((a : A) → o ≡ ok a → FailsOr (rest a) s R)
    → FailsOr (from_forum o >>= rest) s R
FailsOr-from_forum (ok a) {s = s} k = FailsOr-eq refl (k a refl)
FailsOr-from_forum (throw e) k = fails (forum_error e) refl

pub ReadsRoom-forum_channel :
    (channel_id : JsString) (s : BoardFiles) → ReadsRoom (assert_forum_channel channel_id) s
unfolding assert_forum_channel
ReadsRoom-forum_channel channel_id s = by_board board.outcome refl
  where
    board : ReadsRoom read_boardroom s
    board = ReadsRoom-board s

    by_channel :
        (b : Boardroom) (f : Option Channel)
        → board.outcome ≡ ok b
        → find_channel channel_id b.channels ≡ f
        → ReadsRoom (assert_forum_channel channel_id) s
    by_channel b none eb ef = record {
      outcome = throw channel_not_found;
      here = rw (assert_forum_channel, board.here, eb, ef) refl;
      there = λ m k. rw (assert_forum_channel, board.there m k, eb, ef) refl;
    }
    by_channel b (some c) eb ef = by_type (is_forum c.type) refl
      where
        by_type : (f : Bool) → is_forum c.type ≡ f → ReadsRoom (assert_forum_channel channel_id) s
        by_type true et = record {
          outcome = ok tt;
          here = rw (assert_forum_channel, board.here, eb, ef, et) refl;
          there = λ m k. rw (assert_forum_channel, board.there m k, eb, ef, et) refl;
        }
        by_type false et = record {
          outcome = throw not_a_forum;
          here = rw (assert_forum_channel, board.here, eb, ef, et) refl;
          there = λ m k. rw (assert_forum_channel, board.there m k, eb, ef, et) refl;
        }

    by_board :
        (o : Outcome BoardError Boardroom)
        → board.outcome ≡ o
        → ReadsRoom (assert_forum_channel channel_id) s
    by_board (throw e) eb = record {
      outcome = throw e;
      here = rw (assert_forum_channel, board.here, eb) refl;
      there = λ m k. rw (assert_forum_channel, board.there m k, eb) refl;
    }
    by_board (ok b) eb = by_channel b (find_channel channel_id b.channels) eb refl

-- The post that a call makes.
abbrev pub made : JsString → CreateForumPostInput → JsString → List JsString → ℕ → ForumPost
made channel_id input random_hex tags now =
    new_post channel_id input (new_post_id input.id random_hex) tags now

-- A call that made a post, with what it tested.
pub record Created (to_lower_case : JsString → JsString) (channel_id : JsString)
    (input : CreateForumPostInput) (random_hex : JsString) (now : ℕ) (s : BoardFiles)
    (r : BoardFiles × Outcome BoardError ForumPost) : Type 0 where
  pub tags : List JsString
  pub safe_channel : is_safe_slug channel_id ≡ true
  pub safe_id : is_safe_slug (new_post_id input.id random_hex) ≡ true
  pub in_forum : assert_forum_channel channel_id s ≡ (s, ok tt)
  pub normal_tags : normalize_forum_tags to_lower_case (or_else input.tags []) ≡ ok tags
  pub valid :
      assert_valid_forum_post to_lower_case (made channel_id input random_hex tags now) ≡ ok tt
  pub absent : (thread channel_id (new_post_id input.id random_hex) s).post ≡ none
  pub written : r ≡ (
    with_thread channel_id
        (new_post_id input.id random_hex)
        (record (thread channel_id (new_post_id input.id random_hex) s) {
          post = some (made channel_id input random_hex tags now);
        })
        s,
    ok (made channel_id input random_hex tags now),
  )

pub create_forum_post_cases :
    (to_lower_case : JsString → JsString) (channel_id : JsString) (input : CreateForumPostInput)
    (random_hex : JsString) (now : ℕ) (s : BoardFiles)
    → FailsOr
        (create_forum_post to_lower_case channel_id input random_hex now)
        s
        (Created to_lower_case channel_id input random_hex now s)
unfolding create_forum_post create_locked
create_forum_post_cases to_lower_case channel_id input random_hex now s =
    let forum = ReadsRoom-forum_channel channel_id s in
    FailsOr-require (is_safe_slug channel_id) unsafe_slug (λ sc.
      FailsOr-require (is_safe_slug input.author) unsafe_slug (λ sa.
        FailsOr-from_forum (assert_forum_title input.title) (λ u et.
          FailsOr-from_forum (assert_forum_body input.body) (λ u eb.
            FailsOr-reads (assert_forum_channel channel_id) forum.outcome forum.here (λ u ef.
              FailsOr-require (is_safe_slug (new_post_id input.id random_hex)) unsafe_slug (λ si.
                FailsOr-from_forum (normalize_forum_tags to_lower_case (or_else input.tags []))
                  (λ tags eg.
                    FailsOr-from_forum
                      (assert_valid_forum_post to_lower_case
                        (made channel_id input random_hex tags now))
                      (λ u ev.
                        by_file tags sc si (forum.here ∙ ap (λ o. (s, o)) ef) eg ev
                          (thread channel_id (new_post_id input.id random_hex) s).post refl))))))))
  where
    by_file :
        (tags : List JsString)
        → is_safe_slug channel_id ≡ true
        → is_safe_slug (new_post_id input.id random_hex) ≡ true
        → assert_forum_channel channel_id s ≡ (s, ok tt)
        → normalize_forum_tags to_lower_case (or_else input.tags []) ≡ ok tags
        → assert_valid_forum_post to_lower_case (made channel_id input random_hex tags now) ≡ ok tt
        → (f : Option ForumPost) → (thread channel_id (new_post_id input.id random_hex) s).post ≡ f
        → FailsOr
            (create_locked channel_id
              (new_post_id input.id random_hex)
              (made channel_id input random_hex tags now))
            s
            (Created to_lower_case channel_id input random_hex now s)
    by_file tags sc si ef eg ev (some old) ep =
        fails post_exists (rw (create_locked, ep, write_new_post) refl)
    by_file tags sc si ef eg ev none ep = ends (record {
      tags = tags;
      safe_channel = sc;
      safe_id = si;
      in_forum = ef;
      normal_tags = eg;
      valid = ev;
      absent = ep;
      written = rw (create_locked, ep, write_new_post) refl;
    })

pub created :
    (to_lower_case : JsString → JsString) (channel_id : JsString) (input : CreateForumPostInput)
    (random_hex : JsString) (now : ℕ) (s t : BoardFiles) (p : ForumPost)
    → create_forum_post to_lower_case channel_id input random_hex now s ≡ (t, ok p)
    → Created to_lower_case channel_id input random_hex now s (t, ok p)
created to_lower_case channel_id input random_hex now s t p e =
    by_case (create_forum_post_cases to_lower_case channel_id input random_hex now s)
  where
    by_case :
        FailsOr
          (create_forum_post to_lower_case channel_id input random_hex now)
          s
          (Created to_lower_case channel_id input random_hex now s)
        → Created to_lower_case channel_id input random_hex now s (t, ok p)
    by_case (fails x h) = absurd (cc (sym e ∙ h))
    by_case (ends c) = subst (Created to_lower_case channel_id input random_hex now s) e c
