-- ===== src/Storage/Forums/Comments.antt =====
-- `addForumComment` and `setForumPostStatus` of src/storage/forum-store.ts.
use agentgather.Common.{
  ℕ, ◌≡◌, ◌⊎◌, refl, sym, ap, subst, ◌∙◌, ok_inj, Option, none, some, List, [], ◌∷◌, ◌++◌, arith,
  JsString, Outcome, ok, throw, length, inl, inr, Bool-cases, str_eq, str_eq_iff,
}
use agentgather.Common.Stateful.{
  ◌>>=◌, FailsOr, fails, ends, FailsOr-eq, FailsOr-require, FailsOr-reads,
}
use agentgather.Protocol.Slug.{is_safe_slug}
use agentgather.Protocol.Forum.{
  ForumPost, ForumComment, ForumPostStatus, ForumError, assert_forum_body, assert_valid_forum_post,
  assert_valid_forum_comment, parse_forum_status, status_text,
}
use agentgather.Storage.Boardrooms.{
  forum_error, unsafe_slug, Thread, BoardFiles, BoardError, Action, post_not_found,
}
use agentgather.Storage.Forums.{
  assert_forum_channel, thread, with_thread, read_post_file, read_comments_log, check_comments,
  check_then, new_comment, add_forum_comment, comment_locked, set_forum_post_status, status_locked,
}
use agentgather.Storage.Forums.Creating.{
  FailsOr-from_forum, ReadsRoom-forum_channel, thread-with_thread_self, thread-with_thread_id,
  thread-with_thread_channel,
}

check_comments_same :
    (comments checked : List ForumComment)
    → check_comments comments ≡ ok checked
    → checked ≡ comments
unfolding check_comments check_then
check_comments_same [] checked e = sym (ok_inj e)
check_comments_same (c ∷ comments) checked e =
    by_checks (assert_valid_forum_comment c) (check_comments comments)
      (λ cs. check_comments_same comments cs) e
  where
    by_checks :
        (first : Outcome ForumError (Unit {0})) (rest : Outcome ForumError (List ForumComment))
        → ((cs : List ForumComment) → rest ≡ ok cs → cs ≡ comments)
        → check_then c first rest ≡ ok checked
        → checked ≡ c ∷ comments
    by_checks (throw x) rest h e = absurd (cc e)
    by_checks (ok u) (throw x) h e = absurd (cc e)
    by_checks (ok u) (ok cs) h e = sym (ok_inj e) ∙ ap (λ l. c ∷ l) (h cs refl)

-- A call of the post's reader returned it.
pub FailsOr-read_post :
    {B : Type 0} {R : BoardFiles × Outcome BoardError B → Type 0}
    (to_lower_case : JsString → JsString) (channel_id id : JsString) {rest : ForumPost → Action B}
    {s : BoardFiles}
    → ((p : ForumPost)
        → (thread channel_id id s).post ≡ some p
        → assert_valid_forum_post to_lower_case p ≡ ok tt
        → FailsOr (rest p) s R)
    → FailsOr (read_post_file to_lower_case channel_id id >>= rest) s R
unfolding read_post_file
FailsOr-read_post {B = B} {R = R} to_lower_case channel_id id {rest = rest} {s = s} k =
    by_file (thread channel_id id s).post refl
  where
    by_file :
        (f : Option ForumPost)
        → (thread channel_id id s).post ≡ f
        → FailsOr (read_post_file to_lower_case channel_id id >>= rest) s R
    by_file none e = fails post_not_found (rw (read_post_file, e) refl)
    by_file (some p) e = by_valid (assert_valid_forum_post to_lower_case p) refl
      where
        by_valid :
            (o : Outcome ForumError (Unit {0}))
            → assert_valid_forum_post to_lower_case p ≡ o
            → FailsOr (read_post_file to_lower_case channel_id id >>= rest) s R
        by_valid (throw x) ev = fails (forum_error x) (rw (read_post_file, e, ev) refl)
        by_valid (ok u) ev = FailsOr-eq (rw (read_post_file, e, ev) refl) (k p e ev)

FailsOr-comments_log :
    {B : Type 0} {R : BoardFiles × Outcome BoardError B → Type 0} (channel_id id : JsString)
    (rest : List ForumComment → Action B) {s : BoardFiles}
    → FailsOr (rest (thread channel_id id s).comments) s R
    → FailsOr (read_comments_log channel_id id >>= rest) s R
unfolding read_comments_log
FailsOr-comments_log {B = B} {R = R} channel_id id rest {s = s} k =
    by_checks (check_comments (thread channel_id id s).comments) refl
  where
    by_checks :
        (o : Outcome ForumError (List ForumComment))
        → check_comments (thread channel_id id s).comments ≡ o
        → FailsOr (read_comments_log channel_id id >>= rest) s R
    by_checks (throw x) e = fails (forum_error x) (rw (read_comments_log, e) refl)
    by_checks (ok comments) e =
        FailsOr-eq
          (rw (read_comments_log, e)
            (ap (λ cs. rest cs s)
              (check_comments_same (thread channel_id id s).comments comments e)))
          k

-- The comment that the call makes.
abbrev pub next_comment : JsString → JsString → JsString → JsString → ℕ → BoardFiles → ForumComment
next_comment channel_id id author body now s =
    new_comment channel_id id author body (length (thread channel_id id s).comments) now

pub add_forum_comment_cases :
    (to_lower_case : JsString → JsString) (channel_id id author body : JsString) (now : ℕ)
    (s : BoardFiles)
    → FailsOr (add_forum_comment to_lower_case channel_id id author body now) s (λ r. r ≡ (
      with_thread channel_id id
          (record (thread channel_id id s) {
            comments =
                (thread channel_id id s).comments
                ++ next_comment channel_id id author body now s ∷ [];
          })
          s,
      ok (next_comment channel_id id author body now s),
    ))
unfolding add_forum_comment comment_locked read_comments_log
add_forum_comment_cases to_lower_case channel_id id author body now s =
    let forum = ReadsRoom-forum_channel channel_id s in
    FailsOr-require (is_safe_slug channel_id) unsafe_slug (λ sc.
      FailsOr-require (is_safe_slug id) unsafe_slug (λ si.
        FailsOr-require (is_safe_slug author) unsafe_slug (λ sa.
          FailsOr-from_forum (assert_forum_body body) (λ u eb.
            FailsOr-reads (assert_forum_channel channel_id) forum.outcome forum.here (λ u ef.
              FailsOr-read_post to_lower_case channel_id id (λ p ep ev.
                FailsOr-comments_log channel_id id _ (
                  FailsOr-from_forum
                    (assert_valid_forum_comment (next_comment channel_id id author body now s))
                    (λ u ec. ends refl))))))))

-- A directory is the one that was written, or as it was.
pub thread_cases :
    (channel_id id channel other : JsString) (w : Thread) (s : BoardFiles)
    → (thread channel other (with_thread channel_id id w s) ≡ thread channel other s)
      ⊎ ((channel_id ≡ channel)
          × (id ≡ other)
          × (thread channel other (with_thread channel_id id w s) ≡ w))
thread_cases channel_id id channel other w s = elim (Bool-cases (str_eq channel_id channel)) [
  | inr apart ↦ inl (
      thread-with_thread_channel channel_id id w s channel other
        (λ same. ground (arith, apart, same, str_eq_iff channel_id channel)))
  | inl same ↦
      let ec : channel_id ≡ channel = (str_eq_iff channel_id channel).0 same in
      elim (Bool-cases (str_eq id other)) [
        | inr apart ↦ inl (
            subst (λ k. thread k other (with_thread channel_id id w s) ≡ thread k other s) ec
              (thread-with_thread_id channel_id id w s other
                (λ e. ground (arith, apart, e, str_eq_iff id other))))
        | inl same_id ↦
            let ei : id ≡ other = (str_eq_iff id other).0 same_id in
            inr (
              ec,
              ei,
              subst (λ k. thread k other (with_thread channel_id id w s) ≡ w) ec
                  (subst (λ k. thread channel_id k (with_thread channel_id id w s) ≡ w) ei
                    (thread-with_thread_self channel_id id w s)),
            )
      ]
]

pub set_forum_post_status_cases :
    (to_lower_case : JsString → JsString) (channel_id id : JsString) (status : ForumPostStatus)
    (now : ℕ) (s : BoardFiles)
    → FailsOr (set_forum_post_status to_lower_case channel_id id status now) s (λ r.
      (p : ForumPost) × ((thread channel_id id s).post ≡ some p)
      × (r ≡ (
        with_thread channel_id id
            (record (thread channel_id id s) {
              post = some (record p { status = status; updated_at = now });
            })
            s,
        ok (record p { status = status; updated_at = now }),
      )))
unfolding set_forum_post_status status_locked
set_forum_post_status_cases to_lower_case channel_id id status now s =
    FailsOr-require (is_safe_slug channel_id) unsafe_slug (λ sc.
      FailsOr-require (is_safe_slug id) unsafe_slug (λ si.
        FailsOr-from_forum (parse_forum_status (status_text status)) (λ u es.
          FailsOr-read_post to_lower_case channel_id id (λ p ep ev.
            FailsOr-from_forum
              (assert_valid_forum_post to_lower_case
                (record p { status = status; updated_at = now }))
              (λ u ew. ends (p, ep, refl))))))
