-- ===== src/Storage/Forums/Posts.antt =====
-- `createForumPost` and `readForumPost` of src/storage/forum-store.ts.
use agentgather.Common.{
  ℕ, ◌≡◌, ◌≢◌, refl, sym, ap, subst, ◌∙◌, ok_inj, some, List, [], ◌∷◌, inl, inr, JsString, Outcome,
  ok, throw,
}
use agentgather.Common.Stateful.{FailsOr, fails, ends}
use agentgather.Protocol.Forum.{ForumPost}
use agentgather.Storage.Boardrooms.{Thread, BoardFiles, BoardError}
use agentgather.Storage.Forums.{
  CreateForumPostInput, assert_forum_channel, thread, with_thread, new_post, new_post_id,
  create_forum_post, add_forum_comment, set_forum_post_status, read_forum_post, read_post_file,
  read_comments_log, check_comments,
}
use agentgather.Storage.Forums.Calls.{Call, create, comment, mark, after, after_all, FailsOr-keeps}
use agentgather.Storage.Forums.Comments.{
  thread_cases, add_forum_comment_cases, set_forum_post_status_cases,
}
use agentgather.Storage.Forums.Creating.{
  Created, created, made, thread-with_thread_self, thread-with_thread_id, ReadsRoom-forum_channel,
  create_forum_post_cases,
}

-- The post stands in the forum: it is read back without comments, the other posts are as they were,
-- and whatever is called later, no call makes another post with its id.
pub record IsPosted (to_lower_case : JsString → JsString) (channel_id : JsString) (p : ForumPost)
    (s t : BoardFiles) : Type 0 where
  pub readable : read_forum_post to_lower_case channel_id p.id t ≡ (t, ok (p, []))
  pub others :
      (other : JsString) → p.id ≢ other → thread channel_id other t ≡ thread channel_id other s
  pub kept :
      (calls : List Call) (input : CreateForumPostInput) (random_hex : JsString) (now : ℕ)
      → new_post_id input.id random_hex ≡ p.id
      → let u = after_all to_lower_case calls t in
        (e : BoardError) × (create_forum_post to_lower_case channel_id input random_hex now u
          ≡ (u, throw e))

-- The directory of a post has a post.
abbrev HasPost : JsString → JsString → BoardFiles → Type 0
HasPost channel id s = (p : ForumPost) × ((thread channel id s).post ≡ some p)

HasPost-with_thread :
    (channel id channel_id post_id : JsString) (w : Thread) (s : BoardFiles)
    → (channel_id ≡ channel → post_id ≡ id → (p : ForumPost) × (w.post ≡ some p))
    → HasPost channel id s
    → HasPost channel id (with_thread channel_id post_id w s)
HasPost-with_thread channel id channel_id post_id w s hw h =
    elim (thread_cases channel_id post_id channel id w s) [
      | inl same ↦ subst (λ t. (p : ForumPost) × (t.post ≡ some p)) (sym same) h
      | inr (ec, ei, written) ↦
          subst (λ t. (p : ForumPost) × (t.post ≡ some p)) (sym written) (hw ec ei)
    ]

after-HasPost :
    (to_lower_case : JsString → JsString) (channel id : JsString) (c : Call) (s : BoardFiles)
    → HasPost channel id s
    → HasPost channel id (after to_lower_case c s)
unfolding after
after-HasPost to_lower_case channel id (create channel_id input random_hex now) s h =
    FailsOr-keeps (HasPost channel id)
      (create_forum_post to_lower_case channel_id input random_hex now) s h
      (create_forum_post_cases to_lower_case channel_id input random_hex now s)
      (λ c.
        subst (λ x. HasPost channel id x.0) (sym c.written)
          (HasPost-with_thread channel id channel_id (new_post_id input.id random_hex) _ s
            (λ ec ei. (made channel_id input random_hex c.tags now, refl)) h))
after-HasPost to_lower_case channel id (comment channel_id post_id author body now) s h =
    FailsOr-keeps (HasPost channel id)
      (add_forum_comment to_lower_case channel_id post_id author body now) s h
      (add_forum_comment_cases to_lower_case channel_id post_id author body now s)
      (λ e.
        subst (λ x. HasPost channel id x.0) (sym e)
          (HasPost-with_thread channel id channel_id post_id _ s
            (λ ec ei.
              subst (λ k. HasPost k post_id s) (sym ec)
                (subst (λ k. HasPost channel k s) (sym ei) h))
            h))
after-HasPost to_lower_case channel id (mark channel_id post_id status now) s h =
    FailsOr-keeps (HasPost channel id)
      (set_forum_post_status to_lower_case channel_id post_id status now) s h
      (set_forum_post_status_cases to_lower_case channel_id post_id status now s)
      (λ e.
        subst (λ x. HasPost channel id x.0) (sym e.2)
          (HasPost-with_thread channel id channel_id post_id _ s
            (λ ec ei. (record e.0 { status = status; updated_at = now }, refl)) h))

after_all-HasPost :
    (to_lower_case : JsString → JsString) (channel id : JsString) (calls : List Call)
    (s : BoardFiles)
    → HasPost channel id s
    → HasPost channel id (after_all to_lower_case calls s)
unfolding after_all
after_all-HasPost to_lower_case channel id [] s h = h
after_all-HasPost to_lower_case channel id (c ∷ calls) s h =
    after_all-HasPost to_lower_case channel id calls (after to_lower_case c s)
      (after-HasPost to_lower_case channel id c s h)

no_second :
    (to_lower_case : JsString → JsString) (channel_id id : JsString) (t : BoardFiles)
    (input : CreateForumPostInput) (random_hex : JsString) (now : ℕ)
    → HasPost channel_id id t
    → new_post_id input.id random_hex ≡ id
    → (e : BoardError) × (create_forum_post to_lower_case channel_id input random_hex now t
        ≡ (t, throw e))
no_second to_lower_case channel_id id t input random_hex now there same =
    by_case (create_forum_post_cases to_lower_case channel_id input random_hex now t)
  where
    by_case :
        FailsOr
          (create_forum_post to_lower_case channel_id input random_hex now)
          t
          (Created to_lower_case channel_id input random_hex now t)
        → (e : BoardError) × (create_forum_post to_lower_case channel_id input random_hex now t
            ≡ (t, throw e))
    by_case (fails e h) = (e, h)
    by_case (ends c) =
        absurd (cc (sym there.1 ∙ ap (λ id. (thread channel_id id t).post) (sym same) ∙ c.absent))

posted :
    (to_lower_case : JsString → JsString) (channel_id : JsString) (input : CreateForumPostInput)
    (random_hex : JsString) (now : ℕ) (s : BoardFiles)
    (r : BoardFiles × Outcome BoardError ForumPost)
    (c : Created to_lower_case channel_id input random_hex now s r)
    → (thread channel_id (new_post_id input.id random_hex) s).comments ≡ []
    → IsPosted to_lower_case channel_id (made channel_id input random_hex c.tags now) s (
        with_thread channel_id
          (new_post_id input.id random_hex)
          (record { post = some (made channel_id input random_hex c.tags now); comments = [] })
          s)
unfolding read_forum_post read_post_file read_comments_log check_comments new_post
posted to_lower_case channel_id input random_hex now s r c bare =
    let id = new_post_id input.id random_hex in
    let p = made channel_id input random_hex c.tags now in
    let t = with_thread channel_id id (record { post = some p; comments = [] }) s in
    let there : thread channel_id id t ≡ record { post = some p; comments = [] } =
      thread-with_thread_self channel_id id (record { post = some p; comments = [] }) s in
    let forum = ReadsRoom-forum_channel channel_id s in
    let in_forum : assert_forum_channel channel_id t ≡ (t, ok tt) =
      forum.there s.cursors t.forum ∙ ap (λ x. (t, x.1)) (sym forum.here ∙ c.in_forum) in
    record {
      readable =
          rw
            (
              c.safe_channel, c.safe_id, in_forum, read_post_file, there, c.valid,
              read_comments_log, there, check_comments,
            )
            refl;
      others = thread-with_thread_id channel_id id (record { post = some p; comments = [] }) s;
      kept = λ calls input2 random_hex2 now2 same.
          no_second to_lower_case channel_id id (after_all to_lower_case calls t) input2 random_hex2
            now2 (after_all-HasPost to_lower_case channel_id id calls t (p, ap (λ x. x.post) there))
            same;
    }

-- A post that `createForumPost` returns, in a directory without comments, is read back as it was
-- returned, and every other post of the channel is as before. After any further calls that create
-- posts, comment and set statuses, a call of `createForumPost` with the same channel and id throws
-- and changes nothing.
pub create_forum_post_lem :
    (to_lower_case : JsString → JsString) (channel_id : JsString) (input : CreateForumPostInput)
    (random_hex : JsString) (now : ℕ) (s t : BoardFiles) (p : ForumPost)
    → create_forum_post to_lower_case channel_id input random_hex now s ≡ (t, ok p)
    → (thread channel_id p.id s).comments ≡ []
    → IsPosted to_lower_case channel_id p s t
unfolding new_post
create_forum_post_lem to_lower_case channel_id input random_hex now s t p e bare =
    let c = created to_lower_case channel_id input random_hex now s t p e in
    let q = made channel_id input random_hex c.tags now in
    let same_post : p ≡ q = ok_inj (ap (λ r. r.1) c.written) in
    let bare' : (thread channel_id (new_post_id input.id random_hex) s).comments ≡ [] =
      ap (λ id. (thread channel_id id s).comments) (sym (ap (λ x. x.id) same_post)) ∙ bare in
    let same_files : t
        ≡ with_thread channel_id (new_post_id input.id random_hex)
            (record { post = some q; comments = [] }) s =
      ap (λ r. r.0) c.written
      ∙ ap
          (λ cs.
            with_thread channel_id (new_post_id input.id random_hex)
              (record { post = some q; comments = cs }) s)
          bare' in
    subst (λ x. IsPosted to_lower_case channel_id p s x) (sym same_files)
      (subst
        (λ x. IsPosted to_lower_case channel_id x s (
          with_thread channel_id (new_post_id input.id random_hex)
            (record { post = some q; comments = [] }) s))
        (sym same_post) (posted to_lower_case channel_id input random_hex now s (t, ok p) c bare'))
