-- ===== src/Storage/Forums/Numbering.antt =====
-- The ids of comments in src/storage/forum-store.ts.
use agentgather.Common.{
  ℕ, ◌+◌, ◌≡◌, ◌≢◌, ◌<◌, sym, ap, subst, ◌∙◌, List, [], ◌∷◌, ◌++◌, arith, JsString, js, length, inl,
  inr, All,
}
use agentgather.Common.Decimal.{decimal, decimal_inj}
use agentgather.Protocol.Forum.{ForumComment}
use agentgather.Storage.Boardrooms.{Thread, BoardFiles}
use agentgather.Storage.Forums.{
  thread, with_thread, new_post_id, create_forum_post, new_comment, add_forum_comment,
  set_forum_post_status,
}
use agentgather.Storage.Forums.Calls.{Call, create, comment, mark, after, after_all, FailsOr-keeps}
use agentgather.Storage.Forums.Creating.{create_forum_post_cases}
use agentgather.Storage.Forums.Comments.{
  next_comment, add_forum_comment_cases, set_forum_post_status_cases, thread_cases,
}

-- The ids of the comments are c1, c2 and so on, from the number after `n`.
abbrev pub AreNumbered : ℕ → List ForumComment → Type 0
AreNumbered n [] = Unit {0}
AreNumbered n (c ∷ comments) = (c.id ≡ js "c" ++ decimal (n + 1)) × AreNumbered (n + 1) comments

AreNumbered-append :
    (n : ℕ) (comments : List ForumComment) (c : ForumComment)
    → AreNumbered n comments
    → c.id ≡ js "c" ++ decimal (n + length comments + 1)
    → AreNumbered n (comments ++ c ∷ [])
AreNumbered-append n [] c h e = (e ∙ ap (λ k. js "c" ++ decimal (k + 1)) (omega arith), tt)
AreNumbered-append n (d ∷ comments) c h e = (
  h.0,
  AreNumbered-append (n + 1) comments c h.1 (e ∙ ap (λ k. js "c" ++ decimal (k + 1)) (omega arith)),
)

-- No id stands twice.
abbrev pub HaveOwnIds : List ForumComment → Type 0
HaveOwnIds [] = Unit {0}
HaveOwnIds (c ∷ comments) = All (λ d. c.id ≢ d.id) comments × HaveOwnIds comments

cons_inj : {a b : ℕ} {s t : JsString} → ◌≡◌ {A = JsString} (a ∷ s) (b ∷ t) → s ≡ t
cons_inj e = cc

later_ids :
    (c : ForumComment) (m n : ℕ) (comments : List ForumComment)
    → m < n + 1
    → c.id ≡ js "c" ++ decimal m
    → AreNumbered n comments
    → All (λ d. c.id ≢ d.id) comments
later_ids c m n [] lt e h = tt
later_ids c m n (d ∷ comments) lt e h = (
  λ same.
      let texts : decimal m ≡ decimal (n + 1) = cons_inj (sym e ∙ same ∙ h.0) in
      omega (arith, lt, decimal_inj m (n + 1) texts),
  later_ids c m (n + 1) comments (omega arith) e h.1,
)

AreNumbered-HaveOwnIds :
    (n : ℕ) (comments : List ForumComment) → AreNumbered n comments → HaveOwnIds comments
AreNumbered-HaveOwnIds n [] h = tt
AreNumbered-HaveOwnIds n (c ∷ comments) h = (
  later_ids c (n + 1) (n + 1) comments (omega arith) h.0 h.1,
  AreNumbered-HaveOwnIds (n + 1) comments h.1,
)

-- Every directory's comments are numbered.
abbrev pub IsNumbered : BoardFiles → Type 0
IsNumbered s = (channel id : JsString) → AreNumbered 0 (thread channel id s).comments

IsNumbered-with_thread :
    (channel_id id : JsString) (w : Thread) (s : BoardFiles)
    → AreNumbered 0 w.comments
    → IsNumbered s
    → IsNumbered (with_thread channel_id id w s)
IsNumbered-with_thread channel_id id w s hw hs channel other =
    elim (thread_cases channel_id id channel other w s) [
      | inl same ↦ subst (λ t. AreNumbered 0 t.comments) (sym same) (hs channel other)
      | inr written ↦ subst (λ t. AreNumbered 0 t.comments) (sym written.2) hw
    ]

zero_add : (n : ℕ) → n ≡ 0 + n
zero_add n = omega arith

next_comment_id :
    (channel_id id author body : JsString) (now : ℕ) (s : BoardFiles)
    → (next_comment channel_id id author body now s).id
      ≡ js "c" ++ decimal (0 + length (thread channel_id id s).comments + 1)
unfolding new_comment
next_comment_id channel_id id author body now s =
    ap (λ n. js "c" ++ decimal (n + 1)) (zero_add (length (thread channel_id id s).comments))

after-IsNumbered :
    (to_lower_case : JsString → JsString) (c : Call) (s : BoardFiles)
    → IsNumbered s
    → IsNumbered (after to_lower_case c s)
unfolding after new_comment
after-IsNumbered to_lower_case (create channel_id input random_hex now) s h =
    FailsOr-keeps IsNumbered (create_forum_post to_lower_case channel_id input random_hex now) s h
      (create_forum_post_cases to_lower_case channel_id input random_hex now s)
      (λ c.
        subst (λ x. IsNumbered x.0) (sym c.written)
          (IsNumbered-with_thread channel_id (new_post_id input.id random_hex) _ s
            (h channel_id (new_post_id input.id random_hex)) h))
after-IsNumbered to_lower_case (comment channel_id id author body now) s h =
    FailsOr-keeps IsNumbered (add_forum_comment to_lower_case channel_id id author body now) s h
      (add_forum_comment_cases to_lower_case channel_id id author body now s)
      (λ e.
        subst (λ x. IsNumbered x.0) (sym e)
          (IsNumbered-with_thread channel_id id _ s
            (AreNumbered-append 0 (thread channel_id id s).comments
              (next_comment channel_id id author body now s) (h channel_id id)
              (next_comment_id channel_id id author body now s))
            h))
after-IsNumbered to_lower_case (mark channel_id id status now) s h =
    FailsOr-keeps IsNumbered (set_forum_post_status to_lower_case channel_id id status now) s h
      (set_forum_post_status_cases to_lower_case channel_id id status now s)
      (λ e.
        subst (λ x. IsNumbered x.0) (sym e.2)
          (IsNumbered-with_thread channel_id id _ s (h channel_id id) h))

IsNumbered-after_all :
    (to_lower_case : JsString → JsString) (calls : List Call) (s : BoardFiles)
    → IsNumbered s
    → IsNumbered (after_all to_lower_case calls s)
unfolding after_all
IsNumbered-after_all to_lower_case [] s h = h
IsNumbered-after_all to_lower_case (c ∷ calls) s h =
    IsNumbered-after_all to_lower_case calls (after to_lower_case c s)
      (after-IsNumbered to_lower_case c s h)

-- After any calls that create posts, comment and set statuses, each of which may throw, the comments
-- of every post have the ids c1, c2, c3 and so on in the order of the log, and none has another's id,
-- if the ids were numbered so before.
pub comment_ids_lem :
    (to_lower_case : JsString → JsString) (calls : List Call) (s : BoardFiles)
    → IsNumbered s
    → (channel id : JsString)
    → AreNumbered 0 (thread channel id (after_all to_lower_case calls s)).comments
      × HaveOwnIds (thread channel id (after_all to_lower_case calls s)).comments
comment_ids_lem to_lower_case calls s h channel id =
    let numbered = IsNumbered-after_all to_lower_case calls s h channel id in
    (
      numbered,
      AreNumbered-HaveOwnIds 0 (thread channel id (after_all to_lower_case calls s)).comments
          numbered,
    )
