-- ===== src/Storage/Forums/Calls.antt =====
-- The calls that write the files of src/storage/forum-store.ts, and their histories.
use agentgather.Common.{ℕ, sym, subst, List, [], ◌∷◌, JsString, Outcome}
use agentgather.Common.Stateful.{FailsOr, fails, ends}
use agentgather.Protocol.Forum.{ForumPostStatus}
use agentgather.Storage.Boardrooms.{BoardFiles, BoardError, Action}
use agentgather.Storage.Forums.{
  CreateForumPostInput, create_forum_post, add_forum_comment, set_forum_post_status,
}

-- A call that writes the files of a forum channel.
pub data Call : Type 0 where
  create : JsString → CreateForumPostInput → JsString → ℕ → Call
  comment : JsString → JsString → JsString → JsString → ℕ → Call
  mark : JsString → JsString → ForumPostStatus → ℕ → Call

-- The files after a call, whether it returned or threw.
unfoldable pub after : (JsString → JsString) → Call → BoardFiles → BoardFiles
unfolding create_forum_post add_forum_comment set_forum_post_status
after to_lower_case (create channel_id input random_hex now) s =
    (create_forum_post to_lower_case channel_id input random_hex now s).0
after to_lower_case (comment channel_id id author body now) s =
    (add_forum_comment to_lower_case channel_id id author body now s).0
after to_lower_case (mark channel_id id status now) s =
    (set_forum_post_status to_lower_case channel_id id status now s).0

unfoldable pub after_all : (JsString → JsString) → List Call → BoardFiles → BoardFiles
unfolding after
after_all to_lower_case [] s = s
after_all to_lower_case (c ∷ calls) s = after_all to_lower_case calls (after to_lower_case c s)

-- What holds of the files still holds after a call that throws, if it holds after one that ends.
pub FailsOr-keeps :
    (P : BoardFiles → Type 0) {A : Type 0} {R : BoardFiles × Outcome BoardError A → Type 0}
    (call : Action A) (s : BoardFiles)
    → P s
    → FailsOr call s R
    → (R (call s) → P (call s).0)
    → P (call s).0
FailsOr-keeps P call s h (fails e r) k = subst (λ x. P x.0) (sym r) h
FailsOr-keeps P call s h (ends r) k = k r
