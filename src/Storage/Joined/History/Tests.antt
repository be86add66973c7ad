-- ===== src/Storage/Joined/History/Tests.antt =====
-- The theorems on src/storage/joined-history-store.ts at concrete histories. Nothing is redacted in
-- them, and a file takes 100,000 bytes for each of its entries.
use agentgather.Common.{none, ℕ, ◌≡◌, ◌*◌, refl, false, [], ◌∷◌, ◌++◌, js, JsString, length, arith}
use agentgather.Storage.Joined.History.{
  JoinedHistorySnapshot, SnapshotMessage, is_too_long, trim, bound, merge_messages,
}
use agentgather.Storage.Joined.History.Trimming.{trim_ends, IsBounded, bound_lem}
use agentgather.Storage.Joined.History.Merging.{
  Ascends, find_id, latest, redacted_option, merge_messages_lem,
}

abbrev bytes : JoinedHistorySnapshot → ℕ
bytes s = 100000 * length s.messages

abbrev hello : SnapshotMessage
hello = record { id = 1; from = js "ann"; ts = js "0"; type = none; text = js "hello" }

abbrev later_message : ℕ → SnapshotMessage
later_message id = record hello { id = id }

abbrev stored : JoinedHistorySnapshot
stored = record {
  room_id = js "room";
  base_url = js "https://example.test";
  cursor = 3;
  saved_at = js "0";
  messages = hello ∷ later_message 2 ∷ later_message 3 ∷ [];
  forum_posts = [];
}

trim_ends_example : is_too_long bytes (trim bytes 3 stored) ≡ false
trim_ends_example = trim_ends bytes 3 stored (omega arith)

-- The oldest message goes.
trimmed : trim bytes 3 stored ≡ record stored { messages = later_message 2 ∷ later_message 3 ∷ [] }
unfolding trim is_too_long
trimmed = refl

bound_example : IsBounded bytes stored (bound bytes stored)
bound_example = bound_lem bytes stored

abbrev same_text : JsString → JsString
same_text text = text

merge_messages_example :
    Ascends (merge_messages same_text (later_message 2 ∷ hello ∷ []) (later_message 2 ∷ []))
    × ((id : ℕ)
        → find_id id
            (merge_messages same_text (later_message 2 ∷ hello ∷ []) (later_message 2 ∷ []))
          ≡ redacted_option same_text
              (latest id ((later_message 2 ∷ hello ∷ []) ++ later_message 2 ∷ [])))
merge_messages_example =
    merge_messages_lem same_text (later_message 2 ∷ hello ∷ []) (later_message 2 ∷ [])
