-- ===== src/Storage/Rooms/Log.antt =====
-- The message log of src/storage/room-store.ts: ids, limits and repeated sends.
use agentgather.Common.{
  ℕ, ◌+◌, ◌≤◌, ◌<◌, ◌≡◌, refl, Bool, true, false, Option, none, some, List, [], ◌∷◌, ◌++◌, arith,
  All, All-append, JsString, JsMap, Outcome, ok, throw, Bool-cases, inl, inr,
}
use agentgather.Protocol.Types.{RoomState, Participant, Message, ClientMessageInput}
use agentgather.Protocol.Messages.{build_message}
use agentgather.Storage.Rooms.{
  RoomFiles, RoomError, read_room_state, append_locked, resend_or_append, append_new, store_message,
  create_message, existing_message, is_full, state_after, room_log_full, with_room_defaults,
  CursorRecord,
}

-- Ids go up along the log.
abbrev pub Ascending : List Message → Type 0
Ascending [] = Unit {0}
Ascending (m ∷ ms) = All (λ k. m.id < k.id) ms × Ascending ms

-- The log of a room whose next message id is `next`.
pub record IsLog (next : ℕ) (messages : List Message) : Type 0 where
  pub ascending : Ascending messages
  pub below : All (λ m. m.id < next) messages

Ascending-append :
    (messages : List Message) (m : Message)
    → Ascending messages
    → All (λ k. k.id < m.id) messages
    → Ascending (messages ++ m ∷ [])
Ascending-append [] m h k = (tt, tt)
Ascending-append (n ∷ messages) m h k = (
  All-append (λ j. n.id < j.id) messages (m ∷ []) h.0 (k.0, tt),
  Ascending-append messages m h.1 k.1,
)

All-below_mono :
    (n k : ℕ) (messages : List Message)
    → n ≤ k
    → All (λ m. m.id < n) messages
    → All (λ m. m.id < k) messages
All-below_mono n k [] h a = tt
All-below_mono n k (m ∷ messages) h a = (omega (arith, a.0), All-below_mono n k messages h a.1)

pub IsLog-append :
    (messages : List Message) (m : Message)
    → IsLog m.id messages
    → IsLog (m.id + 1) (messages ++ m ∷ [])
IsLog-append messages m v = record {
  ascending = Ascending-append messages m v.ascending v.below;
  below =
      All-append (λ k. k.id < m.id + 1) messages (m ∷ [])
        (All-below_mono m.id (m.id + 1) messages (omega arith) v.below) (omega arith, tt);
}

-- A room whose files are all there.
pub record Room : Type 0 where
  pub state : RoomState
  pub participants : List Participant
  pub messages : List Message
  pub brief : Option JsString
  pub cursors : JsMap CursorRecord

abbrev pub files : Room → RoomFiles
files r = record {
  state = some r.state;
  participants = some r.participants;
  brief = r.brief;
  messages = some r.messages;
  cursors = r.cursors;
}

-- The log and the next id of the state agree.
abbrev pub IsSound : Room → Type 0
IsSound r = IsLog r.state.next_message_id r.messages

abbrev pub read_state : Room → RoomState
read_state r = with_room_defaults r.state

-- The room after an append.
abbrev pub with_message : Room → Message → ℕ → Room
with_message r m now = record r {
  messages = r.messages ++ m ∷ [];
  state = state_after (read_state r) m now;
}

abbrev pub new_message : ClientMessageInput → JsString → ℕ → Room → Message
new_message input from now r = create_message input (read_state r) r.participants from now

-- The three ways in which an append under the lock ends.
abbrev pub append_result :
    Option Message → Bool → Message → ℕ → Room → RoomFiles × Outcome RoomError (Message × Bool)
append_result (some old) full m now r = (files r, ok (old, true))
append_result none true m now r = (files r, throw room_log_full)
append_result none false m now r = (files (with_message r m now), ok (m, false))

pub append_locked_eq :
    (input : ClientMessageInput) (from : JsString) (now : ℕ) (limit : Option ℕ) (r : Room)
    → append_locked input from now limit (files r)
      ≡ append_result
          (existing_message from input.client_msg_id r.messages)
          (is_full limit r.messages)
          (new_message input from now r)
          now
          r
unfolding append_locked resend_or_append read_room_state append_new store_message
append_locked_eq input from now limit r =
    by_cases (existing_message from input.client_msg_id r.messages)
  where
    by_cases :
        (e : Option Message)
        → resend_or_append e input from now limit (read_state r) r.participants r.messages (files r)
          ≡ append_result e (is_full limit r.messages) (new_message input from now r) now r
    by_cases (some old) = refl
    by_cases none = elim (Bool-cases (is_full limit r.messages)) [
      | inl f ↦ rw (f) refl
      | inr f ↦ rw (f) refl
    ]

pub new_message_id :
    (input : ClientMessageInput) (from : JsString) (now : ℕ) (r : Room)
    → (new_message input from now r).id ≡ r.state.next_message_id
unfolding create_message build_message
new_message_id input from now r = refl
