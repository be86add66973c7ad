-- ===== src/Storage/Rooms/Sending.antt =====
-- What `appendMessageResult` of src/storage/room-store.ts does to a room's log.
use agentgather.Common.{
  ℕ, ◌≡◌, refl, sym, ◌∙◌, ap, subst, Bool, true, false, Option, none, some, arith, List, [], ◌∷◌,
  ◌++◌, find, JsString, Outcome, ok, throw, ok_inj, str_eq_refl, ◌⊎◌, inl, inr,
}
use agentgather.Protocol.Types.{Message, ClientMessageInput}
use agentgather.Protocol.Messages.{build_message}
use agentgather.Storage.Rooms.{
  RoomFiles, RoomError, append_locked, existing_message, is_full, same_client_id, create_message,
  room_log_full,
}
use agentgather.Storage.Rooms.Repeats.{RoomCall, run_any, found, run_any-found, found_again}
use agentgather.Storage.Rooms.Log.{
  Room, files, IsLog, IsSound, IsLog-append, with_message, new_message, new_message_id,
  append_result, append_locked_eq,
}

with_message-IsSound :
    (input : ClientMessageInput) (from : JsString) (now : ℕ) (r : Room)
    → IsSound r
    → IsSound (with_message r (new_message input from now r) now)
with_message-IsSound input from now r h =
    IsLog-append r.messages (new_message input from now r)
      (subst (λ n. IsLog n r.messages) (sym (new_message_id input from now r)) h)

-- A room after an append: only the log and the state may differ, and the log only by one message
-- at its end.
pub record IsAppended (r r' : Room) : Type 0 where
  pub sound : IsSound r'
  pub participants : r'.participants ≡ r.participants
  pub brief : r'.brief ≡ r.brief
  pub cursors : r'.cursors ≡ r.cursors
  pub messages :
      (r'.messages ≡ r.messages)
      ⊎ ((m : Message) × (r'.messages ≡ r.messages ++ m ∷ []) × (m.id ≡ r.state.next_message_id))

-- An append, whether it stores a message, repeats one or is refused, leaves the participants, the
-- brief and the cursors as they were, adds to the log at most one message, at its end and with the
-- state's next message id, and leaves a state and a log with ids going up along the log and all
-- below the state's next message id, when they were so before.
pub append_locked-IsSound :
    (input : ClientMessageInput) (from : JsString) (now : ℕ) (limit : Option ℕ) (r : Room)
    → IsSound r
    → (r' : Room) × ((append_locked input from now limit (files r)).0 ≡ files r') × IsAppended r r'
append_locked-IsSound input from now limit r h =
    by_cases (existing_message from input.client_msg_id r.messages) (is_full limit r.messages)
      (ap (λ p. p.0) (append_locked_eq input from now limit r))
  where
    m : Message
    m = new_message input from now r

    same : IsAppended r r
    same = record {
      sound = h;
      participants = refl;
      brief = refl;
      cursors = refl;
      messages = inl refl;
    }

    by_cases :
        (e : Option Message) (f : Bool)
        → (append_locked input from now limit (files r)).0 ≡ (append_result e f m now r).0
        → (r' : Room) × ((append_locked input from now limit (files r)).0 ≡ files r')
          × IsAppended r r'
    by_cases (some old) f k = (r, k, same)
    by_cases none true k = (r, k, same)
    by_cases none false k = (
      with_message r m now,
      k,
      record {
        sound = with_message-IsSound input from now r h;
        participants = refl;
        brief = refl;
        cursors = refl;
        messages = inr (m, refl, new_message_id input from now r);
      },
    )

find-append-last :
    (p : Message → Bool) (messages : List Message) (m : Message)
    → find p messages ≡ none
    → p m ≡ true
    → find p (messages ++ m ∷ []) ≡ some m
find-append-last p [] m h k = rw (k) refl
find-append-last p (n ∷ messages) m h k = ground (arith, find-append-last p messages m)

new_message_same :
    (input : ClientMessageInput) (from id : JsString) (now : ℕ) (r : Room)
    → input.client_msg_id ≡ some id
    → same_client_id from id (new_message input from now r) ≡ true
unfolding create_message build_message
new_message_same input from id now r h = rw (h, str_eq_refl from, str_eq_refl id) refl

-- A client message that was accepted, new or not, is in the log under its sender and its client
-- message id.
accepted_found :
    (input : ClientMessageInput) (from id : JsString) (now : ℕ) (limit : Option ℕ) (r : Room)
    (s : RoomFiles) (m : Message) (repeated : Bool)
    → input.client_msg_id ≡ some id
    → append_locked input from now limit (files r) ≡ (s, ok (m, repeated))
    → found from id s ≡ some m
unfolding existing_message
accepted_found input from id now limit r s m repeated h k =
    by_cases (existing_message from (some id) r.messages) refl (is_full limit r.messages)
      (sym (append_locked_eq input from now limit r ∙ rw (h) refl) ∙ k)
  where
    n : Message
    n = new_message input from now r

    Reply : Type 0
    Reply = Outcome RoomError (Message × Bool)

    Answer : Type 0
    Answer = RoomFiles × Reply

    answer : Answer
    answer = (s, ok (m, repeated))

    conclude :
        (r' : Room) (m' : Message) (b : Bool)
        → existing_message from (some id) r'.messages ≡ some m'
        → ◌≡◌ {A = Answer} (files r', ok (m', b)) answer
        → found from id s ≡ some m
    conclude r' m' b e g =
        let same_files : files r' ≡ s = ap (λ p. p.0) g in
        let same_message : m' ≡ m = ap (λ p. p.0) (ok_inj (ap (λ p. p.1) g)) in
        subst (λ x. found from id x ≡ some m) same_files
          (subst (λ x. found from id (files r') ≡ some x) same_message e)

    clash : ◌≡◌ {A = Reply} (throw room_log_full) (ok (m, repeated)) → found from id s ≡ some m
    clash g = absurd (cc g)

    by_cases :
        (e : Option Message)
        → existing_message from (some id) r.messages ≡ e
        → (f : Bool) → append_result e f n now r ≡ answer
        → found from id s ≡ some m
    by_cases (some old) e f g = conclude r old true e g
    by_cases none e true g = clash (ap (λ p. p.1) g)
    by_cases none e false g =
        conclude (with_message r n now) n false
          (find-append-last (same_client_id from id) r.messages n e
            (new_message_same input from id now r h))
          g

-- A client message that was accepted, new or not, and is sent again by the same sender with the
-- same client message id, after any history of calls on the room, messages, recoveries and its
-- closing included, at any time, with any text and under any limit, is answered with the message
-- stored the first time, marked as a repeat, and changes no file.
pub resend_idempotent :
    (input again : ClientMessageInput) (from id : JsString) (now later : ℕ)
    (limit limit' : Option ℕ) (r : Room) (s : RoomFiles) (m : Message) (repeated : Bool)
    (room_id : JsString) (cs : List (ℕ × RoomCall))
    → input.client_msg_id ≡ some id
    → again.client_msg_id ≡ some id
    → append_locked input from now limit (files r) ≡ (s, ok (m, repeated))
    → append_locked again from later limit' (run_any room_id cs s)
      ≡ (run_any room_id cs s, ok (m, true))
resend_idempotent input again from id now later limit limit' r s m repeated room_id cs h h' k =
    found_again from id again later limit' (run_any room_id cs s) m h' (
      run_any-found from id room_id cs s m
        (accepted_found input from id now limit r s m repeated h k))
