-- ===== src/Storage/Rooms/Recovery.antt =====
-- `recoverNextMessageId` and `recoverRoomState` of src/storage/room-store.ts, and the crash that
-- they repair: the log has its new line, the state was not yet written.
use agentgather.Common.{
  ℕ, ◌+◌, ◌≤◌, ◌<◌, ◌≡◌, refl, max, some, List, [], ◌∷◌, ◌++◌, arith, All, All-append, All-last,
  subst, sym, JsString, ok, leb, if◌then◌else◌, Bool-cases, inl, inr,
}
use agentgather.Protocol.Types.{RoomState, Message, ClientMessageInput}
use agentgather.Storage.Rooms.{Action, ◌>>=◌, read_room_state, read_messages, append_line}
use agentgather.Storage.Rooms.Log.{
  Room, files, Ascending, IsLog, IsSound, IsLog-append, read_state, with_message, new_message,
  new_message_id,
}

-- The `reduce`, from the left.
highest_id : ℕ → List Message → ℕ
highest_id highest [] = highest
highest_id highest (m ∷ messages) = highest_id (max highest m.id) messages

unfoldable recover_next_message_id : List Message → ℕ
unfolding highest_id
recover_next_message_id messages = highest_id 0 messages + 1

unfoldable pub write_recovered : RoomState → ℕ → Action RoomState
write_recovered state recovered s =
    if leb recovered state.next_message_id
    then (s, ok state)
    else (let next = record state { next_message_id = recovered } in
        (record s { state = some next }, ok next))

unfoldable pub recover_room_state : Action RoomState
unfolding recover_next_message_id write_recovered
recover_room_state = do
  state ← read_room_state
  messages ← read_messages
  write_recovered state (recover_next_message_id messages)

highest_id-All :
    (highest : ℕ) (messages : List Message)
    → (highest ≤ highest_id highest messages)
      × All (λ m. m.id ≤ highest_id highest messages) messages
unfolding highest_id
highest_id-All highest [] = (omega arith, tt)
highest_id-All highest (m ∷ messages) =
    let h = highest_id-All (max highest m.id) messages in
    (omega (arith, h.0), (omega (arith, h.0), h.1))

-- The room after a recovery.
abbrev with_next : Room → ℕ → Room
with_next r next = record r { state = record (read_state r) { next_message_id = next } }

highest_id_least :
    (highest n : ℕ) (messages : List Message)
    → highest ≤ n
    → All (λ m. m.id ≤ n) messages
    → highest_id highest messages ≤ n
unfolding highest_id
highest_id_least highest n [] h a = h
highest_id_least highest n (m ∷ messages) h a =
    highest_id_least (max highest m.id) n messages (omega (arith, h, a.0)) a.1

All-suc :
    (n k : ℕ) (messages : List Message)
    → n < k
    → All (λ m. m.id ≤ n) messages
    → All (λ m. m.id < k) messages
All-suc n k [] h a = tt
All-suc n k (m ∷ messages) h a = (omega (arith, h, a.0), All-suc n k messages h a.1)

All-le :
    (n : ℕ) (messages : List Message) → All (λ m. m.id < n) messages → All (λ m. m.id ≤ n) messages
All-le n [] a = tt
All-le n (m ∷ messages) a = (omega (arith, a.0), All-le n messages a.1)

-- What a recovery leaves: the same log, with the state's next id the given one.
record Recovered (r : Room) (next : ℕ) : Type 0 where
  after : Room
  returned : RoomState
  outcome : recover_room_state (files r) ≡ (files after, ok returned)
  same_log : after.messages ≡ r.messages
  stored : after.state.next_message_id ≡ next
  given : returned.next_message_id ≡ next

recover_room_state_lem :
    (r : Room) → Recovered r (max r.state.next_message_id (recover_next_message_id r.messages))
unfolding recover_room_state read_room_state write_recovered
recover_room_state_lem r =
    elim (Bool-cases (leb (recover_next_message_id r.messages) r.state.next_message_id)) [
      | inl h ↦ record {
        after = r;
        returned = read_state r;
        outcome = rw (h) refl;
        same_log = refl;
        stored = ground arith;
        given = ground arith;
      }
      | inr h ↦ record {
        after = with_next r (recover_next_message_id r.messages);
        returned = record (read_state r) { next_message_id = recover_next_message_id r.messages };
        outcome = rw (h) refl;
        same_log = refl;
        stored = ground arith;
        given = ground arith;
      }
    ]

-- Recovery of a room whose ids go up along its log returns a state and leaves a room with the
-- same log, all of whose ids are below the next one, which is no lower than before.
pub recover-IsSound :
    (r : Room)
    → Ascending r.messages
    → (r' : Room) × (state : RoomState) × (recover_room_state (files r) ≡ (files r', ok state))
      × IsSound r'
      × (r.state.next_message_id ≤ r'.state.next_message_id)
unfolding recover_next_message_id
recover-IsSound r h =
    let c = recover_room_state_lem r in
    let next = max r.state.next_message_id (recover_next_message_id r.messages) in
    let sound : IsLog next r.messages = record {
      ascending = h;
      below =
          All-suc (highest_id 0 r.messages) next r.messages (omega arith)
            (highest_id-All 0 r.messages).1;
    } in
    (c.after, c.returned, c.outcome, rw (c.stored, c.same_log) sound, omega (arith, c.stored))

recover_next_message_id-append :
    (messages : List Message) (m : Message)
    → All (λ k. k.id < m.id) messages
    → recover_next_message_id (messages ++ m ∷ []) ≡ m.id + 1
unfolding recover_next_message_id
recover_next_message_id-append messages m h =
    let top = highest_id-All 0 (messages ++ m ∷ []) in
    let least = highest_id_least 0 m.id (messages ++ m ∷ []) (omega arith) (
      All-append (λ k. k.id ≤ m.id) messages (m ∷ []) (All-le m.id messages h) (omega arith, tt)) in
    omega (arith, least, All-last (λ k. k.id ≤ highest_id 0 (messages ++ m ∷ [])) messages m top.1)

-- A crash between the two writes of an append, in a sound room, is repaired: recovery returns a
-- state and leaves the log with the new message and the next id that the whole append would have
-- left, in a sound room.
pub crash_repaired :
    (input : ClientMessageInput) (from : JsString) (now : ℕ) (r : Room)
    → IsSound r
    → (r' : Room) × (state : RoomState) × (recover_room_state
          (append_line (new_message input from now r) (files r)).0
        ≡ (files r', ok state))
      × (r'.messages ≡ (with_message r (new_message input from now r) now).messages)
      × (r'.state.next_message_id
          ≡ (with_message r (new_message input from now r) now).state.next_message_id)
      × IsSound r'
crash_repaired input from now r h =
    (c.after, c.returned, c.outcome, c.same_log, next, rw (next, c.same_log) sound)
  where
    m : Message
    m = new_message input from now r

    crashed : Room
    crashed = record r { messages = r.messages ++ m ∷ [] }

    c :
        Recovered crashed
          (max r.state.next_message_id (recover_next_message_id (r.messages ++ m ∷ [])))
    c = recover_room_state_lem crashed

    log : IsLog m.id r.messages
    log = subst (λ n. IsLog n r.messages) (sym (new_message_id input from now r)) h

    next : c.after.state.next_message_id ≡ m.id + 1
    next = omega (
      arith,
      c.stored,
      recover_next_message_id-append r.messages m log.below,
      new_message_id input from now r,
    )

    sound : IsLog (m.id + 1) (r.messages ++ m ∷ [])
    sound = IsLog-append r.messages m log
