-- ===== src/Storage/Rooms/Repeats.antt =====
-- A message of src/storage/room-store.ts that is found by its sender and its client message id: it
-- is found again after any history of calls on its room.
use agentgather.Common.{
  ℕ, ◌≡◌, Bool, true, false, Option, none, some, List, [], ◌∷◌, arith, JsString, ok,
}
use agentgather.Protocol.Types.{AttendancePolicy, ClientMessageInput, Participant}
use agentgather.Protocol.Slug.{is_safe_slug}
use agentgather.Storage.Rooms.{
  RoomFiles, unsafe_slug, append_locked, store_message, read_room_state,
}
use agentgather.Storage.Rooms.Recovery.{recover_room_state, write_recovered}
use agentgather.Storage.Rooms.Members.{upsert_participant_locked, join_participant_locked}
use agentgather.Storage.Rooms.Sessions.{
  end_active_session, update_attendance_policy_locked, update_loop_guard_preference_locked,
  update_brief_locked, append_server_message_locked, start_active_session_locked,
  end_active_session_locked,
}
use agentgather.Protocol.Types.{Message}
use agentgather.Storage.Rooms.{same_client_id, existing_message}
use agentgather.Storage.Rooms.Sessions.{close_room, start_if_idle, end_running}
use agentgather.Storage.Rooms.Members.{write_participants}
use agentgather.Storage.Rooms.Calls.{Call, after, Keeps, KeepsLocked, after-Keeps, Keeps-guard}
use agentgather.Storage.Rooms.{is_full}
use agentgather.Protocol.Types.{RoomState}
use agentgather.Storage.Rooms.Log.{Room, files, append_result, append_locked_eq, new_message}
use agentgather.Common.{every, ◌++◌, find, refl, sym}

-- Any call on a room that exists.
pub data RoomCall : Type 0 where
  others : Call → RoomCall
  ends : RoomCall
  closes : RoomCall
  writes : List Participant → RoomCall

module _ (room_id : JsString) where
  abbrev pub after_any : ℕ × RoomCall → RoomFiles → RoomFiles
  after_any (now, others c) s = after room_id (now, c) s
  after_any (now, ends) s = (end_active_session room_id now s).0
  after_any (now, closes) s = (close_room now s).0
  after_any (now, writes participants) s = (write_participants participants s).0

  abbrev pub run_any : List (ℕ × RoomCall) → RoomFiles → RoomFiles
  run_any [] s = s
  run_any (c ∷ cs) s = run_any cs (after_any c s)

find-append :
    (p : Message → Bool) (messages : List Message) (m n : Message)
    → find p messages ≡ some m
    → find p (messages ++ n ∷ []) ≡ some m
find-append p [] m n h = absurd (cc h)
find-append p (k ∷ messages) m n h = ground (arith, find-append p messages m n)

module _ (from id : JsString) where
  -- The message of the sender and the client message id, in a room whose state, members and log are
  -- all there.
  abbrev pub found : RoomFiles → Option Message
  found s = elim s.state [
    | none ↦ none
    | some state ↦ elim s.participants [
      | none ↦ none
      | some participants ↦ elim s.messages [
        | none ↦ none
        | some messages ↦ find (same_client_id from id) messages
      ]
    ]
  ]

  found-room :
      (s : RoomFiles) (m : Message)
      → found s ≡ some m
      → (r : Room) × (s ≡ files r) × (find (same_client_id from id) r.messages ≡ some m)
  found-room s m h = by_files s.state s.participants s.messages refl refl refl
    where
      by_files :
          (state : Option RoomState) (participants : Option (List Participant))
          (messages : Option (List Message))
          → s.state ≡ state
          → s.participants ≡ participants
          → s.messages ≡ messages
          → (r : Room) × (s ≡ files r) × (find (same_client_id from id) r.messages ≡ some m)
      by_files none participants messages es ep em = absurd (cc (rw es at h))
      by_files (some state) none messages es ep em = absurd (cc (rw (es, ep) at h))
      by_files (some state) (some participants) none es ep em = absurd (cc (rw (es, ep, em) at h))
      by_files (some state) (some participants) (some messages) es ep em = (
        record {
          state = state;
          participants = participants;
          messages = messages;
          brief = s.brief;
          cursors = s.cursors;
        },
        rw (sym es, sym ep, sym em) refl,
        rw (es, ep, em) at h,
      )

  found-append_result :
      (e : Option Message) (full : Bool) (n : Message) (now : ℕ) (r : Room) (m : Message)
      → find (same_client_id from id) r.messages ≡ some m
      → found (append_result e full n now r).0 ≡ some m
  found-append_result (some old) full n now r m h = h
  found-append_result none true n now r m h = h
  found-append_result none false n now r m h = find-append (same_client_id from id) r.messages m n h

  Keeps-append :
      (input : ClientMessageInput) (by : JsString) (now : ℕ) (limit : Option ℕ)
      → Keeps found (append_locked input by now limit)
  Keeps-append input by now limit s m h =
      let (r, e, k) = found-room s m h in
      rw (e, append_locked_eq input by now limit r)
        (found-append_result (existing_message by input.client_msg_id r.messages)
          (is_full limit r.messages) (new_message input by now r) now r m k)

  Keeps-server :
      (by text : JsString) (now : ℕ) → Keeps found (append_server_message_locked by text now)
  unfolding append_server_message_locked store_message read_room_state
  Keeps-server by text now s m h =
      let (r, e, k) = found-room s m h in
      rw e (find-append (same_client_id from id) r.messages m _ k)

  Keeps-policy :
      (policy : AttendancePolicy) (now : ℕ)
      → Keeps found (update_attendance_policy_locked policy now)
  unfolding update_attendance_policy_locked read_room_state
  Keeps-policy policy now s m h = ground arith

  Keeps-loop_guard :
      (enabled : Bool) (delay : Option ℕ) (now : ℕ)
      → Keeps found (update_loop_guard_preference_locked enabled delay now)
  unfolding update_loop_guard_preference_locked read_room_state
  Keeps-loop_guard enabled delay now s m h = ground arith

  Keeps-brief : (by body : JsString) (now : ℕ) → Keeps found (update_brief_locked by body now)
  unfolding update_brief_locked read_room_state
  Keeps-brief by body now s m h = ground arith

  Keeps-start :
      (channel_id by : JsString) (duration : ℕ) (mode : Option AttendancePolicy) (now : ℕ)
      → Keeps found (start_active_session_locked channel_id by duration mode now)
  unfolding start_active_session_locked start_if_idle read_room_state
  Keeps-start channel_id by duration mode now s m h = ground arith

  Keeps-join :
      (p : Participant) (stale now : ℕ) (session : Option JsString)
      → Keeps found (join_participant_locked p stale now session)
  unfolding join_participant_locked
  Keeps-join p stale now session s m h = ground arith

  Keeps-upsert : (p : Participant) → Keeps found (upsert_participant_locked p)
  unfolding upsert_participant_locked
  Keeps-upsert p s m h = ground arith

  Keeps-recover : Keeps found recover_room_state
  unfolding recover_room_state write_recovered read_room_state
  Keeps-recover s m h = ground arith

  Keeps-close : (now : ℕ) → Keeps found (close_room now)
  unfolding close_room read_room_state
  Keeps-close now s m h = ground arith

  Keeps-end : (now : ℕ) → Keeps found (end_active_session_locked now)
  unfolding end_active_session_locked end_running read_room_state
  Keeps-end now s m h = ground arith

  found_locked : KeepsLocked found
  found_locked = record {
    sending = Keeps-append;
    server_sending = Keeps-server;
    setting_policy = Keeps-policy;
    setting_loop_guard = Keeps-loop_guard;
    writing_brief = Keeps-brief;
    starting = Keeps-start;
    joining = Keeps-join;
    upserting = Keeps-upsert;
    writing_cursor = λ c s m h. h;
    recovering = Keeps-recover;
  }

  Keeps-writes :
      (participants : List Participant)
      → Keeps found {A = Unit {0}} (λ s. (record s { participants = some participants }, ok tt))
  Keeps-writes participants s m h = ground arith

  after_any-found :
      (room_id : JsString) (now : ℕ) (c : RoomCall) (s : RoomFiles) (m : Message)
      → found s ≡ some m
      → found (after_any room_id (now, c) s) ≡ some m
  unfolding end_active_session write_participants
  after_any-found room_id now (others c) s m h = after-Keeps found room_id found_locked now c s m h
  after_any-found room_id now ends s m h =
      Keeps-guard found (is_safe_slug room_id) unsafe_slug (end_active_session_locked now)
        (Keeps-end now) s m h
  after_any-found room_id now closes s m h = Keeps-close now s m h
  after_any-found room_id now (writes participants) s m h =
      Keeps-guard found (every (λ p. is_safe_slug p.alias) participants) unsafe_slug
        (λ s. (record s { participants = some participants }, ok tt)) (Keeps-writes participants) s
        m h

  -- The message is found after any history of calls.
  pub run_any-found :
      (room_id : JsString) (cs : List (ℕ × RoomCall)) (s : RoomFiles) (m : Message)
      → found s ≡ some m
      → found (run_any room_id cs s) ≡ some m
  run_any-found room_id [] s m h = h
  run_any-found room_id ((now, c) ∷ cs) s m h =
      run_any-found room_id cs (after_any room_id (now, c) s) m
        (after_any-found room_id now c s m h)

  -- A message that is found is what a repeat is answered with.
  pub found_again :
      (again : ClientMessageInput) (later : ℕ) (cap : Option ℕ) (s : RoomFiles) (m : Message)
      → again.client_msg_id ≡ some id
      → found s ≡ some m
      → append_locked again from later cap s ≡ (s, ok (m, true))
  unfolding existing_message
  found_again again later cap s m h k =
      let (r, e, stored) = found-room s m k in
      rw (e, append_locked_eq again from later cap r, h, stored) refl
