-- ===== src/Storage/Rooms/Calls.antt =====
-- Calls on a room of src/storage/room-store.ts, and what of its files stays as it is over a history
-- of them.
use agentgather.Common.{
  ℕ, ◌≡◌, Bool, true, false, Option, some, List, [], ◌∷◌, JsString, Outcome, ok, throw, leb, length,
}
use agentgather.Protocol.Types.{AttendancePolicy, ClientMessageInput, Participant}
use agentgather.Protocol.Slug.{is_safe_slug}
use agentgather.Protocol.Messages.{
  is_safe_integer, MessageRecord, MessageError, client_message_input_from_record,
}
use agentgather.Storage.Rooms.{
  CursorRecord, RoomFiles, RoomError, Action, ◌>>◌, ◌>>=◌, guard, input_of, unsafe_slug, bad_delay,
  bad_cursor, brief_too_long, max_brief_length, assert_safe_slug, append_message_result,
  append_locked,
}
use agentgather.Storage.Rooms.Recovery.{recover_room_state}
use agentgather.Storage.Rooms.Members.{
  upsert_participant, upsert_participant_locked, join_participant_locked, join_participant,
  write_cursor_file, write_cursor,
}
use agentgather.Storage.Rooms.Sessions.{
  update_attendance_policy, update_loop_guard_preference, update_brief, append_server_message,
  valid_or_absent, start_active_session, update_attendance_policy_locked,
  update_loop_guard_preference_locked, update_brief_locked, append_server_message_locked,
  start_active_session_locked,
}

-- A call on the room that neither ends its session nor closes it.
pub data Call : Type 0 where
  sends : (from : JsString) → Option MessageRecord → Option ℕ → Call
  server_sends : (from text : JsString) → Call
  sets_policy : JsString → AttendancePolicy → Call
  sets_loop_guard : JsString → Bool → Option ℕ → Call
  writes_brief : (updated_by body : JsString) → Call
  starts : (channel_id started_by : JsString) → ℕ → Option AttendancePolicy → Call
  joins : Participant → ℕ → Option JsString → Call
  upserts : Participant → Call
  writes_cursor : JsString → ℕ → Call
  recovers : Call

module _ (room_id : JsString) where
  abbrev pub after : ℕ × Call → RoomFiles → RoomFiles
  after (now, sends from raw limit) s = (append_message_result room_id from raw now limit s).0
  after (now, server_sends from text) s = (append_server_message room_id from text now s).0
  after (now, sets_policy by policy) s = (update_attendance_policy room_id by policy now s).0
  after (now, sets_loop_guard by enabled delay) s =
      (update_loop_guard_preference room_id by enabled delay now s).0
  after (now, writes_brief by body) s = (update_brief room_id by body now s).0
  after (now, starts channel_id by duration mode) s =
      (start_active_session room_id channel_id by duration mode now s).0
  after (now, joins participant stale session) s =
      (join_participant participant stale now session s).0
  after (now, upserts participant) s = (upsert_participant participant s).0
  after (now, writes_cursor alias since) s = (write_cursor alias since now s).0
  after (now, recovers) s = (recover_room_state s).0

  abbrev pub run : List (ℕ × Call) → RoomFiles → RoomFiles
  run [] s = s
  run (c ∷ cs) s = run cs (after c s)

-- The view of the files that a call may not change once it is there.
module _ {X : Type 0} (view : RoomFiles → Option X) where
  abbrev pub Keeps : {A : Type 0} → Action A → Type 0
  Keeps m = (s : RoomFiles) (x : X) → view s ≡ some x → view (m s).0 ≡ some x

  pub Keeps-guard :
      {A : Type 0} (b : Bool) (e : RoomError) (m : Action A) → Keeps m → Keeps (guard b e >> m)
  Keeps-guard true e m k s a h = k s a h
  Keeps-guard false e m k s a h = h

  Keeps-input_of :
      {A : Type 0} (o : Outcome MessageError ClientMessageInput) (f : ClientMessageInput → Action A)
      → ((input : ClientMessageInput) → Keeps (f input))
      → Keeps (input_of o >>= f)
  Keeps-input_of (ok input) f k s a h = k input s a h
  Keeps-input_of (throw e) f k s a h = h

  -- The parts of the calls under the lock.
  pub record KeepsLocked : Type 0 where
    pub sending :
        (input : ClientMessageInput) (from : JsString) (now : ℕ) (limit : Option ℕ)
        → Keeps (append_locked input from now limit)
    pub server_sending :
        (from text : JsString) (now : ℕ) → Keeps (append_server_message_locked from text now)
    pub setting_policy :
        (policy : AttendancePolicy) (now : ℕ) → Keeps (update_attendance_policy_locked policy now)
    pub setting_loop_guard :
        (enabled : Bool) (delay : Option ℕ) (now : ℕ)
        → Keeps (update_loop_guard_preference_locked enabled delay now)
    pub writing_brief : (by body : JsString) (now : ℕ) → Keeps (update_brief_locked by body now)
    pub starting :
        (channel_id by : JsString) (duration : ℕ) (mode : Option AttendancePolicy) (now : ℕ)
        → Keeps (start_active_session_locked channel_id by duration mode now)
    pub joining :
        (p : Participant) (stale now : ℕ) (session : Option JsString)
        → Keeps (join_participant_locked p stale now session)
    pub upserting : (p : Participant) → Keeps (upsert_participant_locked p)
    pub writing_cursor : (c : CursorRecord) → Keeps (write_cursor_file c)
    pub recovering : Keeps recover_room_state

module _ {X : Type 0} (view : RoomFiles → Option X) (room_id : JsString)
    (locked : KeepsLocked view) where
  Keeps-sends :
      (from : JsString) (raw : Option MessageRecord) (now : ℕ) (limit : Option ℕ)
      → Keeps view (append_message_result room_id from raw now limit)
  unfolding append_message_result
  Keeps-sends from raw now limit =
      let send = λ (input : ClientMessageInput). append_locked input from now limit in
      let checked = input_of (client_message_input_from_record raw) >>= send in
      Keeps-guard view (is_safe_slug room_id) unsafe_slug (assert_safe_slug from >> checked) (
        Keeps-guard view (is_safe_slug from) unsafe_slug checked (
          Keeps-input_of view (client_message_input_from_record raw) send
            (λ input. locked.sending input from now limit)))

  -- Two slugs are checked before the lock.
  Keeps-named :
      {A : Type 0} (name : JsString) (m : Action A)
      → Keeps view m
      → Keeps view (assert_safe_slug room_id >> (assert_safe_slug name >> m))
  Keeps-named name m k =
      Keeps-guard view (is_safe_slug room_id) unsafe_slug (assert_safe_slug name >> m)
        (Keeps-guard view (is_safe_slug name) unsafe_slug m k)

  pub after-Keeps :
      (now : ℕ) (c : Call) (s : RoomFiles) (x : X)
      → view s ≡ some x
      → view (after room_id (now, c) s) ≡ some x
  unfolding update_attendance_policy update_loop_guard_preference update_brief join_participant
      upsert_participant write_cursor append_server_message start_active_session
  after-Keeps now (sends from raw limit) = Keeps-sends from raw now limit
  after-Keeps now (server_sends from text) =
      Keeps-named from (append_server_message_locked from text now)
        (locked.server_sending from text now)
  after-Keeps now (sets_policy by policy) =
      Keeps-named by (update_attendance_policy_locked policy now) (locked.setting_policy policy now)
  after-Keeps now (sets_loop_guard by enabled delay) =
      let m = update_loop_guard_preference_locked enabled delay now in
      Keeps-named by (guard (valid_or_absent delay) bad_delay >> m) (
        Keeps-guard view (valid_or_absent delay) bad_delay m
          (locked.setting_loop_guard enabled delay now))
  after-Keeps now (writes_brief by body) =
      let m = update_brief_locked by body now in
      Keeps-named by (guard (leb (length body) max_brief_length) brief_too_long >> m) (
        Keeps-guard view (leb (length body) max_brief_length) brief_too_long m
          (locked.writing_brief by body now))
  after-Keeps now (starts channel_id by duration mode) =
      Keeps-named by (start_active_session_locked channel_id by duration mode now)
        (locked.starting channel_id by duration mode now)
  after-Keeps now (joins p stale session) =
      Keeps-guard view (is_safe_slug p.alias) unsafe_slug
        (join_participant_locked p stale now session) (locked.joining p stale now session)
  after-Keeps now (upserts p) =
      Keeps-guard view (is_safe_slug p.alias) unsafe_slug (upsert_participant_locked p)
        (locked.upserting p)
  after-Keeps now (writes_cursor alias since) =
      let write =
        write_cursor_file (record { alias = alias; since_id = since; updated_at = now }) in
      Keeps-guard view (is_safe_slug alias) unsafe_slug
        (guard (is_safe_integer since) bad_cursor >> write)
        (Keeps-guard view (is_safe_integer since) bad_cursor write
          (locked.writing_cursor (record { alias = alias; since_id = since; updated_at = now })))
  after-Keeps now recovers = locked.recovering

  pub run-Keeps :
      (cs : List (ℕ × Call)) (s : RoomFiles) (x : X)
      → view s ≡ some x
      → view (run room_id cs s) ≡ some x
  run-Keeps [] s x h = h
  run-Keeps ((now, c) ∷ cs) s x h =
      run-Keeps cs (after room_id (now, c) s) x (after-Keeps now c s x h)
