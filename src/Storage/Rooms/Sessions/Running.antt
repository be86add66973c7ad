-- ===== src/Storage/Rooms/Sessions/Running.antt =====
-- The chat session of a room of src/storage/room-store.ts over a history of calls.
use agentgather.Common.{
  ℕ, ◌≡◌, Bool, true, false, Option, none, some, List, arith, JsString, Outcome, ok, throw, subst,
}
use agentgather.Protocol.Types.{ActiveSession, AttendancePolicy, ClientMessageInput, Participant}
use agentgather.Protocol.Slug.{is_safe_slug}
use agentgather.Storage.Rooms.{
  RoomFiles, RoomError, Action, ◌>>◌, guard, unsafe_slug, assert_safe_slug, append_locked,
  resend_or_append, append_new, store_message, read_room_state, active_session_exists,
}
use agentgather.Storage.Rooms.Calls.{Call, run, Keeps, KeepsLocked, run-Keeps}
use agentgather.Storage.Rooms.Recovery.{recover_room_state, write_recovered}
use agentgather.Storage.Rooms.Members.{upsert_participant_locked, join_participant_locked}
use agentgather.Storage.Rooms.Sessions.{
  start_active_session, end_active_session, end_running, update_attendance_policy_locked,
  start_if_idle, update_loop_guard_preference_locked, update_brief_locked,
  append_server_message_locked, start_active_session_locked, end_active_session_locked, running,
}

-- The session that runs in a room.
abbrev pub session_of : RoomFiles → Option ActiveSession
session_of s = elim s.state [ none ↦ none | some state ↦ running state.active_session ]

Keeps-append_locked :
    (input : ClientMessageInput) (from : JsString) (now : ℕ) (limit : Option ℕ)
    → Keeps session_of (append_locked input from now limit)
unfolding append_locked resend_or_append append_new store_message read_room_state
Keeps-append_locked input from now limit s a h = ground arith

Keeps-server :
    (from text : JsString) (now : ℕ) → Keeps session_of (append_server_message_locked from text now)
unfolding append_server_message_locked store_message read_room_state
Keeps-server from text now s a h = ground arith

Keeps-policy :
    (policy : AttendancePolicy) (now : ℕ)
    → Keeps session_of (update_attendance_policy_locked policy now)
unfolding update_attendance_policy_locked read_room_state
Keeps-policy policy now s a h = ground arith

Keeps-loop_guard :
    (enabled : Bool) (delay : Option ℕ) (now : ℕ)
    → Keeps session_of (update_loop_guard_preference_locked enabled delay now)
unfolding update_loop_guard_preference_locked read_room_state
Keeps-loop_guard enabled delay now s a h = ground arith

Keeps-brief : (by body : JsString) (now : ℕ) → Keeps session_of (update_brief_locked by body now)
unfolding update_brief_locked read_room_state
Keeps-brief by body now s a h = ground arith

Keeps-start :
    (channel_id by : JsString) (duration : ℕ) (mode : Option AttendancePolicy) (now : ℕ)
    → Keeps session_of (start_active_session_locked channel_id by duration mode now)
unfolding start_active_session_locked start_if_idle read_room_state
Keeps-start channel_id by duration mode now s a h = ground arith

Keeps-join :
    (p : Participant) (stale now : ℕ) (session : Option JsString)
    → Keeps session_of (join_participant_locked p stale now session)
unfolding join_participant_locked
Keeps-join p stale now session s a h = ground arith

Keeps-upsert : (p : Participant) → Keeps session_of (upsert_participant_locked p)
unfolding upsert_participant_locked
Keeps-upsert p s a h = ground arith

Keeps-recover : Keeps session_of recover_room_state
unfolding recover_room_state read_room_state write_recovered
Keeps-recover s a h = ground arith

locked_session : KeepsLocked session_of
locked_session = record {
  sending = Keeps-append_locked;
  server_sending = Keeps-server;
  setting_policy = Keeps-policy;
  setting_loop_guard = Keeps-loop_guard;
  writing_brief = Keeps-brief;
  starting = Keeps-start;
  joining = Keeps-join;
  upserting = Keeps-upsert;
  writing_cursor = λ c s a h. h;
  recovering = Keeps-recover;
}

module _ (room_id : JsString) where
  -- A start that returned a session left it running.
  Started : RoomFiles × Outcome RoomError ActiveSession → Type 0
  Started (s, ok a) = session_of s ≡ some a
  Started (s, throw e) = Unit {0}

  Started-guard :
      (b : Bool) (e : RoomError) (m : Action ActiveSession) (s : RoomFiles)
      → Started (m s)
      → Started ((guard b e >> m) s)
  unfolding Started
  Started-guard true e m s h = h
  Started-guard false e m s h = tt

  start_locked-Started :
      (channel_id by : JsString) (duration : ℕ) (mode : Option AttendancePolicy) (now : ℕ)
      (s : RoomFiles)
      → Started (start_active_session_locked channel_id by duration mode now s)
  unfolding Started start_active_session_locked start_if_idle read_room_state
  start_locked-Started channel_id by duration mode now s = ground arith

  start-Started :
      (channel_id by : JsString) (duration : ℕ) (mode : Option AttendancePolicy) (now : ℕ)
      (s : RoomFiles)
      → Started (start_active_session room_id channel_id by duration mode now s)
  unfolding start_active_session
  start-Started channel_id by duration mode now s =
      let locked = start_active_session_locked channel_id by duration mode now in
      Started-guard (is_safe_slug room_id) unsafe_slug (assert_safe_slug by >> locked) s (
        Started-guard (is_safe_slug by) unsafe_slug locked s
          (start_locked-Started channel_id by duration mode now s))

refused_while_running :
    (room_id channel_id by : JsString) (duration : ℕ) (mode : Option AttendancePolicy) (now : ℕ)
    (s : RoomFiles) (a : ActiveSession)
    → is_safe_slug room_id ≡ true
    → is_safe_slug by ≡ true
    → session_of s ≡ some a
    → (start_active_session room_id channel_id by duration mode now s).1
      ≡ throw active_session_exists
unfolding start_active_session start_active_session_locked start_if_idle read_room_state
refused_while_running room_id channel_id by duration mode now s a safe safe_by h =
    rw (safe, safe_by) (ground arith)

ended_while_running :
    (room_id : JsString) (now : ℕ) (s : RoomFiles) (a : ActiveSession)
    → is_safe_slug room_id ≡ true
    → session_of s ≡ some a
    → (end_active_session room_id now s).1 ≡ ok (some (record a { ended_at = some now }))
unfolding end_active_session end_active_session_locked end_running read_room_state
ended_while_running room_id now s a safe h = rw (safe) (ground arith)

-- A session that was started runs on through any history of calls that neither ends it nor closes
-- the room, starts, joins, messages and recoveries included: a further start is then refused, and
-- an end returns that same session, stamped with its time.
pub session_runs_on :
    (room_id channel_id by : JsString) (duration : ℕ) (mode : Option AttendancePolicy) (now : ℕ)
    (channel_id' by' : JsString) (duration' : ℕ) (mode' : Option AttendancePolicy) (later : ℕ)
    (cs : List (ℕ × Call)) (s s' : RoomFiles) (a : ActiveSession)
    → is_safe_slug room_id ≡ true
    → is_safe_slug by' ≡ true
    → start_active_session room_id channel_id by duration mode now s ≡ (s', ok a)
    → ((start_active_session room_id channel_id' by' duration' mode' later (run room_id cs s')).1
        ≡ throw active_session_exists)
      × ((end_active_session room_id later (run room_id cs s')).1
          ≡ ok (some (record a { ended_at = some later })))
unfolding Started
session_runs_on room_id channel_id by duration mode now channel_id' by' duration' mode' later cs s
      s' a safe safe_by started =
    let kept =
      run-Keeps session_of room_id locked_session cs s' a (
        subst (Started room_id) started
          (start-Started room_id channel_id by duration mode now s)) in
    (
      refused_while_running room_id channel_id' by' duration' mode' later (run room_id cs s') a safe
          safe_by kept,
      ended_while_running room_id later (run room_id cs s') a safe kept,
    )
