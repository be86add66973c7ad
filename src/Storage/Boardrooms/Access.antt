-- ===== src/Storage/Boardrooms/Access.antt =====
-- What the reads of src/storage/boardroom-store.ts depend on.
use agentgather.Common.{
  ◌≡◌, refl, Bool, true, false, Option, none, some, List, [], JsString, str_eq, Outcome, ok, throw,
  JsMap, Bool-cases, inl, inr,
}
use agentgather.Common.Stateful.{require, or_fail}
use agentgather.Protocol.Types.{Message, RoomState}
use agentgather.Protocol.Boardroom.{Boardroom, ChannelReadCursor, default_channel_id}
use agentgather.Storage.Rooms.{
  not_found, with_room_defaults, RoomFiles, RoomError, read_room_state, read_messages,
}
use agentgather.Storage.Boardrooms.{
  Thread, legacy_boardroom, in_room, room_error, messages_of_channel, BoardFiles, BoardError,
  Action, read_boardroom, boardroom_or_legacy,
}

-- The files with other read positions and other forums.
abbrev pub with_files : JsMap ChannelReadCursor → JsMap (JsMap Thread) → BoardFiles → BoardFiles
with_files cursors forum s = record s { cursors = cursors; forum = forum }

-- A call that changes nothing, and whose outcome does not depend on the read positions or
-- on the forums.
pub record ReadsRoom {A : Type 0} (call : Action A) (s : BoardFiles) : Type 0 where
  pub outcome : Outcome BoardError A
  pub here : call s ≡ (s, outcome)
  pub there :
      (cursors : JsMap ChannelReadCursor) (forum : JsMap (JsMap Thread))
      → call (with_files cursors forum s) ≡ (with_files cursors forum s, outcome)

ReadsRoom-require : (holds : Bool) (e : BoardError) (s : BoardFiles) → ReadsRoom (require holds e) s
ReadsRoom-require true e s = record { outcome = ok tt; here = refl; there = λ m f. refl }
ReadsRoom-require false e s = record { outcome = throw e; here = refl; there = λ m f. refl }

ReadsRoom-or_fail :
    {A : Type 0} (o : Option A) (e : BoardError) (s : BoardFiles) → ReadsRoom (or_fail o e) s
ReadsRoom-or_fail none e s = record { outcome = throw e; here = refl; there = λ m f. refl }
ReadsRoom-or_fail (some a) e s = record { outcome = ok a; here = refl; there = λ m f. refl }

ReadsRoom-in_room :
    {A : Type 0} (call : RoomFiles → RoomFiles × Outcome RoomError A) (s : BoardFiles)
    (o : Outcome RoomError A)
    → call s.room ≡ (s.room, o)
    → ReadsRoom (in_room call) s
ReadsRoom-in_room call s (ok a) e = record {
  outcome = ok a;
  here = rw (e) refl;
  there = λ m f. rw (e) refl;
}
ReadsRoom-in_room call s (throw x) e = record {
  outcome = throw (room_error x);
  here = rw (e) refl;
  there = λ m f. rw (e) refl;
}

room_state_reads :
    (r : RoomFiles) → (o : Outcome RoomError RoomState) × (read_room_state r ≡ (r, o))
unfolding read_room_state
room_state_reads r = by_file r.state refl
  where
    by_file :
        (f : Option RoomState)
        → r.state ≡ f
        → (o : Outcome RoomError RoomState) × (read_room_state r ≡ (r, o))
    by_file none e = (throw not_found, rw (e, read_room_state) refl)
    by_file (some state) e = (ok (with_room_defaults state), rw (e, read_room_state) refl)

messages_reads :
    (r : RoomFiles) → (o : Outcome RoomError (List Message)) × (read_messages r ≡ (r, o))
messages_reads r = by_file r.messages refl
  where
    by_file :
        (f : Option (List Message))
        → r.messages ≡ f
        → (o : Outcome RoomError (List Message)) × (read_messages r ≡ (r, o))
    by_file none e = (throw not_found, rw (e) refl)
    by_file (some ms) e = (ok ms, rw (e) refl)

pub ReadsRoom-board : (s : BoardFiles) → ReadsRoom read_boardroom s
unfolding read_boardroom boardroom_or_legacy
ReadsRoom-board s = by_file s.boardroom refl (room_state_reads s.room)
  where
    by_file :
        (f : Option Boardroom)
        → s.boardroom ≡ f
        → (o : Outcome RoomError RoomState) × (read_room_state s.room ≡ (s.room, o))
        → ReadsRoom read_boardroom s
    by_file none e (ok state, r) = record {
      outcome = ok (legacy_boardroom state);
      here = rw (read_boardroom, e, boardroom_or_legacy, r) refl;
      there = λ m f. rw (read_boardroom, e, boardroom_or_legacy, r) refl;
    }
    by_file none e (throw x, r) = record {
      outcome = throw (room_error x);
      here = rw (read_boardroom, e, boardroom_or_legacy, r) refl;
      there = λ m f. rw (read_boardroom, e, boardroom_or_legacy, r) refl;
    }
    by_file (some b) e r = record {
      outcome = ok (record b { legacy = false });
      here = rw (read_boardroom, e, boardroom_or_legacy) refl;
      there = λ m f. rw (read_boardroom, e, boardroom_or_legacy) refl;
    }

pub ReadsRoom-messages : (id : JsString) (s : BoardFiles) → ReadsRoom (messages_of_channel id) s
ReadsRoom-messages id s = elim (Bool-cases (str_eq id default_channel_id)) [
  | inl own ↦
      let r = messages_reads s.room in
      let reads = ReadsRoom-in_room read_messages s r.0 r.1 in
      record {
        outcome = reads.outcome;
        here = rw (own) reads.here;
        there = λ m f. rw (own) (reads.there m f);
      }
  | inr other ↦ record { outcome = ok []; here = rw (other) refl; there = λ m f. rw (other) refl }
]
