-- ===== src/Storage/Rooms/Members.antt =====
-- src/storage/room-store.ts: the participants of a room and how far each has read.
pub mod Joining
mod Tests
use agentgather.Common.{
  ℕ, ◌-◌, Bool, true, false, not, ◌&&◌, Option, none, some, List, [], ◌∷◌, JsString, get, set,
  str_eq, Outcome, ok, every, leb, if◌then◌else◌,
}
use agentgather.Protocol.Types.{Participant, ParticipantAttention, attending, managed}
use agentgather.Protocol.Messages.{is_safe_integer}
use agentgather.Protocol.Slug.{is_safe_slug}
use agentgather.Storage.Rooms.{
  RoomFiles, Action, ◌>>=◌, ◌>>◌, return, guard, assert_safe_slug, read_participants, CursorRecord,
  bad_cursor, unsafe_slug,
}

abbrev write_participant_list : List Participant → Action (Unit {0})
write_participant_list participants s = (record s { participants = some participants }, ok tt)

unfoldable pub write_participants : List Participant → Action (Unit {0})
write_participants participants = do
  guard (every (λ p. is_safe_slug p.alias) participants) unsafe_slug
  write_participant_list participants

-- `participants[findIndex(alias)] = participant`, or `push`.
unfoldable pub replace_or_push : Participant → List Participant → List Participant
replace_or_push participant [] = participant ∷ []
replace_or_push participant (p ∷ participants) =
    if str_eq p.alias participant.alias
    then participant ∷ participants
    else p ∷ replace_or_push participant participants

unfoldable pub find_alias : JsString → List Participant → Option Participant
find_alias alias [] = none
find_alias alias (p ∷ participants) =
    if str_eq p.alias alias then some p else find_alias alias participants

-- The part of `upsert_participant` under the lock.
unfoldable pub upsert_participant_locked : Participant → Action (Unit {0})
unfolding replace_or_push
upsert_participant_locked participant = do
  participants ← read_participants
  write_participant_list (replace_or_push participant participants)

unfoldable pub upsert_participant : Participant → Action (Unit {0})
unfolding upsert_participant_locked
upsert_participant participant = do
  assert_safe_slug participant.alias
  upsert_participant_locked participant

abbrev is_foreground : ParticipantAttention → Bool
is_foreground attending = true
is_foreground managed = true
is_foreground _ = false

abbrev seen_within : ℕ → ℕ → Option ℕ → Bool
seen_within now stale_after_ms none = false
seen_within now stale_after_ms (some last_seen) = leb (now - last_seen) stale_after_ms

-- `incomingSessionId !== undefined && existing.session_id === incomingSessionId`.
abbrev pub same_session : Option JsString → Option JsString → Bool
same_session none stored = false
same_session (some incoming) none = false
same_session (some incoming) (some stored) = str_eq stored incoming

abbrev is_none : Option ℕ → Bool
is_none none = true
is_none (some n) = false

unfoldable pub is_actively_attended_by_other_session : Participant → ℕ → ℕ → Option JsString → Bool
is_actively_attended_by_other_session existing now stale_after_ms incoming_session_id =
    is_none existing.removed_at
    && is_foreground existing.attention
    && seen_within now stale_after_ms existing.last_seen_at
    && not (same_session incoming_session_id existing.session_id)

abbrev duplicate : Option Participant → ℕ → ℕ → Option JsString → Bool
duplicate none now stale_after_ms incoming = false
duplicate (some existing) now stale_after_ms incoming =
    is_actively_attended_by_other_session existing now stale_after_ms incoming

-- The part of `join_participant` under the lock.
unfoldable pub join_participant_locked : Participant → ℕ → ℕ → Option JsString → Action Bool
unfolding replace_or_push find_alias is_actively_attended_by_other_session
join_participant_locked participant stale_after_ms now incoming_session_id = do
  participants ← read_participants
  write_participant_list (replace_or_push participant participants)
  return
      (duplicate (find_alias participant.alias participants) now stale_after_ms incoming_session_id)

-- Whether the alias was actively attended by another session when it joined.
unfoldable pub join_participant : Participant → ℕ → ℕ → Option JsString → Action Bool
unfolding join_participant_locked
join_participant participant stale_after_ms now incoming_session_id = do
  assert_safe_slug participant.alias
  join_participant_locked participant stale_after_ms now incoming_session_id

unfoldable pub since_or_start : Option CursorRecord → ℕ
since_or_start none = 0
since_or_start (some c) = c.since_id

unfoldable pub read_cursor : JsString → Action ℕ
unfolding since_or_start
read_cursor alias = do assert_safe_slug alias; λ s. (s, ok (since_or_start (get alias s.cursors)))

abbrev pub write_cursor_file : CursorRecord → Action CursorRecord
write_cursor_file c s = (record s { cursors = set c.alias c s.cursors }, ok c)

unfoldable pub write_cursor : JsString → ℕ → ℕ → Action CursorRecord
write_cursor alias since_id now = do
  assert_safe_slug alias
  guard (is_safe_integer since_id) bad_cursor
  write_cursor_file (record { alias = alias; since_id = since_id; updated_at = now })
