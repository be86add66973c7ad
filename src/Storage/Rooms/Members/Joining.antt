-- ===== src/Storage/Rooms/Members/Joining.antt =====
-- What joins of src/storage/room-store.ts do to the participants of a room.
use agentgather.Common.{
  ℕ, ◌-◌, ◌≤◌, ◌≡◌, ◌↔◌, refl, true, false, Option, none, some, List, [], ◌∷◌, arith, JsString,
  get-set_self, str_eq, str_eq_iff, str_eq_refl, ok, if◌then◌else◌,
}
use agentgather.Protocol.Types.{Participant}
use agentgather.Protocol.Slug.{is_safe_slug}
use agentgather.Protocol.Messages.{is_safe_integer}
use agentgather.Storage.Rooms.{RoomFiles}
use agentgather.Storage.Rooms.Members.{
  replace_or_push, find_alias, join_participant, join_participant_locked,
  is_actively_attended_by_other_session, is_foreground, same_session, read_cursor, write_cursor,
  since_or_start,
}

-- No alias stands twice in the list.
abbrev pub UniqueAliases : List Participant → Type 0
UniqueAliases [] = Unit {0}
UniqueAliases (p ∷ ps) = (find_alias p.alias ps ≡ none) × UniqueAliases ps

pub find_alias-replace_or_push :
    (alias : JsString) (p : Participant) (ps : List Participant)
    → find_alias alias (replace_or_push p ps)
      ≡ (if str_eq p.alias alias then some p else find_alias alias ps)
unfolding find_alias replace_or_push
find_alias-replace_or_push alias p [] = ground arith
find_alias-replace_or_push alias p (q ∷ ps) = ground (
  arith,
  find_alias-replace_or_push alias p ps,
  str_eq_iff q.alias p.alias,
  str_eq_iff p.alias alias,
  str_eq_iff q.alias alias,
)

replace_or_push-UniqueAliases :
    (p : Participant) (ps : List Participant)
    → UniqueAliases ps
    → UniqueAliases (replace_or_push p ps)
unfolding find_alias replace_or_push
replace_or_push-UniqueAliases p [] u = (refl, tt)
replace_or_push-UniqueAliases p (q ∷ ps) u = ground (
  arith,
  replace_or_push-UniqueAliases p ps u.1,
  find_alias-replace_or_push q.alias p ps,
  str_eq_iff q.alias p.alias,
  str_eq_iff p.alias q.alias,
)

-- A join under a safe alias replaces the participant of that alias, or adds one, and changes no
-- other; no alias then stands twice, if none did before.
pub join_replaces :
    (p : Participant) (stale_after_ms now : ℕ) (session : Option JsString) (s : RoomFiles)
    (ps : List Participant) (alias : JsString)
    → is_safe_slug p.alias ≡ true
    → s.participants ≡ some ps
    → UniqueAliases ps
    → (qs : List Participant) × ((join_participant p stale_after_ms now session s).0.participants
        ≡ some qs)
      × UniqueAliases qs
      × (find_alias alias qs ≡ (if str_eq p.alias alias then some p else find_alias alias ps))
unfolding join_participant join_participant_locked
join_replaces p stale_after_ms now session s ps alias safe stored unique = (
  replace_or_push p ps,
  rw (safe, stored) refl,
  replace_or_push-UniqueAliases p ps unique,
  find_alias-replace_or_push alias p ps,
)

-- After a foreground participant joined, a second join of its alias is reported as a second active
-- session exactly when the first was seen within the stale time and the second does not carry the
-- first one's session id.
pub second_join_reported_iff :
    (p q : Participant) (stale_after_ms now later seen : ℕ) (session again : Option JsString)
    (s : RoomFiles) (ps : List Participant)
    → is_safe_slug p.alias ≡ true
    → q.alias ≡ p.alias
    → s.participants ≡ some ps
    → p.removed_at ≡ none
    → is_foreground p.attention ≡ true
    → p.last_seen_at ≡ some seen
    → ((join_participant q stale_after_ms later again
          (join_participant p stale_after_ms now session s).0).1
        ≡ ok true)
      ↔ ((later - seen ≤ stale_after_ms) × (same_session again p.session_id ≡ false))
unfolding join_participant join_participant_locked is_actively_attended_by_other_session
second_join_reported_iff p q stale_after_ms now later seen session again s ps safe same stored here
      foreground last =
    let found : find_alias p.alias (replace_or_push p ps) ≡ some p =
      ground (arith, find_alias-replace_or_push p.alias p ps, str_eq_refl p.alias) in
    rw (safe, stored, same) rw (safe, found, here, foreground, last)
      ((λ h. ground arith), (λ h. ground arith))

-- A cursor that was written reads back as the id that was written, whatever stood there before.
pub read_cursor-write_cursor :
    (alias : JsString) (since now : ℕ) (s : RoomFiles)
    → is_safe_slug alias ≡ true
    → is_safe_integer since ≡ true
    → (read_cursor alias (write_cursor alias since now s).0).1 ≡ ok since
unfolding read_cursor write_cursor since_or_start
read_cursor-write_cursor alias since now s safe bound =
    rw (safe, bound) rw
      (get-set_self alias (record { alias = alias; since_id = since; updated_at = now }) s.cursors)
      refl
