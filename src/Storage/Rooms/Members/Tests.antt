-- ===== src/Storage/Rooms/Members/Tests.antt =====
-- The theorems on members and cursors of src/storage/room-store.ts at a concrete room.
use agentgather.Common.{
  ◌-◌, ◌≤◌, ◌≡◌, ◌↔◌, refl, true, false, none, some, List, [], arith, js, ok, str_eq, if◌then◌else◌,
}
use agentgather.Protocol.Types.{Participant, agent, local, core, attending}
use agentgather.Protocol.Slug.{is_safe_slug}
use agentgather.Protocol.Slug.Laws.{is_safe_slug_iff}
use agentgather.Storage.Rooms.{RoomFiles}
use agentgather.Storage.Rooms.Members.{find_alias, join_participant, same_session}
use agentgather.Storage.Rooms.Members.Joining.{
  UniqueAliases, join_replaces, second_join_reported_iff,
}

abbrev ann : Participant
ann = record {
  alias = js "ann";
  display_name = none;
  kind = agent;
  location = local;
  install = core;
  attention = attending;
  is_host = false;
  token_hash = none;
  removed_at = none;
  joined_at = 100;
  last_seen_at = some 100;
  supported_modes = none;
  requested_mode = none;
  effective_mode = none;
  poll_cadence_s = none;
  safety_wake_s = none;
  forum_review_channel = none;
  session_id = some (js "s1");
}

abbrev room : RoomFiles
room = record { state = none; participants = some []; brief = none; messages = none; cursors = [] }

ann-is_safe_slug : is_safe_slug (js "ann") ≡ true
ann-is_safe_slug = (is_safe_slug_iff (js "ann")).1 (omega arith, omega arith, refl)

join_replaces_example :
    (qs : List Participant) × ((join_participant ann 1000 100 (some (js "s1")) room).0.participants
      ≡ some qs)
    × UniqueAliases qs
    × (find_alias (js "ann") qs
        ≡ (if str_eq (js "ann") (js "ann") then some ann else find_alias (js "ann") []))
join_replaces_example =
    join_replaces ann 1000 100 (some (js "s1")) room [] (js "ann") ann-is_safe_slug refl tt

second_join_reported_iff_example :
    ((join_participant ann 1000 500
        (some (js "s2"))
        (join_participant ann 1000 100 (some (js "s1")) room).0).1
      ≡ ok true)
    ↔ ((500 - 100 ≤ 1000) × (same_session (some (js "s2")) (some (js "s1")) ≡ false))
second_join_reported_iff_example =
    second_join_reported_iff ann ann 1000 100 500 100 (some (js "s1")) (some (js "s2")) room []
      ann-is_safe_slug refl refl refl refl refl
