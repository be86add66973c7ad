-- ===== src/Storage/Joined/Bulk.antt =====
-- Archiving and deleting many rows in src/storage/joined-rooms-store.ts.
use agentgather.Common.{
  ◌-◌, ◌≤◌, ◌≡◌, refl, sym, ap, ◌∙◌, Bool, true, false, not, ◌&&◌, ◌==◌, List, [], ◌∷◌, map,
  JsString, JsMap, get, arith, length, filter, count, ltb, if◌then◌else◌, Bool-cases, inl, inr,
}
use agentgather.Storage.Joined.{
  JoinedRoom, JoinedRoomTarget, DeviceHome, rooms_or_none, read_joined_rooms,
}
use agentgather.Storage.Joined.Selection.{
  dedupe_targets, is_selected, with_archived, bool_eq, archive_rows, set_joined_rooms_archived,
  write_if_changed, delete_joined_rooms, delete_histories, delete_joined_history,
}
use agentgather.Storage.Joined.Keys.{is_target, is_selected-dedupe_targets}

-- The rows after archiving those of the targets.
abbrev pub archived_rows : List JoinedRoomTarget → Bool → List JoinedRoom → List JoinedRoom
archived_rows targets archived rooms =
    map (λ r. if is_target targets r then with_archived archived r else r) rooms

-- A row of the targets that is not yet as it is to be.
abbrev pub differs : List JoinedRoomTarget → Bool → JoinedRoom → Bool
differs targets archived r = is_target targets r && not (bool_eq r.archived archived)

same_flag :
    (archived : Bool) (r : JoinedRoom)
    → bool_eq r.archived archived ≡ true
    → r ≡ with_archived archived r
same_flag archived r h = ap (λ b. record r { archived = b }) (same r.archived archived h)
  where
    same : (b c : Bool) → bool_eq b c ≡ true → b ≡ c
    same true true h = refl
    same true false h = absurd (cc h)
    same false true h = absurd (cc h)
    same false false h = refl

cons_path :
    {r q : JoinedRoom} {xs ys : List JoinedRoom}
    → r ≡ q
    → xs ≡ ys
    → ◌≡◌ {A = List JoinedRoom} (r ∷ xs) (q ∷ ys)
cons_path e h = cc

archive_rows_lem :
    (targets : List JoinedRoomTarget) (archived : Bool) (rooms : List JoinedRoom)
    → ((archive_rows (dedupe_targets targets) archived rooms).0
        ≡ archived_rows targets archived rooms)
      × ((archive_rows (dedupe_targets targets) archived rooms).1 ≡ count (is_target targets) rooms)
      × ((archive_rows (dedupe_targets targets) archived rooms).2
          ≡ count (differs targets archived) rooms)
unfolding archive_rows
archive_rows_lem targets archived [] = (refl, refl, refl)
archive_rows_lem targets archived (r ∷ rooms) =
    let rest = archive_rows_lem targets archived rooms in
    let selected = is_selected-dedupe_targets targets r in
    elim (Bool-cases (is_target targets r)) [
      | inr other ↦
          rw (selected, other)
            (ap (λ l. r ∷ l) rest.0, omega (arith, rest.1), omega (arith, rest.2))
      | inl target ↦ elim (Bool-cases (bool_eq r.archived archived)) [
        | inl same ↦
            rw (selected, target, same)
              (
                cons_path (same_flag archived r same) rest.0,
                omega (arith, rest.1),
                omega (arith, rest.2),
              )
        | inr apart ↦
            rw (selected, target, apart)
              (
                ap (λ l. with_archived archived r ∷ l) rest.0,
                omega (arith, rest.1),
                omega (arith, rest.2),
              )
      ]
    ]

nothing_differs :
    (targets : List JoinedRoomTarget) (archived : Bool) (rooms : List JoinedRoom)
    → count (differs targets archived) rooms ≡ 0
    → archived_rows targets archived rooms ≡ rooms
nothing_differs targets archived [] h = refl
nothing_differs targets archived (r ∷ rooms) h =
    let rest = nothing_differs targets archived rooms (ground (arith, h)) in
    elim (Bool-cases (is_target targets r)) [
      | inr other ↦ rw (other) (ap (λ l. r ∷ l) rest)
      | inl target ↦ elim (Bool-cases (bool_eq r.archived archived)) [
        | inl same ↦ rw (target) (cons_path (sym (same_flag archived r same)) rest)
        | inr apart ↦ absurd (ground (arith, h, target, apart))
      ]
    ]

count_none : {A : Type 0} (p : A → Bool) (xs : List A) → ((x : A) → p x ≡ false) → count p xs ≡ 0
count_none p [] h = refl
count_none p (x ∷ xs) h = rw (h x) (omega (arith, count_none p xs h))

-- Without a target, no row is one.
no_target :
    (targets : List JoinedRoomTarget)
    → (length (dedupe_targets targets) == 0) ≡ true
    → (r : JoinedRoom) → is_target targets r ≡ false
unfolding get
no_target targets h r =
    sym (is_selected-dedupe_targets targets r)
    ∙ ap (λ u. is_selected u r) (empty (dedupe_targets targets) h)
  where
    empty : (u : JsMap JoinedRoomTarget) → (length u == 0) ≡ true → u ≡ []
    empty [] h = refl
    empty (e ∷ u) h = absurd (ground (arith, h))

-- Archiving or restoring a selection leaves every row in its place and changes only the flag, and only
-- of the rows whose room id and base URL are those of a target; no history is touched. The result
-- counts the rows that were selected and those that changed.
pub set_joined_rooms_archived_lem :
    {H : Type 0} (targets : List JoinedRoomTarget) (archived : Bool) (home : DeviceHome H)
    → (read_joined_rooms (set_joined_rooms_archived targets archived home).0
        ≡ archived_rows targets archived (read_joined_rooms home))
      × ((set_joined_rooms_archived targets archived home).0.histories ≡ home.histories)
      × ((set_joined_rooms_archived targets archived home).1.matched
          ≡ count (is_target targets) (read_joined_rooms home))
      × ((set_joined_rooms_archived targets archived home).1.changed
          ≡ count (differs targets archived) (read_joined_rooms home))
unfolding set_joined_rooms_archived
set_joined_rooms_archived_lem {H = H} targets archived home =
    let rooms = read_joined_rooms home in
    let parts = archive_rows_lem targets archived rooms in
    elim (Bool-cases (length (dedupe_targets targets) == 0)) [
      | inl none_given ↦
          let still =
            count_none (differs targets archived) rooms
              (λ r. rw (no_target targets none_given r) refl) in
          rw (none_given) (
            sym (nothing_differs targets archived rooms still),
            refl,
            sym (count_none (is_target targets) rooms (no_target targets none_given)),
            sym still,
          )
      | inr given ↦
          elim (Bool-cases (ltb 0 (archive_rows (dedupe_targets targets) archived rooms).2)) [
            | inl some_change ↦ rw (given, some_change) (parts.0, refl, parts.1, parts.2)
            | inr no_change ↦
                rw (given, no_change)
                  (
                    sym (
                        nothing_differs targets archived rooms
                          (ground (arith, no_change, parts.2))),
                    refl,
                    parts.1,
                    parts.2,
                  )
          ]
    ]

-- The rows of no target.
abbrev pub other_rows : List JoinedRoomTarget → List JoinedRoom → List JoinedRoom
other_rows targets rooms = filter (λ r. not (is_target targets r)) rooms

filter_other :
    (targets : List JoinedRoomTarget) (rooms : List JoinedRoom)
    → filter (λ r. not (is_selected (dedupe_targets targets) r)) rooms ≡ other_rows targets rooms
filter_other targets [] = refl
filter_other targets (r ∷ rooms) = elim (Bool-cases (is_target targets r)) [
  | inl target ↦ rw (is_selected-dedupe_targets targets r, target) (filter_other targets rooms)
  | inr other ↦
      rw (is_selected-dedupe_targets targets r, other)
        (ap (λ l. r ∷ l) (filter_other targets rooms))
]

-- What the rows of no target leave out.
other_rows_all :
    (targets : List JoinedRoomTarget) (rooms : List JoinedRoom)
    → (length (other_rows targets rooms) ≤ length rooms)
      × (length rooms ≤ length (other_rows targets rooms) → other_rows targets rooms ≡ rooms)
other_rows_all targets [] = (omega arith, λ h. refl)
other_rows_all targets (r ∷ rooms) =
    let rest = other_rows_all targets rooms in
    elim (Bool-cases (is_target targets r)) [
      | inl target ↦ rw (target) (omega (arith, rest.0), λ h. absurd (omega (arith, rest.0, h)))
      | inr other ↦
          rw (other) (omega (arith, rest.0), λ h. ap (λ l. r ∷ l) (rest.1 (omega (arith, h))))
    ]

keep_all :
    (targets : List JoinedRoomTarget) (rooms : List JoinedRoom)
    → ((r : JoinedRoom) → is_target targets r ≡ false)
    → other_rows targets rooms ≡ rooms
keep_all targets [] h = refl
keep_all targets (r ∷ rooms) h = rw (h r) (ap (λ l. r ∷ l) (keep_all targets rooms h))

delete_histories-rooms :
    {H : Type 0} (digest : JsString → JsString) (unique : JsMap JoinedRoomTarget)
    (home : DeviceHome H)
    → (delete_histories digest unique home).rooms ≡ home.rooms
unfolding delete_histories delete_joined_history
delete_histories-rooms digest [] home = refl
delete_histories-rooms digest ((k, t) ∷ unique) home =
    delete_histories-rooms digest unique (delete_joined_history digest t home)

-- Deleting a selection removes the rows whose room id and base URL are those of a target, and leaves
-- the others as they were and in their order.
pub delete_joined_rooms_lem :
    {H : Type 0} (digest : JsString → JsString) (targets : List JoinedRoomTarget)
    (home : DeviceHome H)
    → read_joined_rooms (delete_joined_rooms digest targets home).0
      ≡ other_rows targets (read_joined_rooms home)
unfolding delete_joined_rooms
delete_joined_rooms_lem digest targets home =
    let rooms = read_joined_rooms home in
    let unique = dedupe_targets targets in
    let next = filter (λ r. not (is_selected unique r)) rooms in
    let same : next ≡ other_rows targets rooms = filter_other targets rooms in
    let all = other_rows_all targets rooms in
    elim (Bool-cases (length unique == 0)) [
      | inl none_given ↦
          rw (none_given) (sym (keep_all targets rooms (no_target targets none_given)))
      | inr given ↦ elim (Bool-cases (ltb 0 (length rooms - length next))) [
        | inl removed ↦ rw (given) (
            ap rooms_or_none (
              delete_histories-rooms digest unique
                (write_if_changed next (length rooms - length next) home))
            ∙ rw (removed) same)
        | inr none_removed ↦ rw (given) (
            ap rooms_or_none (
              delete_histories-rooms digest unique
                (write_if_changed next (length rooms - length next) home))
            ∙ rw (none_removed)
                (sym (all.1 (ground (arith, none_removed, ap (λ l. length l) same)))))
      ]
    ]
