-- ===== src/Storage/Joined/Keys.antt =====
-- The keys of src/storage/joined-rooms-store.ts tell rooms apart.
use agentgather.Common.{
  ℕ, ◌≡◌, refl, sym, Bool, ◌||◌, List, [], ◌∷◌, ◌++◌, JsString, JsMap, get, set, get-set, str_eq,
  str_eq_iff, arith, length, any,
}
use agentgather.Common.Decimal.{decimal, decimal_inj, IsDecimal, decimal-IsDecimal}
use agentgather.Storage.Joined.{JoinedRoom, JoinedRoomTarget, is_row}
use agentgather.Storage.Joined.Selection.{
  joined_room_key, row_key, target_key, dedupe_onto, dedupe_targets, is_selected,
}

heads : {a b : ℕ} {s t : JsString} → ◌≡◌ {A = JsString} (a ∷ s) (b ∷ t) → a ≡ b
heads e = cc

tails : {a b : ℕ} {s t : JsString} → ◌≡◌ {A = JsString} (a ∷ s) (b ∷ t) → s ≡ t
tails e = cc

-- Digits up to a colon, and what comes after it.
split_at_colon :
    (xs ys s t : JsString)
    → IsDecimal xs
    → IsDecimal ys
    → xs ++ b':' ∷ s ≡ ys ++ b':' ∷ t
    → (xs ≡ ys) × (s ≡ t)
split_at_colon [] [] s t h k e = (refl, tails e)
split_at_colon [] (y ∷ ys) s t h k e = absurd (ground (arith, heads e, k.0))
split_at_colon (x ∷ xs) [] s t h k e = absurd (ground (arith, heads e, h.0))
split_at_colon (x ∷ xs) (y ∷ ys) s t h k e =
    let rest = split_at_colon xs ys s t h.1 k.1 (tails e) in
    let same : x ≡ y = heads e in (cc (same, rest.0), rest.1)

split_at_length :
    (xs ys s t : JsString) → length xs ≡ length ys → xs ++ s ≡ ys ++ t → (xs ≡ ys) × (s ≡ t)
split_at_length [] [] s t h e = (refl, e)
split_at_length [] (y ∷ ys) s t h e = absurd (ground (arith, h))
split_at_length (x ∷ xs) [] s t h e = absurd (ground (arith, h))
split_at_length (x ∷ xs) (y ∷ ys) s t h e =
    let rest = split_at_length xs ys s t (ground (arith, h)) (tails e) in
    let same : x ≡ y = heads e in (cc (same, rest.0), rest.1)

-- Rooms with the same key have the same id and the same base URL, whatever characters these hold.
pub joined_room_key_inj :
    (room_id other_id base_url other_url : JsString)
    → joined_room_key room_id base_url ≡ joined_room_key other_id other_url
    → (room_id ≡ other_id) × (base_url ≡ other_url)
unfolding joined_room_key
joined_room_key_inj room_id other_id base_url other_url e =
    let parts =
      split_at_colon (decimal (length room_id)) (decimal (length other_id)) _ _
        (decimal-IsDecimal (length room_id)) (decimal-IsDecimal (length other_id)) e in
    let names =
      split_at_length room_id other_id _ _ (decimal_inj (length room_id) (length other_id) parts.0)
        parts.1 in
    (names.0, tails names.1)

-- A room among the targets.
abbrev pub is_target : List JoinedRoomTarget → JoinedRoom → Bool
is_target targets room = any (λ t. is_row t.room_id t.base_url room) targets

key_eq-is_row :
    (t : JoinedRoomTarget) (room : JoinedRoom)
    → str_eq (target_key t) (row_key room) ≡ is_row t.room_id t.base_url room
key_eq-is_row t room = ground (
  arith,
  str_eq_iff (target_key t) (row_key room),
  str_eq_iff room.room_id t.room_id,
  str_eq_iff room.base_url t.base_url,
  to,
  from,
)
  where
    to : target_key t ≡ row_key room → (room.room_id ≡ t.room_id) × (room.base_url ≡ t.base_url)
    to e =
        let h = joined_room_key_inj t.room_id room.room_id t.base_url room.base_url e in
        (sym h.0, sym h.1)

    from : room.room_id ≡ t.room_id → room.base_url ≡ t.base_url → target_key t ≡ row_key room
    from e h = cc

selected_onto :
    (targets : List JoinedRoomTarget) (unique : JsMap JoinedRoomTarget) (room : JoinedRoom)
    → is_selected (dedupe_onto targets unique) room
      ≡ is_selected unique room || is_target targets room
unfolding dedupe_onto
selected_onto [] unique room = ground arith
selected_onto (t ∷ targets) unique room = ground (
  arith,
  selected_onto targets (set (target_key t) t unique) room,
  get-set (target_key t) (row_key room) t unique,
  key_eq-is_row t room,
)

pub is_selected-dedupe_targets :
    (targets : List JoinedRoomTarget) (room : JoinedRoom)
    → is_selected (dedupe_targets targets) room ≡ is_target targets room
unfolding dedupe_targets get
is_selected-dedupe_targets targets room = selected_onto targets [] room
