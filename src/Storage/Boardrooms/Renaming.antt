-- ===== src/Storage/Boardrooms/Renaming.antt =====
-- `renameChannel` of src/storage/boardroom-store.ts.
use agentgather.Common.{
  ℕ, ◌≡◌, ◌≢◌, refl, true, false, some, List, [], ◌∷◌, arith, JsString, str_eq, str_eq_iff, ok,
  if◌then◌else◌, Bool-cases, inl, inr,
}
use mathlib.Core.Option
use agentgather.Protocol.Slug.{is_safe_slug}
use agentgather.Protocol.Boardroom.{
  Boardroom, Channel, has_channel, assert_valid_channel, assert_channels, assert_valid_boardroom,
  is_nonempty,
}
use agentgather.Storage.Boardrooms.{
  BoardFiles, persist_boardroom, rename_channel, rename_channel_locked, with_channels, rename_in,
  read_boardroom, boardroom_or_legacy, find_channel,
}
use agentgather.Storage.Boardrooms.Channels.{AreChannels, IsBoardroom, Unseen}

Unseen-none : (channels : List Channel) → Unseen [] channels
Unseen-none [] = tt
Unseen-none (c ∷ channels) = (refl, Unseen-none channels)

Unseen-cons :
    (c : Channel) (seen channels : List Channel)
    → has_channel c.id channels ≡ false
    → Unseen seen channels
    → Unseen (c ∷ seen) channels
Unseen-cons c seen [] h u = tt
Unseen-cons c seen (d ∷ channels) h u = (
  ground (arith, u.0, str_eq_iff c.id d.id, str_eq_iff d.id c.id),
  Unseen-cons c seen channels (ground (arith)) u.1,
)

assert_channels_complete :
    (seen channels : List Channel)
    → AreChannels channels
    → Unseen seen channels
    → assert_channels seen channels ≡ ok tt
unfolding assert_channels assert_valid_channel
assert_channels_complete seen [] v u = refl
assert_channels_complete seen (c ∷ channels) v u =
    rw (v.0, u.0)
      (assert_channels_complete (c ∷ seen) channels v.2 (Unseen-cons c seen channels v.1 u.1))

IsBoardroom-assert_valid : (b : Boardroom) → IsBoardroom b → assert_valid_boardroom b ≡ ok tt
unfolding assert_valid_boardroom
IsBoardroom-assert_valid b v =
    rw (v.safe, v.some_channel)
      (assert_channels_complete [] b.channels v.channels (Unseen-none b.channels))

module _ (id name : JsString) where
  has_channel-rename_in :
      (key : JsString) (channels : List Channel)
      → has_channel key (rename_in id name channels) ≡ has_channel key channels
  unfolding rename_in
  has_channel-rename_in key [] = refl
  has_channel-rename_in key (c ∷ channels) = ground (arith, has_channel-rename_in key channels)

  AreChannels-rename_in :
      (channels : List Channel) → AreChannels channels → AreChannels (rename_in id name channels)
  unfolding rename_in
  AreChannels-rename_in [] v = tt
  AreChannels-rename_in (c ∷ channels) v = elim (Bool-cases (str_eq c.id id)) [
    | inl same ↦
        rw (same)
          (v.0, rw (has_channel-rename_in c.id channels) v.1, AreChannels-rename_in channels v.2)
    | inr other ↦
        rw (other)
          (v.0, rw (has_channel-rename_in c.id channels) v.1, AreChannels-rename_in channels v.2)
  ]

  nonempty-rename_in :
      (channels : List Channel) → is_nonempty (rename_in id name channels) ≡ is_nonempty channels
  unfolding rename_in
  nonempty-rename_in [] = refl
  nonempty-rename_in (c ∷ channels) = refl

  -- Every channel as it was, but for the name of the one with the id.
  abbrev pub with_name : Channel → Channel
  with_name c = record c { name = name }

  find-rename_in :
      (key : JsString) (channels : List Channel)
      → find_channel key (rename_in id name channels) ≡ (
          if str_eq id key
          then Option.map with_name (find_channel key channels)
          else find_channel key channels)
  unfolding rename_in
  find-rename_in key [] = ground arith
  find-rename_in key (c ∷ channels) = ground (
    arith,
    find-rename_in key channels,
    str_eq_iff c.id id,
    str_eq_iff c.id key,
    str_eq_iff id key,
  )

-- The boardroom after a rename.
abbrev renamed : JsString → JsString → ℕ → Boardroom → Boardroom
renamed id name now b = with_channels (rename_in id name b.channels) now b

renamed-IsBoardroom :
    (id name : JsString) (now : ℕ) (b : Boardroom)
    → IsBoardroom b
    → IsBoardroom (renamed id name now b)
renamed-IsBoardroom id name now b v = record {
  safe = v.safe;
  some_channel = rw (nonempty-rename_in id name b.channels) v.some_channel;
  channels = AreChannels-rename_in id name b.channels v.channels;
}

-- The files with that boardroom.
abbrev with_board : Boardroom → BoardFiles → BoardFiles
with_board b s = record s { boardroom = some b }

rename_locked_eq :
    (id name : JsString) (now : ℕ) (s : BoardFiles) (b : Boardroom)
    → read_boardroom s ≡ (s, ok b)
    → IsBoardroom b
    → has_channel id b.channels ≡ true
    → rename_channel_locked id name now s
      ≡ (with_board (renamed id name now b) s, ok (renamed id name now b))
unfolding rename_channel_locked persist_boardroom
rename_locked_eq id name now s b r v h =
    rw
      (r, h, IsBoardroom-assert_valid (renamed id name now b) (renamed-IsBoardroom id name now b v))
      refl

-- Renaming a channel of a boardroom that is as it should be succeeds, also for a room that has no
-- boardroom file yet: a later read gives the boardroom with the same channels in every respect but
-- the name of that channel.
pub rename_channel_lem :
    (room_id id name : JsString) (now : ℕ) (s : BoardFiles) (b : Boardroom)
    → is_safe_slug room_id ≡ true
    → is_safe_slug id ≡ true
    → read_boardroom s ≡ (s, ok b)
    → IsBoardroom b
    → has_channel id b.channels ≡ true
    → (t : BoardFiles) × (c : Boardroom) × (rename_channel room_id id name now s ≡ (t, ok c))
      × (read_boardroom t ≡ (t, ok c))
      × IsBoardroom c
      × (find_channel id c.channels ≡ Option.map (with_name id name) (find_channel id b.channels))
      × ((other : JsString)
          → id ≢ other
          → find_channel other c.channels ≡ find_channel other b.channels)
unfolding rename_channel read_boardroom boardroom_or_legacy
rename_channel_lem room_id id name now s b safe_room safe_id r v h = (
  with_board (renamed id name now b) s,
  renamed id name now b,
  rw (safe_room, safe_id) (rename_locked_eq id name now s b r v h),
  refl,
  renamed-IsBoardroom id name now b v,
  ground (arith, find-rename_in id name id b.channels, str_eq_iff id id),
  λ other apart. ground (arith, find-rename_in id name other b.channels, str_eq_iff id other),
)
