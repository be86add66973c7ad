-- ===== src/Storage/Boardrooms/Channels.antt =====
-- The channels that src/storage/boardroom-store.ts keeps.
use agentgather.Common.{
  ℕ, ◌≡◌, refl, Bool, true, false, not, Option, none, some, List, [], ◌∷◌, ◌++◌, arith, JsString,
  str_eq_iff, Outcome, ok, throw,
}
use agentgather.Common.Stateful.{and_then, ◌>>=◌, ◌>>◌, require, return}
use agentgather.Protocol.Slug.{is_safe_slug}
use agentgather.Protocol.Boardroom.{
  Boardroom, BoardroomError, Channel, has_channel, assert_valid_channel, assert_channels,
  assert_valid_boardroom, is_nonempty,
}
use agentgather.Storage.Boardrooms.{
  BoardFiles, BoardError, CreateBoardroomOptions, Action, persist_boardroom, write_boardroom,
  new_boardroom, create_boardroom, unsafe_slug, bad_cursor, channel_exists, channel_not_found,
  add_channel, add_channel_locked, with_channels, rename_channel, rename_channel_locked, rename_in,
  read_boardroom, write_channel_cursor, in_room, from_room, from_board, write_boardroom_file,
  boardroom_or_legacy, legacy_boardroom, assert_safe_slug,
}
use agentgather.Protocol.Messages.{is_safe_integer}
use agentgather.Storage.Rooms.{RoomFiles, RoomError, read_room_state}

-- Channels with safe ids, none twice.
abbrev pub AreChannels : List Channel → Type 0
AreChannels [] = Unit {0}
AreChannels (c ∷ channels) =
    (is_safe_slug c.id ≡ true) × (has_channel c.id channels ≡ false) × AreChannels channels

pub record IsBoardroom (b : Boardroom) : Type 0 where
  pub safe : is_safe_slug b.id ≡ true
  pub some_channel : is_nonempty b.channels ≡ true
  pub channels : AreChannels b.channels

-- None of the channels is among `seen`.
abbrev pub Unseen : List Channel → List Channel → Type 0
Unseen seen [] = Unit {0}
Unseen seen (c ∷ channels) = (has_channel c.id seen ≡ false) × Unseen seen channels

apart :
    (id : JsString) (c : Channel) (seen channels : List Channel)
    → Unseen (c ∷ seen) channels
    → (has_channel c.id channels ≡ false) × Unseen seen channels
apart id c seen [] h = (refl, tt)
apart id c seen (d ∷ channels) h =
    let rest = apart id c seen channels h.1 in
    (
      ground (arith, rest.0, h.0, str_eq_iff c.id d.id, str_eq_iff d.id c.id),
      (ground (arith, h.0), rest.1),
    )

assert_channels_ok :
    (seen channels : List Channel) (u : Unit {0})
    → assert_channels seen channels ≡ ok u
    → AreChannels channels × Unseen seen channels
unfolding assert_channels assert_valid_channel
assert_channels_ok seen [] u e = (tt, tt)
assert_channels_ok seen (c ∷ channels) u e =
    by_tests (is_safe_slug c.id) refl (has_channel c.id seen) refl
      (assert_channels_ok (c ∷ seen) channels u)
  where
    by_tests :
        (safe : Bool)
        → is_safe_slug c.id ≡ safe
        → (twice : Bool) → has_channel c.id seen ≡ twice
        → (assert_channels (c ∷ seen) channels ≡ ok u
            → AreChannels channels × Unseen (c ∷ seen) channels)
        → AreChannels (c ∷ channels) × Unseen seen (c ∷ channels)
    by_tests false s t r k = absurd (cc (rw (s) at e))
    by_tests true s true r k = absurd (cc (rw (s, r) at e))
    by_tests true s false r k =
        let rest = k (rw (s, r) at e) in
        let apart_rest = apart c.id c seen channels rest.1 in
        ((s, apart_rest.0, rest.0), (r, apart_rest.1))

assert_valid-IsBoardroom :
    (b : Boardroom) (u : Unit {0}) → assert_valid_boardroom b ≡ ok u → IsBoardroom b
unfolding assert_valid_boardroom
assert_valid-IsBoardroom b u e = by_tests (is_safe_slug b.id) refl (is_nonempty b.channels) refl
  where
    by_tests :
        (safe : Bool)
        → is_safe_slug b.id ≡ safe
        → (filled : Bool) → is_nonempty b.channels ≡ filled
        → IsBoardroom b
    by_tests false s f r = absurd (cc (rw (s) at e))
    by_tests true s false r = absurd (cc (rw (s, r) at e))
    by_tests true s true r = record {
      safe = s;
      some_channel = r;
      channels = (assert_channels_ok [] b.channels u (rw (s, r) at e)).0;
    }

-- What may stand in boardroom.json.
abbrev pub IsBoard : Option Boardroom → Type 0
IsBoard none = Unit {0}
IsBoard (some b) = IsBoardroom b

-- A call leaves a boardroom file as it should be.
abbrev pub KeepsBoard : {A : Type 0} → Action A → Type 0
KeepsBoard call = (s : BoardFiles) → IsBoard s.boardroom → IsBoard (call s).0.boardroom

module _ {A B : Type 0} where
  KeepsBoard-bind :
      (call : Action A) (rest : A → Action B)
      → KeepsBoard call
      → ((a : A) → KeepsBoard (rest a))
      → KeepsBoard (call >>= rest)
  KeepsBoard-bind call rest h k s v = by_result (call s) (h s v)
    where
      by_result :
          (r : BoardFiles × Outcome BoardError A)
          → IsBoard r.0.boardroom
          → IsBoard (and_then r rest).0.boardroom
      by_result (t, ok a) w = k a t w
      by_result (t, throw e) w = w

KeepsBoard-in_room :
    {A : Type 0} (call : RoomFiles → RoomFiles × Outcome RoomError A) → KeepsBoard (in_room call)
KeepsBoard-in_room {A = A} call s v = by_result (call s.room)
  where
    by_result : (r : RoomFiles × Outcome RoomError A) → IsBoard (from_room s r).0.boardroom
    by_result (t, ok a) = v
    by_result (t, throw e) = v

KeepsBoard-require : (holds : Bool) (e : BoardError) → KeepsBoard (require holds e)
KeepsBoard-require true e s v = v
KeepsBoard-require false e s v = v

KeepsBoard-persist : (b : Boardroom) → KeepsBoard (persist_boardroom b)
unfolding persist_boardroom
KeepsBoard-persist b s v =
    by_result (assert_valid_boardroom (record b { legacy = false }))
      (assert_valid-IsBoardroom (record b { legacy = false }))
  where
    by_result :
        (o : Outcome BoardroomError (Unit {0}))
        → ((u : Unit {0}) → o ≡ ok u → IsBoardroom (record b { legacy = false }))
        → IsBoard
            (and_then (from_board o s) (λ done.
              write_boardroom_file (record b { legacy = false })
              >> return (record b { legacy = false }))).0.boardroom
    by_result (ok u) h = h u refl
    by_result (throw e) h = v

KeepsBoard-read : KeepsBoard read_boardroom
unfolding read_boardroom boardroom_or_legacy
KeepsBoard-read s v = by_file s.boardroom
  where
    by_file : (o : Option Boardroom) → IsBoard (boardroom_or_legacy o s).0.boardroom
    by_file none =
        KeepsBoard-bind (in_room read_room_state) (λ state. return (legacy_boardroom state))
          (KeepsBoard-in_room read_room_state) (λ state t w. w) s v
    by_file (some b) = v

KeepsBoard-add : (channel : Channel) (now : ℕ) → KeepsBoard (add_channel_locked channel now)
unfolding add_channel_locked
KeepsBoard-add channel now = KeepsBoard-bind read_boardroom _ KeepsBoard-read (λ current.
    KeepsBoard-bind (require (not (has_channel channel.id current.channels)) channel_exists) _
      (KeepsBoard-require (not (has_channel channel.id current.channels)) channel_exists)
      (λ done. KeepsBoard-persist (with_channels (current.channels ++ channel ∷ []) now current)))

KeepsBoard-rename :
    (channel_id name : JsString) (now : ℕ) → KeepsBoard (rename_channel_locked channel_id name now)
unfolding rename_channel_locked
KeepsBoard-rename channel_id name now = KeepsBoard-bind read_boardroom _ KeepsBoard-read (λ current.
    KeepsBoard-bind (require (has_channel channel_id current.channels) channel_not_found) _
      (KeepsBoard-require (has_channel channel_id current.channels) channel_not_found)
      (λ done.
        KeepsBoard-persist
          (with_channels (rename_in channel_id name current.channels) now current)))

KeepsBoard-checked :
    {A : Type 0} (value : JsString) (call : Action A)
    → KeepsBoard call
    → KeepsBoard (assert_safe_slug value >> call)
KeepsBoard-checked value call h =
    KeepsBoard-bind (assert_safe_slug value) _ (KeepsBoard-require (is_safe_slug value) unsafe_slug)
      (λ done. h)

KeepsBoard-cursor :
    (channel_id participant_id : JsString) (since_id now : ℕ)
    → KeepsBoard (write_channel_cursor channel_id participant_id since_id now)
unfolding write_channel_cursor
KeepsBoard-cursor channel_id participant_id since_id now = KeepsBoard-checked channel_id _ (
    KeepsBoard-checked participant_id _ (
      KeepsBoard-bind (require (is_safe_integer since_id) bad_cursor) _
        (KeepsBoard-require (is_safe_integer since_id) bad_cursor) (λ done s v. v)))

-- A call that writes the files of the board.
pub data Change : Type 0 where
  write : Boardroom → Change
  create : CreateBoardroomOptions → ℕ → Change
  add : Channel → ℕ → Change
  rename : JsString → JsString → ℕ → Change
  mark : JsString → JsString → ℕ → ℕ → Change

-- The files after a call, whether it returned or threw.
unfoldable pub after : JsString → Change → BoardFiles → BoardFiles
unfolding write_boardroom create_boardroom add_channel rename_channel
after room_id (write b) s = (write_boardroom room_id b s).0
after room_id (create options now) s = (create_boardroom room_id options now s).0
after room_id (add channel now) s = (add_channel room_id channel now s).0
after room_id (rename channel_id name now) s = (rename_channel room_id channel_id name now s).0
after room_id (mark channel_id participant_id since_id now) s =
    (write_channel_cursor channel_id participant_id since_id now s).0

unfoldable pub after_all : JsString → List Change → BoardFiles → BoardFiles
unfolding after
after_all room_id [] s = s
after_all room_id (c ∷ changes) s = after_all room_id changes (after room_id c s)

after-IsBoard :
    (room_id : JsString) (c : Change) (s : BoardFiles)
    → IsBoard s.boardroom
    → IsBoard (after room_id c s).boardroom
unfolding after write_boardroom create_boardroom add_channel rename_channel
after-IsBoard room_id (write b) =
    KeepsBoard-checked room_id _ (KeepsBoard-persist (record b { id = room_id }))
after-IsBoard room_id (create options now) =
    KeepsBoard-checked room_id _ (KeepsBoard-persist (new_boardroom room_id options now))
after-IsBoard room_id (add channel now) = KeepsBoard-checked room_id _ (KeepsBoard-add channel now)
after-IsBoard room_id (rename channel_id name now) =
    KeepsBoard-checked room_id _
      (KeepsBoard-checked channel_id _ (KeepsBoard-rename channel_id name now))
after-IsBoard room_id (mark channel_id participant_id since_id now) =
    KeepsBoard-cursor channel_id participant_id since_id now

-- After any sequence of calls that write, create, add to, rename in or mark as read, each of which
-- may throw, the boardroom file is absent or holds a safe id and at least one channel, all of them
-- with safe ids that differ, if it was so before.
pub after_all-IsBoard :
    (room_id : JsString) (changes : List Change) (s : BoardFiles)
    → IsBoard s.boardroom
    → IsBoard (after_all room_id changes s).boardroom
unfolding after_all
after_all-IsBoard room_id [] s v = v
after_all-IsBoard room_id (c ∷ changes) s v =
    after_all-IsBoard room_id changes (after room_id c s) (after-IsBoard room_id c s v)
