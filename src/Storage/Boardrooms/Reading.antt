-- ===== src/Storage/Boardrooms/Reading.antt =====
-- Read positions of src/storage/boardroom-store.ts.
use agentgather.Common.{
  ℕ, ◌≡◌, ◌+◌, refl, sym, ap, subst, ◌∙◌, ok_inj, true, Option, none, some, List, [], ◌∷◌, arith,
  JsString, str_eq, Outcome, ok, throw, ltb, if◌then◌else◌, count, JsMap, get, set, get-set_self,
  Bool-cases, inl, inr,
}
use agentgather.Protocol.Types.{Message}
use agentgather.Protocol.Slug.{is_safe_slug}
use agentgather.Storage.Rooms.Members.{read_cursor, since_or_start}
use agentgather.Protocol.Messages.{is_safe_integer}
use agentgather.Protocol.Boardroom.{
  Boardroom, Channel, ChannelView, ChannelReadCursor, default_channel_id, summarize_unread,
  count_unread, Unread,
}
use agentgather.Protocol.Boardroom.Names.{summarize_unread_lem, BoundedBy, is_newer}
use agentgather.Storage.Rooms.{RoomError}
use agentgather.Storage.Boardrooms.{
  room_error, messages_of_channel, BoardFiles, BoardError, read_boardroom, find_channel, view_of,
  read_channel_view, write_channel_cursor, read_channel_cursor, read_channel_cursor_file,
  cursor_or_legacy, channel_cursor_path,
}
use agentgather.Storage.Boardrooms.Access.{
  with_files, ReadsRoom, ReadsRoom-board, ReadsRoom-messages,
}

none_newer :
    (last : ℕ) (messages : List Message)
    → BoundedBy last messages
    → count (is_newer last) messages ≡ 0
none_newer last [] b = refl
none_newer last (m ∷ messages) b = ground (arith, b.0, none_newer last messages b.1)

-- The files with other read positions.
abbrev with_cursors : JsMap ChannelReadCursor → BoardFiles → BoardFiles
with_cursors cursors s = with_files cursors s.forum s

cursor_reads :
    (channel_id participant_id : JsString) (s : BoardFiles)
    → (o : Outcome BoardError ℕ) × (read_channel_cursor_file channel_id participant_id s ≡ (s, o))
unfolding read_channel_cursor_file cursor_or_legacy read_cursor
cursor_reads channel_id participant_id s =
    by_file (get (channel_cursor_path channel_id participant_id) s.cursors)
  where
    by_file :
        (f : Option ChannelReadCursor)
        → (o : Outcome BoardError ℕ) × (cursor_or_legacy channel_id participant_id f s ≡ (s, o))
    by_file (some c) = (ok c.since_id, refl)
    by_file none = elim (Bool-cases (str_eq channel_id default_channel_id)) [
      | inl own ↦ elim (Bool-cases (is_safe_slug participant_id)) [
        | inl safe ↦ (
          ok (since_or_start (get participant_id s.room.cursors)),
          rw (own, read_cursor, safe) refl,
        )
        | inr bad ↦ (throw (room_error RoomError.unsafe_slug), rw (own, read_cursor, bad) refl)
      ]
      | inr other ↦ (ok 0, rw (other) refl)
    ]

-- What a read of a channel's view went through.
record Viewed (channel_id participant_id : JsString) (s t : BoardFiles) (v : ChannelView)
    : Type 0 where
  channel : Channel
  messages : List Message
  last : ℕ
  view : v ≡ view_of channel_id channel messages last
  same_files : s ≡ t
  again :
      (cursors : JsMap ChannelReadCursor) (last : ℕ)
      → read_channel_cursor_file channel_id participant_id (with_cursors cursors s)
        ≡ (with_cursors cursors s, ok last)
      → read_channel_view channel_id participant_id (with_cursors cursors s)
        ≡ (with_cursors cursors s, ok (view_of channel_id channel messages last))

viewed :
    (channel_id participant_id : JsString) (s t : BoardFiles) (v : ChannelView)
    → is_safe_slug channel_id ≡ true
    → is_safe_slug participant_id ≡ true
    → read_channel_view channel_id participant_id s ≡ (t, ok v)
    → Viewed channel_id participant_id s t v
unfolding read_channel_view read_channel_cursor
viewed channel_id participant_id s t v sc sp e = by_board board.outcome refl
  where
    board : ReadsRoom read_boardroom s
    board = ReadsRoom-board s

    log : ReadsRoom (messages_of_channel channel_id) s
    log = ReadsRoom-messages channel_id s

    by_reads :
        (b : Boardroom) (f : Option Channel) (om : Outcome BoardError (List Message))
        (ol : Outcome BoardError ℕ)
        → board.outcome ≡ ok b
        → find_channel channel_id b.channels ≡ f
        → log.outcome ≡ om
        → read_channel_cursor_file channel_id participant_id s ≡ (s, ol)
        → Viewed channel_id participant_id s t v
    by_reads b none om ol eb ef em el =
        absurd (cc (rw (read_channel_view, sc, sp, board.here, eb, ef, board.here) at e))
    by_reads b (some c) (throw x) ol eb ef em el =
        absurd
          (cc (rw (read_channel_view, sc, sp, board.here, eb, ef, board.here, log.here, em) at e))
    by_reads b (some c) (ok ms) (throw x) eb ef em el =
        absurd (
          cc
            (rw (read_channel_view, sc, sp, board.here, eb, ef, board.here, log.here, em, el) at e))
    by_reads b (some c) (ok ms) (ok last) eb ef em el =
        let e' : (s, ok (view_of channel_id c ms last)) ≡ (t, ok v) =
          rw (read_channel_view, sc, sp, board.here, eb, ef, board.here, log.here, em, el) at e in
        record {
          channel = c;
          messages = ms;
          last = last;
          view = sym (ok_inj (ap (λ r. r.1) e'));
          same_files = ap (λ r. r.0) e';
          again = λ m k ek.
              rw
                (
                  read_channel_view,
                  sc,
                  sp,
                  board.there m s.forum,
                  eb,
                  ef,
                  log.there m s.forum,
                  em,
                  ek,
                )
                refl;
        }

    by_board :
        (ob : Outcome BoardError Boardroom)
        → board.outcome ≡ ob
        → Viewed channel_id participant_id s t v
    by_board (throw x) eb = absurd (cc (rw (read_channel_view, sc, sp, board.here, eb) at e))
    by_board (ok b) eb =
        let cr = cursor_reads channel_id participant_id s in
        by_reads b (find_channel channel_id b.channels) log.outcome cr.0 eb refl refl cr.1

latest_bounded :
    (messages : List Message) (last : ℕ) (u : Unread)
    → BoundedBy u.latest_id messages
    → (count_unread messages last u).latest_id ≡ u.latest_id
unfolding count_unread
latest_bounded [] last u b = refl
latest_bounded (m ∷ messages) last u b =
    let same : (if ltb u.latest_id m.id then m.id else u.latest_id) ≡ u.latest_id =
      ground (arith, b.0) in
    latest_bounded messages last
      (record {
        unread = if ltb last m.id then u.unread + 1 else u.unread;
        latest_id = if ltb u.latest_id m.id then m.id else u.latest_id;
      })
      (rw (same) b.1)
    ∙ same

cursor_just_set :
    (channel_id participant_id : JsString) (c : ChannelReadCursor) (s : BoardFiles)
    → read_channel_cursor_file channel_id participant_id
        (with_cursors (set (channel_cursor_path channel_id participant_id) c s.cursors) s)
      ≡ (
        with_cursors (set (channel_cursor_path channel_id participant_id) c s.cursors) s,
        ok c.since_id,
      )
unfolding read_channel_cursor_file cursor_or_legacy
cursor_just_set channel_id participant_id c s =
    rw (get-set_self (channel_cursor_path channel_id participant_id) c s.cursors) refl

-- After the latest id of a view is written as the read position, which is possible for an id that is a
-- safe integer, the next view has the same messages and none of them is unread.
pub mark_read_lem :
    (channel_id participant_id : JsString) (now : ℕ) (s t : BoardFiles) (v : ChannelView)
    → is_safe_slug channel_id ≡ true
    → is_safe_slug participant_id ≡ true
    → read_channel_view channel_id participant_id s ≡ (t, ok v)
    → is_safe_integer v.latest_id ≡ true
    → (u : BoardFiles) × (c : ChannelReadCursor) × (write_channel_cursor channel_id participant_id
          v.latest_id now t
        ≡ (u, ok c))
      × (w : ChannelView) × (read_channel_view channel_id participant_id u ≡ (u, ok w))
      × (w.messages ≡ v.messages)
      × (w.unread ≡ 0)
      × (w.last_read_id ≡ v.latest_id)
      × (w.latest_id ≡ v.latest_id)
unfolding view_of summarize_unread write_channel_cursor
mark_read_lem channel_id participant_id now s t v sc sp e safe =
    let h = viewed channel_id participant_id s t v sc sp e in
    let latest : (summarize_unread h.messages h.last).latest_id ≡ v.latest_id =
      sym (ap (λ x. x.latest_id) h.view) in
    let bounded : BoundedBy v.latest_id h.messages =
      subst (λ k. BoundedBy k h.messages) latest (summarize_unread_lem h.messages h.last).2 in
    let c : ChannelReadCursor = record {
      participant_id = participant_id;
      channel_id = channel_id;
      since_id = v.latest_id;
      updated_at = now;
    } in
    let cursors = set (channel_cursor_path channel_id participant_id) c s.cursors in
    (
      with_cursors cursors s,
      c,
      rw (sym h.same_files, write_channel_cursor, sc, sp, safe) refl,
      view_of channel_id h.channel h.messages v.latest_id,
      h.again cursors v.latest_id (cursor_just_set channel_id participant_id c s),
      sym (ap (λ x. x.messages) h.view),
      (summarize_unread_lem h.messages v.latest_id).0 ∙ none_newer v.latest_id h.messages bounded,
      refl,
      latest_bounded h.messages v.latest_id (record { unread = 0; latest_id = v.latest_id })
          bounded,
    )
