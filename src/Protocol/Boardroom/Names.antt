-- ===== src/Protocol/Boardroom/Names.antt =====
-- Names and unread counts of src/protocol/boardroom.ts.
use agentgather.Common.{
  ℕ, ◌+◌, ◌≤◌, ◌<◌, ◌≡◌, refl, inl, inr, Bool, false, ◌||◌, List, [], ◌∷◌, arith, All, JsString,
  Outcome, ok, throw, ltb, ◌==◌, if◌then◌else◌, any, count, length, Bool-cases, ok_inj, subst,
}
use agentgather.Protocol.Types.{Message}
use agentgather.Protocol.Spaces.Normal.{IsStable, collapse-trim-IsStable}
use agentgather.Protocol.Boardroom.{
  BoardroomError, bad_channel_name, is_control_char, max_channel_name_length, normal_name,
  parse_channel_name, Unread, count_unread, summarize_unread,
}

-- A name that `parseChannelName` may give.
pub record IsChannelName (name : JsString) : Type 0 where
  pub visible : 0 < length name
  pub short : length name ≤ max_channel_name_length
  pub plain : any is_control_char name ≡ false

accepted :
    (n m : JsString)
    → ◌≡◌ {A = Outcome BoardroomError JsString}
        (if length n == 0 || ltb max_channel_name_length (length n) || any is_control_char n
          then throw bad_channel_name
          else ok n)
        (ok m)
    → IsChannelName n × (n ≡ m)
accepted n m e =
    elim (Bool-cases
      (length n == 0 || ltb max_channel_name_length (length n) || any is_control_char n)) [
        | inl bad ↦ absurd (cc (rw (bad) at e))
        | inr good ↦ (
          record { visible = ground arith; short = ground arith; plain = ground arith },
          ok_inj (rw (good) at e),
        )
      ]

parse_stable : (n : JsString) → IsStable n → IsChannelName n → parse_channel_name n ≡ ok n
unfolding parse_channel_name
parse_stable n s h =
    let good : length n == 0 || ltb max_channel_name_length (length n) || any is_control_char n
        ≡ false =
      ground (arith, h.visible, h.short, h.plain) in
    rw (s.trimmed, s.collapsed, good) refl

-- A channel name that is accepted has 1 to 60 characters and no control character, and is accepted
-- again as it stands.
parse_channel_name_stable :
    (value name : JsString)
    → parse_channel_name value ≡ ok name
    → IsChannelName name × (parse_channel_name name ≡ ok name)
unfolding parse_channel_name
parse_channel_name_stable value name e =
    let (good, same) = accepted (normal_name value) name e in
    subst (λ n. IsChannelName n × (parse_channel_name n ≡ ok n)) same
      (good, parse_stable (normal_name value) (collapse-trim-IsStable value) good)

abbrev pub is_newer : ℕ → Message → Bool
is_newer last_read_id m = ltb last_read_id m.id

-- Every id is at most `latest`.
abbrev pub BoundedBy : ℕ → List Message → Type 0
BoundedBy latest messages = All (λ m. m.id ≤ latest) messages

count_unread_lem :
    (messages : List Message) (last : ℕ) (u : Unread)
    → ((count_unread messages last u).unread ≡ u.unread + count (is_newer last) messages)
      × (u.latest_id ≤ (count_unread messages last u).latest_id)
      × BoundedBy (count_unread messages last u).latest_id messages
unfolding count_unread
count_unread_lem [] last u = (omega arith, omega arith, tt)
count_unread_lem (m ∷ messages) last u =
    let rest = count_unread_lem messages last (record {
      unread = if ltb last m.id then u.unread + 1 else u.unread;
      latest_id = if ltb u.latest_id m.id then m.id else u.latest_id;
    }) in
    (ground (arith, rest.0), ground (arith, rest.1), (ground (arith, rest.1), rest.2))

-- The unread messages are those with an id above the cursor, and no message has an id above the
-- latest id, which is not below the cursor.
pub summarize_unread_lem :
    (messages : List Message) (last : ℕ)
    → ((summarize_unread messages last).unread ≡ count (is_newer last) messages)
      × (last ≤ (summarize_unread messages last).latest_id)
      × BoundedBy (summarize_unread messages last).latest_id messages
unfolding summarize_unread
summarize_unread_lem messages last =
    let c = count_unread_lem messages last (record { unread = 0; latest_id = last }) in
    (omega (arith, c.0), c.1, c.2)
