-- ===== src/Protocol/Boardroom.antt =====
-- src/protocol/boardroom.ts: a room's channels. Values of an enumeration are well-formed by their
-- type; `to_lower_case` is `String.prototype.toLowerCase`.
pub mod Names
use agentgather.Common.{
  ℕ, Bool, true, false, not, ◌&&◌, ◌||◌, Option, none, some, List, [], ◌∷◌, JsString, js, str_eq,
  Outcome, ok, throw, guard, ◌>>=◌, ◌>>◌, ltb, leb, ◌==◌, ◌+◌, if◌then◌else◌, any, length, find,
}
use agentgather.Protocol.Types.{
  Participant, ParticipantKind, Message, MessageType, client, ClientMessageType, status,
}
use agentgather.Protocol.Slug.{is_safe_slug}
use agentgather.Protocol.Spaces.{trim, collapse}

pub data ChannelType : Type 0 where
  chat forum : ChannelType

pub data ChannelLifecycle : Type 0 where
  active idle inactive removed : ChannelLifecycle

pub data ParticipantRole : Type 0 where
  human agent : ParticipantRole

abbrev pub default_channel_id : JsString
default_channel_id = js "general"

abbrev pub default_channel_name : JsString
default_channel_name = js "general"

pub record Channel : Type 0 where
  pub id : JsString
  pub name : JsString
  pub type : ChannelType
  pub lifecycle : ChannelLifecycle
  pub created_at : ℕ

pub record Boardroom : Type 0 where
  pub id : JsString
  pub name : Option JsString
  pub channels : List Channel
  pub lifecycle : ChannelLifecycle
  pub created_at : ℕ
  pub updated_at : ℕ
  pub legacy : Bool

pub record ParticipantIdentity : Type 0 where
  pub participant_id : JsString
  pub display_name : JsString
  pub role : ParticipantRole
  pub is_host : Bool
  pub reconnectable : Bool
  pub name_owner_hash : Option JsString

pub record ChannelReadCursor : Type 0 where
  pub participant_id : JsString
  pub channel_id : JsString
  pub since_id : ℕ
  pub updated_at : ℕ

pub record ChannelView : Type 0 where
  pub channel_id : JsString
  pub type : ChannelType
  pub messages : List Message
  pub unread : ℕ
  pub last_read_id : ℕ
  pub latest_id : ℕ

pub data BoardroomError : Type 0 where
  unsafe_slug bad_channel_type bad_channel_name no_channels duplicate_channel : BoardroomError

unfoldable pub is_broadcast : MessageType → Bool
is_broadcast (client status) = true
is_broadcast _ = false

pub record Unread : Type 0 where
  pub unread : ℕ
  pub latest_id : ℕ

-- The loop of `summarizeUnread`.
unfoldable pub count_unread : List Message → ℕ → Unread → Unread
count_unread [] last_read_id u = u
count_unread (m ∷ messages) last_read_id u = count_unread messages last_read_id (record {
  unread = if ltb last_read_id m.id then u.unread + 1 else u.unread;
  latest_id = if ltb u.latest_id m.id then m.id else u.latest_id;
})

unfoldable pub summarize_unread : List Message → ℕ → Unread
unfolding count_unread
summarize_unread messages last_read_id =
    count_unread messages last_read_id (record { unread = 0; latest_id = last_read_id })

unfoldable pub role_from_kind : ParticipantKind → ParticipantRole
role_from_kind ParticipantKind.human = human
role_from_kind _ = agent

abbrev pub or_text : Option JsString → JsString → JsString
or_text none t = t
or_text (some s) t = s

abbrev is_some : Option JsString → Bool
is_some none = false
is_some (some s) = true

unfoldable pub participant_identity : Participant → Outcome BoardroomError ParticipantIdentity
unfolding role_from_kind
participant_identity p = do
  guard (is_safe_slug p.alias) unsafe_slug
  ok (record {
    participant_id = p.alias;
    display_name = or_text p.display_name p.alias;
    role = role_from_kind p.kind;
    is_host = p.is_host;
    reconnectable = is_some p.token_hash;
    name_owner_hash = p.token_hash;
  })

unfoldable pub default_channel : ℕ → Channel
default_channel created_at = record {
  id = default_channel_id;
  name = default_channel_name;
  type = chat;
  lifecycle = active;
  created_at = created_at;
}

unfoldable pub derive_default_boardroom : JsString → ℕ → ℕ → Option JsString → Boardroom
unfolding default_channel
derive_default_boardroom id created_at updated_at name = record {
  id = id;
  name = name;
  channels = default_channel created_at ∷ [];
  lifecycle = active;
  created_at = created_at;
  updated_at = updated_at;
  legacy = true;
}

unfoldable pub parse_channel_type : JsString → Outcome BoardroomError ChannelType
parse_channel_type value =
    if str_eq value (js "chat")
    then ok chat
    else if str_eq value (js "forum")
    then ok forum
    else throw bad_channel_type

abbrev pub is_control_char : ℕ → Bool
is_control_char c = ltb c 0x20 || c == 0x7f

-- `value.trim().replace(/\s+/g, " ")`.
abbrev pub normal_name : JsString → JsString
normal_name value = collapse false (trim value)

abbrev pub max_channel_name_length : ℕ
max_channel_name_length = 60

-- A control character is a single code unit, so that a walk over code points sees the same ones.
unfoldable pub parse_channel_name : JsString → Outcome BoardroomError JsString
parse_channel_name value =
    if length (normal_name value) == 0
      || ltb max_channel_name_length (length (normal_name value))
      || any is_control_char (normal_name value)
    then throw bad_channel_name
    else ok (normal_name value)

-- What `findNameOwnerConflict` reads of a participant.
pub record NameOwner : Type 0 where
  pub alias : JsString
  pub display_name : Option JsString
  pub token_hash : Option JsString

pub record Claimant : Type 0 where
  pub alias : JsString
  pub token_hash : Option JsString

-- The name that others see, in lower case.
abbrev pub shown_name : (JsString → JsString) → NameOwner → JsString
shown_name to_lower_case p = to_lower_case (or_text p.display_name p.alias)

abbrev pub bears_name : (JsString → JsString) → JsString → Claimant → NameOwner → Bool
bears_name to_lower_case display_name claimant p =
    not (str_eq p.alias claimant.alias)
    && str_eq (shown_name to_lower_case p) (to_lower_case display_name)

abbrev pub same_token : Option JsString → Option JsString → Bool
same_token (some a) (some b) = str_eq a b
same_token _ _ = false

conflict_with : Claimant → Option NameOwner → Option JsString
conflict_with claimant none = none
conflict_with claimant (some owner) =
    if same_token owner.token_hash claimant.token_hash then none else some owner.alias

-- The alias of the participant that owns the name.
unfoldable pub find_name_owner_conflict :
    (JsString → JsString) → List NameOwner → JsString → Claimant → Option JsString
unfolding conflict_with
find_name_owner_conflict to_lower_case participants display_name claimant =
    conflict_with claimant (find (bears_name to_lower_case display_name claimant) participants)

unfoldable pub assert_valid_channel : Channel → Outcome BoardroomError (Unit {0})
assert_valid_channel channel = guard (is_safe_slug channel.id) unsafe_slug

abbrev pub has_channel : JsString → List Channel → Bool
has_channel id channels = any (λ c. str_eq c.id id) channels

abbrev pub is_nonempty : List Channel → Bool
is_nonempty [] = false
is_nonempty (c ∷ channels) = true

-- The loop of `assertValidBoardroom`; `seen` holds the channels before.
unfoldable pub assert_channels : List Channel → List Channel → Outcome BoardroomError (Unit {0})
unfolding assert_valid_channel
assert_channels seen [] = ok tt
assert_channels seen (c ∷ channels) = do
  assert_valid_channel c
  guard (not (has_channel c.id seen)) duplicate_channel
  assert_channels (c ∷ seen) channels

unfoldable pub assert_valid_boardroom : Boardroom → Outcome BoardroomError (Unit {0})
unfolding assert_channels
assert_valid_boardroom b = do
  guard (is_safe_slug b.id) unsafe_slug
  guard (is_nonempty b.channels) no_channels
  assert_channels [] b.channels
