-- ===== src/Protocol/Messages.antt =====
-- src/protocol/messages.ts: a client's message, checked and stamped. `JsValue` is what the source
-- tells apart in a value of an unknown type; every number that is no natural number is `other`.
pub mod Laws
mod Tests
use agentgather.Common.{
  ℕ, ◌-◌, ◌^◌, Bool, true, false, not, ◌&&◌, ◌||◌, Option, none, some, List, [], ◌∷◌, JsString, js,
  str_eq, Outcome, ok, throw, guard, ◌>>=◌, ◌>>◌, ltb, leb, ◌==◌, if◌then◌else◌, every, length,
}
use agentgather.Protocol.Mentions.{is_white_space}
use agentgather.Protocol.Types.{
  ClientMessageType, message, question, reply, status, request_review, request_debug, handoff,
  MessageType, client, system, ClientMessageInput, Message,
}

pub data JsValue : Type 0 where
  undefined other : JsValue
  str : JsString → JsValue
  nat : ℕ → JsValue

-- The fields that the source reads of an object.
pub record MessageRecord : Type 0 where
  pub text : JsValue
  pub type : JsValue
  pub reply_to : JsValue
  pub client_msg_id : JsValue

pub data MessageError : Type 0 where
  not_an_object text_required text_too_long bad_reply_to bad_client_msg_id : MessageError

abbrev pub max_message_text_length : ℕ
max_message_text_length = 24000

abbrev pub max_client_message_id_length : ℕ
max_client_message_id_length = 128

-- `Number.isSafeInteger`, on a natural number.
abbrev pub is_safe_integer : ℕ → Bool
is_safe_integer n = leb n (2 ^ 53 - 1)

-- `text.trim().length === 0`.
abbrev pub is_blank : JsString → Bool
is_blank s = every is_white_space s

unfoldable pub parse_text : JsValue → Outcome MessageError JsString
parse_text (str s) = do
  guard (not (is_blank s)) text_required
  guard (leb (length s) max_message_text_length) text_too_long
  ok s
parse_text _ = throw text_required

parse_type_text : JsString → Option ClientMessageType
parse_type_text s =
    if str_eq s (js "message")
    then some message
    else if str_eq s (js "question")
    then some question
    else if str_eq s (js "reply")
    then some reply
    else if str_eq s (js "status")
    then some status
    else if str_eq s (js "request_review")
    then some request_review
    else if str_eq s (js "request_debug")
    then some request_debug
    else if str_eq s (js "handoff")
    then some handoff
    else none

-- A type that is not a client's is dropped, not refused.
unfoldable pub parse_client_message_type : JsValue → Option ClientMessageType
unfolding parse_type_text
parse_client_message_type (str s) = parse_type_text s
parse_client_message_type _ = none

unfoldable pub parse_reply_to : JsValue → Outcome MessageError (Option ℕ)
parse_reply_to undefined = ok none
parse_reply_to (nat n) = if ltb 0 n && is_safe_integer n then ok (some n) else throw bad_reply_to
parse_reply_to _ = throw bad_reply_to

abbrev pub is_id_char : ℕ → Bool
is_id_char c =
    (leb b'A' c && leb c b'Z')
    || (leb b'a' c && leb c b'z')
    || (leb b'0' c && leb c b'9')
    || c == b'.'
    || c == b'_'
    || c == b':'
    || c == b'-'

abbrev pub is_client_message_id : JsString → Bool
is_client_message_id s =
    ltb 0 (length s) && leb (length s) max_client_message_id_length && every is_id_char s

unfoldable pub parse_client_msg_id : JsValue → Outcome MessageError (Option JsString)
parse_client_msg_id undefined = ok none
parse_client_msg_id (str s) =
    if is_client_message_id s then ok (some s) else throw bad_client_msg_id
parse_client_msg_id _ = throw bad_client_msg_id

-- `parsePositiveInteger` of src/protocol/validation.ts, with `none` where it throws; it lets 0 pass.
unfoldable pub parse_positive_integer : JsValue → Option ℕ
parse_positive_integer (nat n) = if is_safe_integer n then some n else none
parse_positive_integer _ = none

-- `none` is a value that is no object.
unfoldable pub client_message_input_from_record :
    Option MessageRecord → Outcome MessageError ClientMessageInput
unfolding parse_text parse_client_message_type parse_reply_to parse_client_msg_id
client_message_input_from_record none = throw not_an_object
client_message_input_from_record (some r) = do
  text ← parse_text r.text
  reply_to ← parse_reply_to r.reply_to
  client_msg_id ← parse_client_msg_id r.client_msg_id
  ok (record {
    text = text;
    type = parse_client_message_type r.type;
    reply_to = reply_to;
    client_msg_id = client_msg_id;
  })

pub record BuildMessageOptions : Type 0 where
  pub id : ℕ
  pub room : JsString
  pub from : JsString
  pub now : ℕ
  pub mentions : List JsString
  pub type : Option MessageType

-- `options.type ?? input.type ?? "message"`.
abbrev type_or : Option MessageType → Option ClientMessageType → MessageType
type_or (some t) input = t
type_or none (some t) = client t
type_or none none = client message

unfoldable pub build_message : ClientMessageInput → BuildMessageOptions → Message
build_message input options = record {
  id = options.id;
  room = options.room;
  ts = options.now;
  from = options.from;
  type = type_or options.type input.type;
  text = input.text;
  reply_to = input.reply_to;
  client_msg_id = input.client_msg_id;
  mentions = options.mentions;
}
