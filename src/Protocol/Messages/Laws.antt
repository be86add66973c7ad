-- ===== src/Protocol/Messages/Laws.antt =====
-- What src/protocol/messages.ts lets through.
use agentgather.Common.{
  ℕ, ◌≤◌, ◌<◌, ◌≡◌, true, false, Option, none, some, arith, JsString, ok, throw, length,
  bind-Returned, if◌then◌else◌, Bool, subst, ok_inj,
}
use agentgather.Protocol.Types.{ClientMessageInput}
use agentgather.Protocol.Messages.{
  JsValue, MessageRecord, max_message_text_length, is_safe_integer, is_blank, is_client_message_id,
  parse_text, parse_reply_to, parse_client_msg_id, client_message_input_from_record,
  bad_client_msg_id, MessageError,
}

abbrev pub OptionAll : {A : Type 0} → (A → Type 0) → Option A → Type 0
OptionAll P none = Unit {0}
OptionAll P (some a) = P a

-- An input that a message may be built from.
pub record IsClientInput (input : ClientMessageInput) : Type 0 where
  pub visible : is_blank input.text ≡ false
  pub short : length input.text ≤ max_message_text_length
  pub reply : OptionAll (λ n. (0 < n) × (is_safe_integer n ≡ true)) input.reply_to
  pub id : OptionAll (λ s. is_client_message_id s ≡ true) input.client_msg_id

parse_text_ok :
    (v : JsValue) (s : JsString)
    → parse_text v ≡ ok s
    → (is_blank s ≡ false) × (length s ≤ max_message_text_length)
unfolding parse_text
parse_text_ok (JsValue.str t) s e = ground arith
parse_text_ok JsValue.undefined s e = ground arith
parse_text_ok JsValue.other s e = ground arith
parse_text_ok (JsValue.nat n) s e = ground arith

parse_reply_to_ok :
    (v : JsValue) (o : Option ℕ)
    → parse_reply_to v ≡ ok o
    → OptionAll (λ n. (0 < n) × (is_safe_integer n ≡ true)) o
unfolding parse_reply_to
parse_reply_to_ok v none e = tt
parse_reply_to_ok (JsValue.nat n) (some m) e = ground arith
parse_reply_to_ok JsValue.undefined (some m) e = absurd (cc e)
parse_reply_to_ok JsValue.other (some m) e = absurd (cc e)
parse_reply_to_ok (JsValue.str s) (some m) e = absurd (cc e)

chosen :
    (p : JsString → Bool) (s t : JsString) (e : MessageError)
    → (if p s then ok (some s) else throw e) ≡ ok (some t)
    → p t ≡ true
chosen p s t e h = ground arith

parse_client_msg_id_ok :
    (v : JsValue) (o : Option JsString)
    → parse_client_msg_id v ≡ ok o
    → OptionAll (λ s. is_client_message_id s ≡ true) o
unfolding parse_client_msg_id
parse_client_msg_id_ok v none e = tt
parse_client_msg_id_ok (JsValue.str s) (some t) e =
    chosen is_client_message_id s t bad_client_msg_id e
parse_client_msg_id_ok JsValue.undefined (some t) e = absurd (cc e)
parse_client_msg_id_ok JsValue.other (some t) e = absurd (cc e)
parse_client_msg_id_ok (JsValue.nat n) (some t) e = absurd (cc e)

-- An input that is accepted has a text that is not blank and not too long, a `reply_to` that is a
-- positive safe integer if there is one, and a `client_msg_id` of 1 to 128 characters of its
-- alphabet if there is one.
pub client_message_input_ok :
    (r : Option MessageRecord) (input : ClientMessageInput)
    → client_message_input_from_record r ≡ ok input
    → IsClientInput input
unfolding client_message_input_from_record
client_message_input_ok none input e = absurd (cc e)
client_message_input_ok (some r) input e =
    let text = bind-Returned (parse_text r.text) e in
    let reply = bind-Returned (parse_reply_to r.reply_to) text.goes_on in
    let id = bind-Returned (parse_client_msg_id r.client_msg_id) reply.goes_on in
    let checked = parse_text_ok r.text text.value text.returns in
    subst IsClientInput (ok_inj id.goes_on) (record {
      visible = checked.0;
      short = checked.1;
      reply = parse_reply_to_ok r.reply_to reply.value reply.returns;
      id = parse_client_msg_id_ok r.client_msg_id id.value id.returns;
    })
