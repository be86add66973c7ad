-- ===== src/Protocol/Messages/Tests.antt =====
-- The theorem on src/protocol/messages.ts at a concrete record.
use agentgather.Common.{◌≡◌, refl, some, js, ok, str_eq}
use agentgather.Protocol.Types.{ClientMessageInput, question}
use agentgather.Protocol.Messages.{
  str, nat, MessageRecord, client_message_input_from_record, parse_text, parse_client_message_type,
  parse_type_text, parse_reply_to, parse_client_msg_id,
}
use agentgather.Protocol.Messages.Laws.{IsClientInput, client_message_input_ok}

abbrev raw : MessageRecord
raw = record {
  text = str (js "ready?");
  type = str (js "question");
  reply_to = nat 4;
  client_msg_id = str (js "m-1");
}

abbrev input : ClientMessageInput
input = record {
  text = js "ready?";
  type = some question;
  reply_to = some 4;
  client_msg_id = some (js "m-1");
}

accepted : client_message_input_from_record (some raw) ≡ ok input
unfolding client_message_input_from_record parse_text parse_client_message_type parse_type_text
    parse_reply_to parse_client_msg_id str_eq
accepted = refl

client_message_input_ok_example : IsClientInput input
client_message_input_ok_example = client_message_input_ok (some raw) input accepted
