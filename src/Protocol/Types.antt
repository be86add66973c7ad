-- ===== src/Protocol/Types.antt =====
-- src/protocol/types.ts: rooms, participants and messages. Timestamps are epoch milliseconds; an
-- optional field is an `Option`. A room saved before attendance policies existed has none.
use agentgather.Common.{ℕ, Bool, Option, List, JsString}
use agentgather.Protocol.Attention.{AttentionMode}

pub data ParticipantKind : Type 0 where
  agent human system : ParticipantKind

pub data ParticipantLocation : Type 0 where
  local remote : ParticipantLocation

pub data ParticipantInstall : Type 0 where
  lite core host : ParticipantInstall

pub data ParticipantAttention : Type 0 where
  manual attending standby away managed : ParticipantAttention

pub data RoomStatus : Type 0 where
  opened closed : RoomStatus

pub data AttendancePolicy : Type 0 where
  manual_ok agents_foreground all_foreground host_directed : AttendancePolicy

pub data ClientMessageType : Type 0 where
  message question reply status request_review request_debug handoff : ClientMessageType

pub data MessageType : Type 0 where
  client : ClientMessageType → MessageType
  system : MessageType

pub record RoomBrief : Type 0 where
  pub body : JsString
  pub brief_version : ℕ
  pub brief_updated_at : ℕ
  pub brief_updated_by : JsString

pub record ActiveSession : Type 0 where
  pub channel_id : JsString
  pub started_at : ℕ
  pub expected_duration_m : ℕ
  pub requested_mode : Option AttendancePolicy
  pub started_by : JsString
  pub ended_at : Option ℕ

pub record RoomState : Type 0 where
  pub id : JsString
  pub status : RoomStatus
  pub attendance_policy : Option AttendancePolicy
  pub created_at : ℕ
  pub updated_at : ℕ
  pub expires_at : Option ℕ
  pub next_message_id : ℕ
  pub brief_version : ℕ
  pub brief_updated_at : ℕ
  pub brief_updated_by : JsString
  pub active_session : Option ActiveSession
  pub auto_continue_enabled : Option Bool
  pub auto_continue_delay_s : Option ℕ

pub record Participant : Type 0 where
  pub alias : JsString
  pub display_name : Option JsString
  pub kind : ParticipantKind
  pub location : ParticipantLocation
  pub install : ParticipantInstall
  pub attention : ParticipantAttention
  pub is_host : Bool
  pub token_hash : Option JsString
  pub removed_at : Option ℕ
  pub joined_at : ℕ
  -- What `Date.parse` makes of the stored text: nothing, where the text is no date.
  pub last_seen_at : Option ℕ
  pub supported_modes : Option (List AttentionMode)
  pub requested_mode : Option AttentionMode
  pub effective_mode : Option AttentionMode
  pub poll_cadence_s : Option ℕ
  pub safety_wake_s : Option ℕ
  pub forum_review_channel : Option JsString
  pub session_id : Option JsString

pub record ClientMessageInput : Type 0 where
  pub text : JsString
  pub type : Option ClientMessageType
  pub reply_to : Option ℕ
  pub client_msg_id : Option JsString

pub record Message : Type 0 where
  pub id : ℕ
  pub room : JsString
  pub ts : ℕ
  pub from : JsString
  pub type : MessageType
  pub text : JsString
  pub reply_to : Option ℕ
  pub client_msg_id : Option JsString
  pub mentions : List JsString
