-- ===== src/Protocol/Attention.antt =====
-- src/protocol/attention.ts and src/protocol/wake-tier.ts: what a participant declares, what the
-- host asks for, and the mode and wake tier that they settle on.
pub mod Laws
mod Tests
use Prim.Native.String.{String}
use agentgather.Common.{
  ℕ, Bool, true, false, Option, none, some, List, [], ◌∷◌, JsString, js, str_eq, Outcome, ok, throw,
  ltb, ◌==◌, if◌then◌else◌, filter, any, ◌>>=◌,
}

pub data AttentionMode : Type 0 where
  foreground_attended wake_on_event heartbeat manual : AttentionMode

abbrev pub attention_modes : List AttentionMode
attention_modes = foreground_attended ∷ wake_on_event ∷ heartbeat ∷ manual ∷ []

unfoldable pub mode_text : AttentionMode → JsString
mode_text foreground_attended = js "foreground_attended"
mode_text wake_on_event = js "wake_on_event"
mode_text heartbeat = js "heartbeat"
mode_text manual = js "manual"

-- `ATTENTION_MODES.indexOf(mode)`.
unfoldable pub attention_rank : AttentionMode → ℕ
attention_rank foreground_attended = 0
attention_rank wake_on_event = 1
attention_rank heartbeat = 2
attention_rank manual = 3

abbrev pub mode_eq : AttentionMode → AttentionMode → Bool
mode_eq m n = attention_rank m == attention_rank n

pub data ModeError : Type 0 where
  unknown_mode : ModeError

mode_among : List AttentionMode → JsString → Option AttentionMode
mode_among [] value = none
mode_among (m ∷ ms) value = if str_eq (mode_text m) value then some m else mode_among ms value

or_unknown : Option AttentionMode → Outcome ModeError AttentionMode
or_unknown none = throw unknown_mode
or_unknown (some m) = ok m

unfoldable pub parse_attention_mode : JsString → Outcome ModeError AttentionMode
unfolding mode_among or_unknown
parse_attention_mode value = or_unknown (mode_among attention_modes value)

-- The loop that fills `seen`; the set is a list, newest first.
unfoldable pub parse_modes : List JsString → Outcome ModeError (List AttentionMode)
unfolding parse_attention_mode
parse_modes [] = ok []
parse_modes (raw ∷ raws) = do m ← parse_attention_mode raw; seen ← parse_modes raws; ok (m ∷ seen)

abbrev pub has_mode : List AttentionMode → AttentionMode → Bool
has_mode seen mode = any (mode_eq mode) seen

unfoldable pub normalize_supported_modes : List JsString → Outcome ModeError (List AttentionMode)
unfolding parse_modes
normalize_supported_modes raws = do
  seen ← parse_modes raws
  ok (filter (has_mode seen) attention_modes)

-- `best === undefined || rank(mode) < rank(best)`.
abbrev better : AttentionMode → Option AttentionMode → AttentionMode
better mode none = mode
better mode (some best) = if ltb (attention_rank mode) (attention_rank best) then mode else best

best_mode : AttentionMode → List AttentionMode → Option AttentionMode → Option AttentionMode
best_mode requested [] best = best
best_mode requested (mode ∷ modes) best =
    best_mode requested modes (
      if ltb (attention_rank mode) (attention_rank requested)
      then best
      else some (better mode best))

abbrev or_manual : Option AttentionMode → AttentionMode
or_manual none = manual
or_manual (some m) = m

unfoldable pub negotiate_effective_mode : List AttentionMode → AttentionMode → AttentionMode
unfolding best_mode
negotiate_effective_mode supported requested = or_manual (best_mode requested supported none)

unfoldable pub is_degraded : AttentionMode → AttentionMode → Bool
is_degraded effective requested = ltb (attention_rank requested) (attention_rank effective)

pub record NegotiatedAttention : Type 0 where
  pub supported_modes : List AttentionMode
  pub requested_mode : AttentionMode
  pub effective_mode : AttentionMode

-- The fields of a participant that the negotiation reads.
pub record Declaration : Type 0 where
  pub supported_modes : Option (List JsString)
  pub requested_mode : Option AttentionMode

abbrev declared_modes : Option (List JsString) → List JsString
declared_modes none = []
declared_modes (some modes) = modes

abbrev requested_or_default : Option AttentionMode → AttentionMode
requested_or_default none = foreground_attended
requested_or_default (some m) = m

unfoldable pub negotiate_participant_attention : Declaration → Outcome ModeError NegotiatedAttention
unfolding normalize_supported_modes negotiate_effective_mode
negotiate_participant_attention d = do
  supported ← normalize_supported_modes (declared_modes d.supported_modes)
  let requested = requested_or_default d.requested_mode
  ok (record {
    supported_modes = supported;
    requested_mode = requested;
    effective_mode = negotiate_effective_mode supported requested;
  })

pub data WakeTier : Type 0 where
  a b c : WakeTier

unfoldable pub wake_tier_for_mode : AttentionMode → WakeTier
wake_tier_for_mode wake_on_event = a
wake_tier_for_mode manual = c
wake_tier_for_mode _ = b

unfoldable pub describe_attention_mode : AttentionMode → String
describe_attention_mode foreground_attended = "Actively attended in the foreground."
describe_attention_mode wake_on_event =
    "Watching cheaply; woken only on an actionable event or a bounded safety timer (empty polls do not wake the agent)."
describe_attention_mode heartbeat = "Periodic heartbeat check-ins; not continuously attended."
describe_attention_mode manual = "Manual / drop-in; not actively watching."

pub record WakeTierCopy : Type 0 where
  pub tier : WakeTier
  pub label : String
  pub headline : String

-- The entry of WAKE_TIER_COPY with its tier.
unfoldable pub describe_wake_tier : WakeTier → WakeTierCopy
describe_wake_tier a = record {
  tier = a;
  label = "Tier A · auto-wake";
  headline =
      "Wakes on actionable events — reachable even when unattended (empty polls do not wake it).";
}
describe_wake_tier b = record {
  tier = b;
  label = "Tier B · notify";
  headline =
      "No event-driven wake — reach it with a notification; a human nudge or its next check-in brings it back.";
}
describe_wake_tier c = record {
  tier = c;
  label = "Tier C · relay";
  headline = "Manual relay — a human carries the “your turn” nudge; it is not woken on its own.";
}
