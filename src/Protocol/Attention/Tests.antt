-- ===== src/Protocol/Attention/Tests.antt =====
-- The theorems on src/protocol/attention.ts at concrete declarations.
use agentgather.Common.{◌≡◌, ◌≤◌, List, [], ◌∷◌, ◌⊎◌, JsString, js}
use agentgather.Protocol.Attention.{
  AttentionMode, wake_on_event, heartbeat, manual, foreground_attended, attention_rank,
  negotiate_effective_mode, wake_tier_for_mode, WakeTier,
}
use agentgather.Protocol.Attention.Laws.{IsAllowed, negotiate_effective_mode_best, wake_tier_honest}

abbrev supported : List AttentionMode
supported = heartbeat ∷ foreground_attended ∷ manual ∷ []

negotiate_effective_mode_best_example :
    let effective = negotiate_effective_mode supported wake_on_event in
    (IsAllowed supported wake_on_event effective
      ⊎ ((effective ≡ manual)
          × ((mode : AttentionMode) → ¬ IsAllowed supported wake_on_event mode)))
    × ((mode : AttentionMode)
        → IsAllowed supported wake_on_event mode
        → attention_rank effective ≤ attention_rank mode)
negotiate_effective_mode_best_example = negotiate_effective_mode_best supported wake_on_event

wake_tier_honest_example :
    let effective = negotiate_effective_mode supported wake_on_event in
    (wake_tier_for_mode effective ≡ WakeTier.a → IsAllowed supported wake_on_event wake_on_event)
    × (wake_tier_for_mode effective ≡ WakeTier.b
        → IsAllowed supported wake_on_event foreground_attended
          ⊎ IsAllowed supported wake_on_event heartbeat)
wake_tier_honest_example = wake_tier_honest supported wake_on_event

abbrev declared : List JsString
declared = js "manual" ∷ js "heartbeat" ∷ js "manual" ∷ []
