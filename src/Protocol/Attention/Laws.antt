-- ===== src/Protocol/Attention/Laws.antt =====
-- The promises of the negotiation of src/protocol/attention.ts.
use agentgather.Common.{
  ℕ, ◌≤◌, ◌<◌, ◌≡◌, refl, Bool, true, false, Option, none, some, List, [], ◌∷◌, arith, JsString,
  str_eq, str_eq_iff, ok, throw, ap, ◌||◌, filter, any, not, Option-cases, inl, inr, ◌⊎◌,
}
use agentgather.Protocol.Attention.{
  AttentionMode, foreground_attended, wake_on_event, heartbeat, manual, attention_modes, mode_text,
  attention_rank, mode_eq, has_mode, parse_attention_mode, parse_modes, normalize_supported_modes,
  best_mode, negotiate_effective_mode, WakeTier, wake_tier_for_mode, unknown_mode,
}

-- A mode that may be granted: declared, and no more capable than what is requested.
abbrev pub IsAllowed : List AttentionMode → AttentionMode → AttentionMode → Type 0
IsAllowed supported requested mode =
    (has_mode supported mode ≡ true) × (attention_rank requested ≤ attention_rank mode)

or_true : (b : Bool) → (b || true) ≡ true
or_true true = refl
or_true false = refl

abbrev score : Option AttentionMode → ℕ
score none = 4
score (some m) = attention_rank m

rank-lt-four : (m : AttentionMode) → attention_rank m < 4
unfolding attention_rank
rank-lt-four foreground_attended = omega arith
rank-lt-four _ = omega arith

rank_inj : (m n : AttentionMode) → attention_rank m ≡ attention_rank n → m ≡ n
unfolding attention_rank
rank_inj foreground_attended foreground_attended h = refl
rank_inj wake_on_event wake_on_event h = refl
rank_inj heartbeat heartbeat h = refl
rank_inj manual manual h = refl
rank_inj _ _ h = absurd (omega arith)

best_mode-le-start :
    (requested : AttentionMode) (modes : List AttentionMode) (best : Option AttentionMode)
    → score (best_mode requested modes best) ≤ score best
unfolding best_mode
best_mode-le-start requested [] best = omega arith
best_mode-le-start requested (m ∷ modes) none = ground (
  arith,
  best_mode-le-start requested modes none,
  best_mode-le-start requested modes (some m),
  rank-lt-four m,
)
best_mode-le-start requested (m ∷ modes) (some n) = ground (
  arith,
  best_mode-le-start requested modes (some n),
  best_mode-le-start requested modes (some m),
)

best_mode-le :
    (requested mode : AttentionMode) (modes : List AttentionMode) (best : Option AttentionMode)
    → IsAllowed modes requested mode
    → score (best_mode requested modes best) ≤ attention_rank mode
unfolding best_mode
best_mode-le requested mode [] best h = ground arith
best_mode-le requested mode (m ∷ modes) none h = ground (
  arith,
  best_mode-le requested mode modes none,
  best_mode-le requested mode modes (some m),
  best_mode-le-start requested modes (some m),
)
best_mode-le requested mode (m ∷ modes) (some n) h = ground (
  arith,
  best_mode-le requested mode modes (some n),
  best_mode-le requested mode modes (some m),
  best_mode-le-start requested modes (some m),
  best_mode-le-start requested modes (some n),
)

best_mode_origin :
    (requested m : AttentionMode) (modes : List AttentionMode) (best : Option AttentionMode)
    → best_mode requested modes best ≡ some m
    → (best ≡ some m) ⊎ IsAllowed modes requested m
unfolding best_mode
best_mode_origin requested m [] best e = inl e
best_mode_origin requested m (n ∷ modes) none e =
    ground
      (arith, best_mode_origin requested m modes none, best_mode_origin requested m modes (some n))
best_mode_origin requested m (n ∷ modes) (some k) e = ground (
  arith,
  best_mode_origin requested m modes (some k),
  best_mode_origin requested m modes (some n),
)

-- The effective mode is allowed, or it is `manual` and nothing is allowed; and it is at least as
-- capable as every allowed mode.
pub negotiate_effective_mode_best :
    (supported : List AttentionMode) (requested : AttentionMode)
    → let effective = negotiate_effective_mode supported requested in
      (IsAllowed supported requested effective
        ⊎ ((effective ≡ manual) × ((mode : AttentionMode) → ¬ IsAllowed supported requested mode)))
      × ((mode : AttentionMode)
          → IsAllowed supported requested mode
          → attention_rank effective ≤ attention_rank mode)
unfolding negotiate_effective_mode
negotiate_effective_mode_best supported requested =
    elim (Option-cases (best_mode requested supported none)) [
      | inl absent ↦ rw absent (
        inr (
          refl,
          λ mode h. ground (arith, best_mode-le requested mode supported none h, rank-lt-four mode),
        ),
        λ mode h. ground (arith, best_mode-le requested mode supported none h, rank-lt-four mode),
      )
      | inr (m, found) ↦ rw found (
        ground (arith, best_mode_origin requested m supported none found),
        λ mode h. ground (arith, best_mode-le requested mode supported none h),
      )
    ]

text_eq : (m n : AttentionMode) → str_eq (mode_text m) (mode_text n) ≡ mode_eq m n
unfolding str_eq mode_text attention_rank
text_eq foreground_attended foreground_attended = refl
text_eq foreground_attended _ = refl
text_eq wake_on_event foreground_attended = refl
text_eq wake_on_event _ = refl
text_eq heartbeat foreground_attended = refl
text_eq heartbeat _ = refl
text_eq manual foreground_attended = refl
text_eq manual _ = refl

-- A mode is parsed from its own text only, and any other text is refused.
parse_cases :
    (value : JsString)
    → ((m : AttentionMode) × (parse_attention_mode value ≡ ok m) × (value ≡ mode_text m))
      ⊎ ((parse_attention_mode value ≡ throw unknown_mode)
          × (any (λ m. str_eq (mode_text m) value) attention_modes ≡ false))
unfolding parse_attention_mode
parse_cases value = ground (
  arith,
  str_eq_iff (mode_text foreground_attended) value,
  str_eq_iff (mode_text wake_on_event) value,
  str_eq_iff (mode_text heartbeat) value,
  str_eq_iff (mode_text manual) value,
)

-- The declaration names the mode.
abbrev pub declares : List JsString → AttentionMode → Bool
declares raws m = any (str_eq (mode_text m)) raws

abbrev pub names_no_mode : JsString → Bool
names_no_mode raw = not (any (λ m. str_eq (mode_text m) raw) attention_modes)

parse_modes_cases :
    (raws : List JsString)
    → ((seen : List AttentionMode) × (parse_modes raws ≡ ok seen)
        × ((m : AttentionMode) → has_mode seen m ≡ declares raws m))
      ⊎ ((parse_modes raws ≡ throw unknown_mode) × (any names_no_mode raws ≡ true))
unfolding parse_modes
parse_modes_cases [] = inl ([], refl, λ m. refl)
parse_modes_cases (raw ∷ raws) = elim (parse_cases raw) [
  | inr (e, unnamed) ↦ inr (rw (e, parse_modes) refl, rw unnamed refl)
  | inl (m, e, text) ↦ elim (parse_modes_cases raws) [
    | inl (seen, es, same) ↦
        inl (m ∷ seen, rw (e, es, parse_modes) refl, λ n. rw (text, text_eq n m, same n) refl)
    | inr (es, unnamed) ↦
        inr (rw (e, es, parse_modes) refl, rw unnamed (or_true (names_no_mode raw)))
  ]
]

filter_same :
    (p q : AttentionMode → Bool) (ms : List AttentionMode)
    → ((m : AttentionMode) → p m ≡ q m)
    → filter p ms ≡ filter q ms
filter_same p q [] h = refl
filter_same p q (m ∷ ms) h = ground (arith, h m, filter_same p q ms h)

-- If every declared text names a mode, the normalized modes are those that are declared, each once,
-- from the most to the least capable; if some text names none, the declaration is refused.
pub normalize_supported_modes_lem :
    (raws : List JsString)
    → (normalize_supported_modes raws ≡ ok (filter (declares raws) attention_modes))
      ⊎ ((normalize_supported_modes raws ≡ throw unknown_mode) × (any names_no_mode raws ≡ true))
unfolding normalize_supported_modes
normalize_supported_modes_lem raws = elim (parse_modes_cases raws) [
  | inl (seen, e, same) ↦ inl (
      rw (e, normalize_supported_modes)
        (ap ok (filter_same (has_mode seen) (declares raws) attention_modes same)))
  | inr (e, unnamed) ↦ inr (rw (e, normalize_supported_modes) refl, unnamed)
]

-- The wake tier of the effective mode promises no more than was declared: tier A means that
-- `wake_on_event` is supported and allowed by the request, tier B that some allowed mode other than
-- `manual` is.
pub wake_tier_honest :
    (supported : List AttentionMode) (requested : AttentionMode)
    → let effective = negotiate_effective_mode supported requested in
      (wake_tier_for_mode effective ≡ WakeTier.a → IsAllowed supported requested wake_on_event)
      × (wake_tier_for_mode effective ≡ WakeTier.b
          → IsAllowed supported requested foreground_attended
            ⊎ IsAllowed supported requested heartbeat)
unfolding wake_tier_for_mode
wake_tier_honest supported requested =
    tier (negotiate_effective_mode supported requested)
      (negotiate_effective_mode_best supported requested).0
  where
    tier :
        (effective : AttentionMode)
        → IsAllowed supported requested effective
          ⊎ ((effective ≡ manual) × ((mode : AttentionMode) → ¬ IsAllowed supported requested mode))
        → (wake_tier_for_mode effective ≡ WakeTier.a → IsAllowed supported requested wake_on_event)
          × (wake_tier_for_mode effective ≡ WakeTier.b
              → IsAllowed supported requested foreground_attended
                ⊎ IsAllowed supported requested heartbeat)
    tier foreground_attended (inl h) = (λ e. cc, λ e. inl h)
    tier wake_on_event (inl h) = (λ e. h, λ e. cc)
    tier heartbeat (inl h) = (λ e. cc, λ e. inr h)
    tier manual (inl h) = (λ e. cc, λ e. cc)
    tier manual (inr h) = (λ e. cc, λ e. cc)
    tier foreground_attended (inr h) = let e = h.0 in absurd (cc e)
    tier wake_on_event (inr h) = let e = h.0 in absurd (cc e)
    tier heartbeat (inr h) = let e = h.0 in absurd (cc e)
