-- ===== src/Protocol/Slug/Laws.antt =====
-- What a slug that src/protocol/validation.ts accepts cannot hold.
use agentgather.Common.{
  ℕ, ◌≤◌, ◌<◌, ◌≡◌, ◌↔◌, refl, true, false, [], ◌∷◌, arith, JsString, length, every,
}
use agentgather.Protocol.Slug.{
  max_slug_length, is_slug_char, includes_char, includes_dots, is_safe_slug,
}

includes_char-slug :
    (c : ℕ) (s : JsString)
    → is_slug_char c ≡ false
    → every is_slug_char s ≡ true
    → includes_char c s ≡ false
unfolding includes_char
includes_char-slug c [] h e = refl
includes_char-slug c (d ∷ s) h e = ground (arith, includes_char-slug c s)

includes_dots-slug : (s : JsString) → every is_slug_char s ≡ true → includes_dots s ≡ false
unfolding includes_dots
includes_dots-slug [] e = refl
includes_dots-slug (c ∷ []) e = refl
includes_dots-slug (c ∷ d ∷ s) e = ground (arith, includes_dots-slug (d ∷ s))

-- A slug is safe exactly when it has 1 to 64 characters, each a lowercase letter, a digit or a dash:
-- the tests for "..", "/" and "\" reject nothing that the pattern accepts.
pub is_safe_slug_iff :
    (s : JsString)
    → (is_safe_slug s ≡ true)
      ↔ ((0 < length s) × (length s ≤ max_slug_length) × (every is_slug_char s ≡ true))
unfolding is_safe_slug
is_safe_slug_iff s = (
  λ h. (ground arith, ground arith, ground arith),
  λ h. ground (
    arith,
    includes_dots-slug s h.2,
    includes_char-slug b'/' s refl h.2,
    includes_char-slug 92 s refl h.2,
  ),
)
