-- ===== src/Protocol/Slug.antt =====
-- src/protocol/validation.ts: the slugs that name rooms, participants and channels.
pub mod Laws
use agentgather.Common.{
  ℕ, Bool, true, false, not, ◌&&◌, ◌||◌, List, [], ◌∷◌, JsString, Outcome, ok, throw, guard, ltb,
  leb, ◌==◌, length, every, any,
}

abbrev pub max_slug_length : ℕ
max_slug_length = 64

abbrev pub is_slug_char : ℕ → Bool
is_slug_char c = (leb b'a' c && leb c b'z') || (leb b'0' c && leb c b'9') || c == b'-'

-- SLUG_PATTERN, /^[a-z0-9-]+$/.
abbrev matches_slug : JsString → Bool
matches_slug s = ltb 0 (length s) && every is_slug_char s

includes_char : ℕ → JsString → Bool
includes_char c s = any (λ d. d == c) s

-- `value.includes("..")`.
includes_dots : JsString → Bool
includes_dots [] = false
includes_dots (c ∷ []) = false
includes_dots (c ∷ d ∷ s) = (c == b'.' && d == b'.') || includes_dots (d ∷ s)

unfoldable pub is_safe_slug : JsString → Bool
unfolding includes_char includes_dots
is_safe_slug s =
    ltb 0 (length s)
    && leb (length s) max_slug_length
    && matches_slug s
    && not (includes_dots s)
    && not (includes_char b'/' s)
    && not (includes_char 92 s)

-- `assertSafeSlug`, for an error of the caller's.
abbrev pub assert_safe_slug : {E : Type 0} → JsString → E → Outcome E (Unit {0})
assert_safe_slug s e = guard (is_safe_slug s) e
