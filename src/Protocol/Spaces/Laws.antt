-- ===== src/Protocol/Spaces/Laws.antt =====
-- Trimmed texts.
use agentgather.Common.{ℕ, ◌≡◌, refl, true, false, [], ◌∷◌, arith, JsString, every}
use agentgather.Protocol.Slug.{is_slug_char}
use agentgather.Protocol.Mentions.{is_white_space, trim_start}
use agentgather.Protocol.Spaces.{trim_end, trim}

slug_char_visible : (c : ℕ) → is_slug_char c ≡ true → is_white_space c ≡ false
slug_char_visible c h = ground arith

trim_end_slug : (s : JsString) → every is_slug_char s ≡ true → trim_end s ≡ s
unfolding trim_end
trim_end_slug [] h = refl
trim_end_slug (c ∷ s) h = ground (arith, slug_char_visible c, trim_end_slug s)

-- A text of letters, digits and dashes has nothing to trim.
pub trim_slug : (s : JsString) → every is_slug_char s ≡ true → trim s ≡ s
unfolding trim trim_start
trim_slug [] h = refl
trim_slug (c ∷ s) h = ground (arith, slug_char_visible c, trim_end_slug (c ∷ s))
