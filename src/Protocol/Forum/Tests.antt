-- ===== src/Protocol/Forum/Tests.antt =====
-- The theorem on src/protocol/forum.ts at concrete tags, for a `toLowerCase` of ASCII letters.
use agentgather.Common.{
  ◌≡◌, ◌+◌, ℕ, refl, js, ok, [], ◌∷◌, map, leb, if◌then◌else◌, ◌&&◌, arith, JsString, str_eq,
}
use agentgather.Protocol.Slug.{is_safe_slug}
use agentgather.Protocol.Spaces.{trim}
use agentgather.Protocol.Forum.{normalize_forum_tags}
use agentgather.Protocol.Forum.Tags.{AreNormal, KeepsSlugs, normalize_forum_tags_stable}

abbrev lower_char : ℕ → ℕ
lower_char c = if leb 65 c && leb c 90 then c + 32 else c

abbrev lower_ascii : JsString → JsString
lower_ascii text = map lower_char text

lower_ascii-KeepsSlugs : KeepsSlugs lower_ascii
lower_ascii-KeepsSlugs [] h = refl
lower_ascii-KeepsSlugs (c ∷ s) h = ground (arith, lower_ascii-KeepsSlugs s, h)

tags_normal :
    normalize_forum_tags lower_ascii (js " ToDo" ∷ js "" ∷ js "later" ∷ js "todo" ∷ [])
    ≡ ok (js "todo" ∷ js "later" ∷ [])
unfolding normalize_forum_tags is_safe_slug trim str_eq
tags_normal = refl

normalize_forum_tags_stable_example :
    AreNormal (js "todo" ∷ js "later" ∷ [])
    × (normalize_forum_tags lower_ascii (js "todo" ∷ js "later" ∷ [])
        ≡ ok (js "todo" ∷ js "later" ∷ []))
normalize_forum_tags_stable_example =
    normalize_forum_tags_stable lower_ascii (js " ToDo" ∷ js "" ∷ js "later" ∷ js "todo" ∷ [])
      (js "todo" ∷ js "later" ∷ []) lower_ascii-KeepsSlugs tags_normal
