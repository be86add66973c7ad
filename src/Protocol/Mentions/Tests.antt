-- ===== src/Protocol/Mentions/Tests.antt =====
-- The theorems on src/protocol/mentions.ts at concrete texts.
use agentgather.Common.{◌≡◌, ◌≤◌, true, not, ◌&&◌, List, [], ◌∷◌, JsString, js}
use agentgather.Protocol.Slug.{is_safe_slug}
use agentgather.Protocol.Mentions.{
  analyze_mentions, mask_code, matches, mem, split_lines, join_lines,
}
use agentgather.Protocol.Mentions.Masking.{join_lines-split_lines}
use agentgather.Protocol.Mentions.Laws.{times, analyze_mentions_lem}

abbrev text : JsString
text = js "hi @ann, `@bob` and @zed"

abbrev roster : List JsString
roster = js "ann" ∷ js "bob" ∷ []

join_lines-split_lines_example : join_lines (split_lines text) ≡ text
join_lines-split_lines_example = join_lines-split_lines text

analyze_mentions_lem_example :
    let found = analyze_mentions text roster in
    let tags = matches true 0 (mask_code text) in
    (mem (js "ann") found.mentions
      ≡ (mem (js "ann") tags && (mem (js "ann") roster && is_safe_slug (js "ann"))))
    × (mem (js "ann") found.unknown
        ≡ (mem (js "ann") tags && not (mem (js "ann") roster && is_safe_slug (js "ann"))))
    × (times (js "ann") found.mentions ≤ 1)
    × (times (js "ann") found.unknown ≤ 1)
analyze_mentions_lem_example = analyze_mentions_lem text roster (js "ann")
