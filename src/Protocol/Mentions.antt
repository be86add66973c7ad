-- ===== src/Protocol/Mentions.antt =====
-- src/protocol/mentions.ts: the @mentions of a message. A text is the list of its UTF-16 code
-- units, which is how the source indexes it.
pub mod Masking
pub mod Laws
mod Tests
use agentgather.Common.{
  ℕ, zero, suc, ◌+◌, Bool, true, false, not, ◌&&◌, ◌||◌, List, [], ◌∷◌, ◌++◌, map, JsString, js,
  str_eq, leb, ◌==◌, if◌then◌else◌, filter, any, length,
}
use agentgather.Protocol.Slug.{is_safe_slug, is_slug_char}

abbrev newline : ℕ
newline = 10

-- `String.prototype.split("\n")`: at least one line.
abbrev push_front : ℕ → List JsString → List JsString
push_front c [] = (c ∷ []) ∷ []
push_front c (line ∷ lines) = (c ∷ line) ∷ lines

unfoldable pub split_lines : JsString → List JsString
split_lines [] = [] ∷ []
split_lines (c ∷ s) =
    let rest = split_lines s in if c == newline then [] ∷ rest else push_front c rest

unfoldable pub join_lines : List JsString → JsString
join_lines [] = []
join_lines (line ∷ []) = line
join_lines (line ∷ next ∷ lines) = line ++ newline ∷ join_lines (next ∷ lines)

-- The white space that `trimStart` drops.
abbrev pub is_white_space : ℕ → Bool
is_white_space c =
    (leb 9 c && leb c 13)
    || c == 32
    || c == 0xa0
    || c == 0x1680
    || (leb 0x2000 c && leb c 0x200a)
    || c == 0x2028
    || c == 0x2029
    || c == 0x202f
    || c == 0x205f
    || c == 0x3000
    || c == 0xfeff

unfoldable pub trim_start : JsString → JsString
trim_start [] = []
trim_start (c ∷ s) = if is_white_space c then trim_start s else c ∷ s

-- `startsWith("```")`.
abbrev pub starts_fence : JsString → Bool
starts_fence (c ∷ d ∷ e ∷ s) = c == b'`' && d == b'`' && e == b'`'
starts_fence _ = false

unfoldable pub is_fence : JsString → Bool
unfolding trim_start
is_fence line = starts_fence (trim_start line)

-- `" ".repeat(line.length)`.
unfoldable pub blank : JsString → JsString
blank line = map (λ c. b' ') line

-- `maskInlineCode`, from the state `inInline`.
unfoldable pub mask_inline : Bool → JsString → JsString
mask_inline in_inline [] = []
mask_inline in_inline (c ∷ s) =
    (if c == b'`' || in_inline then b' ' else c)
    ∷ mask_inline (if c == b'`' then not in_inline else in_inline) s

unfoldable pub mask_line : Bool → JsString → JsString
unfolding is_fence blank mask_inline
mask_line in_fence line = if is_fence line || in_fence then blank line else mask_inline false line

-- The loop of `maskCode`, from the state `inFence`.
unfoldable pub mask_lines : Bool → List JsString → List JsString
unfolding mask_line
mask_lines in_fence [] = []
mask_lines in_fence (line ∷ lines) =
    mask_line in_fence line ∷ mask_lines (if is_fence line then not in_fence else in_fence) lines

unfoldable pub mask_code : JsString → JsString
unfolding mask_lines join_lines split_lines
mask_code text = join_lines (mask_lines false (split_lines text))

-- [a-z0-9-]+ at the front, taken greedily.
unfoldable pub alias_at : JsString → JsString
alias_at [] = []
alias_at (c ∷ s) = if is_slug_char c then c ∷ alias_at s else []

abbrev is_letter : ℕ → Bool
is_letter c = (leb b'a' c && leb c b'z') || (leb b'A' c && leb c b'Z')

-- [\w-].
abbrev is_word_char : ℕ → Bool
is_word_char c = is_letter c || (leb b'0' c && leb c b'9') || c == b'_' || c == b'-'

-- The alias of `@alias` at the front, or nothing.
unfoldable pub tagged : JsString → JsString
unfolding alias_at
tagged [] = []
tagged (c ∷ s) = if c == b'@' then alias_at s else []

-- What `(^|[^\w-])@([a-z0-9-]+)` matches from the front: `^`, which holds at the start of the text
-- only, is tried first, and otherwise one character goes before the tag.
abbrev caret_alias : Bool → JsString → JsString
caret_alias at_start s = if at_start then tagged s else []

abbrev later_alias : ℕ → JsString → JsString
later_alias c s = if is_word_char c then [] else tagged s

-- How many characters behind the first one the match covers.
abbrev covered : JsString → JsString → ℕ
covered [] [] = 0
covered [] (d ∷ alias) = suc (length (d ∷ alias))
covered (d ∷ alias) _ = length (d ∷ alias)

abbrev add_match : JsString → JsString → List JsString → List JsString
add_match [] [] aliases = aliases
add_match [] (d ∷ alias) aliases = (d ∷ alias) ∷ aliases
add_match (d ∷ alias) _ aliases = (d ∷ alias) ∷ aliases

-- All matches of the expression, as `exec` with the flag `g` finds them; `skip` counts the
-- characters that a match still covers.
unfoldable pub matches : Bool → ℕ → JsString → List JsString
unfolding tagged
matches at_start skip [] = []
matches at_start (suc skip) (c ∷ s) = matches false skip s
matches at_start zero (c ∷ s) =
    let at_caret = caret_alias at_start (c ∷ s) in
    let after = later_alias c s in
    add_match at_caret after (matches false (covered at_caret after) s)

pub record MentionAnalysis : Type 0 where
  pub mentions : List JsString
  pub unknown : List JsString

abbrev pub mem : JsString → List JsString → Bool
mem alias aliases = any (str_eq alias) aliases

abbrev add_once : JsString → List JsString → List JsString
add_once alias seen = if mem alias seen then seen else seen ++ alias ∷ []

-- The loop over the matches; `seenMention` and `seenUnknown` hold what the lists hold.
unfoldable pub collect : List JsString → List JsString → MentionAnalysis → MentionAnalysis
collect roster [] found = found
collect roster (alias ∷ aliases) found = collect roster aliases (
    if mem alias roster
    then record found { mentions = add_once alias found.mentions }
    else record found { unknown = add_once alias found.unknown })

unfoldable pub roster_of : List JsString → List JsString
roster_of aliases = filter is_safe_slug aliases

unfoldable pub analyze_mentions : JsString → List JsString → MentionAnalysis
unfolding roster_of mask_code matches collect
analyze_mentions text aliases =
    collect (roster_of aliases) (matches true 0 (mask_code text))
      (record { mentions = []; unknown = [] })

unfoldable pub parse_mentions : JsString → List JsString → List JsString
unfolding analyze_mentions
parse_mentions text aliases = (analyze_mentions text aliases).mentions
