-- ===== src/Protocol/Mentions/Laws.antt =====
-- What the analysis of src/protocol/mentions.ts reports.
use agentgather.Common.{
  ℕ, zero, suc, ◌≤◌, ◌≡◌, refl, Bool, true, false, not, ◌&&◌, ◌||◌, List, [], ◌∷◌, ◌++◌, arith,
  JsString, Bool-cases, inl, inr, any, ◌==◌, count, count-append, str_eq, str_eq_iff,
}
use agentgather.Protocol.Slug.{is_safe_slug}
use agentgather.Protocol.Mentions.{
  MentionAnalysis, mem, add_once, collect, roster_of, mask_code, matches, analyze_mentions, tagged,
  split_lines, join_lines, mask_lines, mask_line, is_fence, mask_inline, blank, newline,
}

-- How often an alias is listed.
abbrev pub times : JsString → List JsString → ℕ
times alias aliases = count (str_eq alias) aliases

abbrev bit : Bool → ℕ
bit true = 1
bit false = 0

times_absent : (a : JsString) (l : List JsString) → mem a l ≡ false → times a l ≡ 0
times_absent a [] h = refl
times_absent a (b ∷ l) h = ground (arith, times_absent a l)

mem-append : (a b : JsString) (l : List JsString) → mem a (l ++ b ∷ []) ≡ (mem a l || str_eq a b)
mem-append a b [] = ground arith
mem-append a b (c ∷ l) = ground (arith, mem-append a b l)

mem-add_once : (a b : JsString) (l : List JsString) → mem a (add_once b l) ≡ (mem a l || str_eq a b)
mem-add_once a b l = ground (arith, mem-append a b l, str_eq_iff a b)

-- A list in which each alias stands as often as it is a member: once or never.
abbrev pub OnceEach : List JsString → Type 0
OnceEach l = (a : JsString) → times a l ≡ bit (mem a l)

OnceEach-add_once : (b : JsString) (l : List JsString) → OnceEach l → OnceEach (add_once b l)
OnceEach-add_once b l h a =
    ground (arith, h a, mem-append a b l, str_eq_iff a b, count-append (str_eq a) l (b ∷ []))

-- Whether an analysis that starts from `found` reports the alias as a mention, or as unknown.
collect-mem :
    (roster : List JsString) (a : JsString) (aliases : List JsString) (found : MentionAnalysis)
    → (mem a (collect roster aliases found).mentions
        ≡ (mem a found.mentions || (mem a aliases && mem a roster)))
      × (mem a (collect roster aliases found).unknown
          ≡ (mem a found.unknown || (mem a aliases && not (mem a roster))))
unfolding collect
collect-mem roster a [] found = ground arith
collect-mem roster a (b ∷ aliases) found = elim (Bool-cases (mem b roster)) [
  | inl known ↦
      rw (known, collect)
        (ground (
          arith,
          collect-mem roster a aliases (record found { mentions = add_once b found.mentions }),
          mem-add_once a b found.mentions,
          str_eq_iff a b,
        ))
  | inr other ↦
      rw (other, collect)
        (ground (
          arith,
          collect-mem roster a aliases (record found { unknown = add_once b found.unknown }),
          mem-add_once a b found.unknown,
          str_eq_iff a b,
        ))
]

collect-OnceEach :
    (roster aliases : List JsString) (found : MentionAnalysis)
    → OnceEach found.mentions
    → OnceEach found.unknown
    → OnceEach (collect roster aliases found).mentions
      × OnceEach (collect roster aliases found).unknown
unfolding collect
collect-OnceEach roster [] found h k = (h, k)
collect-OnceEach roster (b ∷ aliases) found h k = elim (Bool-cases (mem b roster)) [
  | inl known ↦
      rw (known, collect)
        (collect-OnceEach roster aliases (record found { mentions = add_once b found.mentions })
          (OnceEach-add_once b found.mentions h) k)
  | inr other ↦
      rw (other, collect)
        (collect-OnceEach roster aliases (record found { unknown = add_once b found.unknown }) h
          (OnceEach-add_once b found.unknown k))
]

mem-roster_of :
    (a : JsString) (aliases : List JsString)
    → mem a (roster_of aliases) ≡ (mem a aliases && is_safe_slug a)
unfolding roster_of
mem-roster_of a [] = refl
mem-roster_of a (b ∷ aliases) = ground (arith, mem-roster_of a aliases, str_eq_iff a b)

-- The aliases tagged outside code are split in two: those of the given participants whose alias is
-- a safe slug are the mentions, the others are unknown, and neither list repeats an alias.
pub analyze_mentions_lem :
    (text : JsString) (participants : List JsString) (a : JsString)
    → let found = analyze_mentions text participants in
      let tags = matches true 0 (mask_code text) in
      (mem a found.mentions ≡ (mem a tags && (mem a participants && is_safe_slug a)))
      × (mem a found.unknown ≡ (mem a tags && not (mem a participants && is_safe_slug a)))
      × (times a found.mentions ≤ 1)
      × (times a found.unknown ≤ 1)
unfolding analyze_mentions
analyze_mentions_lem text participants a =
    let roster = roster_of participants in
    let tags = matches true 0 (mask_code text) in
    let none_found : MentionAnalysis = record { mentions = []; unknown = [] } in
    let (m, u) = collect-mem roster a tags none_found in
    let (once_m, once_u) = collect-OnceEach roster tags none_found (λ b. refl) (λ b. refl) in
    rw (← mem-roster_of a participants) (m, u, ground (arith, once_m a), ground (arith, once_u a))

tagged_untagged : (s : JsString) → any (λ c. c == b'@') s ≡ false → tagged s ≡ []
unfolding tagged
tagged_untagged [] h = refl
tagged_untagged (c ∷ s) h = ground arith

-- A text without "@" has no match.
matches_untagged :
    (at_start : Bool) (skip : ℕ) (s : JsString)
    → any (λ c. c == b'@') s ≡ false
    → matches at_start skip s ≡ []
unfolding matches
matches_untagged at_start skip [] h = refl
matches_untagged at_start (suc skip) (c ∷ s) h = matches_untagged false skip s (ground arith)
matches_untagged at_start zero (c ∷ s) h =
    ground (arith, tagged_untagged (c ∷ s) h, tagged_untagged s, matches_untagged false 0 s)

abbrev at_sign : ℕ → Bool
at_sign c = c == b'@'

any-blank : (s : JsString) → any at_sign (blank s) ≡ false
unfolding blank
any-blank [] = refl
any-blank (c ∷ s) = any-blank s

-- Up to the next backtick, code is masked.
any-mask_inline :
    (s : JsString)
    → any (λ c. c == b'`') s ≡ false
    → any at_sign (mask_inline true (s ++ b'`' ∷ [])) ≡ false
unfolding mask_inline
any-mask_inline [] h = refl
any-mask_inline (c ∷ s) h = ground (arith, any-mask_inline s)

split_lines_single : (s : JsString) → any (λ c. c == newline) s ≡ false → split_lines s ≡ s ∷ []
unfolding split_lines
split_lines_single [] h = refl
split_lines_single (c ∷ s) h = ground (arith, split_lines_single s)

any-append : (p : ℕ → Bool) (s t : JsString) → any p (s ++ t) ≡ (any p s || any p t)
any-append p [] t = refl
any-append p (c ∷ s) t = ground (arith, any-append p s t)

any-mask_line :
    (in_fence : Bool) (s : JsString)
    → any (λ c. c == b'`') s ≡ false
    → any at_sign (mask_line in_fence (b'`' ∷ s ++ b'`' ∷ [])) ≡ false
unfolding mask_line mask_inline
any-mask_line in_fence s h = elim (Bool-cases (is_fence (b'`' ∷ s ++ b'`' ∷ []) || in_fence)) [
  | inl code ↦ rw (code, mask_line) (any-blank (b'`' ∷ s ++ b'`' ∷ []))
  | inr text ↦ rw (text, mask_line) (any-mask_inline s h)
]

-- A message that is one inline code span, whatever it quotes, mentions nobody and warns of nobody.
pub code_span_silent :
    (s : JsString) (participants : List JsString)
    → any (λ c. c == newline) s ≡ false
    → any (λ c. c == b'`') s ≡ false
    → analyze_mentions (b'`' ∷ s ++ b'`' ∷ []) participants ≡ record { mentions = []; unknown = [] }
unfolding analyze_mentions mask_code mask_lines join_lines collect
code_span_silent s participants one_line no_tick =
    let text = b'`' ∷ s ++ b'`' ∷ [] in
    let single : split_lines text ≡ text ∷ [] =
      split_lines_single text (ground (arith, any-append (λ c. c == newline) s (b'`' ∷ []))) in
    rw single
      (rw (matches_untagged true 0 (mask_line false text) (any-mask_line false s no_tick)) refl)
