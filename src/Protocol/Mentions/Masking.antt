-- ===== src/Protocol/Mentions/Masking.antt =====
-- The masking of code in src/protocol/mentions.ts keeps the place of every character.
use agentgather.Common.{
  ℕ, ◌≡◌, ◌≢◌, refl, Bool, false, not, ◌||◌, List, [], ◌∷◌, ◌++◌, arith, JsString, if◌then◌else◌,
  Bool-cases, inl, inr, ◌⊎◌, ◌==◌,
}
use agentgather.Protocol.Mentions.{
  split_lines, join_lines, is_fence, blank, mask_inline, mask_line, mask_lines, mask_code,
  push_front,
}

-- The second text is the first with some of its characters replaced by spaces.
abbrev pub Blanks : JsString → JsString → Type 0
Blanks [] [] = Unit {0}
Blanks (c ∷ s) (d ∷ t) = ((d ≡ c) ⊎ (d ≡ 32)) × Blanks s t
Blanks _ _ = ⊥

BlanksLines : List JsString → List JsString → Type 0
BlanksLines [] [] = Unit {0}
BlanksLines (s ∷ ss) (t ∷ ts) = Blanks s t × BlanksLines ss ts
BlanksLines _ _ = ⊥

Blanks-blank : (s : JsString) → Blanks s (blank s)
unfolding blank
Blanks-blank [] = tt
Blanks-blank (c ∷ s) = (inr refl, Blanks-blank s)

Blanks-mask_inline : (in_inline : Bool) (s : JsString) → Blanks s (mask_inline in_inline s)
unfolding mask_inline
Blanks-mask_inline in_inline [] = tt
Blanks-mask_inline in_inline (c ∷ s) =
    (ground arith, Blanks-mask_inline (if c == b'`' then not in_inline else in_inline) s)

Blanks-mask_line : (in_fence : Bool) (line : JsString) → Blanks line (mask_line in_fence line)
unfolding mask_line
Blanks-mask_line in_fence line = elim (Bool-cases (is_fence line || in_fence)) [
  | inl code ↦ rw (code, mask_line) (Blanks-blank line)
  | inr text ↦ rw (text, mask_line) (Blanks-mask_inline false line)
]

Blanks-append : (s t u v : JsString) → Blanks s t → Blanks u v → Blanks (s ++ u) (t ++ v)
Blanks-append [] [] u v h k = k
Blanks-append (c ∷ s) (d ∷ t) u v h k = (h.0, Blanks-append s t u v h.1 k)
Blanks-append [] (d ∷ t) u v h k = absurd h
Blanks-append (c ∷ s) [] u v h k = absurd h

Blanks-mask_lines :
    (in_fence : Bool) (lines : List JsString)
    → Blanks (join_lines lines) (join_lines (mask_lines in_fence lines))
unfolding mask_lines join_lines
Blanks-mask_lines in_fence [] = tt
Blanks-mask_lines in_fence (line ∷ []) = Blanks-mask_line in_fence line
Blanks-mask_lines in_fence (line ∷ next ∷ lines) =
    Blanks-append line (mask_line in_fence line) _ _ (Blanks-mask_line in_fence line) (
      inl refl,
      Blanks-mask_lines (if is_fence line then not in_fence else in_fence) (next ∷ lines),
    )

push_front_cons : (c : ℕ) (lines : List JsString) → push_front c lines ≢ []
push_front_cons c [] = ground arith
push_front_cons c (line ∷ lines) = ground arith

split_lines_cons : (s : JsString) → split_lines s ≢ []
unfolding split_lines
split_lines_cons [] = ground arith
split_lines_cons (c ∷ s) = ground (arith, push_front_cons c (split_lines s))

-- Splitting at the line breaks and joining gives the text back.
pub join_lines-split_lines : (s : JsString) → join_lines (split_lines s) ≡ s
unfolding split_lines join_lines
join_lines-split_lines [] = refl
join_lines-split_lines (c ∷ s) = step c s (split_lines s) refl (join_lines-split_lines s)
  where
    step :
        (c : ℕ) (s : JsString) (lines : List JsString)
        → split_lines s ≡ lines
        → join_lines (split_lines s) ≡ s
        → join_lines (split_lines (c ∷ s)) ≡ c ∷ s
    step c s [] e h = absurd (split_lines_cons s e)
    step c s (line ∷ []) e h = ground arith
    step c s (line ∷ next ∷ lines) e h = ground arith

-- Masking keeps the length of a text and every character of it but those that it makes spaces.
pub mask_code-Blanks : (text : JsString) → Blanks text (mask_code text)
unfolding mask_code
mask_code-Blanks text =
    rw (join_lines-split_lines text) at (Blanks-mask_lines false (split_lines text))
