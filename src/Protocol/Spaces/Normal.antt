-- ===== src/Protocol/Spaces/Normal.antt =====
-- Texts that `trim` and `replace(/\s+/g, " ")` leave as they are.
use agentgather.Common.{
  ℕ, ◌≡◌, refl, Bool, true, false, ◌&&◌, [], ◌∷◌, arith, JsString, every, if◌then◌else◌, Bool-cases,
  inl, inr,
}
use agentgather.Protocol.Mentions.{is_white_space, trim_start}
use agentgather.Protocol.Spaces.{trim_end, trim, collapse}

-- White space is single spaces only, none at the end, and none in front if `in_run`.
abbrev IsNormal : Bool → JsString → Type 0
IsNormal in_run [] = in_run ≡ false
IsNormal in_run (c ∷ s) =
    if is_white_space c then (c ≡ b' ') × (in_run ≡ false) × IsNormal true s else IsNormal false s

visible_of_normal : (s : JsString) → IsNormal true s → every is_white_space s ≡ false
visible_of_normal [] h = cc h
visible_of_normal (c ∷ s) h = elim (Bool-cases (is_white_space c)) [
  | inl white ↦ let k = rw (white) at h in absurd (cc k.1)
  | inr black ↦ rw (black) refl
]

trim_end_normal : (in_run : Bool) (s : JsString) → IsNormal in_run s → trim_end s ≡ s
unfolding trim_end
trim_end_normal in_run [] h = refl
trim_end_normal in_run (c ∷ s) h = elim (Bool-cases (is_white_space c)) [
  | inl white ↦
      let k = rw (white) at h in
      rw (white, visible_of_normal s k.2, trim_end_normal true s k.2) refl
  | inr black ↦ rw (black, trim_end_normal false s (rw (black) at h)) refl
]

collapse_normal : (in_run : Bool) (s : JsString) → IsNormal in_run s → collapse in_run s ≡ s
unfolding collapse
collapse_normal in_run [] h = refl
collapse_normal in_run (c ∷ s) h = elim (Bool-cases (is_white_space c)) [
  | inl white ↦ let k = rw (white) at h in rw (white, k.1, collapse_normal true s k.2) rw (k.0) refl
  | inr black ↦ rw (black, collapse_normal false s (rw (black) at h)) refl
]

trim_start_normal : (s : JsString) → IsNormal true s → trim_start s ≡ s
unfolding trim_start
trim_start_normal [] h = refl
trim_start_normal (c ∷ s) h = elim (Bool-cases (is_white_space c)) [
  | inl white ↦ let k = rw (white) at h in absurd (cc k.1)
  | inr black ↦ rw (black) refl
]

-- No white space at the end.
abbrev EndsVisible : JsString → Type 0
EndsVisible [] = Unit {0}
EndsVisible (c ∷ s) = (is_white_space c && every is_white_space s ≡ false) × EndsVisible s

trim_end-EndsVisible : (s : JsString) → EndsVisible (trim_end s)
unfolding trim_end
trim_end-EndsVisible [] = tt
trim_end-EndsVisible (c ∷ s) = elim (Bool-cases (is_white_space c && every is_white_space s)) [
  | inl white ↦ rw (white, trim_end) tt
  | inr black ↦ rw (black, trim_end) (ends c s black, trim_end-EndsVisible s)
]
  where
    every_trim_end :
        (s : JsString) → every is_white_space (trim_end s) ≡ true → every is_white_space s ≡ true
    every_trim_end [] h = refl
    every_trim_end (c ∷ s) h = ground (arith, every_trim_end s)

    ends :
        (c : ℕ) (s : JsString)
        → is_white_space c && every is_white_space s ≡ false
        → is_white_space c && every is_white_space (trim_end s) ≡ false
    ends c s h = ground (arith, every_trim_end s)

collapse-IsNormal :
    (in_run : Bool) (s : JsString)
    → EndsVisible s
    → (s ≡ [] → in_run ≡ false)
    → IsNormal in_run (collapse in_run s)
unfolding collapse
collapse-IsNormal in_run [] h first = first refl
collapse-IsNormal in_run (c ∷ s) h first = elim (Bool-cases (is_white_space c)) [
  | inl white ↦
      let later =
        collapse-IsNormal true s h.1 (λ (e : s ≡ []). absurd (none_left c s e white h.0)) in
      by_run in_run c s white later
  | inr black ↦ rw (black) rw (black) (collapse-IsNormal false s h.1 (λ e. refl))
]
  where
    none_left :
        (c : ℕ) (s : JsString)
        → s ≡ []
        → is_white_space c ≡ true
        → is_white_space c && every is_white_space s ≡ false
        → ⊥
    none_left c [] e white h = ground arith
    none_left c (d ∷ s) e white h = cc e

    by_run :
        (in_run : Bool) (c : ℕ) (s : JsString)
        → is_white_space c ≡ true
        → IsNormal true (collapse true s)
        → IsNormal in_run (collapse in_run (c ∷ s))
    by_run true c s white later = rw (white) later
    by_run false c s white later = rw (white) (refl, refl, later)

-- A text that was trimmed and collapsed is unchanged by both.
pub record IsStable (s : JsString) : Type 0 where
  pub trimmed : trim s ≡ s
  pub collapsed : collapse false s ≡ s

normal-IsStable : (s : JsString) → IsNormal true s → IsNormal false s → IsStable s
unfolding trim
normal-IsStable s h k = record {
  trimmed = rw (trim_start_normal s h) (trim_end_normal true s h);
  collapsed = collapse_normal false s k;
}

pub collapse-trim-IsStable : (v : JsString) → IsStable (collapse false (trim v))
unfolding trim trim_start trim_end collapse
collapse-trim-IsStable [] = record { trimmed = refl; collapsed = refl }
collapse-trim-IsStable (c ∷ v) = elim (Bool-cases (is_white_space c)) [
  | inl white ↦ rw (white) (collapse-trim-IsStable v)
  | inr black ↦
      let rest = collapse-IsNormal false (trim_end v) (trim_end-EndsVisible v) (λ e. refl) in
      rw (black) rw (black) rw (black)
        (normal-IsStable (c ∷ collapse false (trim_end v)) (rw (black) rest) (rw (black) rest))
]
