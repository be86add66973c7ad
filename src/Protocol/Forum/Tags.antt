-- ===== src/Protocol/Forum/Tags.antt =====
-- The tags that `normalizeForumTags` of src/protocol/forum.ts makes.
use mathlib.Core.List.{append-nil, append_assoc}
use agentgather.Common.{
  ℕ, ◌≤◌, ◌≡◌, refl, true, false, List, [], ◌∷◌, ◌++◌, arith, All, ◌∙◌, JsString, str_eq,
  str_eq_iff, Outcome, ok, guard, leb, if◌then◌else◌, every, length, Bool-cases, inl, inr,
  bind-Returned, ok_inj, subst,
}
use agentgather.Protocol.Slug.{is_safe_slug, is_slug_char}
use agentgather.Protocol.Slug.Laws.{is_safe_slug_iff}
use agentgather.Protocol.Spaces.{trim}
use agentgather.Protocol.Spaces.Laws.{trim_slug}
use agentgather.Protocol.Forum.{
  ForumError, has_tag, push_tag, push_tags, normalize_forum_tags, max_forum_tags, is_empty,
  too_many_tags,
}

-- Safe slugs, none twice.
abbrev pub Slugs : List JsString → Type 0
Slugs [] = Unit {0}
Slugs (tag ∷ tags) = (is_safe_slug tag ≡ true) × (has_tag tag tags ≡ false) × Slugs tags

-- Tags in the form in which they are stored.
pub record AreNormal (tags : List JsString) : Type 0 where
  pub slugs : Slugs tags
  pub few : length tags ≤ max_forum_tags

has_tag-append :
    (a tag : JsString) (out : List JsString)
    → has_tag a (out ++ tag ∷ []) ≡ (if str_eq a tag then true else has_tag a out)
has_tag-append a tag [] = ground arith
has_tag-append a tag (b ∷ out) = ground (arith, has_tag-append a tag out)

Slugs-append :
    (tag : JsString) (out : List JsString)
    → is_safe_slug tag ≡ true
    → has_tag tag out ≡ false
    → Slugs out
    → Slugs (out ++ tag ∷ [])
Slugs-append tag [] safe new h = (safe, refl, tt)
Slugs-append tag (b ∷ out) safe new h = (
  h.0,
  ground (arith, has_tag-append b tag out, str_eq_iff b tag, str_eq_iff tag b),
  Slugs-append tag out safe (ground arith) h.2,
)

push_tag-Slugs :
    (tag : JsString) (out next : List JsString)
    → push_tag tag out ≡ ok next
    → Slugs out
    → Slugs next
unfolding push_tag
push_tag-Slugs tag out next e h = elim (Bool-cases (is_empty tag)) [
  | inl empty ↦ subst Slugs (ok_inj (rw (empty) at e)) h
  | inr visible ↦ elim (Bool-cases (has_tag tag out)) [
    | inl seen ↦ subst Slugs (ok_inj (rw (visible, seen) at e)) h
    | inr new ↦ elim (Bool-cases (is_safe_slug tag)) [
      | inl safe ↦
          subst Slugs (ok_inj (rw (visible, new, safe) at e)) (Slugs-append tag out safe new h)
      | inr bad ↦ absurd (cc (rw (visible, new, bad) at e))
    ]
  ]
]

push_tags-Slugs :
    (to_lower_case : JsString → JsString) (raws out final : List JsString)
    → push_tags to_lower_case raws out ≡ ok final
    → Slugs out
    → Slugs final
unfolding push_tags
push_tags-Slugs to_lower_case [] out final e h = subst Slugs (ok_inj e) h
push_tags-Slugs to_lower_case (raw ∷ raws) out final e h =
    let first = bind-Returned (push_tag (to_lower_case (trim raw)) out) e in
    push_tags-Slugs to_lower_case raws first.value final first.goes_on
      (push_tag-Slugs (to_lower_case (trim raw)) out first.value first.returns h)

-- `toLowerCase` leaves letters, digits and dashes that are in lower case as they are.
abbrev pub KeepsSlugs : (JsString → JsString) → Type 0
KeepsSlugs to_lower_case = (s : JsString) → every is_slug_char s ≡ true → to_lower_case s ≡ s

push_tag_fixed :
    (tag : JsString) (out : List JsString)
    → is_safe_slug tag ≡ true
    → has_tag tag out ≡ false
    → push_tag tag out ≡ ok (out ++ tag ∷ [])
unfolding push_tag
push_tag_fixed [] out safe new = absurd (omega (arith, ((is_safe_slug_iff []).0 safe).0))
push_tag_fixed (c ∷ s) out safe new = rw (new, safe) refl

-- None of the tags is among `out`.
abbrev New : List JsString → List JsString → Type 0
New tags out = All (λ t. has_tag t out ≡ false) tags

New-append :
    (tag : JsString) (tags out : List JsString)
    → has_tag tag tags ≡ false
    → New tags out
    → New tags (out ++ tag ∷ [])
New-append tag [] out new h = tt
New-append tag (t ∷ tags) out new h = (
  ground (arith, has_tag-append t tag out, str_eq_iff t tag, str_eq_iff tag t, h.0),
  New-append tag tags out (ground arith) h.1,
)

push_tags_fixed :
    (to_lower_case : JsString → JsString) (tags out : List JsString)
    → KeepsSlugs to_lower_case
    → Slugs tags
    → New tags out
    → push_tags to_lower_case tags out ≡ ok (out ++ tags)
unfolding push_tags
push_tags_fixed to_lower_case [] out k h n = rw (append-nil out) refl
push_tags_fixed to_lower_case (tag ∷ tags) out k h n =
    let chars = ((is_safe_slug_iff tag).0 h.0).2 in
    let kept : push_tag (to_lower_case (trim tag)) out ≡ ok (out ++ tag ∷ []) =
      rw (trim_slug tag chars, k tag chars) (push_tag_fixed tag out h.0 n.0) in
    let rest =
      push_tags_fixed to_lower_case tags (out ++ tag ∷ []) k h.2
        (New-append tag tags out h.1 n.1) in
    rw (kept, push_tags) (rest ∙ rw (append_assoc out (tag ∷ []) tags) refl)

New-none : (tags : List JsString) → New tags []
New-none [] = tt
New-none (t ∷ tags) = (refl, New-none tags)

AreNormal-fixed :
    (to_lower_case : JsString → JsString) (tags : List JsString)
    → KeepsSlugs to_lower_case
    → AreNormal tags
    → normalize_forum_tags to_lower_case tags ≡ ok tags
unfolding normalize_forum_tags
AreNormal-fixed to_lower_case tags k h =
    let fits : leb (length tags) max_forum_tags ≡ true = ground (arith, h.few) in
    rw (push_tags_fixed to_lower_case tags [] k h.slugs (New-none tags), fits) refl

-- Tags that are accepted come out as at most 12 safe slugs, none twice, and normalizing these again
-- gives the same tags, if `toLowerCase` leaves slugs as they are.
pub normalize_forum_tags_stable :
    (to_lower_case : JsString → JsString) (raws tags : List JsString)
    → KeepsSlugs to_lower_case
    → normalize_forum_tags to_lower_case raws ≡ ok tags
    → AreNormal tags × (normalize_forum_tags to_lower_case tags ≡ ok tags)
unfolding normalize_forum_tags
normalize_forum_tags_stable to_lower_case raws tags k e =
    let out = bind-Returned (push_tags to_lower_case raws []) e in
    let checked =
      bind-Returned (guard (leb (length out.value) max_forum_tags) too_many_tags) out.goes_on in
    let same : out.value ≡ tags = ok_inj checked.goes_on in
    let made : AreNormal out.value = record {
      slugs = push_tags-Slugs to_lower_case raws [] out.value out.returns tt;
      few = few_of (length out.value) checked.value checked.returns;
    } in
    let normal = subst AreNormal same made in (normal, AreNormal-fixed to_lower_case tags k normal)
  where
    few_of :
        (n : ℕ) (u : Unit {0})
        → ◌≡◌ {A = Outcome ForumError (Unit {0})}
            (guard (leb n max_forum_tags) too_many_tags)
            (ok u)
        → n ≤ max_forum_tags
    few_of n u h = elim (Bool-cases (leb n max_forum_tags)) [
      | inl few ↦ ground arith
      | inr many ↦ absurd (cc (rw (many) at h))
    ]
