-- ===== src/Storage/Joined/History/Trimming.antt =====
-- `bound` of src/storage/joined-history-store.ts.
use agentgather.Common.{
  ℕ, zero, suc, ◌≡◌, ◌≤◌, ◌<◌, ◌⊎◌, ◌-◌, refl, ap, subst, ◌∙◌, true, false, ◌==◌, List, [], ◌∷◌,
  ◌++◌, arith, length, ltb, if◌then◌else◌, Bool-cases, inl, inr,
}
use agentgather.Storage.Joined.History.{
  JoinedHistorySnapshot, snapshot_max_messages, snapshot_max_forum_posts, snapshot_max_bytes, drop,
  cut_counts, is_too_long, drop_oldest, trim, entries, bound, highest,
}

length-drop : {A : Type 0} (k : ℕ) (xs : List A) → length (drop k xs) ≡ length xs - k
length-drop k [] = omega arith
length-drop k (x ∷ xs) = ground (arith, length-drop (k - 1) xs)

-- The second list is the end of the first.
abbrev pub IsEnd : {A : Type 0} → List A → List A → Type 0
IsEnd {A = A} xs ys = (front : List A) × (xs ≡ front ++ ys)

drop-IsEnd : {A : Type 0} (k : ℕ) (xs : List A) → IsEnd xs (drop k xs)
drop-IsEnd k [] = ([], refl)
drop-IsEnd k (x ∷ xs) = elim (Bool-cases (k == 0)) [
  | inl start ↦ rw (start) ([], refl)
  | inr later ↦ let rest = drop-IsEnd (k - 1) xs in rw (later) (x ∷ rest.0, ap (λ l. x ∷ l) rest.1)
]

append_assoc : {A : Type 0} (xs ys zs : List A) → xs ++ (ys ++ zs) ≡ (xs ++ ys) ++ zs
append_assoc [] ys zs = refl
append_assoc (x ∷ xs) ys zs = ap (λ l. x ∷ l) (append_assoc xs ys zs)

IsEnd-trans : {A : Type 0} {xs ys zs : List A} → IsEnd xs ys → IsEnd ys zs → IsEnd xs zs
IsEnd-trans {zs = zs} h k = (h.0 ++ k.0, h.1 ∙ ap (λ l. h.0 ++ l) k.1 ∙ append_assoc h.0 k.0 zs)

-- What a trimmed snapshot keeps of another.
pub record IsCutFrom (s t : JoinedHistorySnapshot) : Type 0 where
  pub messages : IsEnd s.messages t.messages
  pub forum_posts : IsEnd s.forum_posts t.forum_posts
  pub fewer_messages : length t.messages ≤ length s.messages
  pub fewer_posts : length t.forum_posts ≤ length s.forum_posts

IsCutFrom-trans : {s t u : JoinedHistorySnapshot} → IsCutFrom s t → IsCutFrom t u → IsCutFrom s u
IsCutFrom-trans h k = record {
  messages = IsEnd-trans h.messages k.messages;
  forum_posts = IsEnd-trans h.forum_posts k.forum_posts;
  fewer_messages = omega (arith, h.fewer_messages, k.fewer_messages);
  fewer_posts = omega (arith, h.fewer_posts, k.fewer_posts);
}

cut_self : (s : JoinedHistorySnapshot) → IsCutFrom s s
cut_self s = record {
  messages = ([], refl);
  forum_posts = ([], refl);
  fewer_messages = omega arith;
  fewer_posts = omega arith;
}

cut_counts-IsCutFrom :
    (s : JoinedHistorySnapshot)
    → IsCutFrom s (cut_counts s)
      × (length (cut_counts s).messages ≤ snapshot_max_messages)
      × (length (cut_counts s).forum_posts ≤ snapshot_max_forum_posts)
unfolding cut_counts
cut_counts-IsCutFrom s =
    let m = at_most snapshot_max_messages s.messages in
    let p = at_most snapshot_max_forum_posts s.forum_posts in
    (
      record { messages = m.0; forum_posts = p.0; fewer_messages = m.2; fewer_posts = p.2 },
      m.1,
      p.1,
    )
  where
    at_most :
        {A : Type 0} (n : ℕ) (xs : List A)
        → IsEnd xs (if ltb n (length xs) then drop (length xs - n) xs else xs)
          × (length (if ltb n (length xs) then drop (length xs - n) xs else xs) ≤ n)
          × (length (if ltb n (length xs) then drop (length xs - n) xs else xs) ≤ length xs)
    at_most n xs = elim (Bool-cases (ltb n (length xs))) [
      | inl long ↦ rw (long) (
        drop-IsEnd (length xs - n) xs,
        ground (arith, long, length-drop (length xs - n) xs),
        ground (arith, long, length-drop (length xs - n) xs),
      )
      | inr short ↦ rw (short) (([], refl), ground (arith, short), omega arith)
    ]

module _ (serialized_bytes : JoinedHistorySnapshot → ℕ) where
  drop_oldest-IsCutFrom : (s : JoinedHistorySnapshot) → IsCutFrom s (drop_oldest serialized_bytes s)
  unfolding drop_oldest
  drop_oldest-IsCutFrom s = elim (Bool-cases (ltb 0 (length s.forum_posts))) [
    | inl posts ↦ rw (posts) (record {
      messages = ([], refl);
      forum_posts = drop-IsEnd 1 s.forum_posts;
      fewer_messages = omega arith;
      fewer_posts = ground (arith, length-drop 1 s.forum_posts);
    })
    | inr none_left ↦ rw (none_left) (record {
      messages = drop-IsEnd 1 s.messages;
      forum_posts = ([], refl);
      fewer_messages = ground (arith, length-drop 1 s.messages);
      fewer_posts = omega arith;
    })
  ]

  -- The body of the loop runs only where it drops an entry.
  drop_oldest-shrinks :
      (s : JoinedHistorySnapshot)
      → is_too_long serialized_bytes s ≡ true
      → entries serialized_bytes (drop_oldest serialized_bytes s) < entries serialized_bytes s
  unfolding drop_oldest is_too_long
  drop_oldest-shrinks s long = elim (Bool-cases (ltb 0 (length s.forum_posts))) [
    | inl posts ↦ rw (posts) (ground (arith, posts, length-drop 1 s.forum_posts))
    | inr none_left ↦ rw (none_left) (ground (arith, none_left, long, length-drop 1 s.messages))
  ]

  trim-IsCutFrom :
      (fuel : ℕ) (s : JoinedHistorySnapshot) → IsCutFrom s (trim serialized_bytes fuel s)
  unfolding trim
  trim-IsCutFrom zero s = cut_self s
  trim-IsCutFrom (suc fuel) s = elim (Bool-cases (is_too_long serialized_bytes s)) [
    | inl long ↦ rw (long) (
        IsCutFrom-trans (drop_oldest-IsCutFrom s)
          (trim-IsCutFrom fuel (drop_oldest serialized_bytes s)))
    | inr fits ↦ rw (fits) (cut_self s)
  ]

  -- With as much fuel as there are entries, the loop ends because its test fails.
  pub trim_ends :
      (fuel : ℕ) (s : JoinedHistorySnapshot)
      → entries serialized_bytes s ≤ fuel
      → is_too_long serialized_bytes (trim serialized_bytes fuel s) ≡ false
  unfolding trim
  trim_ends zero s h = elim (Bool-cases (is_too_long serialized_bytes s)) [
    | inl long ↦ absurd (ground (arith, h, drop_oldest-shrinks s long))
    | inr fits ↦ fits
  ]
  trim_ends (suc fuel) s h = elim (Bool-cases (is_too_long serialized_bytes s)) [
    | inl long ↦ rw (long) (
        trim_ends fuel (drop_oldest serialized_bytes s)
          (ground (arith, h, drop_oldest-shrinks s long)))
    | inr fits ↦ rw (fits) fits
  ]

  -- What `bound` leaves. The test of the loop reads the cursor that the snapshot had before.
  pub record IsBounded (s t : JoinedHistorySnapshot) : Type 0 where
    pub cut : IsCutFrom s t
    pub messages : length t.messages ≤ snapshot_max_messages
    pub forum_posts : length t.forum_posts ≤ snapshot_max_forum_posts
    pub cursor : t.cursor ≡ highest t.messages 0
    pub bytes :
        (serialized_bytes (record t { cursor = s.cursor }) ≤ snapshot_max_bytes)
        ⊎ ((length t.messages ≤ 1) × (length t.forum_posts ≡ 0))

  trim-cursor :
      (fuel : ℕ) (s : JoinedHistorySnapshot) → (trim serialized_bytes fuel s).cursor ≡ s.cursor
  unfolding trim drop_oldest
  trim-cursor zero s = refl
  trim-cursor (suc fuel) s = elim (Bool-cases (is_too_long serialized_bytes s)) [
    | inl long ↦ rw (long) (trim-cursor fuel (drop_oldest serialized_bytes s) ∙ kept)
    | inr fits ↦ rw (fits) refl
  ]
    where
      kept : (drop_oldest serialized_bytes s).cursor ≡ s.cursor
      kept = elim (Bool-cases (ltb 0 (length s.forum_posts))) [
        | inl posts ↦ rw (drop_oldest, posts) refl
        | inr none_left ↦ rw (drop_oldest, none_left) refl
      ]

  cut_counts-cursor : (s : JoinedHistorySnapshot) → (cut_counts s).cursor ≡ s.cursor
  unfolding cut_counts
  cut_counts-cursor s = refl

  fits_or_small :
      (s : JoinedHistorySnapshot)
      → is_too_long serialized_bytes s ≡ false
      → (serialized_bytes s ≤ snapshot_max_bytes)
        ⊎ ((length s.messages ≤ 1) × (length s.forum_posts ≡ 0))
  unfolding is_too_long
  fits_or_small s h = elim (Bool-cases (ltb snapshot_max_bytes (serialized_bytes s))) [
    | inl long ↦ inr (ground (arith, long, h), ground (arith, long, h))
    | inr fits ↦ inl (ground (arith, fits))
  ]

  -- A bounded snapshot holds the newest messages and posts of the one it is made from, at most 250 and
  -- 50; its file is within the byte cap, measured with the cursor from before, or one message is left;
  -- and its cursor is the highest id that it holds.
  pub bound_lem : (s : JoinedHistorySnapshot) → IsBounded s (bound serialized_bytes s)
  unfolding bound
  bound_lem s =
      let counts = cut_counts-IsCutFrom s in
      let fuel = entries serialized_bytes (cut_counts s) in
      let kept = trim serialized_bytes fuel (cut_counts s) in
      let cut = trim-IsCutFrom fuel (cut_counts s) in
      let same_cursor : kept.cursor ≡ s.cursor =
        trim-cursor fuel (cut_counts s) ∙ cut_counts-cursor s in
      let both = IsCutFrom-trans counts.0 cut in
      record {
        cut = record {
          messages = both.messages;
          forum_posts = both.forum_posts;
          fewer_messages = both.fewer_messages;
          fewer_posts = both.fewer_posts;
        };
        messages = omega (arith, cut.fewer_messages, counts.1);
        forum_posts = omega (arith, cut.fewer_posts, counts.2);
        cursor = refl;
        bytes =
            subst
              (λ c.
                (serialized_bytes (record kept { cursor = c }) ≤ snapshot_max_bytes)
                ⊎ ((length kept.messages ≤ 1) × (length kept.forum_posts ≡ 0)))
              same_cursor (fits_or_small kept (trim_ends fuel (cut_counts s) (omega arith)));
      }
