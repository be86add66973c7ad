-- ===== src/Storage/Joined/History/Merging.antt =====
-- `mergeMessages` of src/storage/joined-history-store.ts.
use agentgather.Common.{
  ℕ, ◌≡◌, ◌<◌, ◌≢◌, refl, ap, subst, ◌∙◌, Bool, true, false, ◌==◌, ==_iff, Option, none, some, List,
  [], ◌∷◌, ◌++◌, arith, JsString, find, All, leb, if◌then◌else◌, Bool-cases, inl, inr,
}
use agentgather.Storage.Joined.History.{
  SnapshotMessage, redacted, put_message, put_messages, insert_message, sort_messages,
  merge_messages,
}

abbrev pub find_id : ℕ → List SnapshotMessage → Option SnapshotMessage
find_id id messages = find (λ m. m.id == id) messages

abbrev or_earlier : Option SnapshotMessage → Option SnapshotMessage → Option SnapshotMessage
or_earlier none earlier = earlier
or_earlier (some m) earlier = some m

-- The last message of the id.
abbrev pub latest : ℕ → List SnapshotMessage → Option SnapshotMessage
latest id [] = none
latest id (m ∷ messages) = or_earlier (latest id messages) (if m.id == id then some m else none)

-- Ids go up, and none stands twice.
abbrev pub Ascends : List SnapshotMessage → Type 0
Ascends [] = Unit {0}
Ascends (m ∷ messages) = All (λ k. m.id < k.id) messages × Ascends messages

-- The id stands nowhere.
abbrev IsNew : ℕ → List SnapshotMessage → Type 0
IsNew id messages = All (λ k. k.id ≢ id) messages

abbrev AreApart : List SnapshotMessage → Type 0
AreApart [] = Unit {0}
AreApart (m ∷ messages) = IsNew m.id messages × AreApart messages

module _ (redact : JsString → JsString) where
  abbrev pub redacted_option : Option SnapshotMessage → Option SnapshotMessage
  redacted_option none = none
  redacted_option (some m) = some (redacted redact m)

  find-put_message :
      (id : ℕ) (m : SnapshotMessage) (messages : List SnapshotMessage)
      → find_id id (put_message redact m messages)
        ≡ (if m.id == id then some m else find_id id messages)
  unfolding put_message
  find-put_message id m [] = refl
  find-put_message id m (k ∷ messages) = ground (arith, find-put_message id m messages)

  find-put_messages :
      (id : ℕ) (messages by_id : List SnapshotMessage)
      → find_id id (put_messages redact messages by_id)
        ≡ or_earlier (redacted_option (latest id messages)) (find_id id by_id)
  unfolding put_messages redacted
  find-put_messages id [] by_id = refl
  find-put_messages id (m ∷ messages) by_id =
      find-put_messages id messages (put_message redact (redacted redact m) by_id)
      ∙ ap (or_earlier (redacted_option (latest id messages)))
          (find-put_message id (redacted redact m) by_id)
      ∙ regroup (latest id messages) (m.id == id)
    where
      regroup :
          (l : Option SnapshotMessage) (same : Bool)
          → or_earlier
              (redacted_option l)
              (if same then some (redacted redact m) else find_id id by_id)
            ≡ or_earlier
                (redacted_option (or_earlier l (if same then some m else none)))
                (find_id id by_id)
      regroup none true = refl
      regroup none false = refl
      regroup (some x) same = refl

  find-insert_message :
      (id : ℕ) (m : SnapshotMessage) (messages : List SnapshotMessage)
      → find_id id (insert_message redact m messages)
        ≡ (if m.id == id then some m else find_id id messages)
  unfolding insert_message
  find-insert_message id m [] = refl
  find-insert_message id m (k ∷ messages) = ground (arith, find-insert_message id m messages)

  find-sort_messages :
      (id : ℕ) (messages : List SnapshotMessage)
      → find_id id (sort_messages redact messages) ≡ find_id id messages
  unfolding sort_messages
  find-sort_messages id [] = refl
  find-sort_messages id (m ∷ messages) = ground (
    arith,
    find-insert_message id m (sort_messages redact messages),
    find-sort_messages id messages,
  )

  IsNew-put :
      (id : ℕ) (m : SnapshotMessage) (messages : List SnapshotMessage)
      → m.id ≢ id
      → IsNew id messages
      → IsNew id (put_message redact m messages)
  unfolding put_message
  IsNew-put id m [] h n = (h, tt)
  IsNew-put id m (k ∷ messages) h n = elim (Bool-cases (k.id == m.id)) [
    | inl same ↦ rw (same) (h, n.1)
    | inr other ↦ rw (other) (n.0, IsNew-put id m messages h n.1)
  ]

  AreApart-put :
      (m : SnapshotMessage) (messages : List SnapshotMessage)
      → AreApart messages
      → AreApart (put_message redact m messages)
  unfolding put_message
  AreApart-put m [] h = (tt, tt)
  AreApart-put m (k ∷ messages) h = elim (Bool-cases (k.id == m.id)) [
    | inl same ↦
        let id : k.id ≡ m.id = (==_iff k.id m.id).0 same in
        rw (same) (subst (λ i. IsNew i messages) id h.0, h.1)
    | inr other ↦
        rw (other) (
          IsNew-put k.id m messages (λ e. ground (arith, e, other)) h.0,
          AreApart-put m messages h.1,
        )
  ]

  AreApart-put_messages :
      (messages by_id : List SnapshotMessage)
      → AreApart by_id
      → AreApart (put_messages redact messages by_id)
  unfolding put_messages
  AreApart-put_messages [] by_id h = h
  AreApart-put_messages (m ∷ messages) by_id h =
      AreApart-put_messages messages (put_message redact (redacted redact m) by_id)
        (AreApart-put (redacted redact m) by_id h)

  IsNew-insert :
      (id : ℕ) (m : SnapshotMessage) (messages : List SnapshotMessage)
      → m.id ≢ id
      → IsNew id messages
      → IsNew id (insert_message redact m messages)
  unfolding insert_message
  IsNew-insert id m [] h n = (h, tt)
  IsNew-insert id m (k ∷ messages) h n = elim (Bool-cases (leb m.id k.id)) [
    | inl here ↦ rw (here) (h, n)
    | inr later ↦ rw (later) (n.0, IsNew-insert id m messages h n.1)
  ]

  IsNew-sort :
      (id : ℕ) (messages : List SnapshotMessage)
      → IsNew id messages
      → IsNew id (sort_messages redact messages)
  unfolding sort_messages
  IsNew-sort id [] n = tt
  IsNew-sort id (m ∷ messages) n =
      IsNew-insert id m (sort_messages redact messages) n.0 (IsNew-sort id messages n.1)

  above-insert :
      (n : ℕ) (m : SnapshotMessage) (messages : List SnapshotMessage)
      → n < m.id
      → All (λ k. n < k.id) messages
      → All (λ k. n < k.id) (insert_message redact m messages)
  unfolding insert_message
  above-insert n m [] h a = (h, tt)
  above-insert n m (k ∷ messages) h a = elim (Bool-cases (leb m.id k.id)) [
    | inl here ↦ rw (here) (h, a)
    | inr later ↦ rw (later) (a.0, above-insert n m messages h a.1)
  ]

  above_mono :
      (n k : ℕ) (messages : List SnapshotMessage)
      → n < k
      → All (λ m. k < m.id) messages
      → All (λ m. n < m.id) messages
  above_mono n k [] h a = tt
  above_mono n k (m ∷ messages) h a = (omega (arith, h, a.0), above_mono n k messages h a.1)

  Ascends-insert :
      (m : SnapshotMessage) (messages : List SnapshotMessage)
      → IsNew m.id messages
      → Ascends messages
      → Ascends (insert_message redact m messages)
  unfolding insert_message
  Ascends-insert m [] n h = (tt, tt)
  Ascends-insert m (k ∷ messages) n h = elim (Bool-cases (leb m.id k.id)) [
    | inl here ↦
        let below : m.id < k.id = ground (arith, here, n.0) in
        rw (here) ((below, above_mono m.id k.id messages below h.0), h)
    | inr later ↦ rw (later) (
      above-insert k.id m messages (ground (arith, later)) h.0,
      Ascends-insert m messages n.1 h.1,
    )
  ]

  Ascends-sort :
      (messages : List SnapshotMessage)
      → AreApart messages
      → Ascends (sort_messages redact messages)
  unfolding sort_messages
  Ascends-sort [] h = tt
  Ascends-sort (m ∷ messages) h =
      Ascends-insert m (sort_messages redact messages) (IsNew-sort m.id messages h.0)
        (Ascends-sort messages h.1)

  -- The merged messages go up by id, none stands twice, and each is the last one of its id among the
  -- stored and the incoming messages, redacted.
  pub merge_messages_lem :
      (current incoming : List SnapshotMessage)
      → Ascends (merge_messages redact current incoming)
        × ((id : ℕ)
            → find_id id (merge_messages redact current incoming)
              ≡ redacted_option (latest id (current ++ incoming)))
  unfolding merge_messages
  merge_messages_lem current incoming = (
    Ascends-sort (put_messages redact (current ++ incoming) [])
        (AreApart-put_messages (current ++ incoming) [] tt),
    λ id.
        find-sort_messages id (put_messages redact (current ++ incoming) [])
        ∙ find-put_messages id (current ++ incoming) []
        ∙ or_none (redacted_option (latest id (current ++ incoming))),
  )
    where
      or_none : (o : Option SnapshotMessage) → or_earlier o none ≡ o
      or_none none = refl
      or_none (some m) = refl
