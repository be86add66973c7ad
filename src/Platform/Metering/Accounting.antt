-- ===== src/Platform/Metering/Accounting.antt =====
-- What the ledger of src/platform/metering.ts counts, and whom it refuses.
use agentgather.Common.{
  ℕ, ◌+◌, ◌/◌, ◌≤◌, ◌≡◌, ◌↔◌, refl, Bool, true, ◌&&◌, Option, none, some, List, [], ◌∷◌, arith, ◌∙◌,
  ap, subst, All, Bool-cases, ==-refl, inl, inr, JsString, JsMap, get, set, get-set, str_eq,
  str_eq_iff, Outcome, ok, throw, ◌==◌, if◌then◌else◌, filter,
}
use agentgather.Platform.Metering.{
  MeteredDimension, route_minutes, active_public_rooms, participant_joins, relay_requests,
  bandwidth_bytes, metered_dimensions, Counters, counter, add_to, MeteringWindow, MeteringRecord,
  MeteringLedger, MeteringError, is_subject, window_for, finalize, updated, record_usage, usage,
  assert_within_quota, zero_counters, admit_usage, admit_record, is_over, is_nonempty,
  quota_exceeded, fresh_window,
}

abbrev index : MeteredDimension → ℕ
index route_minutes = 0
index active_public_rooms = 1
index participant_joins = 2
index relay_requests = 3
index bandwidth_bytes = 4

abbrev pub same_dimension : MeteredDimension → MeteredDimension → Bool
same_dimension d e = index d == index e

counter-add_to :
    (d e : MeteredDimension) (n : ℕ) (c : Counters)
    → counter d (add_to e n c) ≡ counter d c + (if same_dimension e d then n else 0)
unfolding counter add_to
counter-add_to d route_minutes n c = ground arith
counter-add_to d active_public_rooms n c = ground arith
counter-add_to d participant_joins n c = ground arith
counter-add_to d relay_requests n c = ground arith
counter-add_to d bandwidth_bytes n c = ground arith

-- A call of `record`.
pub record Use : Type 0 where
  pub now : ℕ
  pub subject : JsString
  pub dimension : MeteredDimension
  pub amount : ℕ
  pub is_public : Bool

abbrev pub counts : JsString → MeteredDimension → Use → Bool
counts subject d u = u.is_public && str_eq u.subject subject && same_dimension u.dimension d

-- What public routes used of a dimension for a subject.
abbrev pub total : JsString → MeteredDimension → List Use → ℕ
total subject d [] = 0
total subject d (u ∷ uses) = (if counts subject d u then u.amount else 0) + total subject d uses

abbrev pub run : List Use → MeteringLedger → MeteringLedger
run [] l = l
run (u ∷ uses) l = run uses (record_usage u.now u.subject u.dimension u.amount u.is_public l).0

-- What the store holds of a subject in a window.
held : ℕ → MeteredDimension → Option MeteringRecord → ℕ
held w d none = 0
held w d (some r) = if r.window.window_id == w then counter d r.window.counters else 0

counter-zero_counters : (d : MeteredDimension) → counter d zero_counters ≡ 0
unfolding counter
counter-zero_counters route_minutes = refl
counter-zero_counters active_public_rooms = refl
counter-zero_counters participant_joins = refl
counter-zero_counters relay_requests = refl
counter-zero_counters bandwidth_bytes = refl

counter-window_for :
    (d : MeteredDimension) (now window_ms : ℕ) (o : Option MeteringRecord)
    → (counter d (window_for now window_ms o).counters ≡ held (now / window_ms) d o)
      × ((window_for now window_ms o).window_id ≡ now / window_ms)
unfolding window_for fresh_window held
counter-window_for d now window_ms none = (counter-zero_counters d, refl)
counter-window_for d now window_ms (some r) =
    elim (Bool-cases (r.window.window_id == now / window_ms)) [
      | inl e ↦ rw (e, window_for) (refl, ground arith)
      | inr e ↦ rw (e, window_for) (counter-zero_counters d, refl)
    ]

held-updated :
    (d e : MeteredDimension) (now n : ℕ) (subject : JsString) (l : MeteringLedger)
    → held (now / l.window_ms) d (some (updated l now subject e n))
      ≡ held (now / l.window_ms) d (get subject l.store) + (if same_dimension e d then n else 0)
unfolding updated finalize held
held-updated d e now n subject l =
    let window = window_for now l.window_ms (get subject l.store) in
    let same = counter-window_for d now l.window_ms (get subject l.store) in
    rw (same.1, ==-refl (now / l.window_ms)) rw (counter-add_to d e n window.counters, same.0) refl

held-set :
    (w : ℕ) (d : MeteredDimension) (k j : JsString) (r : MeteringRecord) (m : JsMap MeteringRecord)
    → held w d (get j (set k r m)) ≡ (if str_eq k j then held w d (some r) else held w d (get j m))
held-set w d k j r m = elim (Bool-cases (str_eq k j)) [
  | inl e ↦ rw (get-set k j r m, e) refl
  | inr e ↦ rw (get-set k j r m, e) refl
]

held-record_usage :
    (d : MeteredDimension) (subject : JsString) (u : Use) (l : MeteringLedger)
    → is_subject subject ≡ true
    → held
        (u.now / l.window_ms)
        d
        (get subject (record_usage u.now u.subject u.dimension u.amount u.is_public l).0.store)
      ≡ held (u.now / l.window_ms) d (get subject l.store)
        + (if counts subject d u then u.amount else 0)
unfolding record_usage
held-record_usage d subject u l valid = ground (
  arith,
  str_eq_iff u.subject subject,
  held-set (u.now / l.window_ms) d u.subject subject
      (updated l u.now u.subject u.dimension u.amount) l.store,
  held-updated d u.dimension u.now u.amount u.subject l,
)

kept_settings :
    (u : Use) (l : MeteringLedger)
    → ((record_usage u.now u.subject u.dimension u.amount u.is_public l).0.window_ms ≡ l.window_ms)
      × ((record_usage u.now u.subject u.dimension u.amount u.is_public l).0.quota ≡ l.quota)
unfolding record_usage
kept_settings u l = (ground arith, ground arith)

held-run :
    (d : MeteredDimension) (subject : JsString) (w : ℕ) (uses : List Use) (l : MeteringLedger)
    → is_subject subject ≡ true
    → All (λ u. u.now / l.window_ms ≡ w) uses
    → held w d (get subject (run uses l).store)
      ≡ held w d (get subject l.store) + total subject d uses
held-run d subject w [] l valid h = omega arith
held-run d subject w (u ∷ uses) l valid h =
    let next = (record_usage u.now u.subject u.dimension u.amount u.is_public l).0 in
    let same : next.window_ms ≡ l.window_ms = (kept_settings u l).0 in
    let rest = held-run d subject w uses next valid (rw (same) h.1) in
    let step =
      subst
        (λ x.
          held x d (get subject next.store)
          ≡ held x d (get subject l.store) + (if counts subject d u then u.amount else 0))
        h.0 (held-record_usage d subject u l valid) in
    omega (arith, rest, step)

run_settings :
    (uses : List Use) (l : MeteringLedger)
    → ((run uses l).window_ms ≡ l.window_ms) × ((run uses l).quota ≡ l.quota)
run_settings [] l = (refl, refl)
run_settings (u ∷ uses) l =
    let next = (record_usage u.now u.subject u.dimension u.amount u.is_public l).0 in
    let later = run_settings uses next in
    let kept = kept_settings u l in (later.0 ∙ kept.0, later.1 ∙ kept.1)

held_nothing : (w : ℕ) (d : MeteredDimension) (subject : JsString) → held w d (get subject []) ≡ 0
unfolding held get
held_nothing w d subject = refl

-- The window that the ledger uses after a history of uses within it.
abbrev window_after : MeteringLedger → List Use → ℕ → JsString → MeteringWindow
window_after l uses now subject =
    window_for now (run uses l).window_ms (get subject (run uses l).store)

counter-window_after :
    (l : MeteringLedger) (uses : List Use) (now : ℕ) (subject : JsString) (d : MeteredDimension)
    → is_subject subject ≡ true
    → l.store ≡ []
    → All (λ u. u.now / l.window_ms ≡ now / l.window_ms) uses
    → counter d (window_after l uses now subject).counters ≡ total subject d uses
counter-window_after l uses now subject d valid empty h =
    let final = run uses l in
    (counter-window_for d now final.window_ms (get subject final.store)).0
    ∙ rw ((run_settings uses l).0) (
        held-run d subject (now / l.window_ms) uses l valid h
        ∙ rw (empty) (omega (arith, held_nothing (now / l.window_ms) d subject)))

-- Of a ledger with an empty store, after any history of uses in one window, the usage of a valid
-- subject in that window counts, in each dimension, exactly what public routes used for it; uses of
-- other subjects and of local routes count for nothing.
pub usage-run :
    (l : MeteringLedger) (uses : List Use) (now : ℕ) (subject : JsString)
    → is_subject subject ≡ true
    → l.store ≡ []
    → All (λ u. u.now / l.window_ms ≡ now / l.window_ms) uses
    → (r : MeteringRecord) × (usage now subject (run uses l) ≡ ok r)
      × ((d : MeteredDimension) → counter d r.window.counters ≡ total subject d uses)
unfolding usage finalize
usage-run l uses now subject valid empty h = (
  finalize (run uses l).quota now subject (window_after l uses now subject),
  rw (valid) refl,
  λ d. counter-window_after l uses now subject d valid empty h,
)

over_none :
    (quota counters : Counters) (ds : List MeteredDimension)
    → (filter (is_over quota counters) ds ≡ []) ↔ All (λ d. counter d counters ≤ counter d quota) ds
over_none quota counters [] = ((λ e. tt), λ h. refl)
over_none quota counters (d ∷ ds) = (
  λ e. ground (arith, over_none quota counters ds),
  λ h. ground (arith, over_none quota counters ds),
)

every_dimension :
    (P : MeteredDimension → Type 0) → All P metered_dimensions → (d : MeteredDimension) → P d
every_dimension P h route_minutes = h.0
every_dimension P h active_public_rooms = h.1.0
every_dimension P h participant_joins = h.1.1.0
every_dimension P h relay_requests = h.1.1.1.0
every_dimension P h bandwidth_bytes = h.1.1.1.1.0

admit-finalize :
    (quota : Counters) (now : ℕ) (subject : JsString) (window : MeteringWindow)
    → (admit_usage (ok (finalize quota now subject window)) ≡ ok tt)
      ↔ ((d : MeteredDimension) → counter d window.counters ≤ counter d quota)
unfolding admit_usage admit_record finalize
admit-finalize quota now subject window = (
  λ e.
      every_dimension (λ d. counter d window.counters ≤ counter d quota)
        ((over_none quota window.counters metered_dimensions).0
          (admitted (filter (is_over quota window.counters) metered_dimensions) e)),
  λ h.
      rw
        ((over_none quota window.counters metered_dimensions).1 (
          h route_minutes,
          (
            h active_public_rooms,
            (h participant_joins, (h relay_requests, (h bandwidth_bytes, tt))),
          ),
        ))
        refl,
)
  where
    admitted :
        (reasons : List MeteredDimension)
        → ◌≡◌ {A = Outcome MeteringError (Unit {0})}
            (if is_nonempty reasons then throw (quota_exceeded reasons) else ok tt)
            (ok tt)
        → reasons ≡ []
    admitted [] e = refl
    admitted (d ∷ ds) e = absurd (cc e)

-- Of a ledger with an empty store, after any history of uses in one window, a public forward of a
-- valid subject in that window is admitted exactly when in no dimension public routes used more for
-- it than its quota.
pub admitted_iff :
    (l : MeteringLedger) (uses : List Use) (now : ℕ) (subject : JsString)
    → is_subject subject ≡ true
    → l.store ≡ []
    → All (λ u. u.now / l.window_ms ≡ now / l.window_ms) uses
    → (assert_within_quota now subject true (run uses l) ≡ ok tt)
      ↔ ((d : MeteredDimension) → total subject d uses ≤ counter d l.quota)
unfolding assert_within_quota usage
admitted_iff l uses now subject valid empty h =
    let window = window_after l uses now subject in
    let within = admit-finalize (run uses l).quota now subject window in
    let used = λ (d : MeteredDimension). counter-window_after l uses now subject d valid empty h in
    let quota = λ (d : MeteredDimension). ap (counter d) (run_settings uses l).1 in
    rw (valid) (
      λ e d. omega (arith, within.0 e d, used d, quota d),
      λ k. within.1 (λ d. omega (arith, k d, used d, quota d)),
    )
