-- ===== src/Platform/Metering.antt =====
-- src/platform/metering.ts: the ledger of what public routes use. The store is a map from subjects
-- to records, and each `update` of it is one transition; amounts are natural numbers, `undefined`
-- options are those of a public route.
pub mod Accounting
mod Tests
use agentgather.Common.{
  ℕ, ◌+◌, ◌*◌, ◌/◌, Bool, true, false, not, ◌&&◌, ◌||◌, Option, none, some, List, [], ◌∷◌, JsString,
  JsMap, js, get, set, str_eq, Outcome, ok, throw, ltb, leb, ◌==◌, if◌then◌else◌, filter, every,
  length,
}

pub data MeteredDimension : Type 0 where
  route_minutes active_public_rooms participant_joins relay_requests bandwidth_bytes :
      MeteredDimension

abbrev pub metered_dimensions : List MeteredDimension
metered_dimensions =
    route_minutes ∷ active_public_rooms ∷ participant_joins ∷ relay_requests ∷ bandwidth_bytes ∷ []

pub record Counters : Type 0 where
  pub minutes : ℕ
  pub rooms : ℕ
  pub joins : ℕ
  pub requests : ℕ
  pub bytes : ℕ

-- `counters[dimension]`.
unfoldable pub counter : MeteredDimension → Counters → ℕ
counter route_minutes c = c.minutes
counter active_public_rooms c = c.rooms
counter participant_joins c = c.joins
counter relay_requests c = c.requests
counter bandwidth_bytes c = c.bytes

-- `counters[dimension] += amount`.
unfoldable pub add_to : MeteredDimension → ℕ → Counters → Counters
add_to route_minutes n c = record c { minutes = c.minutes + n }
add_to active_public_rooms n c = record c { rooms = c.rooms + n }
add_to participant_joins n c = record c { joins = c.joins + n }
add_to relay_requests n c = record c { requests = c.requests + n }
add_to bandwidth_bytes n c = record c { bytes = c.bytes + n }

abbrev pub zero_counters : Counters
zero_counters = record { minutes = 0; rooms = 0; joins = 0; requests = 0; bytes = 0 }

pub record MeteringWindow : Type 0 where
  pub window_id : ℕ
  pub started_at : ℕ
  pub counters : Counters

pub record MeteringRecord : Type 0 where
  pub subject : JsString
  pub window : MeteringWindow
  pub exceeded : Bool
  pub exceeded_reasons : List MeteredDimension
  pub updated_at : ℕ

pub record MeteringLedger : Type 0 where
  pub quota : Counters
  pub window_ms : ℕ
  pub store : JsMap MeteringRecord

pub data MeteringError : Type 0 where
  bad_subject : MeteringError
  quota_exceeded : List MeteredDimension → MeteringError

abbrev default_free_quota : Counters
default_free_quota = record {
  minutes = 6000;
  rooms = 100;
  joins = 10000;
  requests = 1000000;
  bytes = 50 * 1024 * 1024 * 1024;
}

abbrev day_ms : ℕ
day_ms = 24 * 60 * 60000

-- `Partial<FreeQuota>`.
pub record PartialQuota : Type 0 where
  pub minutes : Option ℕ
  pub rooms : Option ℕ
  pub joins : Option ℕ
  pub requests : Option ℕ
  pub bytes : Option ℕ

abbrev or_number : Option ℕ → ℕ → ℕ
or_number none default = default
or_number (some n) default = n

-- `{ ...DEFAULT_FREE_QUOTA, ...quota }`.
abbrev quota_with_defaults : Option PartialQuota → Counters
quota_with_defaults none = default_free_quota
quota_with_defaults (some q) = record {
  minutes = or_number q.minutes default_free_quota.minutes;
  rooms = or_number q.rooms default_free_quota.rooms;
  joins = or_number q.joins default_free_quota.joins;
  requests = or_number q.requests default_free_quota.requests;
  bytes = or_number q.bytes default_free_quota.bytes;
}

abbrev pub new_ledger : Option PartialQuota → Option ℕ → MeteringLedger
new_ledger quota window_ms = record {
  quota = quota_with_defaults quota;
  window_ms = elim window_ms [ none ↦ day_ms | some ms ↦ ms ];
  store = [];
}

abbrev is_subject_char : ℕ → Bool
is_subject_char c =
    (leb b'a' c && leb c b'z')
    || (leb b'A' c && leb c b'Z')
    || (leb b'0' c && leb c b'9')
    || c == b'_'
    || c == b'-'

-- SUBJECT_PATTERN, /^[a-zA-Z0-9_-]{1,128}$/.
unfoldable pub is_subject : JsString → Bool
is_subject s = ltb 0 (length s) && leb (length s) 128 && every is_subject_char s

fresh_window : ℕ → ℕ → MeteringWindow
fresh_window now window_id = record {
  window_id = window_id;
  started_at = now;
  counters = zero_counters;
}

unfoldable pub window_for : ℕ → ℕ → Option MeteringRecord → MeteringWindow
unfolding fresh_window
window_for now window_ms none = fresh_window now (now / window_ms)
window_for now window_ms (some existing) =
    if existing.window.window_id == now / window_ms
    then existing.window
    else fresh_window now (now / window_ms)

abbrev is_over : Counters → Counters → MeteredDimension → Bool
is_over quota counters d = ltb (counter d quota) (counter d counters)

abbrev is_nonempty : List MeteredDimension → Bool
is_nonempty [] = false
is_nonempty (d ∷ ds) = true

unfoldable pub finalize : Counters → ℕ → JsString → MeteringWindow → MeteringRecord
unfolding counter
finalize quota now subject window =
    let reasons = filter (is_over quota window.counters) metered_dimensions in
    record {
      subject = subject;
      window = window;
      exceeded = is_nonempty reasons;
      exceeded_reasons = reasons;
      updated_at = now;
    }

-- The mutator that `record` gives to the store.
unfoldable pub updated : MeteringLedger → ℕ → JsString → MeteredDimension → ℕ → MeteringRecord
unfolding finalize window_for add_to
updated l now subject d amount =
    let window = window_for now l.window_ms (get subject l.store) in
    finalize l.quota now subject (record window { counters = add_to d amount window.counters })

unfoldable pub record_usage :
    ℕ
    → JsString
    → MeteredDimension
    → ℕ
    → Bool
    → MeteringLedger
    → MeteringLedger × Outcome MeteringError (Option MeteringRecord)
unfolding updated is_subject
record_usage now subject d amount is_public l =
    if not is_public
    then (l, ok none)
    else if not (is_subject subject)
    then (l, throw bad_subject)
    else (
      record l { store = set subject (updated l now subject d amount) l.store },
      ok (some (updated l now subject d amount)),
    )

unfoldable pub usage : ℕ → JsString → MeteringLedger → Outcome MeteringError MeteringRecord
unfolding finalize window_for is_subject
usage now subject l =
    if is_subject subject
    then ok (finalize l.quota now subject (window_for now l.window_ms (get subject l.store)))
    else throw bad_subject

admit_record : MeteringRecord → Outcome MeteringError (Unit {0})
admit_record r = if r.exceeded then throw (quota_exceeded r.exceeded_reasons) else ok tt

admit_usage : Outcome MeteringError MeteringRecord → Outcome MeteringError (Unit {0})
unfolding admit_record
admit_usage (throw e) = throw e
admit_usage (ok r) = admit_record r

-- `check` and the throw of `assertWithinQuota`.
unfoldable pub assert_within_quota :
    ℕ → JsString → Bool → MeteringLedger → Outcome MeteringError (Unit {0})
unfolding admit_usage usage
assert_within_quota now subject is_public l =
    if not is_public then ok tt else admit_usage (usage now subject l)

-- The hooks that `createBrokerMeter` gives to the broker, for subjects that are slugs.
unfoldable pub on_public_route_registered : ℕ → JsString → MeteringLedger → MeteringLedger
unfolding record_usage
on_public_route_registered now slug l = (record_usage now slug active_public_rooms 1 true l).0

-- `Math.round(durationMs / 60_000)`.
unfoldable pub on_public_route_closed : ℕ → JsString → ℕ → MeteringLedger → MeteringLedger
unfolding record_usage
on_public_route_closed now slug duration_ms l =
    (record_usage now slug route_minutes ((duration_ms + 30000) / 60000) true l).0

starts_with : JsString → JsString → Bool
starts_with [] s = true
starts_with (c ∷ p) [] = false
starts_with (c ∷ p) (d ∷ s) = c == d && starts_with p s

is_join_path : JsString → Bool
unfolding starts_with
is_join_path forward_path =
    str_eq forward_path (js "/join") || starts_with (js "/join?") forward_path

unfoldable pub on_public_forward : ℕ → JsString → JsString → ℕ → ℕ → MeteringLedger → MeteringLedger
unfolding record_usage is_join_path
on_public_forward now slug forward_path bytes_in bytes_out l =
    let counted = (record_usage now slug relay_requests 1 true l).0 in
    let weighed = (record_usage now slug bandwidth_bytes (bytes_in + bytes_out) true counted).0 in
    if is_join_path forward_path
    then (record_usage now slug participant_joins 1 true weighed).0
    else weighed
