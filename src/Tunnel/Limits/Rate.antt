-- ===== src/Tunnel/Limits/Rate.antt =====
-- The rate windows of src/tunnel/limits.ts: how many requests a key gets through.
use Prim.Native.Nat.{min}
use agentgather.Common.{
  ℕ, suc, ◌+◌, ◌<◌, ◌≡◌, refl, Bool, true, false, ◌&&◌, Option, none, some, List, [], ◌∷◌, arith,
  max, length, All, JsString, JsMap, get, get-set, str_eq, str_eq_iff, str_eq_refl, Outcome, ok,
  throw, if◌then◌else◌,
}
use agentgather.Tunnel.Limits.{RateWindow, rate_window_ms, admit_window, admit_rate}

abbrev is_ok : {E A : Type 0} → Outcome E A → Bool
is_ok (ok a) = true
is_ok (throw e) = false

-- The requests of `k` that a sequence of `admitRate` calls lets through.
pub admissions : ℕ → JsString → List (ℕ × JsString) → JsMap RateWindow → ℕ
admissions per_minute k [] windows = 0
admissions per_minute k ((now, key) ∷ calls) windows =
    let (windows', r) = admit_rate now key per_minute windows in
    (if str_eq key k && is_ok r then 1 else 0) + admissions per_minute k calls windows'

-- The times at which `k` calls.
abbrev pub times_of : JsString → List (ℕ × JsString) → List ℕ
times_of k [] = []
times_of k ((now, key) ∷ calls) = if str_eq key k then now ∷ times_of k calls else times_of k calls

-- The same on the key's own window.
window_admissions : ℕ → List ℕ → Option RateWindow → ℕ
window_admissions per_minute [] w = 0
window_admissions per_minute (now ∷ times) w =
    let (w', admitted) = admit_window per_minute now w in
    (if admitted then 1 else 0) + window_admissions per_minute times (some w')

get-admit_rate :
    (per_minute now : ℕ) (key k : JsString) (windows : JsMap RateWindow)
    → get k (admit_rate now key per_minute windows).0 ≡ (
        if str_eq key k
        then some (admit_window per_minute now (get k windows)).0
        else get k windows)
unfolding admit_rate
get-admit_rate per_minute now key k windows = ground (
  arith,
  str_eq_iff key k,
  get-set key k (admit_window per_minute now (get key windows)).0 windows,
)

is_ok-admit_rate :
    (per_minute now : ℕ) (key : JsString) (windows : JsMap RateWindow)
    → is_ok (admit_rate now key per_minute windows).1
      ≡ (admit_window per_minute now (get key windows)).1
unfolding admit_rate
is_ok-admit_rate per_minute now key windows = ground arith

-- Other keys do not matter.
admissions-eq :
    (per_minute : ℕ) (k : JsString) (calls : List (ℕ × JsString)) (windows : JsMap RateWindow)
    → admissions per_minute k calls windows
      ≡ window_admissions per_minute (times_of k calls) (get k windows)
unfolding admissions window_admissions
admissions-eq per_minute k [] windows = refl
admissions-eq per_minute k ((now, key) ∷ calls) windows = ground (
  arith,
  str_eq_iff key k,
  get-admit_rate per_minute now key k windows,
  is_ok-admit_rate per_minute now key windows,
  admissions-eq per_minute k calls (admit_rate now key per_minute windows).0,
)

window_admissions-eq :
    (per_minute : ℕ) (times : List ℕ) (w : RateWindow)
    → All (λ t. t < w.reset_at) times
    → window_admissions per_minute times (some w) + w.count
      ≡ min (length times + w.count) (max per_minute w.count)
unfolding window_admissions admit_window
window_admissions-eq per_minute [] w h = omega arith
window_admissions-eq per_minute (now ∷ times) w h = ground (
  arith,
  window_admissions-eq per_minute times w h.1,
  window_admissions-eq per_minute times (record w { count = w.count + 1 }) h.1,
)

-- A key with no window gets through, until the window that its first request opens closes,
-- exactly as many of its requests as there are, up to `perMinute`, and the first one even if
-- `perMinute` is 0; the requests of other keys in between change nothing.
pub admissions_of_window :
    (per_minute now : ℕ) (k : JsString) (calls : List (ℕ × JsString)) (windows : JsMap RateWindow)
    → get k windows ≡ none
    → All (λ t. t < now + rate_window_ms) (times_of k calls)
    → admissions per_minute k ((now, k) ∷ calls) windows
      ≡ min (suc (length (times_of k calls))) (max per_minute 1)
unfolding window_admissions admit_window
admissions_of_window per_minute now k calls windows e h = ground (
  arith,
  admissions-eq per_minute k ((now, k) ∷ calls) windows,
  str_eq_refl k,
  window_admissions-eq per_minute (times_of k calls)
      (record { reset_at = now + rate_window_ms; count = 1 }) h,
)
