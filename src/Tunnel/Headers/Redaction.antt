-- ===== src/Tunnel/Headers/Redaction.antt =====
-- What `redactHeaders` of src/tunnel/protocol.ts leaves of a header map.
use agentgather.Common.{
  ℕ, ◌+◌, ◌≤◌, ◌⊎◌, inl, inr, refl, ◌∙◌, true, false, js, str_eq, Bool-cases, Bool, ltb, ◌||◌, ◌&&◌,
  ◌≡◌, Option, none, some, [], ◌∷◌, arith, JsString, JsMap, get, set, get-set, Distinct, str_eq_iff,
  if◌then◌else◌,
}
use agentgather.Tunnel.Headers.{lower_char, to_lower_case, is_sensitive, redact, redact_headers}

abbrev or_else : Option JsString → Option JsString → Option JsString
or_else none b = b
or_else (some a) b = some a

get-redact :
    (k : JsString) (safe headers : JsMap JsString)
    → Distinct headers
    → get k (redact safe headers)
      ≡ (if is_sensitive k then get k safe else or_else (get k headers) (get k safe))
unfolding redact get
get-redact k safe [] d = ground arith
get-redact k safe ((name, value) ∷ headers) d = ground (
  arith,
  get-redact k safe headers d.1,
  get-redact k (set name value safe) headers d.1,
  get-set name k value safe,
  str_eq_iff name k,
  d.0,
)

get-filtered :
    (k : JsString) (headers : JsMap JsString)
    → Distinct headers
    → get k (redact_headers headers) ≡ (if is_sensitive k then none else get k headers)
unfolding redact_headers get
get-filtered k headers d = ground (arith, get-redact k [] headers d)

-- The letter `c` is `d`, or the capital of the small letter `d`.
abbrev IsCase : ℕ → ℕ → Type 0
IsCase c d = (c ≡ d) ⊎ ((b'a' ≤ d) × (d ≤ b'z') × (c + 32 ≡ d))

-- A spelling of a name, each of its letters as it stands or as a capital.
abbrev pub IsSpelling : JsString → JsString → Type 0
IsSpelling [] [] = Unit {0}
IsSpelling (c ∷ k) (d ∷ name) = IsCase c d × IsSpelling k name
IsSpelling [] (d ∷ name) = ⊥
IsSpelling (c ∷ k) [] = ⊥

-- A name that carries a credential, in any case.
pub data IsCredential (k : JsString) : Type 0 where
  authorization : IsSpelling k (js "authorization") → IsCredential k
  proxy_authorization : IsSpelling k (js "proxy-authorization") → IsCredential k
  cookie : IsSpelling k (js "cookie") → IsCredential k
  set_cookie : IsSpelling k (js "set-cookie") → IsCredential k

-- No capitals.
abbrev is_lower : JsString → Bool
is_lower [] = true
is_lower (d ∷ name) = (ltb d b'A' || ltb b'Z' d) && is_lower name

cons_eq : {c d : ℕ} {k name : JsString} → c ≡ d → k ≡ name → ◌≡◌ {A = JsString} (c ∷ k) (d ∷ name)
cons_eq h t = cc

cons_head : {c d : ℕ} {k name : JsString} → ◌≡◌ {A = JsString} (c ∷ k) (d ∷ name) → c ≡ d
cons_head e = cc

cons_tail : {c d : ℕ} {k name : JsString} → ◌≡◌ {A = JsString} (c ∷ k) (d ∷ name) → k ≡ name
cons_tail e = cc

IsCase-lower : (c d : ℕ) → (ltb d b'A' || ltb b'Z' d) ≡ true → IsCase c d → lower_char c ≡ d
IsCase-lower c d l (inl e) = ground arith
IsCase-lower c d l (inr h) = ground arith

lower-IsCase : (c d : ℕ) → lower_char c ≡ d → IsCase c d
lower-IsCase c d e = ground arith

both_true : (a b : Bool) → (a && b) ≡ true → (a ≡ true) × (b ≡ true)
both_true true b e = (refl, e)
both_true false b e = absurd (cc e)

IsSpelling-lower :
    (k name : JsString) → is_lower name ≡ true → IsSpelling k name → to_lower_case k ≡ name
IsSpelling-lower [] [] l h = refl
IsSpelling-lower (c ∷ k) (d ∷ name) l h =
    let parts = both_true (ltb d b'A' || ltb b'Z' d) (is_lower name) l in
    cons_eq (IsCase-lower c d parts.0 h.0) (IsSpelling-lower k name parts.1 h.1)
IsSpelling-lower [] (d ∷ name) l h = absurd h
IsSpelling-lower (c ∷ k) [] l h = absurd h

lower-IsSpelling : (k name : JsString) → to_lower_case k ≡ name → IsSpelling k name
lower-IsSpelling [] [] e = tt
lower-IsSpelling (c ∷ k) (d ∷ name) e =
    (lower-IsCase c d (cons_head e), lower-IsSpelling k name (cons_tail e))
lower-IsSpelling [] (d ∷ name) e = absurd (cc e)
lower-IsSpelling (c ∷ k) [] e = absurd (cc e)

spelled :
    (k name : JsString)
    → is_lower name ≡ true
    → IsSpelling k name
    → str_eq (to_lower_case k) name ≡ true
spelled k name l h = (str_eq_iff (to_lower_case k) name).1 (IsSpelling-lower k name l h)

one_of_four :
    (a b c d : Bool)
    → (a ≡ true) ⊎ (b ≡ true) ⊎ (c ≡ true) ⊎ (d ≡ true)
    → (a || (b || (c || (d || false)))) ≡ true
one_of_four a b c d (inl e) = ground arith
one_of_four a b c d (inr (inl e)) = ground arith
one_of_four a b c d (inr (inr (inl e))) = ground arith
one_of_four a b c d (inr (inr (inr e))) = ground arith

which_of_four :
    (a b c d : Bool)
    → (a || (b || (c || (d || false)))) ≡ true
    → (a ≡ true) ⊎ (b ≡ true) ⊎ (c ≡ true) ⊎ (d ≡ true)
which_of_four true b c d e = inl refl
which_of_four false true c d e = inr (inl refl)
which_of_four false false true d e = inr (inr (inl refl))
which_of_four false false false true e = inr (inr (inr refl))
which_of_four false false false false e = absurd (cc e)

module _ (k : JsString) where
  abbrev is : JsString → Bool
  is name = str_eq (to_lower_case k) name

  abbrev Sensitive : Type 0
  Sensitive =
      (is (js "authorization") ≡ true)
      ⊎ (is (js "cookie") ≡ true)
      ⊎ (is (js "set-cookie") ≡ true)
      ⊎ (is (js "proxy-authorization") ≡ true)

  named : IsCredential k → Sensitive
  named (authorization h) = inl (spelled k (js "authorization") refl h)
  named (cookie h) = inr (inl (spelled k (js "cookie") refl h))
  named (set_cookie h) = inr (inr (inl (spelled k (js "set-cookie") refl h)))
  named (proxy_authorization h) = inr (inr (inr (spelled k (js "proxy-authorization") refl h)))

  spelling : (name : JsString) → is name ≡ true → IsSpelling k name
  spelling name e = lower-IsSpelling k name ((str_eq_iff (to_lower_case k) name).0 e)

  credential : Sensitive → IsCredential k
  credential (inl e) = authorization (spelling (js "authorization") e)
  credential (inr (inl e)) = cookie (spelling (js "cookie") e)
  credential (inr (inr (inl e))) = set_cookie (spelling (js "set-cookie") e)
  credential (inr (inr (inr e))) = proxy_authorization (spelling (js "proxy-authorization") e)

  IsCredential-sensitive : IsCredential k → is_sensitive k ≡ true
  unfolding is_sensitive
  IsCredential-sensitive h =
      one_of_four (is (js "authorization")) (is (js "cookie")) (is (js "set-cookie"))
        (is (js "proxy-authorization")) (named h)

  sensitive-IsCredential : is_sensitive k ≡ true → IsCredential k
  unfolding is_sensitive
  sensitive-IsCredential e = credential (
      which_of_four (is (js "authorization")) (is (js "cookie")) (is (js "set-cookie"))
        (is (js "proxy-authorization")) e)

insensitive : (k : JsString) → ¬ IsCredential k → is_sensitive k ≡ false
insensitive k n = elim (Bool-cases (is_sensitive k)) [
  | inl secret ↦ absurd (n (sensitive-IsCredential k secret))
  | inr plain ↦ plain
]

-- Redaction drops every header whose name is that of a credential, which are authorization,
-- proxy-authorization, cookie and set-cookie, each letter small or a capital; and it keeps every
-- other header with its value, for a map in which no name stands twice.
pub get-redact_headers :
    (k : JsString) (headers : JsMap JsString)
    → Distinct headers
    → (IsCredential k → get k (redact_headers headers) ≡ none)
      × (¬ IsCredential k → get k (redact_headers headers) ≡ get k headers)
get-redact_headers k headers d = (
  λ h. get-filtered k headers d ∙ rw (IsCredential-sensitive k h) refl,
  λ n. get-filtered k headers d ∙ rw (insensitive k n) refl,
)
