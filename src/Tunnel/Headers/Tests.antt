-- ===== src/Tunnel/Headers/Tests.antt =====
-- The theorem on `redactHeaders` of src/tunnel/protocol.ts at a concrete header map.
use agentgather.Common.{
  ℕ, ◌+◌, ◌≤◌, ◌⊎◌, inl, inr, arith, ◌≡◌, refl, none, [], ◌∷◌, JsString, JsMap, js, get, Distinct,
  str_eq,
}
use agentgather.Tunnel.Headers.{redact_headers}
use agentgather.Tunnel.Headers.Redaction.{
  IsSpelling, IsCredential, authorization, get-redact_headers,
}

abbrev headers : JsMap JsString
headers = (js "Accept", js "*/*") ∷ (js "Authorization", js "Bearer t") ∷ []

headers-Distinct : Distinct headers
unfolding get str_eq
headers-Distinct = (refl, (refl, tt))

get-redact_headers_example :
    (IsCredential (js "Authorization") → get (js "Authorization") (redact_headers headers) ≡ none)
    × (¬ IsCredential (js "Authorization")
        → get (js "Authorization") (redact_headers headers) ≡ get (js "Authorization") headers)
get-redact_headers_example = get-redact_headers (js "Authorization") headers headers-Distinct

-- The name is one of the credentials', so that the header is dropped.
authorization_dropped : get (js "Authorization") (redact_headers headers) ≡ none
authorization_dropped =
    (get-redact_headers (js "Authorization") headers headers-Distinct).0 (authorization capital)
  where
    same : (c : ℕ) → (c ≡ c) ⊎ ((b'a' ≤ c) × (c ≤ b'z') × (c + 32 ≡ c))
    same c = inl refl

    capital : IsSpelling (js "Authorization") (js "authorization")
    capital = (
      inr (omega arith, omega arith, refl),
      (
        same b'u',
        (
          same b't',
          (
            same b'h',
            (
              same b'o',
              (
                same b'r',
                (
                  same b'i',
                  (same b'z', (same b'a', (same b't', (same b'i', (same b'o', (same b'n', tt)))))),
                ),
              ),
            ),
          ),
        ),
      ),
    )
