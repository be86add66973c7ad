-- ===== src/Tunnel/Headers.antt =====
-- src/tunnel/protocol.ts: headers that carry credentials, and those that go back to the browser.
-- Names are ASCII, as HTTP has them; `toLowerCase` is that of ASCII.
pub mod Redaction
mod Tests
use agentgather.Common.{
  ℕ, ◌+◌, Bool, true, false, ◌&&◌, List, [], ◌∷◌, map, JsString, JsMap, js, set, str_eq, leb,
  if◌then◌else◌, any,
}

abbrev pub lower_char : ℕ → ℕ
lower_char c = if leb b'A' c && leb c b'Z' then c + 32 else c

abbrev pub to_lower_case : JsString → JsString
to_lower_case s = map lower_char s

abbrev pub sensitive_headers : List JsString
sensitive_headers =
    js "authorization" ∷ js "cookie" ∷ js "set-cookie" ∷ js "proxy-authorization" ∷ []

abbrev forwarded_response_headers : List JsString
forwarded_response_headers =
    js "content-type"
    ∷ js "content-security-policy"
    ∷ js "x-content-type-options"
    ∷ js "referrer-policy"
    ∷ []

unfoldable pub is_sensitive : JsString → Bool
is_sensitive name = any (str_eq (to_lower_case name)) sensitive_headers

-- The loop of `forwardViaRelay` in src/tunnel/broker.ts, from the headers `kept`.
unfoldable pub forwarded : JsMap JsString → JsMap JsString → JsMap JsString
forwarded kept [] = kept
forwarded kept ((name, value) ∷ headers) =
    forwarded
      (if any (str_eq (to_lower_case name)) forwarded_response_headers
        then set (to_lower_case name) value kept
        else kept)
      headers

-- The loop of `redactHeaders`, from the headers `safe`.
unfoldable pub redact : JsMap JsString → JsMap JsString → JsMap JsString
redact safe [] = safe
redact safe ((name, value) ∷ headers) =
    redact (if is_sensitive name then safe else set name value safe) headers

unfoldable pub redact_headers : JsMap JsString → JsMap JsString
unfolding redact
redact_headers headers = redact [] headers
