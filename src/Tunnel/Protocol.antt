-- ===== src/Tunnel/Protocol.antt =====
-- src/tunnel/protocol.ts: error codes, route metadata and the relay's envelopes. Timestamps are
-- epoch milliseconds: the ISO texts that the source stores are read back by `Date.parse`.
use Prim.Native.String.{String}
use agentgather.Common.{ℕ, Bool, Option, JsString, JsMap, Outcome, throw, ◌≡◌, refl, ap}

pub data TunnelErrorCode : Type 0 where
  invalid_registration route_slug_taken invalid_heartbeat route_not_found : TunnelErrorCode
  route_expired route_closed broker_unreachable unsupported_route : TunnelErrorCode
  route_request_limit wait_limit rate_limited request_too_large : TunnelErrorCode
  response_too_large host_unavailable unknown_request quota_exceeded : TunnelErrorCode
  internal_error : TunnelErrorCode

pub record TunnelError : Type 0 where
  pub code : TunnelErrorCode
  pub status : ℕ
  pub message : String

abbrev pub tunnel_error : TunnelErrorCode → ℕ → String → TunnelError
tunnel_error code status message = record { code = code; status = status; message = message }

-- What `body` sends of an error: its status is the response's.
pub record TunnelErrorBody : Type 0 where
  pub error : TunnelErrorCode
  pub message : String

unfoldable pub error_body : TunnelError → TunnelErrorBody
error_body e = record { error = e.code; message = e.message }

pub data RouteStatus : Type 0 where
  active expired closed : RouteStatus

pub record RouteMetadata : Type 0 where
  pub route_slug : JsString
  pub route_id : JsString
  pub host_connection_id : JsString
  pub created_at : ℕ
  pub last_seen_at : ℕ
  pub last_heartbeat_at : ℕ
  pub expires_at : ℕ
  pub status : RouteStatus
  pub host_connected : Bool

pub record HostRegistration : Type 0 where
  pub route_slug : JsString
  pub target : Option JsString

pub record ForwardedRequest : Type 0 where
  pub request_id : JsString
  pub route_slug : JsString
  pub method : JsString
  pub path : JsString
  pub headers : JsMap JsString
  pub body_base64 : Option JsString

pub record ForwardedResponse : Type 0 where
  pub status : ℕ
  pub headers : JsMap JsString
  pub body_base64 : Option JsString

-- A method of a stateful object that may throw: what it changed before the throw stays changed.
abbrev pub Action : Type 0 → Type 0 → Type 0
Action S A = S → S × Outcome TunnelError A

infixl 5 ◌>>=◌ ◌>>◌
abbrev pub ◌>>=◌ : {S A B : Type 0} → Action S A → (A → Action S B) → Action S B
◌>>=◌ m f s =
    let (s', r) = m s in elim r [ Outcome.ok a ↦ f a s' | Outcome.throw e ↦ (s', throw e) ]

abbrev pub ◌>>◌ : {S B : Type 0} → Action S (Unit {0}) → Action S B → Action S B
m >> k = m >>= λ _. k

-- A property of a sequence of two calls, from the two ways in which the first one ends.
pub bind_cases {ℓ} :
    {S A B : Type 0} (P : S × Outcome TunnelError B → Type ℓ) (m : Action S A) (f : A → Action S B)
    (s : S)
    → ((e : TunnelError) → (m s).1 ≡ throw e → P ((m s).0, throw e))
    → ((a : A) → (m s).1 ≡ Outcome.ok a → P (f a (m s).0))
    → P ((m >>= f) s)
bind_cases {S = S} {A = A} {B = B} P m f s failed passed = split (m s).0 (m s).1 failed passed
  where
    split :
        (s' : S) (r : Outcome TunnelError A)
        → ((e : TunnelError) → r ≡ throw e → P (s', throw e))
        → ((a : A) → r ≡ Outcome.ok a → P (f a s'))
        → P (elim r [ Outcome.ok a ↦ f a s' | Outcome.throw e ↦ (s', throw e) ])
    split s' (Outcome.ok a) failed passed = passed a refl
    split s' (Outcome.throw e) failed passed = failed e refl

module _ {S A B : Type 0} (m : Action S A) (f : A → Action S B) (s s' : S) where
  abbrev continue : S × Outcome TunnelError A → S × Outcome TunnelError B
  continue p = elim p.1 [ Outcome.ok a ↦ f a p.0 | Outcome.throw e ↦ (p.0, throw e) ]

  pub bind_ok : (a : A) → m s ≡ (s', Outcome.ok a) → (m >>= f) s ≡ f a s'
  bind_ok a e = ap continue e

  pub bind_throw : (e : TunnelError) → m s ≡ (s', throw e) → (m >>= f) s ≡ (s', throw e)
  bind_throw e h = ap continue h
