-- ===== src/Tunnel/Limits/Runs.antt =====
-- Histories of the guards of src/tunnel/limits.ts: requests that enter and are released in any
-- order.
use agentgather.Common.{
  ℕ, ◌≡◌, ◌≤◌, ◌∙◌, count, refl, false, none, List, [], ◌∷◌, ◌++◌, arith, JsString, get, ok, throw,
  Outcome,
}
use agentgather.Tunnel.Protocol.{TunnelError}
use agentgather.Tunnel.Limits.{
  BrokerGuards, BrokerLimits, RequestGuardInput, Handle, new_guards, enter, release,
}
use agentgather.Tunnel.Limits.Accounting.{
  Accounts, AccountsAfter, tally, on_route, waits_on_route, enter-Accounts, release-Accounts,
}

-- The guards, with the handles that were given out and not released.
pub record Book : Type 0 where
  pub guards : BrokerGuards
  pub given : List Handle

abbrev pub book_after : List Handle → BrokerGuards × Outcome TunnelError Handle → Book
book_after hs (g, ok h) = record { guards = g; given = h ∷ hs }
book_after hs (g, throw e) = record { guards = g; given = hs }

pub data Step : Book → Book → Type 0 where
  enters :
      (b : Book) (now : ℕ) (input : RequestGuardInput)
      → Step b (book_after b.given (enter now input b.guards))
  releases :
      (b : Book) (xs : List Handle) (h : Handle) (ys : List Handle)
      → b.given ≡ xs ++ h ∷ ys
      → h.released ≡ false
      → Step b (record { guards = (release b.guards h).0; given = xs ++ ys })

pub data Reach (limits : BrokerLimits) : Book → Type 0 where
  start : (b : Book) → b ≡ record { guards = new_guards limits; given = [] } → Reach limits b
  next : {b c : Book} → Reach limits b → Step b c → Reach limits c

book_after-Accounts :
    (hs : List Handle) (r : BrokerGuards × Outcome TunnelError Handle)
    → AccountsAfter hs r
    → Accounts (book_after hs r).guards (book_after hs r).given
book_after-Accounts hs (g, ok h) a = a
book_after-Accounts hs (g, throw e) a = a

Step-Accounts : {b c : Book} → Step b c → Accounts b.guards b.given → Accounts c.guards c.given
Step-Accounts (enters b now input) a =
    book_after-Accounts b.given (enter now input b.guards)
      (enter-Accounts now input b.guards b.given a)
Step-Accounts (releases b xs h ys e fresh) a =
    release-Accounts b.guards xs h ys fresh (λ slug. rw (← e) (a slug))

pub start-Accounts : (limits : BrokerLimits) → Accounts (new_guards limits) []
unfolding get
start-Accounts limits slug = (refl, omega arith, omega arith)

limits-enter :
    (now : ℕ) (input : RequestGuardInput) (g : BrokerGuards)
    → (enter now input g).0.limits ≡ g.limits
unfolding enter
limits-enter now input g = ground arith

limits-release : (g : BrokerGuards) (h : Handle) → (release g h).0.limits ≡ g.limits
unfolding release
limits-release g h = ground arith

limits-book_after :
    (hs : List Handle) (r : BrokerGuards × Outcome TunnelError Handle)
    → (book_after hs r).guards.limits ≡ r.0.limits
limits-book_after hs (g, ok h) = refl
limits-book_after hs (g, throw e) = refl

Step-limits : {b c : Book} → Step b c → c.guards.limits ≡ b.guards.limits
Step-limits (enters b now input) =
    limits-book_after b.given (enter now input b.guards) ∙ limits-enter now input b.guards
Step-limits (releases b xs h ys e fresh) = limits-release b.guards h

Reach-limits : {limits : BrokerLimits} {b : Book} → Reach limits b → b.guards.limits ≡ limits
Reach-limits (start b e) = rw e
Reach-limits (next r s) = Step-limits s ∙ Reach-limits r

Reach-Accounts : {limits : BrokerLimits} {b : Book} → Reach limits b → Accounts b.guards b.given
Reach-Accounts {limits} (start b e) = rw e (start-Accounts limits)
Reach-Accounts (next r s) = Step-Accounts s (Reach-Accounts r)

-- After any history of entries and releases from fresh guards, the in-flight entry of a route is
-- the tally of the handles still held on it, and these are within the limits of requests and of
-- waits that the guards were made with.
pub Reach-tally :
    {limits : BrokerLimits} {b : Book} (slug : JsString)
    → Reach limits b
    → (get slug b.guards.inflight ≡ tally slug b.given)
      × (count (on_route slug) b.given ≤ limits.concurrent_requests_per_route)
      × (count (waits_on_route slug) b.given ≤ limits.concurrent_waits_per_route)
Reach-tally slug r = rw (← Reach-limits r) (Reach-Accounts r slug)

-- Once every handle of a history is released, no route has an entry left in the table.
pub drained :
    {limits : BrokerLimits} {b : Book} (slug : JsString)
    → Reach limits b
    → b.given ≡ []
    → get slug b.guards.inflight ≡ none
drained slug r e = ground (arith, Reach-Accounts r slug)

-- A handle counts once: the second call of its release changes nothing.
pub release_twice :
    (g : BrokerGuards) (h : Handle) → release (release g h).0 (release g h).1 ≡ release g h
unfolding release
release_twice g h = ground arith
