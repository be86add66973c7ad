-- ===== src/Tunnel/Limits/Accounting.antt =====
-- The in-flight table of src/tunnel/limits.ts is the tally of the handles that are not released.
use agentgather.Common.{
  ℕ, ◌+◌, ◌≤◌, ◌≡◌, Bool, false, ◌&&◌, Option, none, some, List, [], ◌∷◌, ◌++◌, arith, count,
  count-append, JsString, JsMap, get, set, get-set, get-delete, str_eq, str_eq_iff, Outcome, ok,
  throw, ◌==◌, leb, if◌then◌else◌, Bool-cases, inl, inr,
}
use agentgather.Tunnel.Protocol.{TunnelError, bind_cases, ◌>>◌}
use agentgather.Tunnel.Limits.{
  BrokerGuards, RequestGuardInput, InFlight, Handle, counts_of, enter, bump, lower, release,
  admit_concurrent, admit_route, admit_ip, release_counts,
}

abbrev pub on_route : JsString → Handle → Bool
on_route slug h = str_eq h.input.route_slug slug

abbrev pub waits_on_route : JsString → Handle → Bool
waits_on_route slug h = str_eq h.input.route_slug slug && h.input.is_wait

-- The entry that the handles `hs` call for.
abbrev pub entry_of : ℕ → ℕ → Option InFlight
entry_of total waits = if total == 0 then none else some (record { total = total; waits = waits })

abbrev pub tally : JsString → List Handle → Option InFlight
tally slug hs = entry_of (count (on_route slug) hs) (count (waits_on_route slug) hs)

-- The handles that the guards have given out and not taken back are `hs`, and they keep the limits.
abbrev pub Accounts : BrokerGuards → List Handle → Type 0
Accounts g hs =
    (slug : JsString)
    → (get slug g.inflight ≡ tally slug hs)
      × (count (on_route slug) hs ≤ g.limits.concurrent_requests_per_route)
      × (count (waits_on_route slug) hs ≤ g.limits.concurrent_waits_per_route)

-- A request that is admitted joins the handles given out; one that is refused does not.
abbrev pub AccountsAfter : List Handle → BrokerGuards × Outcome TunnelError Handle → Type 0
AccountsAfter hs (g, ok h) = Accounts g (h ∷ hs)
AccountsAfter hs (g, throw e) = Accounts g hs

waits-le-total :
    (slug : JsString) (hs : List Handle) → count (waits_on_route slug) hs ≤ count (on_route slug) hs
waits-le-total slug [] = omega arith
waits-le-total slug (h ∷ hs) = ground (arith, waits-le-total slug hs)

admit_route-Accounts :
    (now : ℕ) (input : RequestGuardInput) (g : BrokerGuards) (hs : List Handle)
    → Accounts g hs
    → Accounts (admit_route now input g).0 hs
unfolding admit_route
admit_route-Accounts now input g hs a = a

admit_ip-Accounts :
    (now : ℕ) (input : RequestGuardInput) (g : BrokerGuards) (hs : List Handle)
    → Accounts g hs
    → Accounts (admit_ip now input g).0 hs
unfolding admit_ip
admit_ip-Accounts now input g hs a = elim (Bool-cases input.authenticated) [
  | inl known ↦ rw (known, admit_ip) a
  | inr unknown ↦ rw (unknown, admit_ip) a
]

get-bump :
    (input : RequestGuardInput) (slug : JsString) (m : JsMap InFlight) (hs : List Handle)
    → get slug m ≡ tally slug hs
    → get input.route_slug m ≡ tally input.route_slug hs
    → get slug (set input.route_slug (bump input.is_wait (counts_of (get input.route_slug m))) m)
      ≡ tally slug (record { input = input; released = false } ∷ hs)
get-bump input slug m hs a b = ground (
  arith,
  str_eq_iff input.route_slug slug,
  get-set input.route_slug slug (bump input.is_wait (counts_of (get input.route_slug m))) m,
  waits-le-total slug hs,
)

admit_concurrent-Accounts :
    (input : RequestGuardInput) (g : BrokerGuards) (hs : List Handle)
    → Accounts g hs
    → AccountsAfter hs (admit_concurrent input g)
unfolding admit_concurrent
admit_concurrent-Accounts input g hs a =
    let counts = counts_of (get input.route_slug g.inflight) in
    elim (Bool-cases (leb g.limits.concurrent_requests_per_route counts.total)) [
      | inl full ↦ rw (full, admit_concurrent) a
      | inr free ↦
          elim (Bool-cases
            (input.is_wait && leb g.limits.concurrent_waits_per_route counts.waits)) [
              | inl waiting ↦ rw (free, waiting, admit_concurrent) a
              | inr room ↦
                  rw (free, room, admit_concurrent)
                    (λ slug. (
                      get-bump input slug g.inflight hs (a slug).0 (a input.route_slug).0,
                      ground (arith, a slug, str_eq_iff input.route_slug slug),
                      ground
                          (arith, a slug, str_eq_iff input.route_slug slug, waits-le-total slug hs),
                    ))
            ]
    ]

-- Whatever `enter` answers, the in-flight table is the tally of the handles given out, and no
-- route has more requests or waits in flight than its limits, when it was so before.
pub enter-Accounts :
    (now : ℕ) (input : RequestGuardInput) (g : BrokerGuards) (hs : List Handle)
    → Accounts g hs
    → AccountsAfter hs (enter now input g)
unfolding enter
enter-Accounts now input g hs a =
    bind_cases (AccountsAfter hs) (admit_route now input)
      (λ _. admit_ip now input >> admit_concurrent input) g
      (λ e _. admit_route-Accounts now input g hs a)
      (λ _ _.
        bind_cases (AccountsAfter hs) (admit_ip now input) (λ _. admit_concurrent input)
          (admit_route now input g).0
          (λ e _. admit_ip-Accounts now input (admit_route now input g).0 hs a)
          (λ _ _.
            admit_concurrent-Accounts input (admit_ip now input (admit_route now input g).0).0 hs
              (admit_ip-Accounts now input (admit_route now input g).0 hs a)))

count_middle :
    (p : Handle → Bool) (xs : List Handle) (h : Handle) (ys : List Handle)
    → count p (xs ++ h ∷ ys) ≡ (if p h then 1 else 0) + count p (xs ++ ys)
count_middle p xs h ys = omega (arith, count-append p xs (h ∷ ys), count-append p xs ys)

abbrev released_entry : Bool → Option InFlight → Option InFlight → Option InFlight
released_entry is_wait none old = old
released_entry is_wait (some c) old =
    if ((lower is_wait c).total == 0) && ((lower is_wait c).waits == 0)
    then none
    else some (lower is_wait c)

get-release_counts :
    (input : RequestGuardInput) (slug : JsString) (m : JsMap InFlight) (c : Option InFlight)
    → get slug (release_counts input m c) ≡ (
        if str_eq input.route_slug slug
        then released_entry input.is_wait c (get slug m)
        else get slug m)
unfolding release_counts
get-release_counts input slug m none = ground arith
get-release_counts input slug m (some c) = ground (
  arith,
  get-delete input.route_slug slug m,
  get-set input.route_slug slug (lower input.is_wait c) m,
)

-- Releasing a handle that was not released takes its request, and nothing else, off a table that
-- is the tally of the handles.
pub release-Accounts :
    (g : BrokerGuards) (xs : List Handle) (h : Handle) (ys : List Handle)
    → h.released ≡ false
    → Accounts g (xs ++ h ∷ ys)
    → Accounts (release g h).0 (xs ++ ys)
unfolding release
release-Accounts g xs h ys fresh a slug =
    let a' = a slug in
    let b' = a h.input.route_slug in
    ground (
      arith,
      str_eq_iff h.input.route_slug slug,
      get-release_counts h.input slug g.inflight (get h.input.route_slug g.inflight),
      a',
      b',
      count_middle (on_route slug) xs h ys,
      count_middle (waits_on_route slug) xs h ys,
      waits-le-total slug (xs ++ ys),
    )
