-- ===== src/Tunnel/Session/Failures.antt =====
-- What fails a session of src/tunnel/host-session.ts, and how many requests it has at once.
use agentgather.Common.{
  ℕ, ◌+◌, ◌≡◌, ◌⊎◌, ◌<◌, ◌≤◌, refl, ap, ◌∙◌, true, Option, none, some, List, [], ◌∷◌, ◌++◌, arith,
  All, All-append, inl, inr,
}
use agentgather.Tunnel.Session.{
  SessionError, is_fatal_route_error, PollLoops, HostTunnelSession, new_host_session, first_error,
  fail, Step, start, loop_ends, loop_full, loop_polls, poll_fatal, poll_fails, poll_empty,
  poll_claims, wake, handled, tick, beat_answered, beat_fails, beat_fatal, stop, Reach, made, later,
}

-- The first report.
abbrev pub first_report : List SessionError → Option SessionError
first_report [] = none
first_report (e ∷ reports) = some e

-- How often `start` was called: each call starts a run of `runPollLoop`.
abbrev pub starts : PollLoops → ℕ
starts l = l.at_top + l.polling + l.idling + l.ended

-- What holds of a session at every moment.
pub record IsSession (s : HostTunnelSession) : Type 0 where
  pub several : 2 ≤ s.concurrency
  pub bounded : s.handlers + s.loops.polling < s.concurrency + starts s.loops
  pub cause :
      s.aborted ≡ true → (s.stopped ≡ true) ⊎ ((e : SessionError) × (s.failure_error ≡ some e))
  pub first : s.failure_error ≡ first_report s.reports
  pub fatal : All (λ e. is_fatal_route_error e ≡ true) s.reports
  pub end : 0 < s.loops.ended → s.aborted ≡ true

first_error-report :
    (reports : List SessionError) (e : SessionError)
    → first_error (first_report reports) e ≡ first_report (reports ++ e ∷ [])
first_error-report [] e = refl
first_error-report (r ∷ reports) e = refl

first_error-some :
    (o : Option SessionError) (e : SessionError) → (x : SessionError) × (first_error o e ≡ some x)
first_error-some none e = (e, refl)
first_error-some (some x) e = (x, refl)

module _ (s : HostTunnelSession) (v : IsSession s) where
  -- Loops, handlers, timers and heartbeats that go on.
  moved :
      (l : PollLoops) (handlers timers beats : ℕ)
      → handlers + l.polling < s.concurrency + starts l
      → (0 < l.ended → s.aborted ≡ true)
      → IsSession
          (record s { loops = l; handlers = handlers; heartbeat_timers = timers; beats = beats })
  moved l handlers timers beats bounded end = record {
    several = v.several;
    bounded = bounded;
    cause = v.cause;
    first = v.first;
    fatal = v.fatal;
    end = end;
  }

  beaten : (beats : ℕ) → IsSession (record s { beats = beats })
  beaten beats = moved s.loops s.handlers s.heartbeat_timers beats v.bounded v.end

  failed :
      (e : SessionError) (l : PollLoops) (beats : ℕ)
      → is_fatal_route_error e ≡ true
      → s.handlers + l.polling < s.concurrency + starts l
      → IsSession (record (fail e s) { loops = l; beats = beats })
  unfolding fail
  failed e l beats fatal bounded = record {
    several = v.several;
    bounded = bounded;
    cause = λ h. inr (first_error-some s.failure_error e);
    first = ap (λ o. first_error o e) v.first ∙ first_error-report s.reports e;
    fatal = All-append (λ x. is_fatal_route_error x ≡ true) s.reports (e ∷ []) v.fatal (fatal, tt);
    end = λ h. refl;
  }

  -- One of the loops, or of the handlers, goes on from where it stands.
  module _ (n : ℕ) where
    ends :
        s.loops.at_top ≡ n + 1
        → s.aborted ≡ true
        → IsSession (record s { loops = record s.loops { at_top = n; ended = s.loops.ended + 1 } })
    ends at h =
        let b = v.bounded in
        moved (record s.loops { at_top = n; ended = s.loops.ended + 1 }) s.handlers
          s.heartbeat_timers s.beats (omega arith) (λ k. h)

    fills :
        s.loops.at_top ≡ n + 1
        → IsSession
            (record s { loops = record s.loops { at_top = n; idling = s.loops.idling + 1 } })
    fills at =
        let b = v.bounded in
        moved (record s.loops { at_top = n; idling = s.loops.idling + 1 }) s.handlers
          s.heartbeat_timers s.beats (omega arith) v.end

    polls :
        s.loops.at_top ≡ n + 1
        → s.handlers < s.concurrency
        → IsSession
            (record s { loops = record s.loops { at_top = n; polling = s.loops.polling + 1 } })
    polls at room =
        moved (record s.loops { at_top = n; polling = s.loops.polling + 1 }) s.handlers
          s.heartbeat_timers s.beats (omega arith) v.end

    breaks :
        (e : SessionError)
        → s.loops.polling ≡ n + 1
        → is_fatal_route_error e ≡ true
        → IsSession (record (fail e s) {
          loops = record s.loops { polling = n; ended = s.loops.ended + 1 };
        })
    unfolding fail
    breaks e at h =
        let b = v.bounded in
        failed e (record s.loops { polling = n; ended = s.loops.ended + 1 }) s.beats h (omega arith)

    rests :
        s.loops.polling ≡ n + 1
        → IsSession
            (record s { loops = record s.loops { polling = n; idling = s.loops.idling + 1 } })
    rests at =
        let b = v.bounded in
        moved (record s.loops { polling = n; idling = s.loops.idling + 1 }) s.handlers
          s.heartbeat_timers s.beats (omega arith) v.end

    claims :
        s.loops.polling ≡ n + 1
        → IsSession (record s {
          loops = record s.loops { polling = n; at_top = s.loops.at_top + 1 };
          handlers = s.handlers + 1;
        })
    claims at =
        let b = v.bounded in
        moved (record s.loops { polling = n; at_top = s.loops.at_top + 1 }) (s.handlers + 1)
          s.heartbeat_timers s.beats (omega arith) v.end

    wakes :
        s.loops.idling ≡ n + 1
        → IsSession
            (record s { loops = record s.loops { idling = n; at_top = s.loops.at_top + 1 } })
    wakes at =
        let b = v.bounded in
        moved (record s.loops { idling = n; at_top = s.loops.at_top + 1 }) s.handlers
          s.heartbeat_timers s.beats (omega arith) v.end

    settles : s.handlers ≡ n + 1 → IsSession (record s { handlers = n })
    settles at = let b = v.bounded in moved s.loops n s.heartbeat_timers s.beats (omega arith) v.end

  starts_loop : IsSession (record s {
    loops = record s.loops { at_top = s.loops.at_top + 1 };
    heartbeat_timers = s.heartbeat_timers + 1;
  })
  starts_loop =
      let b = v.bounded in
      moved (record s.loops { at_top = s.loops.at_top + 1 }) s.handlers (s.heartbeat_timers + 1)
        s.beats (omega arith) v.end

step-IsSession : (s t : HostTunnelSession) → Step s t → IsSession s → IsSession t
unfolding fail
step-IsSession s _ start v = starts_loop s v
step-IsSession s _ (loop_ends n at h) v = ends s v n at h
step-IsSession s _ (loop_full n at h full) v = fills s v n at
step-IsSession s _ (loop_polls n at h room) v = polls s v n at room
step-IsSession s _ (poll_fatal n e at h) v = breaks s v n e at h
step-IsSession s _ (poll_fails n e at h) v = rests s v n at
step-IsSession s _ (poll_empty n at) v = rests s v n at
step-IsSession s _ (poll_claims n at) v = claims s v n at
step-IsSession s _ (wake n at) v = wakes s v n at
step-IsSession s _ (handled n e) v = settles s v n e
step-IsSession s _ (tick h k) v = beaten s v (s.beats + 1)
step-IsSession s _ (beat_answered n e) v = beaten s v n
step-IsSession s _ (beat_fails n e h k) v = beaten s v n
step-IsSession s _ (beat_fatal n e h k) v = failed s v e s.loops n k v.bounded
step-IsSession s _ (stop h) v = record {
  several = v.several;
  bounded = v.bounded;
  cause = λ k. inl refl;
  first = v.first;
  fatal = v.fatal;
  end = λ k. refl;
}

new_host_session-IsSession : (concurrency : Option ℕ) → IsSession (new_host_session concurrency)
unfolding new_host_session
new_host_session-IsSession concurrency = record {
  several = omega arith;
  bounded = omega arith;
  cause = λ e. absurd (cc e);
  first = refl;
  fatal = tt;
  end = λ h. absurd (omega arith);
}

reach-IsSession :
    {concurrency : Option ℕ} (s : HostTunnelSession) → Reach concurrency s → IsSession s
reach-IsSession _ made = new_host_session-IsSession _
reach-IsSession _ (later {s} {t} r k) = step-IsSession s t k (reach-IsSession s r)

-- A session at every moment, whatever the broker answers, in whatever order and however often
-- `start` is called: it may have two requests or more at once; its requests that are handled and
-- its polls under way are together fewer than its `concurrency` and the number of its starts, and
-- so, if it was started once, no more than its `concurrency`; it is aborted only by `stop` or by a
-- failure that it keeps; the failure it keeps is the first one that it reports; all it reports are
-- fatal; and a poll loop of it ends only when it is aborted.
pub session_lem :
    {concurrency : Option ℕ} (s : HostTunnelSession)
    → Reach concurrency s
    → IsSession s × (starts s.loops ≤ 1 → s.handlers + s.loops.polling ≤ s.concurrency)
session_lem s r = let v = reach-IsSession s r in (v, λ once. let b = v.bounded in omega arith)
