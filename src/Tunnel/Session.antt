-- ===== src/Tunnel/Session.antt =====
-- src/tunnel/host-session.ts: a host's session with the broker. Its poll loops, its heartbeats and
-- its handlers go on in any order, so that each thing that may happen next is a step.
pub mod Failures
mod Tests
use agentgather.Common.{
  ℕ, suc, ◌+◌, ◌-◌, ◌≡◌, ◌<◌, ◌≤◌, max, Bool, true, false, Option, none, some, List, [], ◌∷◌, ◌++◌,
}
use agentgather.Tunnel.Protocol.{TunnelErrorCode, route_closed, route_expired, route_not_found}

-- What a call of the broker may throw.
pub data SessionError : Type 0 where
  tunnel_error_of : TunnelErrorCode → SessionError
  other_error : SessionError

-- FATAL_ROUTE_CODES.
unfoldable pub is_fatal_code : TunnelErrorCode → Bool
is_fatal_code route_closed = true
is_fatal_code route_expired = true
is_fatal_code route_not_found = true
is_fatal_code _ = false

unfoldable pub is_fatal_route_error : SessionError → Bool
unfolding is_fatal_code
is_fatal_route_error (tunnel_error_of code) = is_fatal_code code
is_fatal_route_error other_error = false

-- How many runs of `runPollLoop` stand before its test, in a call of the broker and in `idle`, and
-- how many have returned. Each call of `start` adds one.
pub record PollLoops : Type 0 where
  pub at_top : ℕ
  pub polling : ℕ
  pub idling : ℕ
  pub ended : ℕ

pub record HostTunnelSession : Type 0 where
  pub concurrency : ℕ
  pub loops : PollLoops
  pub handlers : ℕ
  -- The timers that calls of `start` made; `stop` clears the last of them.
  pub heartbeat_timers : ℕ
  -- Heartbeats that were sent and not yet answered.
  pub beats : ℕ
  pub aborted : Bool
  pub stopped : Bool
  pub failure_error : Option SessionError
  -- The calls of `onError`, the first one first.
  pub reports : List SessionError

abbrev pub default_concurrency : ℕ
default_concurrency = 16

abbrev or_default : Option ℕ → ℕ
or_default none = default_concurrency
or_default (some n) = n

unfoldable pub new_host_session : Option ℕ → HostTunnelSession
new_host_session concurrency = record {
  concurrency = max 2 (or_default concurrency);
  loops = record { at_top = 0; polling = 0; idling = 0; ended = 0 };
  handlers = 0;
  heartbeat_timers = 0;
  beats = 0;
  aborted = false;
  stopped = false;
  failure_error = none;
  reports = [];
}

abbrev pub first_error : Option SessionError → SessionError → Option SessionError
first_error none e = some e
first_error (some first) e = some first

unfoldable pub fail : SessionError → HostTunnelSession → HostTunnelSession
fail e s = record s {
  failure_error = first_error s.failure_error e;
  aborted = true;
  reports = s.reports ++ e ∷ [];
}

-- `start` has no guard: a second call starts a second loop and a second timer.
pub data Step (s : HostTunnelSession) : HostTunnelSession → Type 0 where
  start : Step s (record s {
    loops = record s.loops { at_top = s.loops.at_top + 1 };
    heartbeat_timers = s.heartbeat_timers + 1;
  })
  -- The turns of `runPollLoop`.
  loop_ends :
      (n : ℕ)
      → s.loops.at_top ≡ n + 1
      → s.aborted ≡ true
      → Step s (record s { loops = record s.loops { at_top = n; ended = s.loops.ended + 1 } })
  loop_full :
      (n : ℕ)
      → s.loops.at_top ≡ n + 1
      → s.aborted ≡ false
      → s.concurrency ≤ s.handlers
      → Step s (record s { loops = record s.loops { at_top = n; idling = s.loops.idling + 1 } })
  loop_polls :
      (n : ℕ)
      → s.loops.at_top ≡ n + 1
      → s.aborted ≡ false
      → s.handlers < s.concurrency
      → Step s (record s { loops = record s.loops { at_top = n; polling = s.loops.polling + 1 } })
  poll_fatal :
      (n : ℕ) (e : SessionError)
      → s.loops.polling ≡ n + 1
      → is_fatal_route_error e ≡ true
      → Step s
          (record (fail e s) { loops = record s.loops { polling = n; ended = s.loops.ended + 1 } })
  poll_fails :
      (n : ℕ) (e : SessionError)
      → s.loops.polling ≡ n + 1
      → is_fatal_route_error e ≡ false
      → Step s (record s { loops = record s.loops { polling = n; idling = s.loops.idling + 1 } })
  poll_empty :
      (n : ℕ)
      → s.loops.polling ≡ n + 1
      → Step s (record s { loops = record s.loops { polling = n; idling = s.loops.idling + 1 } })
  poll_claims :
      (n : ℕ)
      → s.loops.polling ≡ n + 1
      → Step s (record s {
        loops = record s.loops { polling = n; at_top = s.loops.at_top + 1 };
        handlers = s.handlers + 1;
      })
  -- The time of `idle` is over, or the session was aborted.
  wake :
      (n : ℕ)
      → s.loops.idling ≡ n + 1
      → Step s (record s { loops = record s.loops { idling = n; at_top = s.loops.at_top + 1 } })
  -- `handle` swallows what its request throws.
  handled : (n : ℕ) → s.handlers ≡ n + 1 → Step s (record s { handlers = n })
  -- `beat`.
  tick : 0 < s.heartbeat_timers → s.aborted ≡ false → Step s (record s { beats = s.beats + 1 })
  beat_answered : (n : ℕ) → s.beats ≡ n + 1 → Step s (record s { beats = n })
  beat_fails :
      (n : ℕ) (e : SessionError)
      → s.beats ≡ n + 1
      → is_fatal_route_error e ≡ false
      → Step s (record s { beats = n })
  beat_fatal :
      (n : ℕ) (e : SessionError)
      → s.beats ≡ n + 1
      → is_fatal_route_error e ≡ true
      → Step s (record (fail e s) { beats = n })
  -- `stop`, up to its waits.
  stop :
      s.stopped ≡ false
      → Step s
          (record s { stopped = true; aborted = true; heartbeat_timers = s.heartbeat_timers - 1 })

pub data Reach (concurrency : Option ℕ) : HostTunnelSession → Type 0 where
  made : Reach concurrency (new_host_session concurrency)
  later : {s t : HostTunnelSession} → Reach concurrency s → Step s t → Reach concurrency t
