-- ===== src/Tunnel/Session/Tests.antt =====
-- Runs of the steps of src/tunnel/host-session.ts.
use agentgather.Common.{ℕ, ◌+◌, ◌≤◌, some, arith, ◌≡◌, ◌<◌, refl, none, [], ◌∷◌}
use agentgather.Tunnel.Protocol.{route_closed, route_expired}
use agentgather.Tunnel.Session.{
  SessionError, tunnel_error_of, HostTunnelSession, new_host_session, is_fatal_code,
  is_fatal_route_error, fail, start, loop_polls, poll_fatal, poll_claims, tick, beat_fatal, Reach,
  made, later,
}
use agentgather.Tunnel.Session.Failures.{starts, IsSession, session_lem}

abbrev closed : SessionError
closed = tunnel_error_of route_closed

abbrev expired : SessionError
expired = tunnel_error_of route_expired

room_for : (more n : ℕ) → n < n + more + 1
room_for more n = omega arith

-- A session that is started, claims a request, and has a poll and a heartbeat under way.
abbrev busy : HostTunnelSession
busy = record (new_host_session none) {
  loops = record { at_top = 0; polling = 1; idling = 0; ended = 0 };
  handlers = 1;
  heartbeat_timers = 1;
  beats = 1;
}

busy_run : Reach none busy
unfolding new_host_session
busy_run =
    let started = later made start in
    let polls = later started (loop_polls 0 refl refl (room_for 15 0)) in
    let claimed = later polls (poll_claims 0 refl) in
    let beats = later claimed (tick (room_for 0 0) refl) in
    later beats (loop_polls 0 refl refl (room_for 14 1))

-- Both calls fail: the loop is over, and `onError` was called twice.
abbrev broken : HostTunnelSession
broken = record (fail expired (record (fail closed busy) { beats = 0 })) {
  loops = record { at_top = 0; polling = 0; idling = 0; ended = 1 };
}

broken_run : Reach none broken
unfolding is_fatal_code is_fatal_route_error fail new_host_session
broken_run =
    let beat_broken : Reach none (record (fail closed busy) { beats = 0 }) =
      later busy_run (beat_fatal 0 closed refl refl) in
    later beat_broken (poll_fatal 0 expired refl refl)

two_reports : broken.reports ≡ closed ∷ expired ∷ []
unfolding fail new_host_session
two_reports = refl

session_example :
    IsSession broken
    × (starts broken.loops ≤ 1 → broken.handlers + broken.loops.polling ≤ broken.concurrency)
session_example = session_lem broken broken_run

-- Started twice, a session of two requests at once handles three.
abbrev crowded : HostTunnelSession
crowded = record (new_host_session (some 2)) {
  loops = record { at_top = 2; polling = 0; idling = 0; ended = 0 };
  handlers = 3;
  heartbeat_timers = 2;
}

crowded_run : Reach (some 2) crowded
unfolding new_host_session
crowded_run =
    let started = later (later made start) start in
    let first =
      later (later started (loop_polls 1 refl refl (room_for 1 0))) (poll_claims 0 refl) in
    let second = later first (loop_polls 1 refl refl (room_for 0 1)) in
    let both = later second (loop_polls 0 refl refl (room_for 0 1)) in
    later (later both (poll_claims 1 refl)) (poll_claims 0 refl)
