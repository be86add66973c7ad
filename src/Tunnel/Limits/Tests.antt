-- ===== src/Tunnel/Limits/Tests.antt =====
-- The theorems on src/tunnel/limits.ts at concrete requests.
use Prim.Native.Nat.{min}
use agentgather.Common.{
  ℕ, suc, ◌≡◌, ◌≤◌, refl, max, count, true, false, List, [], ◌∷◌, arith, length, JsString, js, get,
  str_eq,
}
use agentgather.Tunnel.Limits.{
  BrokerGuards, RequestGuardInput, Handle, broker_limits, new_guards, enter, release, admit_window,
  admit_rate, admit_route, admit_ip, admit_concurrent,
}
use agentgather.Tunnel.Limits.Rate.{admissions, times_of, admissions_of_window}
use agentgather.Tunnel.Limits.Accounting.{Accounts, on_route, waits_on_route, tally, enter-Accounts}
use agentgather.Tunnel.Limits.Runs.{
  Book, book_after, enters, releases, Reach, start, next, start-Accounts, Reach-tally,
}

abbrev room : JsString
room = js "quiet-room"

abbrev calls : List (ℕ × JsString)
calls = (10, room) ∷ (20, js "other") ∷ (30, room) ∷ []

admissions_of_window_example :
    admissions 2 room ((5, room) ∷ calls) [] ≡ min (suc (length (times_of room calls))) (max 2 1)
unfolding get str_eq
admissions_of_window_example =
    admissions_of_window 2 5 room calls [] refl (omega arith, (omega arith, tt))

abbrev wait_request : RequestGuardInput
wait_request = record {
  route_slug = room;
  client_ip = js "10.0.0.1";
  is_wait = true;
  authenticated = false;
}

abbrev fresh : BrokerGuards
fresh = new_guards broker_limits

abbrev entered : BrokerGuards
entered = (enter 5 wait_request fresh).0

abbrev handle : Handle
handle = record { input = wait_request; released = false }

entered-Accounts : Accounts entered (handle ∷ [])
unfolding enter admit_route admit_ip admit_concurrent admit_rate admit_window get str_eq
entered-Accounts = enter-Accounts 5 wait_request fresh [] (start-Accounts broker_limits)

abbrev one_held : Book
one_held = book_after [] (enter 5 wait_request fresh)

abbrev none_held : Book
none_held = record { guards = (release one_held.guards handle).0; given = [] }

Reach-one_held : Reach broker_limits one_held
Reach-one_held =
    next (start (record { guards = fresh; given = [] }) refl)
      (enters (record { guards = fresh; given = [] }) 5 wait_request)

Reach-tally_example :
    (get room one_held.guards.inflight ≡ tally room one_held.given)
    × (count (on_route room) one_held.given ≤ broker_limits.concurrent_requests_per_route)
    × (count (waits_on_route room) one_held.given ≤ broker_limits.concurrent_waits_per_route)
Reach-tally_example = Reach-tally room Reach-one_held

Reach-none_held : Reach broker_limits none_held
unfolding enter admit_route admit_ip admit_concurrent admit_rate admit_window get str_eq
Reach-none_held = next Reach-one_held (releases one_held [] handle [] refl refl)
