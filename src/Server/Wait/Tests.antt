-- ===== src/Server/Wait/Tests.antt =====
-- The theorem on src/server/wait.ts at a concrete hub.
use agentgather.Common.{◌≡◌, refl, none, some, [], ◌∷◌, ◌++◌, js, get, str_eq, if◌then◌else◌}
use agentgather.Server.Wait.{WaitHub, notify}
use agentgather.Server.Wait.Notifying.{notify_wakes}

abbrev hub : WaitHub
hub = record { waiters = (js "room", 4 ∷ 7 ∷ []) ∷ (js "other", 5 ∷ []) ∷ []; resolved = 1 ∷ [] }

two_wait : get (js "room") hub.waiters ≡ some (4 ∷ 7 ∷ [])
unfolding get str_eq
two_wait = refl

notify_wakes_example :
    (get (js "other") (notify (js "room") hub).waiters
      ≡ (if str_eq (js "room") (js "other") then none else get (js "other") hub.waiters))
    × ((notify (js "room") hub).resolved ≡ hub.resolved ++ 4 ∷ 7 ∷ [])
notify_wakes_example = notify_wakes (js "room") (js "other") 4 (7 ∷ []) hub two_wait
