-- ===== src/Server/Wait/Notifying.antt =====
-- Whom `notify` of src/server/wait.ts wakes.
use mathlib.Core.List.{append_assoc}
use agentgather.Common.{
  ℕ, ◌≡◌, refl, none, some, List, [], ◌∷◌, ◌++◌, arith, ◌∙◌, subst, sym, JsString, get, get-set,
  get-delete, str_eq, str_eq_refl, ==-refl, if◌then◌else◌,
}
use agentgather.Server.Wait.{WaitHub, put_waiters, remove_waiter, done, finish_all, notify}

-- The first of the waits ends.
abbrev ended : JsString → ℕ → List ℕ → WaitHub → WaitHub
ended room id ids hub = record {
  waiters = put_waiters room ids hub.waiters;
  resolved = hub.resolved ++ id ∷ [];
}

done_first :
    (room : JsString) (id : ℕ) (ids : List ℕ) (hub : WaitHub)
    → get room hub.waiters ≡ some (id ∷ ids)
    → done room id hub ≡ ended room id ids hub
unfolding done remove_waiter
done_first room id ids hub e = rw (e, ==-refl id, done) refl

finish_all_lem :
    (room j : JsString) (id : ℕ) (ids : List ℕ) (hub : WaitHub)
    → get room hub.waiters ≡ some (id ∷ ids)
    → (get j (finish_all room (id ∷ ids) hub).waiters
        ≡ (if str_eq room j then none else get j hub.waiters))
      × ((finish_all room (id ∷ ids) hub).resolved ≡ hub.resolved ++ id ∷ ids)
unfolding finish_all
finish_all_lem room j id [] hub e =
    rw (done_first room id [] hub e, finish_all) (get-delete room j hub.waiters, refl)
finish_all_lem room j id (next ∷ ids) hub e =
    let first = ended room id (next ∷ ids) hub in
    let rest =
      finish_all_lem room j next ids first
        (ground (arith, get-set room room (next ∷ ids) hub.waiters, str_eq_refl room)) in
    subst
      (λ (h : WaitHub).
        (get j (finish_all room (next ∷ ids) h).waiters
          ≡ (if str_eq room j then none else get j hub.waiters))
        × ((finish_all room (next ∷ ids) h).resolved ≡ hub.resolved ++ id ∷ next ∷ ids))
      (sym (done_first room id (next ∷ ids) hub e))
      (
        ground (arith, rest.0, get-set room j (next ∷ ids) hub.waiters),
        rest.1 ∙ append_assoc hub.resolved (id ∷ []) (next ∷ ids),
      )

-- A notification of a room in which someone waits resolves every wait of the room, each once and in
-- the order in which they came, and no wait of another room; nobody waits in the room afterwards.
pub notify_wakes :
    (room j : JsString) (id : ℕ) (ids : List ℕ) (hub : WaitHub)
    → get room hub.waiters ≡ some (id ∷ ids)
    → (get j (notify room hub).waiters ≡ (if str_eq room j then none else get j hub.waiters))
      × ((notify room hub).resolved ≡ hub.resolved ++ id ∷ ids)
unfolding notify
notify_wakes room j id ids hub e = rw (e, notify) (finish_all_lem room j id ids hub e)
