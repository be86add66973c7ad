-- ===== src/Tunnel/Relay/Queue.antt =====
-- The requests of a route that wait to be claimed, read off the in-flight table of
-- src/tunnel/relay.ts.
use agentgather.Common.{
  ◌≡◌, refl, Bool, true, false, ◌&&◌, not, Option, none, some, List, [], ◌∷◌, ◌++◌, arith, JsString,
  JsMap, get, set, delete, str_eq, str_eq_iff, str_eq_refl, if◌then◌else◌, Bool-cases, inl, inr,
  ◌≢◌, Distinct, delete_absent,
}
use agentgather.Tunnel.Relay.{InFlight, splice}

-- The ids of the unclaimed requests of a route, oldest first.
unfoldable pub waiting : JsString → JsMap InFlight → List JsString
waiting slug [] = []
waiting slug ((id, item) ∷ items) =
    if str_eq item.slug slug && not item.claimed
    then id ∷ waiting slug items
    else waiting slug items

abbrev pub nonempty : List JsString → Option (List JsString)
nonempty [] = none
nonempty (id ∷ ids) = some (id ∷ ids)

abbrev pub waits_on : JsString → InFlight → Bool
waits_on slug item = str_eq item.slug slug && not item.claimed

pub waiting-set_fresh :
    (slug id : JsString) (item : InFlight) (items : JsMap InFlight)
    → get id items ≡ none
    → waiting slug (set id item items)
      ≡ waiting slug items ++ (if waits_on slug item then id ∷ [] else [])
unfolding waiting set get
waiting-set_fresh slug id item [] e = refl
waiting-set_fresh slug id item ((j, old) ∷ items) e =
    ground (arith, waiting-set_fresh slug id item items)

splice_absent :
    (slug id : JsString) (items : JsMap InFlight)
    → get id items ≡ none
    → splice id (waiting slug items) ≡ waiting slug items
unfolding splice waiting get
splice_absent slug id [] e = refl
splice_absent slug id ((j, old) ∷ items) e = ground (arith, splice_absent slug id items)

pub waiting-delete :
    (slug id : JsString) (items : JsMap InFlight)
    → Distinct items
    → waiting slug (delete id items) ≡ splice id (waiting slug items)
unfolding splice waiting delete
waiting-delete slug id [] d = refl
waiting-delete slug id ((j, old) ∷ items) d = ground (
  arith,
  str_eq_iff j id,
  waiting-delete slug id items d.1,
  delete_absent id items,
  splice_absent slug id items,
)

-- A request of another route, or one that is claimed, is not in the list.
pub splice_other :
    (slug id : JsString) (item : InFlight) (items : JsMap InFlight)
    → Distinct items
    → get id items ≡ some item
    → waits_on slug item ≡ false
    → splice id (waiting slug items) ≡ waiting slug items
unfolding splice waiting get
splice_other slug id item [] d e n = refl
splice_other slug id item ((j, old) ∷ items) d e n =
    ground
      (arith, str_eq_iff j id, splice_other slug id item items d.1, splice_absent slug id items)

-- Claiming a request takes it off its route's list.
pub waiting-set_claimed :
    (slug id : JsString) (item new : InFlight) (items : JsMap InFlight)
    → Distinct items
    → get id items ≡ some item
    → new.claimed ≡ true
    → waiting slug (set id new items) ≡ splice id (waiting slug items)
unfolding splice waiting set get
waiting-set_claimed slug id item new [] d e c = ground arith
waiting-set_claimed slug id item new ((j, old) ∷ items) d e c = ground (
  arith,
  str_eq_iff j id,
  waiting-set_claimed slug id item new items d.1,
  splice_absent slug id items,
)

absent_waiting :
    (slug id : JsString) (ids : List JsString) (items : JsMap InFlight)
    → get id items ≡ none
    → waiting slug items ≢ id ∷ ids
unfolding waiting get
absent_waiting slug id ids [] e w = ground arith
absent_waiting slug id ids ((j, old) ∷ items) e w =
    ground (arith, absent_waiting slug id ids items, str_eq_refl id)

-- The oldest waiting request is in flight, unclaimed, and of the route.
pub waiting_head :
    (slug id : JsString) (ids : List JsString) (items : JsMap InFlight)
    → Distinct items
    → waiting slug items ≡ id ∷ ids
    → (item : InFlight) × (get id items ≡ some item) × (waits_on slug item ≡ true)
unfolding waiting get
waiting_head slug id ids [] d e = ground arith
waiting_head slug id ids ((j, old) ∷ items) d e = elim (Bool-cases (waits_on slug old)) [
  | inl here ↦ (old, ground (arith, str_eq_iff j id), here)
  | inr past ↦
      let (item, found, waits) = waiting_head slug id ids items d.1 (ground arith) in
      (item, ground (arith, str_eq_iff j id, d), waits)
]
