-- ===== src/Common/Assoc.antt =====
-- A JavaScript Map with string keys, in insertion order: `set` keeps the place of a key that is
-- present and appends one that is not.
use mathlib.Core.Path.{◌≡◌, refl}
use mathlib.Core.Logic.{◌≢◌, inl, inr}
use mathlib.Core.Option
use mathlib.Core.Option.{Option, none, some}
use mathlib.Core.List.{List, [], ◌∷◌, map}
use native.Mathlib.Omega.{arith}
use agentgather.Common.Tests.{if◌then◌else◌, Bool-cases}
use agentgather.Common.Text.{JsString, str_eq, str_eq_iff, str_eq_refl}

abbrev pub JsMap {ℓ} : Type ℓ → Type ℓ
JsMap V = List (JsString × V)

module _ {ℓ} {V : Type ℓ} where
  unfoldable pub get : JsString → JsMap V → Option V
  get k [] = none
  get k ((j, v) ∷ m) = if str_eq j k then some v else get k m

  unfoldable pub set : JsString → V → JsMap V → JsMap V
  set k v [] = (k, v) ∷ []
  set k v ((j, w) ∷ m) = if str_eq j k then (j, v) ∷ m else (j, w) ∷ set k v m

  -- Keys are unique in a Map; dropping every entry of the key needs no such assumption.
  unfoldable pub delete : JsString → JsMap V → JsMap V
  delete k [] = []
  delete k ((j, w) ∷ m) = if str_eq j k then delete k m else (j, w) ∷ delete k m

  pub get-set :
      (k j : JsString) (v : V) (m : JsMap V)
      → get j (set k v m) ≡ (if str_eq k j then some v else get j m)
  unfolding get set
  get-set k j v [] = refl
  get-set k j v ((i, w) ∷ m) =
      ground (arith, str_eq_iff k j, str_eq_iff i k, str_eq_iff i j, get-set k j v m)

  pub get-delete :
      (k j : JsString) (m : JsMap V) → get j (delete k m) ≡ (if str_eq k j then none else get j m)
  unfolding get delete
  get-delete k j [] = ground arith
  get-delete k j ((i, w) ∷ m) =
      ground (arith, str_eq_iff k j, str_eq_iff i k, str_eq_iff i j, get-delete k j m)

  pub get-set_self : (k : JsString) (v : V) (m : JsMap V) → get k (set k v m) ≡ some v
  get-set_self k v m = rw (get-set k k v m, str_eq_refl k) refl

  pub get-delete_self : (k : JsString) (m : JsMap V) → get k (delete k m) ≡ none
  get-delete_self k m = rw (get-delete k k m, str_eq_refl k) refl

  pub get-set_ne : (k j : JsString) (v : V) (m : JsMap V) → k ≢ j → get j (set k v m) ≡ get j m
  get-set_ne k j v m h = ground (arith, get-set k j v m, str_eq_iff k j)

  pub get-delete_ne : (k j : JsString) (m : JsMap V) → k ≢ j → get j (delete k m) ≡ get j m
  get-delete_ne k j m h = ground (arith, get-delete k j m, str_eq_iff k j)

  -- No key stands twice, as in every Map.
  abbrev pub Distinct : JsMap V → Type ℓ
  Distinct [] = Unit
  Distinct ((k, v) ∷ m) = (get k m ≡ none) × Distinct m

  pub Distinct-set : (k : JsString) (v : V) (m : JsMap V) → Distinct m → Distinct (set k v m)
  unfolding set get
  Distinct-set k v [] d = (refl, tt)
  Distinct-set k v ((j, old) ∷ m) d = elim (Bool-cases (str_eq j k)) [
    | inl same ↦ rw (same, set) d
    | inr other ↦
        rw (other, set)
          (ground (arith, get-set k j v m, str_eq_iff j k, str_eq_iff k j), Distinct-set k v m d.1)
  ]

  pub delete_absent : (k : JsString) (m : JsMap V) → get k m ≡ none → delete k m ≡ m
  unfolding delete get
  delete_absent k [] e = refl
  delete_absent k ((j, old) ∷ m) e = ground (arith, delete_absent k m)

  pub Distinct-delete : (k : JsString) (m : JsMap V) → Distinct m → Distinct (delete k m)
  unfolding delete
  Distinct-delete k [] d = tt
  Distinct-delete k ((j, old) ∷ m) d = elim (Bool-cases (str_eq j k)) [
    | inl same ↦ rw (same, delete) (Distinct-delete k m d.1)
    | inr other ↦ rw (other, delete) (ground (arith, get-delete k j m), Distinct-delete k m d.1)
  ]

module _ {ℓ} {V : Type ℓ} (f : V → V) where
  pub get-map :
      (k : JsString) (m : JsMap V) → get k (map (λ e. (e.0, f e.1)) m) ≡ Option.map f (get k m)
  unfolding get
  get-map k [] = refl
  get-map k ((j, v) ∷ m) = ground (arith, get-map k m)

  pub Distinct-map : (m : JsMap V) → Distinct m → Distinct (map (λ e. (e.0, f e.1)) m)
  Distinct-map [] d = tt
  Distinct-map ((j, v) ∷ m) d = (rw (get-map j m, d.0) refl, Distinct-map m d.1)
