-- ===== src/Common/Stateful.antt =====
-- A call on a state that returns or throws; what it wrote before a throw stays written.
use mathlib.Core.Path.{◌≡◌, refl, sym, ap, subst, ◌∙◌}
use mathlib.Core.Bool.{Bool, true, false}
use mathlib.Core.Option.{Option, none, some}
use agentgather.Common.Results.{Outcome, ok, throw}

abbrev pub Stateful : Type 0 → Type 0 → Type 0 → Type 0
Stateful S E A = S → S × Outcome E A

module _ {S E : Type 0} where
  infixl 5 ◌>>=◌ ◌>>◌
  abbrev pub and_then : {A B : Type 0} → S × Outcome E A → (A → Stateful S E B) → S × Outcome E B
  and_then (s, ok a) f = f a s
  and_then (s, throw e) f = (s, throw e)

  abbrev pub ◌>>=◌ : {A B : Type 0} → Stateful S E A → (A → Stateful S E B) → Stateful S E B
  ◌>>=◌ call f s = and_then (call s) f

  abbrev pub ◌>>◌ : {B : Type 0} → Stateful S E (Unit {0}) → Stateful S E B → Stateful S E B
  ◌>>◌ call rest = call >>= (λ done. rest)

  abbrev pub return : {A : Type 0} → A → Stateful S E A
  return a s = (s, ok a)

  abbrev pub fail : {A : Type 0} → E → Stateful S E A
  fail e s = (s, throw e)

  -- A test, or a checked value, that touches no state.
  abbrev pub require : Bool → E → Stateful S E (Unit {0})
  require true e s = (s, ok tt)
  require false e s = (s, throw e)

  abbrev pub lift : {A : Type 0} → Outcome E A → Stateful S E A
  lift o s = (s, o)

  abbrev pub or_fail : {A : Type 0} → Option A → E → Stateful S E A
  or_fail none e s = (s, throw e)
  or_fail (some a) e s = (s, ok a)

  abbrev pub gets : {A : Type 0} → (S → A) → Stateful S E A
  gets f s = (s, ok (f s))

  abbrev pub modify : (S → S) → Stateful S E (Unit {0})
  modify f s = (f s, ok tt)

-- The call throws and leaves the state, or it ends as `R` says.
pub data FailsOr {S E A : Type 0} (call : Stateful S E A) (s : S) (R : S × Outcome E A → Type 0)
    : Type 0 where
  fails : (e : E) → call s ≡ (s, throw e) → FailsOr call s R
  ends : R (call s) → FailsOr call s R

module _ {S E : Type 0} where
  pub FailsOr-eq :
      {A : Type 0} {R : S × Outcome E A → Type 0} {first rest : Stateful S E A} {s : S}
      → first s ≡ rest s
      → FailsOr rest s R
      → FailsOr first s R
  FailsOr-eq e (fails x h) = fails x (e ∙ h)
  FailsOr-eq {R = R} e (ends r) = ends (subst R (sym e) r)

  pub FailsOr-require :
      {A : Type 0} {R : S × Outcome E A → Type 0} (holds : Bool) (e : E) {rest : Stateful S E A}
      {s : S}
      → (holds ≡ true → FailsOr rest s R)
      → FailsOr (require holds e >> rest) s R
  FailsOr-require true e k = FailsOr-eq refl (k refl)
  FailsOr-require false e k = fails e refl

  -- A first call that leaves the state.
  pub FailsOr-reads :
      {A B : Type 0} {R : S × Outcome E B → Type 0} (call : Stateful S E A)
      {rest : A → Stateful S E B} {s : S} (o : Outcome E A)
      → call s ≡ (s, o)
      → ((a : A) → o ≡ ok a → FailsOr (rest a) s R)
      → FailsOr (call >>= rest) s R
  FailsOr-reads call {rest = rest} (throw e) r k = fails e (ap (λ x. and_then x rest) r)
  FailsOr-reads call {rest = rest} (ok a) r k = FailsOr-eq (ap (λ x. and_then x rest) r) (k a refl)
