-- ===== src/Common/Results.antt =====
-- What a function of the source does that returns or throws.
use mathlib.Core.Path.{◌≡◌, refl}
use mathlib.Core.Bool.{Bool, true, false}

pub data Outcome {ℓ κ} (E : Type ℓ) (A : Type κ) : Type (ℓ ⊔ κ) where
  throw : E → Outcome E A
  ok : A → Outcome E A

module _ {ℓ} {E : Type ℓ} where
  infixl 5 ◌>>=◌ ◌>>◌
  abbrev pub ◌>>=◌ {κ μ} :
      {A : Type κ} {B : Type μ} (first : Outcome E A) → (A → Outcome E B) → Outcome E B
  ◌>>=◌ first rest = elim first [ throw e ↦ throw e | ok a ↦ rest a ]

  abbrev pub ◌>>◌ {μ} : {B : Type μ} (first : Outcome E (Unit {0})) → Outcome E B → Outcome E B
  ◌>>◌ first rest = first >>= (λ done. rest)

  -- `if (!b) throw e`.
  abbrev pub guard : (holds : Bool) → E → Outcome E (Unit {0})
  guard holds e = elim holds [ false ↦ throw e | true ↦ ok tt ]

  pub ok_inj {κ} : {A : Type κ} {a b : A} → ◌≡◌ {A = Outcome E A} (ok a) (ok b) → a ≡ b
  ok_inj h = cc

-- A sequence that returns `b`: its first part returned `value`, from which the rest went on.
pub record Returned {ℓ κ μ} {E : Type ℓ} {A : Type κ} {B : Type μ} (first : Outcome E A)
    (rest : A → Outcome E B) (b : B) : Type (ℓ ⊔ κ ⊔ μ) where
  pub value : A
  pub returns : first ≡ ok value
  pub goes_on : rest value ≡ ok b

pub bind-Returned {ℓ κ μ} :
    {E : Type ℓ} {A : Type κ} {B : Type μ} {rest : A → Outcome E B} {b : B} (first : Outcome E A)
    → (first >>= rest) ≡ ok b
    → Returned first rest b
bind-Returned (throw e) h = absurd (cc h)
bind-Returned (ok a) h = record { value = a; returns = refl; goes_on = h }
