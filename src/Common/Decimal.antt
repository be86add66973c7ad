-- ===== src/Common/Decimal.antt =====
-- A natural number in a template literal: its decimal digits.
use Prim.Native.Nat.{◌<◌, ℕ, zero, suc, ◌+◌, ◌-◌, ◌*◌}
use mathlib.Core.Path.{◌≡◌, refl, ap}
use mathlib.Core.List.{List, [], ◌∷◌, ◌++◌}
use native.Mathlib.Omega.{arith}
use agentgather.Common.Tests.{Bool-cases, ◌==◌, if◌then◌else◌}
use agentgather.Common.Text.{JsString}
use agentgather.Common.Lists.{All, All-append}
use mathlib.Core.Logic.{inl, inr}

-- The digits of a number, the ones first.
unfoldable increment : List ℕ → List ℕ
increment [] = 1 ∷ []
increment (d ∷ digits) =
    let carried = increment digits in if d == 9 then 0 ∷ carried else (d + 1) ∷ digits

unfoldable digits_of : ℕ → List ℕ
unfolding increment
digits_of zero = 0 ∷ []
digits_of (suc n) = increment (digits_of n)

unfoldable print : List ℕ → JsString
print [] = []
print (d ∷ digits) = print digits ++ (d + 48) ∷ []

unfoldable pub decimal : ℕ → JsString
unfolding print digits_of
decimal n = print (digits_of n)

value : List ℕ → ℕ
value [] = 0
value (d ∷ digits) = d + 10 * value digits

value-increment : (digits : List ℕ) → value (increment digits) ≡ value digits + 1
unfolding value increment
value-increment [] = omega arith
value-increment (d ∷ digits) = ground (arith, value-increment digits)

value-digits_of : (n : ℕ) → value (digits_of n) ≡ n
unfolding value digits_of
value-digits_of zero = refl
value-digits_of (suc n) = omega (arith, value-increment (digits_of n), value-digits_of n)

-- `Number.parseInt`, on digits.
read : ℕ → JsString → ℕ
read n [] = n
read n (c ∷ text) = read (10 * n + (c - 48)) text

read-append : (n c : ℕ) (text : JsString) → read n (text ++ c ∷ []) ≡ 10 * read n text + (c - 48)
unfolding read
read-append n c [] = refl
read-append n c (d ∷ text) = read-append (10 * n + (d - 48)) c text

read-print : (digits : List ℕ) → read 0 (print digits) ≡ value digits
unfolding print value read
read-print [] = refl
read-print (d ∷ digits) = omega (arith, read-append 0 (d + 48) (print digits), read-print digits)

-- Two numbers that are written alike are equal.
pub decimal_inj : (m n : ℕ) → decimal m ≡ decimal n → m ≡ n
unfolding decimal
decimal_inj m n e = omega (
  arith,
  ap (read 0) e,
  read-print (digits_of m),
  read-print (digits_of n),
  value-digits_of m,
  value-digits_of n,
)

-- Every digit is below ten.
AreDigits : List ℕ → Type 0
AreDigits [] = Unit {0}
AreDigits (d ∷ digits) = (d < 10) × AreDigits digits

AreDigits-increment : (digits : List ℕ) → AreDigits digits → AreDigits (increment digits)
unfolding AreDigits increment
AreDigits-increment [] h = (omega arith, tt)
AreDigits-increment (d ∷ digits) h = elim (Bool-cases (d == 9)) [
  | inl nine ↦ rw (nine, increment) (omega arith, AreDigits-increment digits h.1)
  | inr less ↦ rw (less, increment) (ground (arith, less, h.0), h.1)
]

digits_of-AreDigits : (n : ℕ) → AreDigits (digits_of n)
unfolding AreDigits digits_of
digits_of-AreDigits zero = (omega arith, tt)
digits_of-AreDigits (suc n) = AreDigits-increment (digits_of n) (digits_of-AreDigits n)

-- A text of decimal digits.
abbrev pub IsDecimal : JsString → Type 0
IsDecimal text = All (λ c. c < 58) text

print-IsDecimal : (digits : List ℕ) → AreDigits digits → IsDecimal (print digits)
unfolding AreDigits print
print-IsDecimal [] h = tt
print-IsDecimal (d ∷ digits) h =
    All-append (λ c. c < 58) (print digits) ((d + 48) ∷ []) (print-IsDecimal digits h.1)
      (omega (arith, h.0), tt)

pub decimal-IsDecimal : (n : ℕ) → IsDecimal (decimal n)
unfolding decimal
decimal-IsDecimal n = print-IsDecimal (digits_of n) (digits_of-AreDigits n)
