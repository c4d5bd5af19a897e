-- ===== src/Common/Outcome.antt =====
-- What a Go function with an error result does: it returns a value, returns an error, or panics.
use mathlib.Core.Path.{◌≡◌, refl, ap}
use mathlib.Core.Bool.{Bool, true, false}

pub data Outcome (E A : Type 0) : Type 0 where
  ok : A → Outcome E A
  err : E → Outcome E A
  panic : Outcome E A

infixl 5 ◌>>=◌ ◌>>◌
abbrev pub ◌>>=◌ : {E A B : Type 0} → Outcome E A → (A → Outcome E B) → Outcome E B
panic >>= next = panic
err failure >>= next = err failure
ok value >>= next = next value

abbrev pub ◌>>◌ : {E B : Type 0} → Outcome E (Unit {0}) → Outcome E B → Outcome E B
first >> second = first >>= (λ _. second)

-- `if b { return e }`
abbrev pub fail_if : {E : Type 0} → Bool → E → Outcome E (Unit {0})
fail_if false failure = ok tt
fail_if true failure = err failure

-- The call came back, with a value or with an error.
abbrev pub Returns : {E A : Type 0} → Outcome E A → Type 0
Returns panic = ⊥
Returns _ = Unit

pub ok_injective : {E A : Type 0} {a b : A} → ◌≡◌ {A = Outcome E A} (ok a) (ok b) → a ≡ b
ok_injective e = cc

-- Inversion of a chain of calls that returns a value.
pub >>=-eq-ok :
    {E A B : Type 0} (call : Outcome E A) (next : A → Outcome E B) {result : B}
    → (call >>= next) ≡ ok result
    → (value : A) × (call ≡ ok value) × (next value ≡ ok result)
>>=-eq-ok panic next e = cc
>>=-eq-ok (err failure) next e = cc
>>=-eq-ok (ok value) next e = (value, refl, e)

-- The call returned a value, so what follows it runs.
pub >>=-on_ok :
    {E A B : Type 0} (call : Outcome E A) (next : A → Outcome E B) (value : A)
    → call ≡ ok value
    → (call >>= next) ≡ next value
>>=-on_ok call next value e = ap (λ o. o >>= next) e
