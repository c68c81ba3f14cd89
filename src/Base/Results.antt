-- ===== src/Base/Results.antt =====
-- A Go function that returns a value and an error: one of the two.
use mathlib.Core.Path.{◌≡◌, refl}
use mathlib.Core.Bool.{Bool, true, false}

pub data Result {ℓ} (E : Type ℓ) (A : Type ℓ) : Type ℓ where
  err : E → Result E A
  ok : A → Result E A

infixl 5 ◌>>=◌ ◌>>◌
abbrev pub ◌>>=◌ {ℓ} : {E A B : Type ℓ} → Result E A → (A → Result E B) → Result E B
err e >>= _ = err e
ok a >>= next = next a

abbrev pub ◌>>◌ {ℓ} : {E B : Type ℓ} → Result E (Unit {ℓ}) → Result E B → Result E B
first_step >> rest = first_step >>= λ _. rest

-- `if bad { return err }`.
abbrev pub fail_if : {E : Type 0} → Bool → E → Result E (Unit {0})
fail_if true e = err e
fail_if false e = ok tt

-- A sequence that gives a value has passed its first step.
pub >>=-eq-ok {ℓ} :
    {E A B : Type ℓ} (start : Result E A) (next : A → Result E B) {result : B}
    → (start >>= next) ≡ ok result
    → (value : A) × (start ≡ ok value) × (next value ≡ ok result)
>>=-eq-ok (err failure) next run = cc
>>=-eq-ok (ok value) next run = (value, refl, run)
