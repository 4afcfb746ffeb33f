-- ===== src/Prelude/Results.antt =====
-- Code that returns a value or raises: a result with the error's type as a parameter.
use mathlib.Core.Path.{◌≡◌, refl}
use mathlib.Core.Bool.{Bool, true, false}
use mathlib.Core.Option.{Option, none, some}

pub data Result {κ ℓ} (Failure : Type κ) (Value : Type ℓ) : Type (κ ⊔ ℓ) where
  err : Failure → Result Failure Value
  ok : Value → Result Failure Value

infixl 5 ◌>>=◌ ◌>>◌
-- The rest runs on the value, an exception ends the code.
abbrev pub ◌>>=◌ {κ ℓ μ} :
    {Failure : Type κ} {A : Type ℓ} {B : Type μ}
    → Result Failure A
    → (A → Result Failure B)
    → Result Failure B
err failure >>= rest = err failure
ok value >>= rest = rest value

abbrev pub ◌>>◌ {κ ℓ} :
    {Failure : Type κ} {B : Type ℓ}
    → Result Failure (Unit {0})
    → Result Failure B
    → Result Failure B
check >> rest = check >>= λ _. rest

-- `if not test: raise failure`.
abbrev pub guard {κ} : {Failure : Type κ} → Bool → Failure → Result Failure (Unit {0})
guard test failure = elim test [ true ↦ ok tt | false ↦ err failure ]

-- The value of an option, or an exception.
abbrev pub or_raise {κ ℓ} : {Failure : Type κ} {A : Type ℓ} → Option A → Failure → Result Failure A
or_raise found failure = elim found [ none ↦ err failure | some value ↦ ok value ]

-- Inversion of a successful bind, for proofs where the parts stay shut.
pub >>=-eq-ok {κ ℓ μ} :
    {Failure : Type κ} {A : Type ℓ} {B : Type μ} (first : Result Failure A)
    (rest : A → Result Failure B) {b : B}
    → (first >>= rest) ≡ ok b
    → (value : A) × (first ≡ ok value) × (rest value ≡ ok b)
>>=-eq-ok (err failure) rest h = cc
>>=-eq-ok (ok value) rest h = (value, refl, h)

-- Two values that are returned are equal where the results are.
pub ok-injective {κ ℓ} :
    {Failure : Type κ} {Value : Type ℓ} {a b : Value}
    → (let first : Result Failure Value = ok a in first) ≡ ok b
    → a ≡ b
ok-injective h = cc
