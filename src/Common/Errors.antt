-- ===== src/Common/Errors.antt =====
-- A call that may raise: its value, or the exception.
use Prim.Native.String.{String}
use Prim.Native.Nat.{ℕ}
use mathlib.Core.Path.{◌≡◌, refl}
use mathlib.Core.Logic.{◌⊎◌, inl, inr}
use mathlib.Core.Bool.{Bool, true, false}

-- The exceptions that the modelled code raises or lets through.
pub data Exception : Type 0 where
  attribute_error type_error value_error not_implemented zero_division : Exception
  protocol_error entity_not_found : String → Exception
  http_exception : ℕ → String → Exception

pub data Result {ℓ} (A : Type ℓ) : Type ℓ where
  ok : A → Result A
  err : Exception → Result A

infixl 5 ◌>>=◌ ◌>>◌
abbrev pub ◌>>=◌ {ℓ κ} : {A : Type ℓ} {B : Type κ} → Result A → (A → Result B) → Result B
err e >>= next = err e
ok value >>= next = next value

-- `if c: raise e`
abbrev pub raise_if : Bool → Exception → Result (Unit {0})
raise_if true e = err e
raise_if false e = ok tt

-- A statement whose value is not read.
abbrev pub ◌>>◌ {ℓ} : {A : Type ℓ} → Result (Unit {0}) → Result A → Result A
statement >> rest = statement >>= λ _. rest

-- A chain that returns has returned at each of its steps.
pub >>=-eq-ok {ℓ κ} :
    {A : Type ℓ} {B : Type κ} (step : Result A) (next : A → Result B) (out : B)
    → (step >>= next) ≡ ok out
    → (value : A) × (step ≡ ok value) × (next value ≡ ok out)
>>=-eq-ok (err e) next out h = cc
>>=-eq-ok (ok value) next out h = (value, refl, h)

pub ok-injective {ℓ} : {A : Type ℓ} (a b : A) → ok a ≡ ok b → a ≡ b
ok-injective a b e = cc

pub Result-cases {ℓ} :
    {A : Type ℓ} (r : Result A) → ((a : A) × (r ≡ ok a)) ⊎ ((e : Exception) × (r ≡ err e))
Result-cases (ok a) = inl (a, refl)
Result-cases (err e) = inr (e, refl)

-- A guard that lets the program go on did not hold.
pub raise_if-ok : (b : Bool) (e : Exception) (u : Unit {0}) → raise_if b e ≡ ok u → b ≡ false
raise_if-ok true e u h = cc
raise_if-ok false e u h = refl

-- What holds of the value of a result, if there is one.
abbrev pub Returns {ℓ} : {A : Type ℓ} → (A → Type 0) → Result A → Type 0
Returns P (err e) = Unit
Returns P (ok a) = P a

pub >>=-Returns :
    {A : Type 0} {B : Type 0} (P : B → Type 0) (step : Result A) (next : A → Result B)
    → ((a : A) → Returns P (next a))
    → Returns P (step >>= next)
>>=-Returns P (err e) next h = tt
>>=-Returns P (ok a) next h = h a
