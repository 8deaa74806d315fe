-- ===== src/Prelude/Python.antt =====
-- Exceptions (src/core/domain/exceptions.py and the builtins that the code raises) and what a call
-- that may raise returns.
use Prim.Native.Nat.{ℕ}
use mathlib.Core.Path.{◌≡◌, refl}
use mathlib.Core.Logic.{◌⊎◌, inl, inr}
use mathlib.Core.Bool.{Bool, true, false}
use mathlib.Core.List.{List, [], ◌∷◌}

pub data Exception : Type 0 where
  domain_error : Exception
  invalid_status_transition : Exception
  cross_tenant_access_denied : Exception
  redis_revocation_unavailable : Exception
  value_error : Exception
  permission_error : Exception
  runtime_error : Exception
  circuit_breaker_open : Exception
  multiple_results_found : Exception
  no_result_found : Exception
  integrity_error : Exception
  data_error : Exception
  http_error : ℕ → Exception
  key_error : Exception
  zero_division_error : Exception
  handler_error : ℕ → Exception

pub data Result {ℓ} (A : Type ℓ) : Type ℓ where
  ok : A → Result A
  err : Exception → Result A

module _ {ℓ} {A B : Type ℓ} where
  infixl 5 ◌>>=◌ ◌>>◌
  -- The next call, unless this one raised.
  abbrev pub ◌>>=◌ : Result A → (A → Result B) → Result B
  err raised >>= next = err raised
  ok value >>= next = next value

  abbrev pub ◌>>◌ : Result A → Result B → Result B
  first >> second = first >>= λ _. second

-- `if b: raise e`
abbrev pub raise_if : Bool → Exception → Result (Unit {0})
raise_if true e = err e
raise_if false e = ok tt

-- Validations one after the other: the first that raises is the outcome.
abbrev pub validations : List (Result (Unit {0})) → Result (Unit {0})
validations [] = ok tt
validations (ok _ ∷ rest) = validations rest
validations (err e ∷ rest) = err e

-- A value once its validation has passed.
abbrev pub checked {ℓ} : {A : Type ℓ} → Result (Unit {0}) → A → Result A
checked (ok _) a = ok a
checked (err e) a = err e

pub Result-cases {ℓ} :
    {A : Type ℓ} (r : Result A) → ((a : A) × (r ≡ ok a)) ⊎ ((e : Exception) × (r ≡ err e))
Result-cases (ok a) = inl (a, refl)
Result-cases (err e) = inr (e, refl)

-- a value that passes its validations is returned, and so is any other with the same ones
pub checked-same {ℓ} : {A : Type ℓ} (c : Result (Unit {0})) (a v : A) → checked c a ≡ ok v → v ≡ a
checked-same (ok tt) a v h = cc
checked-same (err x) a v h = absurd cc

pub checked-other {ℓ} :
    {A : Type ℓ} (c : Result (Unit {0})) (a b v : A) → checked c a ≡ ok v → checked c b ≡ ok b
checked-other (ok tt) a b v h = refl
checked-other (err x) a b v h = absurd cc
