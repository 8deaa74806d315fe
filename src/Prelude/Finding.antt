-- ===== src/Prelude/Finding.antt =====
-- What `find`, `filter` and `any` with one test say of each other.
use mathlib.Core.Path.{◌≡◌, refl, ap}
use mathlib.Core.Logic.{inl, inr}
use mathlib.Core.Bool.{Bool, true, false}
use mathlib.Core.Option.{none, some}
use mathlib.Core.List.{List, [], ◌∷◌, ◌++◌}
use native.Mathlib.Omega.{arith}
use prefeitura_anti_hack.Prelude.Tests.{Bool-cases, if◌then◌else◌}
use prefeitura_anti_hack.Prelude.Lists.{any, filter, find}

module _ {ℓ} {A : Type ℓ} where
  pub find-none_of_any : (p : A → Bool) (xs : List A) → any p xs ≡ false → find p xs ≡ none
  find-none_of_any p [] h = refl
  find-none_of_any p (x ∷ xs) h = ground (arith, find-none_of_any p xs)

  pub find-holds : (p : A → Bool) (xs : List A) (a : A) → find p xs ≡ some a → p a ≡ true
  find-holds p [] a h = cc
  find-holds p (x ∷ xs) a h = elim (Bool-cases (p x)) [
    | inl e ↦ ground arith
    | inr e ↦ find-holds p xs a (ground arith)
  ]

  pub find-append :
      (p : A → Bool) (xs : List A) (y : A)
      → find p (xs ++ y ∷ [])
        ≡ elim (find p xs) [ none ↦ (if p y then some y else none) | some x ↦ some x ]
  find-append p [] y = refl
  find-append p (x ∷ xs) y = ground (arith, find-append p xs y)

  pub find_of_filter :
      (p : A → Bool) (xs : List A) (x : A) → filter p xs ≡ x ∷ [] → find p xs ≡ some x
  find_of_filter p [] x h = absurd (cc)
  find_of_filter p (y ∷ xs) x h = elim (Bool-cases (p y)) [
    | inl q ↦ ground arith
    | inr q ↦ ground (arith, q, find_of_filter p xs x)
  ]

  pub find_of_filter_nil : (p : A → Bool) (xs : List A) → filter p xs ≡ [] → find p xs ≡ none
  find_of_filter_nil p [] h = refl
  find_of_filter_nil p (y ∷ xs) h = ground (arith, find_of_filter_nil p xs)

  pub any_of_find-none : (p : A → Bool) (xs : List A) → find p xs ≡ none → any p xs ≡ false
  any_of_find-none p [] h = refl
  any_of_find-none p (y ∷ xs) h = ground (arith, any_of_find-none p xs)

  pub any_of_find-some : (p : A → Bool) (xs : List A) (x : A) → find p xs ≡ some x → any p xs ≡ true
  any_of_find-some p [] x h = cc
  any_of_find-some p (y ∷ xs) x h = elim (Bool-cases (p y)) [
    | inl q ↦ ground arith
    | inr q ↦ ground (arith, q, any_of_find-some p xs x)
  ]

  pub any-append_one :
      (p : A → Bool) (xs : List A) (e : A)
      → any p xs ≡ false
      → p e ≡ false
      → any p (xs ++ e ∷ []) ≡ false
  any-append_one p [] e h q = ground (arith, q)
  any-append_one p (x ∷ xs) e h q = ground (arith, any-append_one p xs e)

  pub append_nil : (xs : List A) → xs ++ [] ≡ xs
  append_nil [] = refl
  append_nil (x ∷ xs) = ap (λ r. x ∷ r) (append_nil xs)
