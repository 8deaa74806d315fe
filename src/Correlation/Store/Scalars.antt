-- ===== src/Correlation/Store/Scalars.antt =====
-- Result.scalar_one_or_none, read backwards.
use prefeitura_anti_hack.Prelude.{◌≡◌, refl, none, some, List, [], ◌∷◌, arith}
use prefeitura_anti_hack.Prelude.Python.{ok}
use prefeitura_anti_hack.Correlation.Store.{scalar_one_or_none}

module _ {ℓ} {A : Type ℓ} where
  pub one_of_scalar :
      (rows : List A) (m : A) → scalar_one_or_none rows ≡ ok (some m) → rows ≡ m ∷ []
  one_of_scalar [] m h = absurd cc
  one_of_scalar (x ∷ []) m h = ground (arith, h)
  one_of_scalar (x ∷ y ∷ rows) m h = absurd cc

  pub scalar-nil : (rows : List A) → scalar_one_or_none rows ≡ ok none → rows ≡ []
  scalar-nil [] h = refl
  scalar-nil (x ∷ []) h = absurd cc
  scalar-nil (x ∷ y ∷ rows) h = absurd cc
