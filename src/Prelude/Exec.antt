-- ===== src/Prelude/Exec.antt =====
-- Methods that mutate an object and may raise: what was written before a raise stays written.
use mathlib.Core.Bool.{Bool, true, false}
use prefeitura_anti_hack.Prelude.Python.{Exception, Result, ok, err}

abbrev pub Exec {ℓ} : Type ℓ → Type ℓ → Type ℓ
Exec S A = S → Result A × S

module _ {ℓ} {S A : Type ℓ} where
  abbrev pub pure : A → Exec S A
  pure a s = (ok a, s)

  abbrev pub raise : Exception → Exec S A
  raise e s = (err e, s)

  abbrev pub lift : Result A → Exec S A
  lift r s = (r, s)

  abbrev pub gets : (S → A) → Exec S A
  gets f s = (ok (f s), s)

module _ {ℓ} {S A B : Type ℓ} where
  abbrev pub continue : Result A → (A → Exec S B) → Exec S B
  continue (ok a) f s = f a s
  continue (err e) f s = (err e, s)

  infixl 5 ◌>>=◌ ◌>>◌
  abbrev pub ◌>>=◌ : Exec S A → (A → Exec S B) → Exec S B
  ◌>>=◌ m f s = continue (m s).0 f (m s).1

  abbrev pub ◌>>◌ : Exec S A → Exec S B → Exec S B
  m >> k = m >>= λ _. k

module _ {ℓ} {S A : Type ℓ} where
  abbrev pub caught : Result A → (Exception → Exec S A) → Exec S A
  caught (ok a) handler s = (ok a, s)
  caught (err e) handler s = handler e s

  -- `try` with `except Exception`: the handler starts from what was written before the raise.
  abbrev pub recover : Exec S A → (Exception → Exec S A) → Exec S A
  recover m handler s = caught (m s).0 handler (m s).1

-- assignments to the object's fields
abbrev pub modify : {S : Type 0} → (S → S) → Exec S (Unit {0})
modify f s = (ok tt, f s)

-- `if b: raise e`
abbrev pub raise_when : {S : Type 0} → Bool → Exception → Exec S (Unit {0})
raise_when true e s = (err e, s)
raise_when false e s = (ok tt, s)

-- calls of a store and of a publisher of events beside each other
module _ {S P : Type 0} where
  abbrev pub in_store : {A : Type 0} → Exec S A → Exec (S × P) A
  in_store m s = ((m s.0).0, ((m s.0).1, s.1))

  abbrev pub on_publisher : {A : Type 0} → Exec P A → Exec (S × P) A
  on_publisher m s = ((m s.1).0, (s.0, (m s.1).1))
