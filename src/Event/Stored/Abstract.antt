-- ===== src/Event/Stored/Abstract.antt =====
-- What a repository of security events promises to the ingestion: a partial function from a tenant,
-- a source and an idempotency key to the first event that was saved under them.
use prefeitura_anti_hack.Prelude.{
  ℕ, ◌≤◌, ◌≡◌, refl, fun_ext, String, Bool, true, false, Option, none, some, List, [], ◌∷◌, ◌++◌,
  All, any, filter, find, length, arith, inl, inr, Bool-cases, Option-cases, if◌then◌else◌, str_eq,
  str_eq_iff, str_eq_refl, ◌==◌, ==→eq, ==-refl, and_split, find-append,
}
use prefeitura_anti_hack.Prelude.Python.{Result, ok}
use prefeitura_anti_hack.Prelude.Exec.{Exec}
use prefeitura_anti_hack.Prelude.Runtime.{Runtime}
use prefeitura_anti_hack.Event.{SecurityEvent}
use prefeitura_anti_hack.Event.Stored.{has_key, same_key, same_id, put, exceeds}
use prefeitura_anti_hack.Event.Stored.Fixed.{IsFixed}

abbrev pub Book : Type 0
Book = ℕ → String → String → Option SecurityEvent

abbrev pub book : List SecurityEvent → Book
book rows tenant source key = find (has_key tenant source key) rows

-- the book with one more event, unless its key is taken
abbrev pub insert_new : SecurityEvent → Book → Book
insert_new e b tenant source key = elim (b e.tenant_id e.source e.idempotency_key) [
  | none ↦ if has_key tenant source key e then some e else b tenant source key
  | some _ ↦ b tenant source key
]

-- what a save answers
abbrev pub answer : SecurityEvent → Option SecurityEvent → SecurityEvent × Bool
answer e none = (e, true)
answer e (some existing) = (existing, false)

abbrev pub insert_each : List SecurityEvent → Book → Book
insert_each [] b = b
insert_each (e ∷ es) b = insert_each es (insert_new e b)

pub keys_match :
    (t : ℕ) (s k : String) (e : SecurityEvent)
    → has_key t s k e ≡ true
    → (e.tenant_id ≡ t) × (e.source ≡ s) × (e.idempotency_key ≡ k)
keys_match t s k e h =
    let (p, q) = and_split (e.tenant_id == t) _ h in
    let (u, v) = and_split (str_eq e.source s) _ q in
    (==→eq _ _ p, (str_eq_iff _ _).0 u, (str_eq_iff _ _).0 v)

pub same_key_refl : (e : SecurityEvent) → same_key e e ≡ true
same_key_refl e =
    ground (arith, ==-refl e.tenant_id, str_eq_refl e.source, str_eq_refl e.idempotency_key)

pub put_fresh :
    (e : SecurityEvent) (rows : List SecurityEvent)
    → any (same_id e) rows ≡ false
    → put e rows ≡ rows ++ e ∷ []
put_fresh e [] h = refl
put_fresh e (x ∷ rows) h = ground (arith, put_fresh e rows)

-- An event whose key is free extends the book at that key only.
pub book-insert :
    (e : SecurityEvent) (rows : List SecurityEvent)
    → book rows e.tenant_id e.source e.idempotency_key ≡ none
    → book (rows ++ e ∷ []) ≡ insert_new e (book rows)
book-insert e rows h = fun_ext λ t. fun_ext λ s. fun_ext λ k. elim (Bool-cases (has_key t s k e)) [
  | inl p ↦
      let (a, b, c) = keys_match t s k e p in
      ground (arith, find-append (has_key t s k) rows e, a, b, c, p, h)
  | inr p ↦ elim (Option-cases (book rows t s k)) [
    | inl q ↦ ground (arith, find-append (has_key t s k) rows e, p, q, h)
    | inr (x, q) ↦ ground (arith, find-append (has_key t s k) rows e, p, q, h)
  ]
]

module _ (rt : Runtime) (redact : String → String) where
  -- the constraints of the table, and events as the constructor leaves them
  pub record IsSound (rows : List SecurityEvent) : Type 0 where
    pub fixed : All (IsFixed rt redact) rows
    pub key_once : (t : ℕ) (s k : String) → length (filter (has_key t s k) rows) ≤ 1

  -- an event of the constructor whose identifier is not in use and whose texts fit their columns
  pub record IsNew (e : SecurityEvent) (rows : List SecurityEvent) : Type 0 where
    pub is_fixed : IsFixed rt redact e
    pub id_unused : any (same_id e) rows ≡ false
    pub source_fits : exceeds 64 e.source ≡ false
    pub type_fits : exceeds 64 e.event_type ≡ false
    pub key_fits : exceeds 128 e.idempotency_key ≡ false

  -- what one call of `save` does, seen through the book
  pub record Saved (e : SecurityEvent) (rows : List SecurityEvent)
      (after : Result (SecurityEvent × Bool) × List SecurityEvent) : Type 0 where
    pub answered : after.0 ≡ ok (answer e (book rows e.tenant_id e.source e.idempotency_key))
    pub booked : book after.1 ≡ insert_new e (book rows)
    pub sound : IsSound after.1
    pub only_new :
        (x : SecurityEvent)
        → any (same_id x) rows ≡ false
        → same_id x e ≡ false
        → any (same_id x) after.1 ≡ false

  -- the contract of SecurityEventRepository.save
  pub record Refines (save : SecurityEvent → Exec (List SecurityEvent) (SecurityEvent × Bool))
      : Type 0 where
    pub saves :
        (e : SecurityEvent) (rows : List SecurityEvent)
        → IsSound rows
        → IsNew e rows
        → Saved e rows (save e rows)
