-- ===== src/Event/Stored/Races.antt =====
-- A save while other transactions commit rows of the same table.
use prefeitura_anti_hack.Prelude.{
  ◌≡◌, refl, String, Bool, true, false, ◌||◌, Option, none, some, List, [], ◌∷◌, ◌++◌, any, arith,
  inl, inr, Option-cases, if◌then◌else◌, any_of_find-none, any_of_find-some,
}
use prefeitura_anti_hack.Prelude.Python.{Result, ok, err, integrity_error}
use prefeitura_anti_hack.Event.Stored.Saving.{select_by_key-book}
use prefeitura_anti_hack.Prelude.Runtime.{Runtime}
use prefeitura_anti_hack.Event.{SecurityEvent}
use prefeitura_anti_hack.Event.Stored.{
  same_key, same_id, exceeds, refusal, save_event, flush_new, insert_event,
}
use prefeitura_anti_hack.Event.Stored.Fixed.{IsFixed}
use prefeitura_anti_hack.Event.Stored.Abstract.{book, IsSound}

-- the texts of an event fit their columns
pub record Fits (e : SecurityEvent) : Type 0 where
  pub source_fits : exceeds 64 e.source ≡ false
  pub type_fits : exceeds 64 e.event_type ≡ false
  pub key_fits : exceeds 128 e.idempotency_key ≡ false

refusal-Fits :
    (e : SecurityEvent) (rows : List SecurityEvent)
    → Fits e
    → refusal e rows
      ≡ (if any (same_id e) rows || any (same_key e) rows then some integrity_error else none)
unfolding refusal
refusal-Fits e rows f = ground (arith, f.source_fits, f.type_fits, f.key_fits)

module _ (rt : Runtime) (redact : String → String) (e : SecurityEvent)
    (rows meanwhile : List SecurityEvent) where
  -- what the save ends with, once the table holds what the others have committed
  abbrev pub after_race :
      Option SecurityEvent → Bool → Result (SecurityEvent × Bool) × List SecurityEvent
  after_race (some x) used = (ok (x, false), rows ++ meanwhile)
  after_race none true = (err integrity_error, rows ++ meanwhile)
  after_race none false = (ok (e, true), (rows ++ meanwhile) ++ e ∷ [])

  -- Take an event of the constructor whose texts fit their columns, a table that keeps its
  -- constraints, and rows that other transactions commit between the first look at the table and
  -- the insertion, with which the table still keeps them. If the key was taken at the first look,
  -- the save returns the event that is there and changes nothing. If one of the new rows has taken
  -- it since, the save returns that one, marked as not created, and inserts nothing. If only the
  -- identifier has been taken, it raises. Else the event is inserted and returned as created.
  pub save_event-raced :
      IsFixed rt redact e
      → Fits e
      → IsSound rt redact rows
      → IsSound rt redact (rows ++ meanwhile)
      → save_event rt redact meanwhile e rows
        ≡ elim (book rows e.tenant_id e.source e.idempotency_key) [
          | some x ↦ (ok (x, false), rows)
          | none ↦
              after_race
                (book (rows ++ meanwhile) e.tenant_id e.source e.idempotency_key)
                (any (same_id e) (rows ++ meanwhile))
        ]
  unfolding save_event insert_event flush_new
  save_event-raced f fits h k =
      let first = select_by_key-book rt redact e.tenant_id e.source e.idempotency_key rows h in
      let again =
        select_by_key-book rt redact e.tenant_id e.source e.idempotency_key (rows ++ meanwhile) k in
      elim (Option-cases (book rows e.tenant_id e.source e.idempotency_key)) [
        | inr (x, n) ↦ rw (first, n) refl
        | inl n ↦
            elim (Option-cases (book (rows ++ meanwhile) e.tenant_id e.source e.idempotency_key)) [
              | inr (x, m) ↦ ground (
                arith,
                first,
                n,
                again,
                m,
                any_of_find-some (same_key e) (rows ++ meanwhile) x m,
                refusal-Fits e (rows ++ meanwhile) fits,
              )
              | inl m ↦ ground (
                arith,
                f,
                first,
                n,
                again,
                m,
                any_of_find-none (same_key e) (rows ++ meanwhile) m,
                refusal-Fits e (rows ++ meanwhile) fits,
              )
            ]
      ]
