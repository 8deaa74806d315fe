-- ===== src/Event/Stored.antt =====
-- PostgresSecurityEventRepository and InMemorySecurityEventRepository of
-- src/core/infrastructure/db/repositories.py, with the constraints of SecurityEventModel in
-- src/core/infrastructure/db/models.py. The in-memory dictionary is the list of its values in
-- insertion order, each under its own event_id; the table is the list of its rows.
pub mod Fixed
pub mod Abstract
pub mod Saving
pub mod Sequences
pub mod Races
pub mod Pages
pub mod Ends
mod Examples
use prefeitura_anti_hack.Prelude.{
  ℕ, String, Bool, true, false, ◌&&◌, ◌||◌, Option, none, some, List, [], ◌∷◌, ◌++◌, any, filter,
  find, page, ltb, ◌==◌, str_eq, if◌then◌else◌,
}
use prefeitura_anti_hack.Prelude.Text.{length}
use prefeitura_anti_hack.Prelude.Python.{Exception, Result, ok, err, integrity_error, data_error}
use prefeitura_anti_hack.Prelude.Exec.{Exec, pure, raise, lift, gets, modify, ◌>>=◌, ◌>>◌}
use prefeitura_anti_hack.Prelude.Runtime.{Runtime}
use prefeitura_anti_hack.Correlation.Store.{scalar_one_or_none, is_event}
use prefeitura_anti_hack.Event.{SecurityEvent, new_event}

abbrev pub has_key : ℕ → String → String → SecurityEvent → Bool
has_key tenant source key e =
    e.tenant_id == tenant && (str_eq e.source source && str_eq e.idempotency_key key)

abbrev pub same_key : SecurityEvent → SecurityEvent → Bool
same_key e = has_key e.tenant_id e.source e.idempotency_key

abbrev pub same_id : SecurityEvent → SecurityEvent → Bool
same_id e x = x.event_id == e.event_id

-- self._events[event.event_id] = event
abbrev pub put : SecurityEvent → List SecurityEvent → List SecurityEvent
put e [] = e ∷ []
put e (x ∷ xs) = let rest = put e xs in if same_id e x then e ∷ xs else x ∷ rest

-- InMemorySecurityEventRepository.get_by_idempotency_key
unfoldable pub find_by_key : ℕ → String → String → List SecurityEvent → Option SecurityEvent
find_by_key tenant source key events = find (has_key tenant source key) events

abbrev pub store_new :
    SecurityEvent → Option SecurityEvent → Exec (List SecurityEvent) (SecurityEvent × Bool)
store_new e (some existing) = pure (existing, false)
store_new e none = do modify (put e); pure (e, true)

-- InMemorySecurityEventRepository.save
unfoldable pub save_in_memory : SecurityEvent → Exec (List SecurityEvent) (SecurityEvent × Bool)
unfolding find_by_key
save_in_memory e = do
  existing ← gets (find_by_key e.tenant_id e.source e.idempotency_key)
  store_new e existing

-- InMemorySecurityEventRepository.get_by_id
unfoldable pub find_by_id : ℕ → ℕ → List SecurityEvent → Option SecurityEvent
find_by_id event_id tenant events =
    elim (find (λ (e : SecurityEvent). e.event_id == event_id) events) [
      | none ↦ none
      | some e ↦ if e.tenant_id == tenant then some e else none
    ]

abbrev pub has_asset : Option ℕ → SecurityEvent → Bool
has_asset none e = true
has_asset (some a) e = elim e.asset_id [ none ↦ false | some b ↦ b == a ]

-- InMemorySecurityEventRepository.list
unfoldable pub list_in_memory : ℕ → ℕ → ℕ → Option ℕ → List SecurityEvent → List SecurityEvent
list_in_memory tenant skip limit asset events =
    page skip limit
      (filter (has_asset asset) (filter (λ (e : SecurityEvent). e.tenant_id == tenant) events))

-- the width of a column
abbrev pub exceeds : ℕ → String → Bool
exceeds width s = ltb width (length s)

-- what the database says to a new row: the widths of the columns, then the constraints
unfoldable pub refusal : SecurityEvent → List SecurityEvent → Option Exception
refusal e rows =
    if exceeds 64 e.source || (exceeds 64 e.event_type || exceeds 128 e.idempotency_key)
    then some data_error
    else if any (same_id e) rows || any (same_key e) rows
    then some integrity_error
    else none

-- `except IntegrityError`
abbrev pub is_integrity_error : Exception → Bool
is_integrity_error x = elim x [ integrity_error ↦ true | _ ↦ false ]

module _ (rt : Runtime) (redact : String → String) where
  -- PostgresSecurityEventRepository._to_entity
  abbrev pub to_entity : SecurityEvent → Result SecurityEvent
  to_entity = new_event rt redact

  abbrev pub optional_entity : Option SecurityEvent → Result (Option SecurityEvent)
  optional_entity none = ok none
  optional_entity (some m) = elim (to_entity m) [ ok e ↦ ok (some e) | err x ↦ err x ]

  -- PostgresSecurityEventRepository.get_by_idempotency_key
  unfoldable pub select_by_key :
      ℕ → String → String → Exec (List SecurityEvent) (Option SecurityEvent)
  select_by_key tenant source key = do
    rows ← gets (filter (has_key tenant source key))
    model ← lift (scalar_one_or_none rows)
    lift (optional_entity model)

  -- PostgresSecurityEventRepository.get_by_id
  unfoldable pub select_by_id : ℕ → ℕ → Exec (List SecurityEvent) (Option SecurityEvent)
  select_by_id event_id tenant = do
    rows ← gets (filter (is_event event_id tenant))
    model ← lift (scalar_one_or_none rows)
    lift (optional_entity model)

  abbrev pub existing_or_raise :
      Option SecurityEvent → Exec (List SecurityEvent) (SecurityEvent × Bool)
  existing_or_raise (some existing) = pure (existing, false)
  existing_or_raise none = raise integrity_error

  -- the end of the savepoint: the handler of IntegrityError reads the table again
  flush_new : SecurityEvent → Option Exception → Exec (List SecurityEvent) (SecurityEvent × Bool)
  unfolding select_by_key
  flush_new e none = do
    modify (λ rows. rows ++ e ∷ [])
    saved ← lift (to_entity e)
    pure (saved, true)
  flush_new e (some x) =
      if is_integrity_error x
      then (do
        found ← select_by_key e.tenant_id e.source e.idempotency_key
        existing_or_raise found)
      else raise x

  -- `meanwhile` are the rows that other transactions commit before the flush
  insert_event :
      List SecurityEvent
      → SecurityEvent
      → Option SecurityEvent
      → Exec (List SecurityEvent) (SecurityEvent × Bool)
  unfolding flush_new refusal
  insert_event meanwhile e (some existing) = pure (existing, false)
  insert_event meanwhile e none = do
    modify (λ rows. rows ++ meanwhile)
    refused ← gets (refusal e)
    flush_new e refused

  -- PostgresSecurityEventRepository.save
  unfoldable pub save_event :
      List SecurityEvent → SecurityEvent → Exec (List SecurityEvent) (SecurityEvent × Bool)
  unfolding insert_event select_by_key
  save_event meanwhile e = do
    existing ← select_by_key e.tenant_id e.source e.idempotency_key
    insert_event meanwhile e existing

  -- [self._to_entity(m) for m in models]
  unfoldable pub to_entities : List SecurityEvent → Result (List SecurityEvent)
  to_entities [] = ok []
  to_entities (m ∷ ms) = elim (to_entity m) [
    | err x ↦ err x
    | ok e ↦ elim (to_entities ms) [ ok es ↦ ok (e ∷ es) | err x ↦ err x ]
  ]

  -- PostgresSecurityEventRepository.list, with the order of its ORDER BY as a parameter
  unfoldable pub list_events :
      (List SecurityEvent → List SecurityEvent)
      → ℕ
      → ℕ
      → ℕ
      → Option ℕ
      → Exec (List SecurityEvent) (List SecurityEvent)
  unfolding to_entities
  list_events order_by_occurred_at tenant skip limit asset = do
    models ← gets (λ rows. page skip limit (
        order_by_occurred_at
          (filter (has_asset asset) (filter (λ (e : SecurityEvent). e.tenant_id == tenant) rows))))
    lift (to_entities models)
