-- ===== src/Outbox/Postgres.antt =====
-- PostgresOutboxRepository of src/core/infrastructure/db/repositories.py. The table is the list of
-- its rows. The order that `order_by(created_at)` gives the selected rows is a parameter, since the
-- database is free where two rows have the same time. Locks of other transactions are left out.
pub mod Agreement
pub mod Marking
use prefeitura_anti_hack.Prelude.{
  ℕ, suc, String, Bool, true, false, any, Option, none, some, List, [], ◌∷◌, map, take, filter,
  ◌++◌, ◌&&◌, ◌||◌, ◌==◌, str_eq, if◌then◌else◌,
}
use prefeitura_anti_hack.Prelude.Int.{ℤ}
use prefeitura_anti_hack.Prelude.Python.{Exception, Result, ok, err, data_error, integrity_error}
use prefeitura_anti_hack.Prelude.Exec.{Exec, pure, lift, gets, modify, ◌>>=◌, ◌>>◌}
use prefeitura_anti_hack.Domain.{utc}
use prefeitura_anti_hack.Correlation.Store.{scalar_one_or_none}
use prefeitura_anti_hack.Event.Stored.{exceeds}
use prefeitura_anti_hack.Outbox.{
  OutboxStatus, processing, OutboxEvent, new_outbox_event, is_id, after_seconds, can_claim,
  as_published, as_failed,
}

-- PostgresOutboxRepository._to_entity: the two times of the claim are not read back
unfoldable pub to_entity : OutboxEvent → Result OutboxEvent
to_entity model = new_outbox_event (record model { claimed_at = none; claim_expires_at = none })

abbrev pub collect : Result OutboxEvent → Result (List OutboxEvent) → Result (List OutboxEvent)
collect (ok e) (ok es) = ok (e ∷ es)
collect (ok e) (err x) = err x
collect (err x) rest = err x

-- [self._to_entity(model) for model in models]
unfoldable pub to_entities : List OutboxEvent → Result (List OutboxEvent)
to_entities [] = ok []
to_entities (m ∷ ms) = collect (to_entity m) (to_entities ms)

abbrev pub was_processing : OutboxStatus → Bool
was_processing s = elim s [ processing ↦ true | _ ↦ false ]

-- assignments to the one row of an identifier
abbrev pub update : ℕ → (OutboxEvent → OutboxEvent) → List OutboxEvent → List OutboxEvent
update i change rows = map (λ r. if is_id i r then change r else r) rows

abbrev pub same_message : OutboxEvent → OutboxEvent → Bool
same_message e x = x.tenant_id == e.tenant_id && str_eq x.idempotency_key e.idempotency_key

-- what the database says to a new row: the widths of the columns, then the primary key and the
-- constraint UNIQUE(tenant_id, idempotency_key)
unfoldable pub refusal : OutboxEvent → List OutboxEvent → Option Exception
refusal e rows =
    if exceeds 64 e.aggregate_type || (exceeds 64 e.event_type || exceeds 128 e.idempotency_key)
    then some data_error
    else if any (is_id e.outbox_event_id) rows || any (same_message e) rows
    then some integrity_error
    else none

-- PostgresOutboxRepository.save
unfoldable pub insert : OutboxEvent → Exec (List OutboxEvent) OutboxEvent
insert e rows = elim (refusal e rows) [
  | none ↦ (to_entity e, rows ++ e ∷ [])
  | some x ↦ (err x, rows)
]

module _ (now : ℤ) where
  -- the assignments to a selected row
  unfoldable pub claimed_row : ℕ → OutboxEvent → OutboxEvent
  claimed_row lease_seconds model = record model {
    status = processing;
    retry_count = if was_processing model.status then suc model.retry_count else model.retry_count;
    claimed_at = some (utc now);
    claim_expires_at = some (after_seconds now lease_seconds);
  }

  module _ (order_by_created_at : List OutboxEvent → List OutboxEvent) where
    abbrev pub selected : ℕ → List OutboxEvent → List OutboxEvent
    selected limit rows = take limit (order_by_created_at (filter (can_claim now) rows))

    -- PostgresOutboxRepository.fetch_pending_and_claim
    unfoldable pub fetch_and_claim : ℕ → ℕ → Exec (List OutboxEvent) (List OutboxEvent)
    fetch_and_claim limit lease_seconds = do
      models ← gets (selected limit)
      modify (
          map
            (λ r. if any (is_id r.outbox_event_id) models then claimed_row lease_seconds r else r))
      lift (to_entities (map (claimed_row lease_seconds) models))

  abbrev pub update_found :
      ℕ → (OutboxEvent → OutboxEvent) → Option OutboxEvent → Exec (List OutboxEvent) (Unit {0})
  update_found i change none = pure tt
  update_found i change (some model) = modify (update i change)

  -- PostgresOutboxRepository.mark_published
  unfoldable pub publish_row : ℕ → Exec (List OutboxEvent) (Unit {0})
  publish_row outbox_event_id = do
    found ← gets (λ rows. scalar_one_or_none (filter (is_id outbox_event_id) rows))
    model ← lift found
    update_found outbox_event_id (as_published now) model

  -- PostgresOutboxRepository.mark_failed
  unfoldable pub fail_row : ℕ → ℕ → ℕ → String → Exec (List OutboxEvent) (Unit {0})
  fail_row max_retries backoff_seconds outbox_event_id error_message = do
    found ← gets (λ rows. scalar_one_or_none (filter (is_id outbox_event_id) rows))
    model ← lift found
    update_found outbox_event_id (as_failed now max_retries backoff_seconds error_message) model
