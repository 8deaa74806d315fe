-- ===== src/Outbox.antt =====
-- The transactional outbox: OutboxEvent of src/core/domain/outbox.py and InMemoryOutboxRepository
-- of src/core/infrastructure/db/repositories.py. The repository's dictionary is the list of its
-- values in insertion order, each under its own outbox_event_id.
mod Examples
pub mod Claims
pub mod Selection
pub mod Marks
pub mod Message
pub mod Postgres
pub mod Dispatcher
use prefeitura_anti_hack.Prelude.{
  ℕ, suc, ◌+◌, ◌-◌, ◌*◌, ◌^◌, String, Bool, true, false, ◌||◌, Option, none, some, List, [], ◌∷◌,
  ◌++◌, length, find, leb, ◌==◌, if◌then◌else◌,
}
use prefeitura_anti_hack.Prelude.Int.{ℤ, plus, leb_ℤ}
use prefeitura_anti_hack.Prelude.Text.{is_blank, prefix}
use prefeitura_anti_hack.Prelude.Python.{Result, ok, domain_error, raise_if, checked, validations}
use prefeitura_anti_hack.Prelude.Exec.{Exec, pure, lift, gets, modify, ◌>>=◌, ◌>>◌}
use prefeitura_anti_hack.Domain.{TimeValue, utc, validate_utc_datetime}
use prefeitura_anti_hack.Sanitize.{Fields}
use prefeitura_anti_hack.Correlation.Key.{instant}

-- The texts that the constructor accepts as a status, and any other.
pub data OutboxStatus : Type 0 where
  pending : OutboxStatus
  processing : OutboxStatus
  published : OutboxStatus
  failed : OutboxStatus
  unknown : String → OutboxStatus

pub record OutboxEvent : Type 0 where
  pub tenant_id : ℕ
  pub aggregate_type : String
  pub aggregate_id : ℕ
  pub event_type : String
  pub payload : Fields
  pub idempotency_key : String
  pub outbox_event_id : ℕ
  pub status : OutboxStatus
  pub retry_count : ℕ
  pub next_retry_at : Option TimeValue
  pub created_at : TimeValue
  pub published_at : Option TimeValue
  pub claimed_at : Option TimeValue
  pub claim_expires_at : Option TimeValue
  pub last_error : Option String

abbrev pub is_unknown : OutboxStatus → Bool
is_unknown s = elim s [ unknown _ ↦ true | _ ↦ false ]

abbrev pub validate_optional : Option TimeValue → Result (Unit {0})
validate_optional none = ok tt
validate_optional (some t) = validate_utc_datetime t

abbrev pub lacks_text : OutboxEvent → Bool
lacks_text e = is_blank e.aggregate_type || is_blank e.event_type || is_blank e.idempotency_key

-- the validations of __post_init__, in their order
abbrev pub checks : OutboxEvent → List (Result (Unit {0}))
checks e =
    raise_if (lacks_text e) domain_error
    ∷ raise_if (is_unknown e.status) domain_error
    ∷ validate_utc_datetime e.created_at
    ∷ validate_optional e.next_retry_at
    ∷ validate_optional e.published_at
    ∷ validate_optional e.claimed_at
    ∷ validate_optional e.claim_expires_at
    ∷ []

-- OutboxEvent.__post_init__
unfoldable pub new_outbox_event : OutboxEvent → Result OutboxEvent
new_outbox_event e = checked (validations (checks e)) e

abbrev pub is_id : ℕ → OutboxEvent → Bool
is_id i e = e.outbox_event_id == i

-- self.events[u.outbox_event_id] = u
abbrev pub put : OutboxEvent → List OutboxEvent → List OutboxEvent
put u [] = u ∷ []
put u (e ∷ es) = let rest = put u es in if is_id u.outbox_event_id e then u ∷ es else e ∷ rest

-- InMemoryOutboxRepository.save
abbrev pub save : OutboxEvent → Exec (List OutboxEvent) OutboxEvent
save e events = (ok e, put e events)

abbrev pub due : Option TimeValue → ℤ → Bool
due none now = false
due (some t) now = leb_ℤ (instant t) now

abbrev pub after_seconds : ℤ → ℕ → TimeValue
after_seconds now seconds = utc (plus now (seconds * 1000000))

module _ (now : ℤ) where
  abbrev pub is_lease_expired : OutboxEvent → Bool
  is_lease_expired e = elim e.status [ processing ↦ due e.claim_expires_at now | _ ↦ false ]

  -- is_pending or is_failed_eligible or is_lease_expired
  unfoldable pub can_claim : OutboxEvent → Bool
  can_claim e = elim e.status [
    | pending ↦ true
    | failed ↦ due e.next_retry_at now
    | processing ↦ due e.claim_expires_at now
    | _ ↦ false
  ]

  -- what fetch_pending_and_claim makes of an event
  unfoldable pub claimed : ℕ → OutboxEvent → OutboxEvent
  claimed lease_seconds e = record e {
    status = processing;
    retry_count = if is_lease_expired e then suc e.retry_count else e.retry_count;
    claimed_at = some (utc now);
    claim_expires_at = some (after_seconds now lease_seconds);
  }

  claim_loop :
      ℕ → ℕ → List OutboxEvent → List OutboxEvent → Exec (List OutboxEvent) (List OutboxEvent)
  claim_loop limit lease_seconds [] taken = pure taken
  claim_loop limit lease_seconds (e ∷ es) taken =
      let rest = claim_loop limit lease_seconds es in
      if leb limit (length taken)
      then pure taken
      else if can_claim e
      then (do
        updated ← lift (new_outbox_event (claimed lease_seconds e))
        modify (put updated)
        rest (taken ++ updated ∷ []))
      else rest taken

  -- InMemoryOutboxRepository.fetch_pending_and_claim
  unfoldable pub fetch_pending_and_claim : ℕ → ℕ → Exec (List OutboxEvent) (List OutboxEvent)
  unfolding claim_loop
  fetch_pending_and_claim limit lease_seconds events =
      claim_loop limit lease_seconds events [] events

  -- what mark_published makes of an event
  unfoldable pub as_published : OutboxEvent → OutboxEvent
  as_published e = record e {
    status = published;
    claim_expires_at = none;
    published_at = some (utc now);
  }

  -- `self.events[outbox_event_id] = change(evt)` if there is such an event
  abbrev pub replace :
      (OutboxEvent → OutboxEvent) → Option OutboxEvent → Exec (List OutboxEvent) (Unit {0})
  replace change none = pure tt
  replace change (some e) = do updated ← lift (new_outbox_event (change e)); modify (put updated)

  -- InMemoryOutboxRepository.mark_published
  unfoldable pub mark_published : ℕ → Exec (List OutboxEvent) (Unit {0})
  mark_published outbox_event_id = do
    found ← gets (find (is_id outbox_event_id))
    replace as_published found

  module _ (max_retries backoff_seconds : ℕ) where
    -- what mark_failed makes of an event
    unfoldable pub as_failed : String → OutboxEvent → OutboxEvent
    as_failed error_message e =
        let new_retries = suc e.retry_count in
        record e {
          status = failed;
          retry_count = new_retries;
          next_retry_at =
              if leb max_retries new_retries
              then none
              else some (after_seconds now (backoff_seconds * 2 ^ (new_retries - 1)));
          claim_expires_at = none;
          last_error = some (prefix 1024 error_message);
        }

    -- InMemoryOutboxRepository.mark_failed
    unfoldable pub mark_failed : ℕ → String → Exec (List OutboxEvent) (Unit {0})
    mark_failed outbox_event_id error_message = do
      found ← gets (find (is_id outbox_event_id))
      replace (as_failed error_message) found
