-- ===== src/Correlation/Store.antt =====
-- The tables that the correlation engine reads and writes in one transaction, and its repositories
-- (src/core/infrastructure/db/repositories.py, src/core/infrastructure/db/models.py). `uuid4` is a
-- supply of numbers that are not used yet; the clock does not move during a transaction.
pub mod Saving
pub mod Scalars
pub mod Updating
pub mod Linking
pub mod Growth
pub mod Tenants
use prefeitura_anti_hack.Prelude.{
  ℕ, ◌+◌, ◌≡◌, String, Bool, true, false, not, ◌&&◌, ◌||◌, Option, none, some, List, [], ◌∷◌, ◌++◌,
  any, filter, map, ltb, ◌==◌, str_eq, if◌then◌else◌,
}
use mathlib.Core.Option
use prefeitura_anti_hack.Prelude.Int.{ℤ}
use prefeitura_anti_hack.Prelude.Text.{length}
use prefeitura_anti_hack.Prelude.Python.{
  Result, ok, err, multiple_results_found, no_result_found, integrity_error, data_error,
}
use prefeitura_anti_hack.Prelude.Exec.{
  Exec, pure, raise, lift, gets, modify, raise_when, ◌>>=◌, ◌>>◌,
}
use prefeitura_anti_hack.Prelude.Runtime.{Runtime}
use prefeitura_anti_hack.Domain.{TimeValue, utc}
use prefeitura_anti_hack.Correlation.Key.{instant}
use prefeitura_anti_hack.Incident.{
  IncidentStatus, open_, acknowledged, investigating, contained, resolved, closed, status_eq,
  active_incident_statuses, Incident, IncidentEvidence, IncidentStatusChange,
}
use prefeitura_anti_hack.Event.{SecurityEvent, new_event}

-- AuditLog of src/core/domain/entities.py
pub record AuditLog : Type 0 where
  pub tenant_id : ℕ
  pub source : String
  pub raw_data : String

-- A row of `incidents`; the evidence and the history of an incident are rows of other tables.
pub record IncidentModel : Type 0 where
  pub incident : Incident
  pub open incident use *
  pub correlation_key_hash : String

-- A row of `incident_status_history`
pub record IncidentStatusHistoryModel : Type 0 where
  pub change : IncidentStatusChange
  pub incident_id : ℕ
  pub tenant_id : ℕ

pub record Store : Type 0 where
  pub events : List SecurityEvent
  pub incidents : List IncidentModel
  pub evidences : List IncidentEvidence
  pub history : List IncidentStatusHistoryModel
  pub logs : List AuditLog
  pub next_id : ℕ
  pub now : ℤ

-- uuid4()
abbrev pub uuid4 : Exec Store ℕ
uuid4 s = (ok s.next_id, record s { next_id = s.next_id + 1 })

-- Result.scalar_one_or_none of the rows that a query selects
abbrev pub scalar_one_or_none {ℓ} : {A : Type ℓ} → List A → Result (Option A)
scalar_one_or_none [] = ok none
scalar_one_or_none (x ∷ []) = ok (some x)
scalar_one_or_none (x ∷ y ∷ xs) = err multiple_results_found

-- Result.scalar_one
abbrev pub scalar_one {ℓ} : {A : Type ℓ} → List A → Result A
scalar_one [] = err no_result_found
scalar_one (x ∷ []) = ok x
scalar_one (x ∷ y ∷ xs) = err multiple_results_found

-- IncidentModel.status.in_(active_values)
abbrev pub is_active : IncidentStatus → Bool
is_active status = any (status_eq status) active_incident_statuses

-- PostgresIncidentRepository._to_entity. A column TIMESTAMP WITH TIME ZONE holds an instant and is
-- read in UTC, which the constructor of Incident accepts; it tests nothing else.
abbrev pub to_entity : IncidentModel → Incident
to_entity m = record m.incident {
  created_at = utc (instant m.created_at);
  updated_at = utc (instant m.updated_at);
  evidences = [];
  audit_history = [];
}

abbrev pub opens : ℕ → String → IncidentModel → Bool
opens tenant key_hash m =
    m.tenant_id == tenant && (str_eq m.correlation_key_hash key_hash && is_active m.status)

abbrev pub is_event : ℕ → ℕ → SecurityEvent → Bool
is_event event_id tenant e = e.event_id == event_id && e.tenant_id == tenant

-- PostgresSecurityEventRepository._to_entity of the row that was found: the constructor runs again
abbrev pub loaded_event :
    Runtime → (String → String) → Option SecurityEvent → Result (Option SecurityEvent)
loaded_event rt redact none = ok none
loaded_event rt redact (some m) = elim (new_event rt redact m) [
  | ok e ↦ ok (some e)
  | err x ↦ err x
]

-- PostgresSecurityEventRepository.get_by_id
unfoldable pub get_event_by_id :
    Runtime → (String → String) → ℕ → ℕ → Exec Store (Option SecurityEvent)
get_event_by_id rt redact event_id tenant = do
  rows ← gets (λ s. filter (is_event event_id tenant) s.events)
  model ← lift (scalar_one_or_none rows)
  lift (loaded_event rt redact model)

-- PostgresIncidentRepository.find_open_by_correlation_key
unfoldable pub find_open_by_correlation_key : ℕ → String → Exec Store (Option Incident)
find_open_by_correlation_key tenant key_hash = do
  rows ← gets (λ s. filter (opens tenant key_hash) s.incidents)
  model ← lift (scalar_one_or_none rows)
  pure (Option.map to_entity model)

-- The partial unique index of `incidents`: status NOT IN ('resolved', 'closed')
abbrev pub in_active_index : IncidentStatus → Bool
in_active_index resolved = false
in_active_index closed = false
in_active_index open_ = true
in_active_index acknowledged = true
in_active_index investigating = true
in_active_index contained = true

-- Whether the primary key or the partial unique index refuses a new row.
unfoldable pub incident_conflict : IncidentModel → List IncidentModel → Bool
incident_conflict new rows =
    any (λ (m : IncidentModel). m.incident_id == new.incident_id) rows
    || in_active_index new.status
      && any
          (λ (m : IncidentModel).
            m.tenant_id == new.tenant_id
            && (str_eq m.correlation_key_hash new.correlation_key_hash && in_active_index m.status))
          rows

-- the loop over `incident.audit_history`: a change that is stored already is not stored again, and
-- the column actor_id takes 128 characters
unfoldable pub save_history : Incident → List IncidentStatusChange → Exec Store (Unit {0})
save_history incident [] = pure tt
save_history incident (c ∷ cs) = do
  stored ←
      gets (λ s.
        any (λ (h : IncidentStatusHistoryModel). h.change.history_id == c.history_id) s.history)
  raise_when (not stored && ltb 128 (length c.actor_id)) data_error
  modify (λ s. if stored then s else record s {
    history =
        s.history
        ++ record { change = c; incident_id = incident.incident_id; tenant_id = incident.tenant_id }
          ∷ [];
  })
  save_history incident cs

-- the columns that an update of an existing row writes
abbrev pub updated : Incident → IncidentModel → IncidentModel
updated i m = record m {
  incident = record m.incident {
    title = i.title;
    description = i.description;
    severity = i.severity;
    status = i.status;
    updated_at = i.updated_at;
  };
}

abbrev pub same_incident : Incident → IncidentModel → Bool
same_incident i m = m.incident_id == i.incident_id && m.tenant_id == i.tenant_id

-- what `save` returns on a conflict with a row that another transaction has stored
abbrev pub or_raise : Option Incident → Exec Store Incident
or_raise (some existing) = pure existing
or_raise none = raise integrity_error

module _ (rt : Runtime) where
  abbrev pub new_model : Incident → IncidentModel
  new_model i = record { incident = i; correlation_key_hash = rt.sha256 i.correlation_key }

  insert_incident : Incident → Exec Store Incident
  unfolding incident_conflict save_history find_open_by_correlation_key
  insert_incident i = do
    rows ← gets (λ s. s.incidents)
    if incident_conflict (new_model i) rows
        then (do
          existing ← find_open_by_correlation_key i.tenant_id (rt.sha256 i.correlation_key)
          or_raise existing)
        else (do
          modify (λ s. record s { incidents = s.incidents ++ new_model i ∷ [] })
          save_history i i.audit_history
          pure (to_entity (new_model i)))

  update_incident : Incident → IncidentModel → Exec Store Incident
  unfolding save_history
  update_incident i m = do
    modify (λ s. record s {
      incidents = map (λ x. if same_incident i x then updated i x else x) s.incidents;
    })
    save_history i i.audit_history
    pure (to_entity (updated i m))

  upsert_incident : Incident → Option IncidentModel → Exec Store Incident
  unfolding insert_incident update_incident
  upsert_incident i none = insert_incident i
  upsert_incident i (some m) = update_incident i m

  -- PostgresIncidentRepository.save
  unfoldable pub save_incident : Incident → Exec Store Incident
  unfolding upsert_incident
  save_incident i = do
    rows ← gets (λ s. filter (same_incident i) s.incidents)
    model ← lift (scalar_one_or_none rows)
    upsert_incident i model

abbrev pub is_evidence : ℕ → ℕ → ℕ → IncidentEvidence → Bool
is_evidence incident event tenant e =
    e.incident_id == incident && (e.event_id == event && e.tenant_id == tenant)

-- PostgresIncidentEvidenceRepository.exists
unfoldable pub evidence_exists : ℕ → ℕ → ℕ → Exec Store Bool
evidence_exists incident event tenant = do
  rows ← gets (λ s. filter (is_evidence incident event tenant) s.evidences)
  found ← lift (scalar_one_or_none rows)
  pure (elim found [ none ↦ false | some _ ↦ true ])

select_evidence : IncidentEvidence → Exec Store IncidentEvidence
select_evidence e = do
  rows ← gets (λ s. filter (is_evidence e.incident_id e.event_id e.tenant_id) s.evidences)
  lift (scalar_one rows)

-- the constraint UNIQUE(incident_id, event_id)
abbrev pub same_pair : IncidentEvidence → IncidentEvidence → Bool
same_pair e x = x.incident_id == e.incident_id && x.event_id == e.event_id

-- PostgresIncidentEvidenceRepository.save
unfoldable pub save_evidence : IncidentEvidence → Exec Store IncidentEvidence
unfolding evidence_exists select_evidence
save_evidence e = do
  already_exists ← evidence_exists e.incident_id e.event_id e.tenant_id
  rows ← gets (λ s. s.evidences)
  if already_exists || any (same_pair e) rows
      then select_evidence e
      else (do modify (λ s. record s { evidences = s.evidences ++ e ∷ [] }); pure e)

-- PostgresLogRepository.save
abbrev pub save_log : AuditLog → Exec Store (Unit {0})
save_log log = modify (λ s. record s { logs = s.logs ++ log ∷ [] })
