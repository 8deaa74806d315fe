-- ===== src/Incident.antt =====
-- src/core/domain/incidents.py: the incident aggregate, its state machine and its evidence.
-- The annotated types of the fields are taken as given, so the `isinstance` checks pass.
pub mod Transitions
pub mod History
pub mod Isolation
mod Examples
use prefeitura_anti_hack.Prelude.{
  ℕ, ◌≡◌, String, Bool, true, false, not, Option, none, some, List, [], ◌∷◌, ◌++◌, any, ◌==◌,
}
use prefeitura_anti_hack.Prelude.Text.{is_blank}
use prefeitura_anti_hack.Prelude.Int.{ℤ}
use prefeitura_anti_hack.Prelude.Python
use prefeitura_anti_hack.Prelude.Python.{
  Result, ok, err, checked, domain_error, invalid_status_transition,
}
use prefeitura_anti_hack.Prelude.Exec.{
  Exec, pure, raise, lift, gets, modify, raise_when, ◌>>=◌, ◌>>◌,
}
use prefeitura_anti_hack.Sanitize.{Fields}
use prefeitura_anti_hack.Domain.{TimeValue, utc, validate_utc_datetime}

-- class IncidentStatus(StrEnum)
pub data IncidentStatus : Type 0 where
  open_ acknowledged investigating contained resolved closed : IncidentStatus

-- class SecurityEventSeverity(StrEnum)
pub data SecurityEventSeverity : Type 0 where
  info low medium high critical : SecurityEventSeverity

-- SecurityEventSeverity.value
abbrev pub severity_value : SecurityEventSeverity → String
severity_value info = "INFO"
severity_value low = "LOW"
severity_value medium = "MEDIUM"
severity_value high = "HIGH"
severity_value critical = "CRITICAL"

-- The position of a status in the life cycle.
abbrev pub position : IncidentStatus → ℕ
position open_ = 0
position acknowledged = 1
position investigating = 2
position contained = 3
position resolved = 4
position closed = 5

-- Equality of two members.
abbrev pub status_eq : IncidentStatus → IncidentStatus → Bool
status_eq a b = position a == position b

-- ACTIVE_INCIDENT_STATUSES
abbrev pub active_incident_statuses : List IncidentStatus
active_incident_statuses = open_ ∷ acknowledged ∷ investigating ∷ contained ∷ []

-- ALLOWED_STATUS_TRANSITIONS
abbrev pub allowed_status_transitions : IncidentStatus → List IncidentStatus
allowed_status_transitions open_ = acknowledged ∷ []
allowed_status_transitions acknowledged = investigating ∷ []
allowed_status_transitions investigating = contained ∷ []
allowed_status_transitions contained = resolved ∷ []
allowed_status_transitions resolved = closed ∷ []
allowed_status_transitions closed = []

-- class IncidentEvidence
pub record IncidentEvidence : Type 0 where
  pub evidence_id : ℕ
  pub incident_id : ℕ
  pub event_id : ℕ
  pub tenant_id : ℕ
  pub evidence_hash : String
  pub added_at : TimeValue
  pub description : String
  pub raw_payload_masked : Fields

-- class IncidentStatusChange
pub record IncidentStatusChange : Type 0 where
  pub from_status : IncidentStatus
  pub to_status : IncidentStatus
  pub actor_id : String
  pub reason : String
  pub timestamp : TimeValue
  pub history_id : ℕ

-- class Incident
pub record Incident : Type 0 where
  pub incident_id : ℕ
  pub tenant_id : ℕ
  pub title : String
  pub description : String
  pub severity : SecurityEventSeverity
  pub status : IncidentStatus
  pub correlation_key : String
  pub created_at : TimeValue
  pub updated_at : TimeValue
  pub evidences : List IncidentEvidence
  pub audit_history : List IncidentStatusChange

-- Incident.__post_init__
unfoldable pub new_incident : Incident → Result Incident
unfolding validate_utc_datetime
new_incident i =
    checked (Python.◌>>◌ (validate_utc_datetime i.created_at) (validate_utc_datetime i.updated_at))
      i

-- IncidentStatusChange.__post_init__
new_status_change : IncidentStatusChange → Result IncidentStatusChange
new_status_change c = checked (validate_utc_datetime c.timestamp) c

abbrev pub or_now : Option TimeValue → ℤ → TimeValue
or_now none now = utc now
or_now (some ts) now = ts

-- The arguments of a call of `transition_to`, with what `datetime.now` and `uuid4` return in it.
pub record TransitionArgs : Type 0 where
  pub new_status : IncidentStatus
  pub actor_id : String
  pub reason : String
  pub timestamp : Option TimeValue
  pub now : ℤ
  pub history_id : ℕ

-- Incident.transition_to
unfoldable pub transition_to : TransitionArgs → Exec Incident (Unit {0})
unfolding new_status_change validate_utc_datetime
transition_to a = do
  raise_when (is_blank a.actor_id) domain_error
  raise_when (is_blank a.reason) domain_error
  status ← gets (λ i. i.status)
  raise_when (not (any (status_eq a.new_status) (allowed_status_transitions status)))
      invalid_status_transition
  let ts = or_now a.timestamp a.now
  lift (validate_utc_datetime ts)
  change_record ← lift (
      new_status_change (record {
        from_status = status;
        to_status = a.new_status;
        actor_id = a.actor_id;
        reason = a.reason;
        timestamp = ts;
        history_id = a.history_id;
      }))
  modify (λ i. record i { audit_history = i.audit_history ++ change_record ∷ [] })
  modify (λ i. record i { status = a.new_status })
  modify (λ i. record i { updated_at = ts })

-- Incident.add_evidence, at the time `now`
unfoldable pub add_evidence : IncidentEvidence → ℤ → Exec Incident (Unit {0})
add_evidence evidence now = do
  tenant ← gets (λ i. i.tenant_id)
  raise_when (not (evidence.tenant_id == tenant)) domain_error
  modify (λ i. record i { evidences = i.evidences ++ evidence ∷ [] })
  modify (λ i. record i { updated_at = utc now })

-- A call of a method, and a sequence of calls whose exceptions the caller handles.
pub data IncidentCall : Type 0 where
  transition : TransitionArgs → IncidentCall
  evidence : IncidentEvidence → ℤ → IncidentCall

unfoldable pub call : IncidentCall → Exec Incident (Unit {0})
call (transition a) = transition_to a
call (evidence e now) = add_evidence e now

unfoldable pub calls : Incident → List IncidentCall → Incident
calls i [] = i
calls i (c ∷ cs) = calls (call c i).1 cs
