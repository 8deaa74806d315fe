-- ===== src/Correlation/Handler.antt =====
-- src/core/application/correlation_handler.py: CorrelateSecurityEventHandler.
pub mod Runs
pub mod Steps
pub mod Loop
pub mod Replay
pub mod Zero
pub mod Redelivery
use prefeitura_anti_hack.Prelude.{
  ℕ, ◌≡◌, String, Bool, true, false, not, Option, none, some, List, [], ◌∷◌, if◌then◌else◌,
}
use prefeitura_anti_hack.Prelude.Int.{ℤ}
use prefeitura_anti_hack.Prelude.Text.{fstring}
use prefeitura_anti_hack.Prelude.Python
use prefeitura_anti_hack.Prelude.Python.{Result, ok, err}
use prefeitura_anti_hack.Prelude.Exec.{Exec, pure, lift, gets, modify, ◌>>=◌, ◌>>◌}
use prefeitura_anti_hack.Prelude.Runtime.{Runtime}
use prefeitura_anti_hack.Domain.{utc}
use prefeitura_anti_hack.Sanitize.{sanitize_payload}
use prefeitura_anti_hack.Incident.{
  severity_value, SecurityEventSeverity, info, low, medium, high, critical, Incident,
  IncidentEvidence, open_, new_incident,
}
use prefeitura_anti_hack.Event.{SecurityEvent}
use prefeitura_anti_hack.Correlation.Key.{
  CorrelationKey, new_key, asset_key_of, bucket_text, compute_time_bucket, to_hash,
  to_canonical_string,
}
use prefeitura_anti_hack.Correlation.Rules.{
  CorrelationRule, rule_id, rule_name, version, category, is_eligible,
}
use prefeitura_anti_hack.Correlation.Store.{
  Store, AuditLog, uuid4, get_event_by_id, find_open_by_correlation_key, save_incident,
  evidence_exists, save_evidence, save_log,
}

-- class CorrelationResultItem
pub record CorrelationResultItem : Type 0 where
  pub incident : Incident
  pub is_new_incident : Bool
  pub is_new_evidence : Bool
  pub rule : String

module _ (rt : Runtime) (redact : String → String) (window_seconds : ℕ) where
  -- the key of a rule and an event in a bucket
  abbrev pub key_in : CorrelationRule → SecurityEvent → String → CorrelationKey
  key_in rule event time_window = record {
    tenant_id = event.tenant_id;
    rule_id = rule_id rule;
    rule_version = version rule;
    asset_key = asset_key_of rt event;
    category = category rule;
    time_window = time_window;
  }

  unfoldable pub correlation_key : CorrelationRule → SecurityEvent → CorrelationKey
  correlation_key rule event = key_in rule event (bucket_text rt event.occurred_at window_seconds)

  -- _build_correlation_key
  unfoldable pub build_correlation_key : CorrelationRule → SecurityEvent → Result CorrelationKey
  build_correlation_key rule event =
      Python.◌>>=◌ (compute_time_bucket rt event.occurred_at window_seconds)
        (λ time_window. new_key (key_in rule event time_window))

  title : CorrelationRule → SecurityEvent → String
  title rule event =
      fstring ("[" ∷ rule_id rule ∷ "] " ∷ rule_name rule ∷ " — " ∷ event.event_type ∷ [])

  description : CorrelationRule → SecurityEvent → String
  description rule event = fstring (
      "Incidente gerado automaticamente pela regra '"
      ∷ rule_name rule
      ∷ "' (v"
      ∷ version rule
      ∷ ") para o evento '"
      ∷ event.event_type
      ∷ "' da fonte '"
      ∷ event.source
      ∷ "'."
      ∷ [])

  -- the audit record of step 4a
  unfoldable pub creation_log : ℕ → CorrelationRule → ℕ → ℕ → String → AuditLog
  creation_log tenant rule incident event key_hash = record {
    tenant_id = tenant;
    source = "CorrelationEngine";
    raw_data = fstring (
        "Incident created. incident_id="
        ∷ rt.uuid_text incident
        ∷ " rule_id="
        ∷ rule_id rule
        ∷ " event_id="
        ∷ rt.uuid_text event
        ∷ " correlation_key_hash="
        ∷ key_hash
        ∷ []);
  }

  unfoldable pub created_incident :
      ℕ → CorrelationRule → SecurityEvent → CorrelationKey → ℕ → ℤ → Incident
  unfolding title description
  created_incident tenant rule event key new_id now = record {
    incident_id = new_id;
    tenant_id = tenant;
    title = title rule event;
    description = description rule event;
    severity = event.severity;
    status = open_;
    correlation_key = to_canonical_string rt key;
    created_at = utc now;
    updated_at = utc now;
    evidences = [];
    audit_history = [];
  }

  -- step 4a: the incident of the key, created if it is not there
  unfoldable pub find_or_create :
      ℕ
      → ℕ
      → CorrelationRule
      → SecurityEvent
      → CorrelationKey
      → Option Incident
      → Exec Store (Incident × Bool)
  unfolding new_incident creation_log
  find_or_create tenant event_id rule event key (some existing) = pure (existing, false)
  find_or_create tenant event_id rule event key none = do
    now ← gets (λ s. s.now)
    new_id ← uuid4
    incident ← lift (new_incident (created_incident tenant rule event key new_id now))
    saved ← save_incident rt incident
    save_log (creation_log tenant rule saved.incident_id event_id (to_hash rt key))
    pure (saved, true)

  evidence_description : CorrelationRule → SecurityEvent → String
  evidence_description rule event = fstring (
      "Evento '"
      ∷ event.event_type
      ∷ "' (source="
      ∷ event.source
      ∷ ", severity="
      ∷ severity_value event.severity
      ∷ ") vinculado pela regra "
      ∷ rule_id rule
      ∷ "."
      ∷ [])

  unfoldable pub event_evidence :
      ℕ → ℕ → CorrelationRule → SecurityEvent → Incident → ℕ → ℤ → IncidentEvidence
  unfolding evidence_description
  event_evidence tenant event_id rule event incident new_id now = record {
    evidence_id = new_id;
    incident_id = incident.incident_id;
    event_id = event_id;
    tenant_id = tenant;
    evidence_hash = event.evidence_hash;
    added_at = utc now;
    description = evidence_description rule event;
    raw_payload_masked = sanitize_payload rt.lower redact event.payload;
  }

  -- steps 4b and 4c: the evidence of the event
  unfoldable pub link_evidence :
      ℕ → ℕ → CorrelationRule → SecurityEvent → Incident → Exec Store Bool
  link_evidence tenant event_id rule event incident = do
    exists ← evidence_exists incident.incident_id event_id tenant
    new_id ← uuid4
    now ← gets (λ s. s.now)
    save_evidence (event_evidence tenant event_id rule event incident new_id now)
    pure (not exists)

  -- the body of the loop, for a rule that is eligible
  unfoldable pub correlate :
      ℕ → ℕ → CorrelationRule → SecurityEvent → Exec Store CorrelationResultItem
  correlate tenant event_id rule event = do
    key ← lift (build_correlation_key rule event)
    existing ← find_open_by_correlation_key tenant (to_hash rt key)
    found ← find_or_create tenant event_id rule event key existing
    is_new_evidence ← link_evidence tenant event_id rule event found.0
    pure (record {
      incident = found.0;
      is_new_incident = found.1;
      is_new_evidence = is_new_evidence;
      rule = rule_id rule;
    })

  -- the loop over the rules
  unfoldable pub correlate_rules :
      ℕ → ℕ → SecurityEvent → List CorrelationRule → Exec Store (List CorrelationResultItem)
  correlate_rules tenant event_id event [] = pure []
  correlate_rules tenant event_id event (rule ∷ rules) =
      let rest = correlate_rules tenant event_id event rules in
      if is_eligible rt rule event
      then (do item ← correlate tenant event_id rule event; items ← rest; pure (item ∷ items))
      else rest

  on_event :
      ℕ → ℕ → List CorrelationRule → Option SecurityEvent → Exec Store (List CorrelationResultItem)
  on_event tenant event_id rules none = pure []
  on_event tenant event_id rules (some event) = correlate_rules tenant event_id event rules

  -- CorrelateSecurityEventHandler.handle
  unfoldable pub handle : List CorrelationRule → ℕ → ℕ → Exec Store (List CorrelationResultItem)
  unfolding on_event
  handle rules tenant event_id = do
    event ← get_event_by_id rt redact event_id tenant
    on_event tenant event_id rules event
