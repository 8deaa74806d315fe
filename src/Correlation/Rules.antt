-- ===== src/Correlation/Rules.antt =====
-- src/core/infrastructure/correlation/rules.py: the two rules and their catalogue.
pub mod Eligibility
use prefeitura_anti_hack.Prelude.{
  ℕ, ◌≡◌, String, Bool, true, false, ◌||◌, List, [], ◌∷◌, any, if◌then◌else◌,
}
use prefeitura_anti_hack.Prelude.Text.{contains}
use prefeitura_anti_hack.Prelude.Python.{Result, ok, err, ◌>>=◌}
use prefeitura_anti_hack.Prelude.Runtime.{Runtime}
use prefeitura_anti_hack.Incident.{SecurityEventSeverity, info, low, medium, high, critical}
use prefeitura_anti_hack.Event.{SecurityEvent}
use prefeitura_anti_hack.Correlation.Key.{CorrelationKey, new_key, asset_key_of}

-- The subclasses of CorrelationRule.
pub data CorrelationRule : Type 0 where
  infra_availability auth_brute_force : CorrelationRule

unfoldable pub rule_id : CorrelationRule → String
rule_id infra_availability = "R-INFRA-001"
rule_id auth_brute_force = "R-AUTH-001"

unfoldable pub rule_name : CorrelationRule → String
rule_name infra_availability = "Disponibilidade de Infraestrutura"
rule_name auth_brute_force = "Força Bruta de Autenticação"

unfoldable pub version : CorrelationRule → String
version infra_availability = "1.0.0"
version auth_brute_force = "1.0.0"

unfoldable pub category : CorrelationRule → String
category infra_availability = "availability"
category auth_brute_force = "authentication"

abbrev pub infra_keywords : List String
infra_keywords = "down" ∷ "unreachable" ∷ "timeout" ∷ "failure" ∷ "unavailable" ∷ []

abbrev pub auth_keywords : List String
auth_keywords = "login_failed" ∷ "auth_failure" ∷ "brute_force" ∷ "invalid_credentials" ∷ []

-- event.severity in high_severities
abbrev pub is_high : SecurityEventSeverity → Bool
is_high high = true
is_high critical = true
is_high info = false
is_high low = false
is_high medium = false

module _ (rt : Runtime) where
  abbrev pub mentions : List String → SecurityEvent → Bool
  mentions keywords event = any (λ kw. contains kw (rt.lower event.event_type)) keywords

  -- InfraAvailabilityRule.is_eligible, AuthBruteForceRule.is_eligible
  unfoldable pub is_eligible : CorrelationRule → SecurityEvent → Bool
  is_eligible infra_availability event = mentions infra_keywords event || is_high event.severity
  is_eligible auth_brute_force event = mentions auth_keywords event

  -- the key that `evaluate` makes, with the window left to the handler
  pub placeholder_key : CorrelationRule → SecurityEvent → CorrelationKey
  placeholder_key rule event = record {
    tenant_id = event.tenant_id;
    rule_id = rule_id rule;
    rule_version = version rule;
    asset_key = asset_key_of rt event;
    category = category rule;
    time_window = "placeholder";
  }

  -- InfraAvailabilityRule.evaluate
  unfoldable pub evaluate_infra : List SecurityEvent → Result (List CorrelationKey)
  unfolding placeholder_key
  evaluate_infra [] = ok []
  evaluate_infra (event ∷ events) =
      let rest = evaluate_infra events in
      let is_type_eligible = mentions infra_keywords event in
      let is_severity_eligible = is_high event.severity in
      if is_type_eligible || is_severity_eligible
      then (do
        key ← new_key (placeholder_key infra_availability event)
        keys ← rest
        ok (key ∷ keys))
      else rest

  -- AuthBruteForceRule.evaluate
  unfoldable pub evaluate_auth : List SecurityEvent → Result (List CorrelationKey)
  unfolding placeholder_key
  evaluate_auth [] = ok []
  evaluate_auth (event ∷ events) =
      let rest = evaluate_auth events in
      if mentions auth_keywords event
      then (do key ← new_key (placeholder_key auth_brute_force event); keys ← rest; ok (key ∷ keys))
      else rest

  unfoldable pub evaluate : CorrelationRule → List SecurityEvent → Result (List CorrelationKey)
  unfolding evaluate_infra evaluate_auth
  evaluate infra_availability events = evaluate_infra events
  evaluate auth_brute_force events = evaluate_auth events

-- list(AVAILABLE_RULES.values()), the rules of every tenant
abbrev pub get_rules_for_tenant : ℕ → List CorrelationRule
get_rules_for_tenant tenant_id = infra_availability ∷ auth_brute_force ∷ []
