-- ===== src/Incident/Examples.antt =====
-- Runs of the incident aggregate, and the theorems at concrete incidents.
use prefeitura_anti_hack.Prelude.{ℕ, ◌≡◌, refl, String, none, List, [], ◌∷◌}
use prefeitura_anti_hack.Prelude.Int.{pos}
use prefeitura_anti_hack.Prelude.Text.{is_blank}
use prefeitura_anti_hack.Prelude.Python.{err, domain_error, invalid_status_transition}
use prefeitura_anti_hack.Sanitize.{end}
use prefeitura_anti_hack.Domain.{utc}
use prefeitura_anti_hack.Incident.{
  IncidentStatus, open_, acknowledged, investigating, resolved, high, Incident, IncidentEvidence,
  TransitionArgs, transition_to, add_evidence, IncidentCall, transition, evidence, call, calls,
}
use prefeitura_anti_hack.Incident.Transitions.{Outcome, transition_to-outcome}
use prefeitura_anti_hack.Incident.History.{IsAudited, calls-IsAudited}
use prefeitura_anti_hack.Incident.Isolation.{IsIsolated, calls-IsIsolated}

abbrev fresh : Incident
fresh = record {
  incident_id = 1;
  tenant_id = 7;
  title = "t";
  description = "d";
  severity = high;
  status = open_;
  correlation_key = "k";
  created_at = utc (pos 0);
  updated_at = utc (pos 0);
  evidences = [];
  audit_history = [];
}

abbrev to : IncidentStatus → String → TransitionArgs
to s reason = record {
  new_status = s;
  actor_id = "ana";
  reason = reason;
  timestamp = none;
  now = pos 5;
  history_id = 9;
}

abbrev proof_of : ℕ → IncidentEvidence
proof_of tenant = record {
  evidence_id = 3;
  incident_id = 1;
  event_id = 4;
  tenant_id = tenant;
  evidence_hash = "h";
  added_at = utc (pos 2);
  description = "e";
  raw_payload_masked = end;
}

abbrev script : List IncidentCall
script =
    transition (to acknowledged "seen")
    ∷ transition (to resolved "skip")
    ∷ evidence (proof_of 8) (pos 6)
    ∷ evidence (proof_of 7) (pos 6)
    ∷ transition (to investigating " ")
    ∷ transition (to investigating "go")
    ∷ []

skips_are_refused :
    transition_to (to resolved "skip") fresh ≡ (err invalid_status_transition, fresh)
unfolding transition_to is_blank
skips_are_refused = refl

blank_reasons_are_refused : transition_to (to acknowledged " ") fresh ≡ (err domain_error, fresh)
unfolding transition_to is_blank
blank_reasons_are_refused = refl

script_ends : (calls fresh script).status ≡ investigating
unfolding calls call transition_to add_evidence is_blank
script_ends = refl

transition_to-outcome_example : Outcome (to resolved "skip") fresh
transition_to-outcome_example = transition_to-outcome (to resolved "skip") fresh

calls-IsAudited_example : IsAudited open_ (calls fresh script)
calls-IsAudited_example = calls-IsAudited fresh script refl

calls-IsIsolated_example : IsIsolated 7 (calls fresh script)
calls-IsIsolated_example = calls-IsIsolated 7 fresh script (record { owner = refl; members = tt })
