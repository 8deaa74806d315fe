-- ===== src/Correlation/Handler/Runs.antt =====
-- One rule of the handler on a consistent store: what it returns and what it stores.
use prefeitura_anti_hack.Prelude.{
  ℕ, ◌<◌, arith, ◌≡◌, refl, String, true, false, none, [], ◌∷◌, filter, All-imp,
}
use prefeitura_anti_hack.Prelude.Text.{HasInk-is_blank}
use prefeitura_anti_hack.Prelude.Python.{ok}
use prefeitura_anti_hack.Prelude.Runtime.{Runtime}
use prefeitura_anti_hack.Incident.{Incident, IncidentEvidence, new_incident}
use prefeitura_anti_hack.Event.{SecurityEvent}
use prefeitura_anti_hack.Correlation.Key.{to_hash, bucket_text, compute_time_bucket}
use prefeitura_anti_hack.Correlation.Rules.{CorrelationRule}
use prefeitura_anti_hack.Correlation.Rules.Eligibility.{new_key-succeeds}
use prefeitura_anti_hack.Correlation.Store.{Store, opens, is_evidence, to_entity, new_model}
use prefeitura_anti_hack.Correlation.Store.Saving.{IsConsistent, save_incident-fresh}
use prefeitura_anti_hack.Correlation.Store.Linking.{
  save_evidence-new, save_evidence-again, evidence_exists-none, evidence_exists-some,
}
use prefeitura_anti_hack.Correlation.Store.Growth.{
  with_incident, with_evidence, with_id, with_id-IsConsistent,
}
use prefeitura_anti_hack.Correlation.Handler.{
  correlation_key, build_correlation_key, created_incident, creation_log, find_or_create,
  event_evidence, link_evidence,
}

module _ (rt : Runtime) (redact : String → String) (window : ℕ) where
  pub build_correlation_key-succeeds :
      0 < window
      → (r : CorrelationRule) (e : SecurityEvent)
      → build_correlation_key rt redact window r e ≡ ok (correlation_key rt redact window r e)
  unfolding build_correlation_key correlation_key compute_time_bucket bucket_text
  build_correlation_key-succeeds positive r e =
      let made =
        new_key-succeeds rt r e (bucket_text rt e.occurred_at window)
          (HasInk-is_blank _ (rt.isoformat_ink _)) in
      ground (arith, positive, made)

  module _ (tenant event_id : ℕ) (r : CorrelationRule) (e : SecurityEvent) where
    abbrev pub key_hash : String
    key_hash = to_hash rt (correlation_key rt redact window r e)

    -- the incident that the rule creates in a store
    abbrev pub new_incident_in : Store → Incident
    new_incident_in s =
        created_incident rt redact window tenant r e (correlation_key rt redact window r e)
          s.next_id s.now

    -- the store with that incident and its audit record
    abbrev pub created_in : Store → Store
    created_in s =
        with_incident s (new_model rt (new_incident_in s))
          (creation_log rt redact window tenant r s.next_id event_id key_hash)

    new_incident_in-valid : (s : Store) → new_incident (new_incident_in s) ≡ ok (new_incident_in s)
    unfolding new_incident created_incident
    new_incident_in-valid s = refl

    pub find_or_create-new :
        {owner : ℕ → ℕ} (s : Store)
        → IsConsistent owner s
        → filter (opens tenant key_hash) s.incidents ≡ []
        → find_or_create rt redact window tenant event_id r e
            (correlation_key rt redact window r e)
            none
            s
          ≡ (ok (to_entity (new_model rt (new_incident_in s)), true), created_in s)
    unfolding find_or_create
    find_or_create-new s c n =
        let saved =
          save_incident-fresh rt (new_incident_in s) (with_id s) (unfold created_incident in refl)
            (unfold created_incident in All-imp (λ m k. k.0) s.incidents c.incidents_owned)
            (unfold created_incident in n) in
        rw (new_incident_in-valid s, saved) (unfold created_incident in refl)

    -- the evidence that the rule adds to an incident
    abbrev pub new_evidence_in : Incident → Store → IncidentEvidence
    new_evidence_in i s = event_evidence rt redact window tenant event_id r e i s.next_id s.now

    pub link_evidence-new :
        {owner : ℕ → ℕ} (s : Store) (i : Incident)
        → IsConsistent owner s
        → owner i.incident_id ≡ tenant
        → filter (is_evidence i.incident_id event_id tenant) s.evidences ≡ []
        → link_evidence rt redact window tenant event_id r e i s
          ≡ (ok true, with_evidence s (new_evidence_in i s))
    unfolding link_evidence event_evidence
    link_evidence-new s i c o n = rw (
      evidence_exists-none s i.incident_id event_id tenant n,
      save_evidence-new (with_id s) (new_evidence_in i s) (with_id-IsConsistent s c) o n,
    )

    pub link_evidence-again :
        (s : Store) (i : Incident) (x : IncidentEvidence)
        → filter (is_evidence i.incident_id event_id tenant) s.evidences ≡ x ∷ []
        → link_evidence rt redact window tenant event_id r e i s ≡ (ok false, with_id s)
    unfolding link_evidence event_evidence
    link_evidence-again s i x n = rw (
      evidence_exists-some s i.incident_id event_id tenant x n,
      save_evidence-again (with_id s) (new_evidence_in i s) x n,
    )
