-- ===== src/Correlation/Store/Tenants.antt =====
-- How a run for one tenant changes the tables.
use prefeitura_anti_hack.Prelude.{
  ℕ, ◌≡◌, ◌≢◌, ◌∙◌, refl, String, true, [], filter, filter-concat, ◌==◌, arith,
}
use prefeitura_anti_hack.Incident.{IncidentEvidence}
use prefeitura_anti_hack.Correlation.Store.{Store, IncidentModel, AuditLog, opens, is_evidence}
use prefeitura_anti_hack.Correlation.Store.Growth.{
  Recorded, with_incident, with_evidence, with_id, Recorded-with_incident, Recorded-with_evidence,
}

pub record Grows (tenant : ℕ) (s s' : Store) : Type 0 where
  pub keeps : (u : ℕ) (k : String) (e : ℕ) → Recorded u k e s → Recorded u k e s'
  pub same_events : s'.events ≡ s.events
  pub same_history : s'.history ≡ s.history
  pub other_incidents :
      (u : ℕ)
      → u ≢ tenant
      → filter (λ (m : IncidentModel). m.tenant_id == u) s'.incidents
        ≡ filter (λ (m : IncidentModel). m.tenant_id == u) s.incidents
  pub other_evidences :
      (u : ℕ)
      → u ≢ tenant
      → filter (λ (x : IncidentEvidence). x.tenant_id == u) s'.evidences
        ≡ filter (λ (x : IncidentEvidence). x.tenant_id == u) s.evidences
  pub other_logs :
      (u : ℕ)
      → u ≢ tenant
      → filter (λ (l : AuditLog). l.tenant_id == u) s'.logs
        ≡ filter (λ (l : AuditLog). l.tenant_id == u) s.logs

module _ {tenant : ℕ} where
  pub Grows-with_id : (s : Store) → Grows tenant s (with_id s)
  Grows-with_id s = record {
    keeps =
        λ u k e r. record { row = r.row; opened = r.opened; proof = r.proof; linked = r.linked };
    same_events = refl;
    same_history = refl;
    other_incidents = λ u n. refl;
    other_evidences = λ u n. refl;
    other_logs = λ u n. refl;
  }

  pub Grows-refl : (s : Store) → Grows tenant s s
  Grows-refl s = record {
    keeps = λ u k e r. r;
    same_events = refl;
    same_history = refl;
    other_incidents = λ u n. refl;
    other_evidences = λ u n. refl;
    other_logs = λ u n. refl;
  }

  pub Grows-trans : (a b c : Store) → Grows tenant a b → Grows tenant b c → Grows tenant a c
  Grows-trans a b c g h = record {
    keeps = λ u k e r. h.keeps u k e (g.keeps u k e r);
    same_events = h.same_events ∙ g.same_events;
    same_history = h.same_history ∙ g.same_history;
    other_incidents = λ u n. h.other_incidents u n ∙ g.other_incidents u n;
    other_evidences = λ u n. h.other_evidences u n ∙ g.other_evidences u n;
    other_logs = λ u n. h.other_logs u n ∙ g.other_logs u n;
  }

  pub Grows-with_incident :
      (s : Store) (m : IncidentModel) (log : AuditLog) (h : String)
      → opens tenant h m ≡ true
      → filter (opens tenant h) s.incidents ≡ []
      → log.tenant_id ≡ tenant
      → Grows tenant s (with_incident s m log)
  Grows-with_incident s m log h o e l = record {
    keeps = λ u k f r. Recorded-with_incident s m log tenant h o e r;
    same_events = refl;
    same_history = refl;
    other_incidents = λ u n. rw filter-concat (ground (arith, o));
    other_evidences = λ u n. refl;
    other_logs = λ u n. rw filter-concat (ground arith);
  }

  pub Grows-with_evidence :
      (s : Store) (x : IncidentEvidence)
      → x.tenant_id ≡ tenant
      → filter (is_evidence x.incident_id x.event_id x.tenant_id) s.evidences ≡ []
      → Grows tenant s (with_evidence s x)
  Grows-with_evidence s x o e = record {
    keeps = λ u k f r. Recorded-with_evidence s x e r;
    same_events = refl;
    same_history = refl;
    other_incidents = λ u n. refl;
    other_evidences = λ u n. rw filter-concat (ground arith);
    other_logs = λ u n. refl;
  }
