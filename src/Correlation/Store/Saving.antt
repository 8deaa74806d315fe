-- ===== src/Correlation/Store/Saving.antt =====
-- What the repositories do on a store that keeps the constraints of the database.
use prefeitura_anti_hack.Prelude.{
  ℕ, ◌≤◌, ◌<◌, ◌≡◌, String, Bool, false, ◌&&◌, none, some, List, [], ◌∷◌, ◌++◌, any, filter, All,
  All-imp, length, any_of_filter_nil, filter-nil_of_All, any-false_of_All, ◌==◌, str_eq, arith,
}
use prefeitura_anti_hack.Prelude.Python.{ok}
use prefeitura_anti_hack.Prelude.Runtime.{Runtime}
use prefeitura_anti_hack.Incident.{IncidentStatus, Incident, IncidentEvidence}
use prefeitura_anti_hack.Correlation.Store.{
  is_event, Store, IncidentModel, is_active, in_active_index, opens, to_entity, incident_conflict,
  find_open_by_correlation_key, same_incident, new_model, save_incident,
}

abbrev pub is_pair : ℕ → ℕ → IncidentEvidence → Bool
is_pair incident event e = e.incident_id == incident && e.event_id == event

-- The constraints of the database: at most one active incident for a tenant and a key, at most one
-- piece of evidence for an incident and an event, at most one event for an identifier and a tenant,
-- and identifiers of incidents that determine the tenant (the foreign keys) and have been handed
-- out already.
pub record IsConsistent (owner : ℕ → ℕ) (s : Store) : Type 0 where
  pub event_once : (i t : ℕ) → length (filter (is_event i t) s.events) ≤ 1
  pub open_once : (t : ℕ) (h : String) → length (filter (opens t h) s.incidents) ≤ 1
  pub evidence_once : (i e : ℕ) → length (filter (is_pair i e) s.evidences) ≤ 1
  pub incidents_owned :
      All
        (λ (m : IncidentModel). (m.incident_id < s.next_id) × (m.tenant_id ≡ owner m.incident_id))
        s.incidents
  pub evidences_owned :
      All
        (λ (x : IncidentEvidence).
          (x.incident_id < s.next_id) × (x.tenant_id ≡ owner x.incident_id))
        s.evidences

-- The partial index and the query of active incidents see the same rows.
in_active_index-eq : (st : IncidentStatus) → in_active_index st ≡ is_active st
in_active_index-eq st = ground arith

pub find_open-none :
    (t : ℕ) (h : String) (s : Store)
    → filter (opens t h) s.incidents ≡ []
    → find_open_by_correlation_key t h s ≡ (ok none, s)
unfolding find_open_by_correlation_key
find_open-none t h s e = rw e

pub find_open-some :
    (t : ℕ) (h : String) (s : Store) (m : IncidentModel)
    → filter (opens t h) s.incidents ≡ m ∷ []
    → find_open_by_correlation_key t h s ≡ (ok (some (to_entity m)), s)
unfolding find_open_by_correlation_key
find_open-some t h s m e = rw e

module _ (rt : Runtime) where
  fresh-conflict :
      (i : Incident) (rows : List IncidentModel)
      → All (λ (m : IncidentModel). m.incident_id < i.incident_id) rows
      → filter (opens i.tenant_id (rt.sha256 i.correlation_key)) rows ≡ []
      → incident_conflict (new_model rt i) rows ≡ false
  unfolding incident_conflict
  fresh-conflict i rows h e =
      let p : any (λ (m : IncidentModel). m.incident_id == i.incident_id) rows ≡ false =
        any-false_of_All _ rows (All-imp (λ m k. ground arith) rows h) in
      let q : any
            (λ (m : IncidentModel).
              m.tenant_id == i.tenant_id
              && (str_eq m.correlation_key_hash (rt.sha256 i.correlation_key)
                  && in_active_index m.status))
            rows
          ≡ false =
        any_of_filter_nil (opens i.tenant_id (rt.sha256 i.correlation_key)) _ rows
          (λ m k. rw (in_active_index-eq m.status) at k) e in
      ground (arith, p, q)

  -- An incident with a new identifier and a key that is not open is stored as a new row.
  pub save_incident-fresh :
      (i : Incident) (s : Store)
      → i.audit_history ≡ []
      → All (λ (m : IncidentModel). m.incident_id < i.incident_id) s.incidents
      → filter (opens i.tenant_id (rt.sha256 i.correlation_key)) s.incidents ≡ []
      → save_incident rt i s ≡ (
        ok (to_entity (new_model rt i)),
        record s { incidents = s.incidents ++ new_model rt i ∷ [] },
      )
  unfolding save_incident
  save_incident-fresh i s a h e =
      let n : filter (same_incident i) s.incidents ≡ [] =
        filter-nil_of_All _ s.incidents (All-imp (λ m k. ground arith) s.incidents h) in
      rw (n, fresh-conflict i s.incidents h e, a)
