-- ===== src/Correlation/Store/Updating.antt =====
-- What `save` does with an incident that is stored already and has changed its status once.
use prefeitura_anti_hack.Prelude.{
  ◌≡◌, refl, false, List, [], ◌∷◌, ◌++◌, any, filter, map, ltb, ◌==◌, if◌then◌else◌,
}
use prefeitura_anti_hack.Prelude.Text.{length}
use prefeitura_anti_hack.Prelude.Python.{ok}
use prefeitura_anti_hack.Prelude.Runtime.{Runtime}
use prefeitura_anti_hack.Incident.{Incident, IncidentStatusChange}
use prefeitura_anti_hack.Correlation.Store.{
  Store, IncidentModel, IncidentStatusHistoryModel, to_entity, updated, same_incident, save_history,
  update_incident, upsert_incident, save_incident,
}

-- the table of incidents with the row of one incident changed
abbrev pub with_update : Incident → List IncidentModel → List IncidentModel
with_update i rows = map (λ x. if same_incident i x then updated i x else x) rows

abbrev pub history_row : Incident → IncidentStatusChange → IncidentStatusHistoryModel
history_row i c = record { change = c; incident_id = i.incident_id; tenant_id = i.tenant_id }

module _ (rt : Runtime) where
  pub save_incident-existing :
      (i : Incident) (c : IncidentStatusChange) (m : IncidentModel) (s : Store)
      → filter (same_incident i) s.incidents ≡ m ∷ []
      → i.audit_history ≡ c ∷ []
      → any (λ (h : IncidentStatusHistoryModel). h.change.history_id == c.history_id) s.history
        ≡ false
      → ltb 128 (length c.actor_id) ≡ false
      → save_incident rt i s ≡ (
        ok (to_entity (updated i m)),
        record s {
          incidents = with_update i s.incidents;
          history = s.history ++ history_row i c ∷ [];
        },
      )
  unfolding save_incident upsert_incident update_incident save_history
  save_incident-existing i c m s row changes fresh fits = rw (row, changes, fresh, fits) refl
