-- ===== src/Operator/Changing.antt =====
-- What a request to change the status of an incident does.
use prefeitura_anti_hack.Prelude.{
  ℕ, ◌+◌, ◌≡◌, refl, ap, ◌∙◌, Bool, true, false, none, some, List, [], ◌∷◌, ◌++◌, All, any, filter,
  filter-holds, map, ltb, if◌then◌else◌, ◌==◌, ==→eq, and_split, arith, inl, inr, Bool-cases,
}
use prefeitura_anti_hack.Prelude.Text.{is_blank, length}
use prefeitura_anti_hack.Prelude.Python.{Exception, Result, ok, err, http_error}
use prefeitura_anti_hack.Prelude.Runtime.{Runtime}
use prefeitura_anti_hack.Domain.{validate_utc_datetime, utc}
use prefeitura_anti_hack.Correlation.Key.{instant}
use prefeitura_anti_hack.Incident.{
  IncidentStatus, Incident, IncidentStatusChange, TransitionArgs, transition_to,
  allowed_status_transitions, status_eq, severity_value,
}
use prefeitura_anti_hack.Incident.Transitions.{
  CanTransition, transitioned, transition_to-outcome, done, refused,
}
use prefeitura_anti_hack.Correlation.Store.{
  Store, IncidentModel, IncidentStatusHistoryModel, to_entity, same_incident,
}
use prefeitura_anti_hack.Correlation.Store.Updating.{
  with_update, history_row, save_incident-existing,
}
use prefeitura_anti_hack.Operator.{is_incident, get_incident, count_evidences, status_value}
use prefeitura_anti_hack.Operator.Routes.{
  User, IncidentResponse, incident_response, ChangeIncidentStatus, parse_status, as_http,
  transition_args, change_status, change_status_route,
}

is_incident-row :
    (k t : ℕ) (rows : List IncidentModel) (m : IncidentModel)
    → filter (is_incident k t) rows ≡ m ∷ []
    → (m.incident_id ≡ k) × (m.tenant_id ≡ t)
is_incident-row k t rows m h =
    let holds : All (λ x. is_incident k t x ≡ true) (m ∷ []) =
      rw h at (filter-holds (is_incident k t) rows) in
    let (p, q) = and_split (m.incident_id == k) _ holds.0 in (==→eq _ _ p, ==→eq _ _ q)

same_rows :
    (i : Incident) (k t : ℕ) (rows : List IncidentModel)
    → i.incident_id ≡ k
    → i.tenant_id ≡ t
    → filter (same_incident i) rows ≡ filter (is_incident k t) rows
same_rows i k t rows p q =
    ap (λ j. filter (is_incident j i.tenant_id) rows) p ∙ ap (λ u. filter (is_incident k u) rows) q

get_incident-found :
    (k t : ℕ) (s : Store) (m : IncidentModel)
    → filter (is_incident k t) s.incidents ≡ m ∷ []
    → get_incident k t s ≡ (ok (some (to_entity m)), s)
unfolding get_incident
get_incident-found k t s m h = rw h refl

-- A call of transition_to that raises, without a time of its own, raises one of the two errors that
-- the route turns into 422.
transition_to-as_http :
    (a : TransitionArgs) (i : Incident) (x : Exception)
    → a.timestamp ≡ none
    → transition_to a i ≡ (err x, i)
    → as_http x ≡ http_error 422
unfolding transition_to validate_utc_datetime
transition_to-as_http a i x n h = elim (Bool-cases (is_blank a.actor_id)) [
  | inl p ↦ ground (arith, p)
  | inr p ↦ elim (Bool-cases (is_blank a.reason)) [
    | inl q ↦ ground (arith, p, q)
    | inr q ↦
        elim (Bool-cases (any (status_eq a.new_status) (allowed_status_transitions i.status))) [
          | inl r ↦ absurd (ground (arith, p, q, r, n))
          | inr r ↦ ground (arith, p, q, r)
        ]
  ]
]

module _ (rt : Runtime) (commits : Store → Bool) (incident : ℕ) (dto : ChangeIncidentStatus)
    (user : User) (status : IncidentStatus) (m : IncidentModel) (s : Store) where
  -- the call of transition_to that the route makes
  abbrev pub args : TransitionArgs
  args = transition_args rt user dto status s.next_id s.now

  -- the record of the change
  abbrev pub change_record : IncidentStatusChange
  change_record = record {
    from_status = m.status;
    to_status = status;
    actor_id = user.user_id;
    reason = dto.reason;
    timestamp = utc s.now;
    history_id = s.next_id;
  }

  -- the row of the incident after a change that succeeds
  abbrev pub moved : IncidentModel → IncidentModel
  moved x = record x {
    incident = record x.incident {
      title = m.title;
      description = m.description;
      severity = m.severity;
      status = status;
      updated_at = utc s.now;
    };
  }

  -- the tables after a change of one incident of a tenant
  abbrev pub changed_in : ℕ → ℕ → Store
  changed_in k t = record s {
    incidents = map (λ x. if is_incident k t x then moved x else x) s.incidents;
    history = s.history ++ record { change = change_record; incident_id = k; tenant_id = t } ∷ [];
    next_id = s.next_id + 1;
  }

  abbrev pub changed : Store
  changed = changed_in incident user.tenant_id

  -- the incident that the answer shows
  abbrev pub answered : Incident
  answered = record m.incident {
    status = status;
    created_at = utc (instant m.created_at);
    updated_at = utc s.now;
    evidences = [];
    audit_history = [];
  }

  -- the answer
  abbrev pub shown : IncidentResponse
  shown = record {
    incident_id = m.incident_id;
    tenant_id = m.tenant_id;
    title = m.title;
    description = m.description;
    severity = severity_value m.severity;
    status = status_value status;
    correlation_key = m.correlation_key;
    created_at = utc (instant m.created_at);
    updated_at = utc s.now;
    evidence_count = count_evidences incident user.tenant_id s;
  }

  -- what a request ends with
  pub data Changed : Result IncidentResponse × Store → Type 0 where
    is_done : CanTransition args (to_entity m) → Changed (ok shown, changed)
    is_refused : ¬ CanTransition args (to_entity m) → Changed (err (http_error 422), s)

  module _ (row : filter (is_incident incident user.tenant_id) s.incidents ≡ m ∷ [])
      (parses : parse_status dto.new_status ≡ ok status)
      (fresh : any (λ (h : IncidentStatusHistoryModel). h.change.history_id == s.next_id) s.history
        ≡ false)
      (fits : ltb 128 (length user.user_id) ≡ false) where
    -- what `save` leaves, in the terms above
    saved_changed :
        record s {
          incidents = with_update (transitioned args (to_entity m)) s.incidents;
          history = s.history ++ history_row (transitioned args (to_entity m)) change_record ∷ [];
          next_id = s.next_id + 1;
        }
        ≡ changed
    saved_changed =
        let (id, tenant) = is_incident-row incident user.tenant_id s.incidents m row in
        ap (λ k. changed_in k m.tenant_id) id ∙ ap (λ t. changed_in incident t) tenant

    change_status-done :
        CanTransition args (to_entity m)
        → transition_to args (to_entity m) ≡ (ok tt, transitioned args (to_entity m))
        → change_status rt incident dto user s ≡ (ok answered, changed)
    unfolding change_status
    change_status-done can ran =
        let (id, tenant) = is_incident-row incident user.tenant_id s.incidents m row in
        rw (get_incident-found incident user.tenant_id s m row, parses, ran)
          (save_incident-existing rt (transitioned args (to_entity m)) change_record m
              (record s { next_id = s.next_id + 1 })
              (same_rows (transitioned args (to_entity m)) incident user.tenant_id s.incidents id
                  tenant
                ∙ row)
              refl fresh fits
            ∙ ap (λ t. (ok answered, t)) saved_changed)

    change_status-refused :
        (x : Exception)
        → transition_to args (to_entity m) ≡ (err x, to_entity m)
        → change_status_route rt commits incident dto user s ≡ (err (http_error 422), s)
    unfolding change_status_route change_status
    change_status-refused x ran =
        rw
          (
            get_incident-found incident user.tenant_id s m row,
            parses,
            ran,
            transition_to-as_http args (to_entity m) x refl ran,
          )
          refl

    change_status_route-done :
        CanTransition args (to_entity m)
        → transition_to args (to_entity m) ≡ (ok tt, transitioned args (to_entity m))
        → commits changed ≡ true
        → change_status_route rt commits incident dto user s
          ≡ (ok (incident_response answered (count_evidences incident user.tenant_id s)), changed)
    unfolding change_status_route count_evidences
    change_status_route-done can ran commit =
        let (id, tenant) = is_incident-row incident user.tenant_id s.incidents m row in
        rw (change_status-done can ran, commit)
          (ap (λ k. (ok (incident_response answered (count_evidences k user.tenant_id s)), changed))
            id)

    -- Take an incident of the user's tenant, with one row, a status that is one, a user whose
    -- identifier has at most 128 characters, a database that commits, and an identifier for the
    -- record of the change that is not in use. If the incident can make the transition with the
    -- user as the actor and the given reason, the request is answered with the incident in its new
    -- status; its row has that status and the time of the change, one record of the change is
    -- appended to the history, and nothing else changes but the supply of identifiers. Else it is
    -- answered with 422 and nothing changes.
    pub change_status_route-Changed :
        commits changed ≡ true → Changed (change_status_route rt commits incident dto user s)
    unfolding incident_response
    change_status_route-Changed commit = elim (transition_to-outcome args (to_entity m)) [
      | done can ran ↦ rw (change_status_route-done can ran commit) (is_done can)
      | refused x cannot ran ↦ rw (change_status-refused x ran) (is_refused cannot)
    ]
