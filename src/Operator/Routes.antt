-- ===== src/Operator/Routes.antt =====
-- The routes of src/core/interfaces/rest/incident_routers.py. An HTTPException is `http_error` with
-- its status; the tenant and the user are those of the token, which the dependency
-- `get_current_user` has checked. The texts of the errors and the metrics are left out.
use prefeitura_anti_hack.Prelude.{
  ℕ, String, Bool, true, Option, none, some, List, [], ◌∷◌, any, map, ◌==◌, str_eq, if◌then◌else◌,
}
use prefeitura_anti_hack.Prelude.Int.{ℤ, leb_ℤ}
use prefeitura_anti_hack.Prelude.Text.{strip}
use prefeitura_anti_hack.Prelude.Python.{
  Exception, Result, ok, err, http_error, value_error, domain_error, invalid_status_transition,
}
use prefeitura_anti_hack.Prelude.Python
use prefeitura_anti_hack.Prelude.Exec.{Exec, pure, raise, lift, gets, ◌>>=◌}
use prefeitura_anti_hack.Prelude.Runtime.{Runtime}
use prefeitura_anti_hack.Domain.{TimeValue, not_datetime, naive, aware, is_zero}
use prefeitura_anti_hack.Sanitize.{sanitize_payload}
use prefeitura_anti_hack.Incident.{
  IncidentStatus, open_, acknowledged, investigating, contained, resolved, closed, Incident,
  IncidentEvidence, IncidentStatusChange, TransitionArgs, transition_to, severity_value,
}
use prefeitura_anti_hack.Correlation.Store.{
  Store, IncidentModel, IncidentStatusHistoryModel, uuid4, save_incident,
}
use prefeitura_anti_hack.Operator.{
  status_value, get_incident, IncidentFilter, SortField, count_incidents, list_incidents,
  get_evidence_counts_batch, count_of, count_evidences, list_evidences, count_changes, list_changes,
}

-- AuthenticatedUser: what the routes read of it
pub record User : Type 0 where
  pub tenant_id : ℕ
  pub user_id : String

-- IncidentResponseDTO
pub record IncidentResponse : Type 0 where
  pub incident_id : ℕ
  pub tenant_id : ℕ
  pub title : String
  pub description : String
  pub severity : String
  pub status : String
  pub correlation_key : String
  pub created_at : TimeValue
  pub updated_at : TimeValue
  pub evidence_count : ℕ

unfoldable pub incident_response : Incident → ℕ → IncidentResponse
incident_response i count = record {
  incident_id = i.incident_id;
  tenant_id = i.tenant_id;
  title = i.title;
  description = i.description;
  severity = severity_value i.severity;
  status = status_value i.status;
  correlation_key = i.correlation_key;
  created_at = i.created_at;
  updated_at = i.updated_at;
  evidence_count = count;
}

-- the ListResponseDTOs
pub record Page (A : Type 0) : Type 0 where
  pub items : List A
  pub total : ℕ
  pub skip : ℕ
  pub limit : ℕ

abbrev pub unprocessable : {A : Type 0} → Result A
unprocessable = err (http_error 422)

abbrev pub valid_incident_statuses : List String
valid_incident_statuses =
    "open" ∷ "acknowledged" ∷ "investigating" ∷ "contained" ∷ "resolved" ∷ "closed" ∷ []

abbrev pub valid_severities : List String
valid_severities = "low" ∷ "medium" ∷ "high" ∷ "critical" ∷ []

abbrev pub allowed_sort_fields : List String
allowed_sort_fields = "created_at" ∷ "updated_at" ∷ "severity" ∷ "status" ∷ []

-- the query parameters of GET /api/v1/incidents
pub record ListQuery : Type 0 where
  pub skip : ℕ
  pub limit : ℕ
  pub incident_status : Option String
  pub severity : Option String
  pub created_from : Option TimeValue
  pub created_to : Option TimeValue
  pub sort_by : String
  pub order : String

-- a bound of the time window, which must be in UTC
unfoldable pub utc_bound : Option TimeValue → Result (Option ℤ)
utc_bound none = ok none
utc_bound (some not_datetime) = unprocessable
utc_bound (some (naive t)) = unprocessable
utc_bound (some (aware t offset)) = if is_zero offset then ok (some t) else unprocessable

abbrev pub is_window : Option ℤ → Option ℤ → Bool
is_window (some a) (some b) = leb_ℤ a b
is_window _ _ = true

abbrev pub as_filter : Option String → Option String → Option ℤ → Option ℤ → IncidentFilter
as_filter wanted_status wanted_severity from until = record {
  status_filter = wanted_status;
  severity_filter = wanted_severity;
  created_from = from;
  created_to = until;
}

module _ (rt : Runtime) where
  -- value.strip().lower(), which must be one of the texts
  unfoldable pub one_of : List String → Option String → Result (Option String)
  unfolding strip
  one_of texts none = ok none
  one_of texts (some value) =
      let normalized = rt.lower (strip value) in
      if any (str_eq normalized) texts then ok (some normalized) else unprocessable

  -- the validations of list_incidents, in their order
  unfoldable pub read_query : ListQuery → Result (IncidentFilter × String)
  unfolding one_of utc_bound
  read_query q = Python.◌>>=◌ (one_of valid_incident_statuses q.incident_status) λ wanted_status.
      Python.◌>>=◌ (one_of valid_severities q.severity) λ wanted_severity.
        if any (str_eq q.sort_by) allowed_sort_fields
        then (let order_norm = rt.lower (strip q.order) in
            if any (str_eq order_norm) ("asc" ∷ "desc" ∷ [])
            then (Python.◌>>=◌ (utc_bound q.created_from) λ from.
                Python.◌>>=◌ (utc_bound q.created_to) λ until.
                  if is_window from until
                  then ok (as_filter wanted_status wanted_severity from until, order_norm)
                  else unprocessable)
            else unprocessable)
        else unprocessable

  module _ (order_by : SortField → Bool → List IncidentModel → List IncidentModel) where
    -- the page of a query that has been read
    unfoldable pub incident_page :
        ℕ → ListQuery → IncidentFilter → String → Store → Page IncidentResponse
    incident_page tenant q f order s =
        let found = list_incidents rt order_by tenant q.skip q.limit f q.sort_by order s in
        let counts =
          get_evidence_counts_batch tenant (map (λ (i : Incident). i.incident_id) found) s in
        record {
          items =
              map (λ (i : Incident). incident_response i (count_of ◌==◌ i.incident_id counts))
                found;
          total = count_incidents rt tenant f s;
          skip = q.skip;
          limit = q.limit;
        }

    -- list_incidents
    unfoldable pub list_incidents_route : User → ListQuery → Exec Store (Page IncidentResponse)
    unfolding incident_page read_query
    list_incidents_route user q = do
      read ← lift (read_query q)
      gets (incident_page user.tenant_id q read.0 read.1)

-- `if incident is None: raise HTTPException(404)`
abbrev pub found_or_404 : Option Incident → Exec Store Incident
found_or_404 none = raise (http_error 404)
found_or_404 (some i) = pure i

-- get_incident
unfoldable pub get_incident_route : ℕ → User → Exec Store IncidentResponse
unfolding get_incident
get_incident_route incident user = do
  found ← get_incident incident user.tenant_id
  i ← found_or_404 found
  count ← gets (count_evidences incident user.tenant_id)
  pure (incident_response i count)

-- list_incident_evidences: the payloads are sanitised once more
unfoldable pub list_evidences_route :
    (String → String)
    → (String → String)
    → (List IncidentEvidence → List IncidentEvidence)
    → ℕ
    → ℕ
    → ℕ
    → User
    → Exec Store (Page IncidentEvidence)
unfolding get_incident
list_evidences_route lower redact newest_first incident skip limit user = do
  found ← get_incident incident user.tenant_id
  i ← found_or_404 found
  total ← gets (count_evidences incident user.tenant_id)
  evidences ← gets (list_evidences newest_first incident user.tenant_id skip limit)
  pure (record {
    items =
        map
          (λ (e : IncidentEvidence). record e {
            raw_payload_masked = sanitize_payload lower redact e.raw_payload_masked;
          })
          evidences;
    total = total;
    skip = skip;
    limit = limit;
  })

-- list_incident_history
unfoldable pub list_history_route :
    (List IncidentStatusHistoryModel → List IncidentStatusHistoryModel)
    → ℕ
    → ℕ
    → ℕ
    → User
    → Exec Store (Page IncidentStatusChange)
unfolding get_incident
list_history_route newest_first incident skip limit user = do
  found ← get_incident incident user.tenant_id
  i ← found_or_404 found
  total ← gets (count_changes incident user.tenant_id)
  changes ← gets (list_changes newest_first incident user.tenant_id skip limit)
  pure (record { items = changes; total = total; skip = skip; limit = limit })

-- ChangeIncidentStatusDTO, once its validator has normalised the status
pub record ChangeIncidentStatus : Type 0 where
  pub new_status : String
  pub reason : String

-- IncidentStatus(value)
unfoldable pub parse_status : String → Result IncidentStatus
parse_status s =
    if str_eq s "open"
    then ok open_
    else if str_eq s "acknowledged"
    then ok acknowledged
    else if str_eq s "investigating"
    then ok investigating
    else if str_eq s "contained"
    then ok contained
    else if str_eq s "resolved"
    then ok resolved
    else if str_eq s "closed"
    then ok closed
    else err value_error

-- the two `except` clauses: both kinds of error become 422
abbrev pub as_http : Exception → Exception
as_http x = elim x [
  | invalid_status_transition ↦ http_error 422
  | domain_error ↦ http_error 422
  | other ↦ other
]

-- the incident after a call of transition_to that the route makes
abbrev pub transitioned_or_http : Result (Unit {0}) × Incident → Result Incident
transitioned_or_http (ok u, i) = ok i
transitioned_or_http (err x, i) = err (as_http x)

module _ (rt : Runtime) where
  -- the arguments of transition_to in the route
  abbrev pub transition_args : User → ChangeIncidentStatus → IncidentStatus → ℕ → ℤ → TransitionArgs
  transition_args user dto status id now = record {
    new_status = status;
    actor_id = user.user_id;
    reason = dto.reason;
    timestamp = none;
    now = now;
    history_id = id;
  }

  -- change_incident_status, up to the commit
  unfoldable pub change_status : ℕ → ChangeIncidentStatus → User → Exec Store Incident
  unfolding get_incident parse_status
  change_status incident dto user = do
    found ← get_incident incident user.tenant_id
    i ← found_or_404 found
    new_status ← lift (parse_status dto.new_status)
    now ← gets (λ (s : Store). s.now)
    id ← uuid4
    changed ←
        lift (transitioned_or_http (transition_to (transition_args user dto new_status id now) i))
    save_incident rt changed

  -- the commit, and the count of the evidence that follows it
  abbrev pub committed :
      (Store → Bool) → User → Store → Result Incident × Store → Result IncidentResponse × Store
  committed commits user before (err x, after) = (err x, before)
  committed commits user before (ok saved, after) =
      if commits after
      then (
        ok (incident_response saved (count_evidences saved.incident_id user.tenant_id after)),
        after,
      )
      else (err Python.runtime_error, before)

  -- change_incident_status
  unfoldable pub change_status_route :
      (Store → Bool) → ℕ → ChangeIncidentStatus → User → Exec Store IncidentResponse
  unfolding change_status
  change_status_route commits incident dto user s =
      committed commits user s (change_status incident dto user s)
