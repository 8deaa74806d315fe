-- ===== src/Operator.antt =====
-- The queries of PostgresIncidentRepository, PostgresIncidentEvidenceRepository and
-- PostgresIncidentStatusHistoryRepository in src/core/infrastructure/db/repositories.py that the
-- operators' routes use. The order that ORDER BY gives the rows is a parameter.
pub mod Counts
pub mod Routes
pub mod Selected
pub mod Asked
pub mod Listing
pub mod Changing
mod Examples
use prefeitura_anti_hack.Prelude.{
  ℕ, suc, String, Bool, true, false, ◌&&◌, Option, none, some, List, [], ◌∷◌, any, filter, map,
  length, page, ◌==◌, str_eq, if◌then◌else◌,
}
use mathlib.Core.Option
use prefeitura_anti_hack.Prelude.Int.{ℤ, leb_ℤ}
use prefeitura_anti_hack.Prelude.Text.{is_empty}
use prefeitura_anti_hack.Prelude.Exec.{Exec, pure, lift, gets, ◌>>=◌}
use prefeitura_anti_hack.Prelude.Runtime.{Runtime}
use prefeitura_anti_hack.Domain.{TimeValue}
use prefeitura_anti_hack.Incident.{
  IncidentStatus, open_, acknowledged, investigating, contained, resolved, closed, Incident,
  IncidentEvidence, IncidentStatusChange, SecurityEventSeverity, info, low, medium, high, critical,
  severity_value,
}
use prefeitura_anti_hack.Correlation.Key.{instant}
use prefeitura_anti_hack.Correlation.Store.{
  Store, IncidentModel, IncidentStatusHistoryModel, scalar_one_or_none, is_active, to_entity,
}

-- IncidentStatus.value
abbrev pub status_value : IncidentStatus → String
status_value open_ = "open"
status_value acknowledged = "acknowledged"
status_value investigating = "investigating"
status_value contained = "contained"
status_value resolved = "resolved"
status_value closed = "closed"

abbrev pub is_incident : ℕ → ℕ → IncidentModel → Bool
is_incident incident tenant m = m.incident_id == incident && m.tenant_id == tenant

-- PostgresIncidentRepository.get_by_id
unfoldable pub get_incident : ℕ → ℕ → Exec Store (Option Incident)
get_incident incident tenant = do
  rows ← gets (λ s. filter (is_incident incident tenant) s.incidents)
  model ← lift (scalar_one_or_none rows)
  pure (Option.map to_entity model)

-- the optional filters of a query
pub record IncidentFilter : Type 0 where
  pub status_filter : Option String
  pub severity_filter : Option String
  pub created_from : Option ℤ
  pub created_to : Option ℤ

-- the columns that rows may be ordered by
pub data SortField : Type 0 where
  by_created_at by_updated_at by_severity by_status : SortField

-- allowed_sort_fields.get(sort_by, IncidentModel.created_at)
unfoldable pub sort_column : String → SortField
sort_column name =
    if str_eq name "updated_at"
    then by_updated_at
    else if str_eq name "severity"
    then by_severity
    else if str_eq name "status"
    then by_status
    else by_created_at

module _ (rt : Runtime) where
  -- `if wanted: where(lower(column) == wanted.lower())`
  abbrev pub matches : Option String → String → Bool
  matches none column = true
  matches (some wanted) column =
      if is_empty wanted then true else str_eq (rt.lower column) (rt.lower wanted)

  abbrev pub not_before : Option ℤ → TimeValue → Bool
  not_before none t = true
  not_before (some bound) t = leb_ℤ bound (instant t)

  abbrev pub not_after : Option ℤ → TimeValue → Bool
  not_after none t = true
  not_after (some bound) t = leb_ℤ (instant t) bound

  -- the WHERE clause
  abbrev pub selects : ℕ → IncidentFilter → IncidentModel → Bool
  selects tenant f m =
      m.tenant_id == tenant
      && (matches f.status_filter (status_value m.status)
          && (matches f.severity_filter (severity_value m.severity)
              && (not_before f.created_from m.created_at && not_after f.created_to m.created_at)))

  -- PostgresIncidentRepository.count
  unfoldable pub count_incidents : ℕ → IncidentFilter → Store → ℕ
  count_incidents tenant f s = length (filter (selects tenant f) s.incidents)

  -- PostgresIncidentRepository.list; `order_by` orders by a column, ascending or not
  unfoldable pub list_incidents :
      (SortField → Bool → List IncidentModel → List IncidentModel)
      → ℕ
      → ℕ
      → ℕ
      → IncidentFilter
      → String
      → String
      → Store
      → List Incident
  unfolding sort_column
  list_incidents order_by tenant skip limit f sort_by order s = map to_entity (
      page skip limit (
        order_by (sort_column sort_by) (str_eq (rt.lower order) "asc")
          (filter (selects tenant f) s.incidents)))

-- one more row of a group
unfoldable pub bump : {A : Type 0} → (A → A → Bool) → A → List (A × ℕ) → List (A × ℕ)
bump eq k [] = (k, 1) ∷ []
bump eq k ((j, n) ∷ counts) =
    let rest = bump eq k counts in if eq j k then (j, suc n) ∷ counts else (j, n) ∷ rest

-- SELECT key, count(...) GROUP BY key
unfoldable pub grouped : {A R : Type 0} → (A → A → Bool) → (R → A) → List R → List (A × ℕ)
unfolding bump
grouped eq key [] = []
grouped eq key (r ∷ rows) = bump eq (key r) (grouped eq key rows)

-- counts.get(key, 0)
unfoldable pub count_of : {A : Type 0} → (A → A → Bool) → A → List (A × ℕ) → ℕ
count_of eq k [] = 0
count_of eq k ((j, n) ∷ counts) = let rest = count_of eq k counts in if eq j k then n else rest

abbrev pub is_nil : List ℕ → Bool
is_nil [] = true
is_nil (x ∷ xs) = false

abbrev pub evidence_in : ℕ → List ℕ → IncidentEvidence → Bool
evidence_in tenant ids e = e.tenant_id == tenant && any (λ i. i == e.incident_id) ids

-- PostgresIncidentRepository.get_evidence_counts_batch
unfoldable pub get_evidence_counts_batch : ℕ → List ℕ → Store → List (ℕ × ℕ)
unfolding grouped
get_evidence_counts_batch tenant ids s =
    if is_nil ids
    then []
    else grouped ◌==◌ (λ (e : IncidentEvidence). e.incident_id)
        (filter (evidence_in tenant ids) s.evidences)

abbrev pub severity_rank : SecurityEventSeverity → ℕ
severity_rank info = 0
severity_rank low = 1
severity_rank medium = 2
severity_rank high = 3
severity_rank critical = 4

abbrev pub severity_eq : SecurityEventSeverity → SecurityEventSeverity → Bool
severity_eq a b = severity_rank a == severity_rank b

abbrev pub severities : List SecurityEventSeverity
severities = info ∷ low ∷ medium ∷ high ∷ critical ∷ []

abbrev pub in_scope : Option ℕ → IncidentModel → Bool
in_scope none m = true
in_scope (some t) m = m.tenant_id == t

abbrev pub active_rows : Option ℕ → Store → List IncidentModel
active_rows tenant s =
    filter (in_scope tenant) (filter (λ (m : IncidentModel). is_active m.status) s.incidents)

-- PostgresIncidentRepository.count_open_by_severity: zero where the query has no group
unfoldable pub count_open_by_severity : Option ℕ → Store → List (SecurityEventSeverity × ℕ)
unfolding grouped count_of
count_open_by_severity tenant s =
    let rows = grouped severity_eq (λ (m : IncidentModel). m.severity) (active_rows tenant s) in
    map (λ v. (v, count_of severity_eq v rows)) severities

abbrev pub is_evidence_of : ℕ → ℕ → IncidentEvidence → Bool
is_evidence_of incident tenant e = e.incident_id == incident && e.tenant_id == tenant

-- PostgresIncidentEvidenceRepository.count_by_incident
unfoldable pub count_evidences : ℕ → ℕ → Store → ℕ
count_evidences incident tenant s = length (filter (is_evidence_of incident tenant) s.evidences)

-- PostgresIncidentEvidenceRepository.list_by_incident
unfoldable pub list_evidences :
    (List IncidentEvidence → List IncidentEvidence) → ℕ → ℕ → ℕ → ℕ → Store → List IncidentEvidence
list_evidences newest_first incident tenant skip limit s =
    page skip limit (newest_first (filter (is_evidence_of incident tenant) s.evidences))

abbrev pub is_change_of : ℕ → ℕ → IncidentStatusHistoryModel → Bool
is_change_of incident tenant h = h.incident_id == incident && h.tenant_id == tenant

-- PostgresIncidentStatusHistoryRepository.count_by_incident
unfoldable pub count_changes : ℕ → ℕ → Store → ℕ
count_changes incident tenant s = length (filter (is_change_of incident tenant) s.history)

-- PostgresIncidentStatusHistoryRepository.list_by_incident
unfoldable pub list_changes :
    (List IncidentStatusHistoryModel → List IncidentStatusHistoryModel)
    → ℕ
    → ℕ
    → ℕ
    → ℕ
    → Store
    → List IncidentStatusChange
list_changes newest_first incident tenant skip limit s =
    map (λ (h : IncidentStatusHistoryModel). h.change)
      (page skip limit (newest_first (filter (is_change_of incident tenant) s.history)))
