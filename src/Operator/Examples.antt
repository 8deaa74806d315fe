-- ===== src/Operator/Examples.antt =====
-- Requests of an operator at a concrete store.
use prefeitura_anti_hack.Prelude.{
  ◌≡◌, refl, ◌≤◌, Bool, true, none, some, List, [], ◌∷◌, All, length,
}
use prefeitura_anti_hack.Prelude.Int.{pos}
use prefeitura_anti_hack.Prelude.Text.{strip, lstrip, rstrip, is_space}
use prefeitura_anti_hack.Prelude.Python.{ok, err, http_error}
use prefeitura_anti_hack.Domain.{utc}
use prefeitura_anti_hack.Incident.{
  Incident, IncidentEvidence, open_, acknowledged, high, SecurityEventSeverity,
}
use prefeitura_anti_hack.Correlation.Samples.{same, toy, start}
use prefeitura_anti_hack.Correlation.Store.{Store, IncidentModel, IncidentStatusHistoryModel}
use prefeitura_anti_hack.Operator.{
  IncidentFilter, SortField, severity_eq, count_of, count_open_by_severity,
}
use prefeitura_anti_hack.Operator.Selected.{Counted, WantedRow}
use prefeitura_anti_hack.Operator.Asked.{AskedBy}
use prefeitura_anti_hack.Operator.Counts.{Reported, total, count_open_by_severity-partitions}
use prefeitura_anti_hack.Operator.Routes.{
  User, ListQuery, Page, IncidentResponse, ChangeIncidentStatus, parse_status, read_query, one_of,
  utc_bound, as_filter, list_incidents_route, get_incident_route, list_evidences_route,
  list_history_route, change_status_route,
}
use prefeitura_anti_hack.Operator.Listing.{Shown, routes_404, list_incidents_route-Shown}
use prefeitura_anti_hack.Operator.Changing.{Changed, change_status_route-Changed}

abbrev incident : Incident
incident = record {
  incident_id = 50;
  tenant_id = 7;
  title = "t";
  description = "d";
  severity = high;
  status = open_;
  correlation_key = "c";
  created_at = utc (pos 1);
  updated_at = utc (pos 1);
  evidences = [];
  audit_history = [];
}

abbrev model : IncidentModel
model = record { incident = incident; correlation_key_hash = "c" }

abbrev desk : Store
desk = record start { incidents = model ∷ [] }

abbrev operator : User
operator = record { tenant_id = 7; user_id = "ana" }

abbrev stranger : User
stranger = record { tenant_id = 8; user_id = "rui" }

abbrev always : Store → Bool
always s = true

abbrev acknowledge_request : ChangeIncidentStatus
acknowledge_request = record { new_status = "acknowledged"; reason = "triage" }

parses : parse_status "acknowledged" ≡ ok acknowledged
unfolding parse_status
parses = refl

change_status_route-Changed_example :
    Changed toy always 50 acknowledge_request operator acknowledged model desk
      (change_status_route toy always 50 acknowledge_request operator desk)
change_status_route-Changed_example =
    change_status_route-Changed toy always 50 acknowledge_request operator acknowledged model desk
      refl parses refl refl refl

abbrev newest : List IncidentEvidence → List IncidentEvidence
newest es = es

abbrev latest : List IncidentStatusHistoryModel → List IncidentStatusHistoryModel
latest hs = hs

routes_404_example :
    (get_incident_route 50 stranger desk ≡ (err (http_error 404), desk))
    × (list_evidences_route toy.lower same newest 50 0 10 stranger desk
        ≡ (err (http_error 404), desk))
    × (list_history_route latest 50 0 10 stranger desk ≡ (err (http_error 404), desk))
    × (change_status_route toy always 50 acknowledge_request stranger desk
        ≡ (err (http_error 404), desk))
routes_404_example =
    routes_404 toy same newest latest always 50 0 10 acknowledge_request stranger desk refl

abbrev by_id : SortField → Bool → List IncidentModel → List IncidentModel
by_id c up rows = rows

by_id_keeps :
    (P : IncidentModel → Type 0) (c : SortField) (up : Bool) (xs : List IncidentModel)
    → All P xs
    → All P (by_id c up xs)
by_id_keeps P c up xs h = h

abbrev first_page : ListQuery
first_page = record {
  skip = 0;
  limit = 10;
  incident_status = some " open";
  severity = none;
  created_from = none;
  created_to = some (utc (pos 9));
  sort_by = "created_at";
  order = "desc";
}

abbrev open_filter : IncidentFilter
open_filter = as_filter (some "open") none none (some (pos 9))

reads_page : read_query toy first_page ≡ ok (open_filter, "desc")
unfolding read_query one_of utc_bound strip lstrip rstrip is_space toy
reads_page = refl

list_incidents_route-Shown_example :
    (p : Page IncidentResponse) × (list_incidents_route toy by_id operator first_page desk
      ≡ (ok p, desk))
    × AskedBy toy first_page open_filter
    × All (Shown toy by_id 7 open_filter desk) p.items
    × (length p.items ≤ 10)
    × Counted (WantedRow toy 7 open_filter) desk.incidents p.total
list_incidents_route-Shown_example =
    list_incidents_route-Shown toy by_id by_id_keeps operator first_page open_filter "desc" desk
      reads_page

count_open_by_severity-partitions_example :
    ((v : SecurityEventSeverity)
      → Counted
          (λ (m : IncidentModel). Reported (some 7) m × (m.severity ≡ v))
          desk.incidents
          (count_of severity_eq v (count_open_by_severity (some 7) desk)))
    × Counted (Reported (some 7)) desk.incidents (total (count_open_by_severity (some 7) desk))
count_open_by_severity-partitions_example = count_open_by_severity-partitions (some 7) desk
