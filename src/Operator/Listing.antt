-- ===== src/Operator/Listing.antt =====
-- What the reading routes show, and to whom.
use mathlib.Core.Path.{subst}
use prefeitura_anti_hack.Prelude.{
  str_eq, ℕ, zero, suc, ◌+◌, ◌≤◌, ◌≡◌, refl, sym, ap, String, Bool, true, false, none, List, [],
  ◌∷◌, ◌++◌, All, All-page, All-imp, any, filter, filter-holds, filter-nil_of_any, map, length,
  length-take-le, take, drop, page, ◌==◌, ==→eq, ==-refl, and_split, arith, ◌∙◌,
}
use prefeitura_anti_hack.Prelude.Python.{ok, err, http_error}
use prefeitura_anti_hack.Prelude.Runtime.{Runtime}
use prefeitura_anti_hack.Correlation.Key.{instant}
use prefeitura_anti_hack.Incident.{Incident, IncidentEvidence}
use prefeitura_anti_hack.Correlation.Store.{
  Store, IncidentModel, IncidentStatusHistoryModel, to_entity,
}
use prefeitura_anti_hack.Operator.{
  is_incident, get_incident, IncidentFilter, SortField, sort_column, selects, count_incidents,
  list_incidents, count_of, get_evidence_counts_batch, count_evidences, is_evidence_of,
}
use prefeitura_anti_hack.Operator.Asked.{AskedBy, read_query-AskedBy}
use prefeitura_anti_hack.Operator.Selected.{
  Counted, length-filter-Counted, Wanted, WantedRow, selects-WantedRow, WantedRow-selects,
}
use prefeitura_anti_hack.Operator.Counts.{get_evidence_counts_batch-agrees}
use prefeitura_anti_hack.Operator.Routes.{
  read_query, list_incidents_route, User, IncidentResponse, incident_response, Page, ListQuery,
  incident_page, ChangeIncidentStatus, get_incident_route, list_evidences_route, list_history_route,
  change_status, change_status_route,
}

get_incident-absent :
    (k t : ℕ) (s : Store)
    → any (is_incident k t) s.incidents ≡ false
    → get_incident k t s ≡ (ok none, s)
unfolding get_incident
get_incident-absent k t s h = rw (filter-nil_of_any (is_incident k t) s.incidents h) refl

-- An incident of which the user's tenant has no row, be it unknown or another tenant's, is answered
-- with 404 by every route that names an incident, and none of them changes anything.
pub routes_404 :
    (rt : Runtime) (redact : String → String)
    → (newest : List IncidentEvidence → List IncidentEvidence)
    → (latest : List IncidentStatusHistoryModel → List IncidentStatusHistoryModel)
    → (commits : Store → Bool)
    → (incident skip limit : ℕ) (dto : ChangeIncidentStatus) (user : User) (s : Store)
    → any (is_incident incident user.tenant_id) s.incidents ≡ false
    → (get_incident_route incident user s ≡ (err (http_error 404), s))
      × (list_evidences_route rt.lower redact newest incident skip limit user s
          ≡ (err (http_error 404), s))
      × (list_history_route latest incident skip limit user s ≡ (err (http_error 404), s))
      × (change_status_route rt commits incident dto user s ≡ (err (http_error 404), s))
unfolding get_incident_route list_evidences_route list_history_route change_status_route
    change_status
routes_404 rt redact newest latest commits incident skip limit dto user s h =
    let gone = get_incident-absent incident user.tenant_id s h in
    (rw gone refl, rw gone refl, rw gone refl, rw gone refl)

take-nil : {A : Type 0} (n : ℕ) → take {A = A} n [] ≡ []
take-nil zero = refl
take-nil (suc n) = refl

drop-nil : {A : Type 0} (n : ℕ) → drop {A = A} n [] ≡ []
drop-nil zero = refl
drop-nil (suc n) = refl

take-split :
    {A : Type 0} (a b : ℕ) (xs : List A) → take (a + b) xs ≡ take a xs ++ take b (drop a xs)
take-split zero b xs = ground arith
take-split {A} (suc a) b [] = ground (arith, take-nil {A = A} (suc a + b), take-nil {A = A} b)
take-split (suc a) b (x ∷ xs) =
    let e : suc a + b ≡ suc (a + b) = omega arith in rw e (ap (λ ys. x ∷ ys) (take-split a b xs))

drop-drop : {A : Type 0} (a b : ℕ) (xs : List A) → drop b (drop a xs) ≡ drop (a + b) xs
drop-drop zero b xs = ground arith
drop-drop {A} (suc a) b [] = ground (arith, drop-nil {A = A} (suc a + b), drop-nil {A = A} b)
drop-drop (suc a) b (x ∷ xs) =
    let e : suc a + b ≡ suc (a + b) = omega arith in rw e (drop-drop a b xs)

page-split :
    {A : Type 0} (skip a b : ℕ) (xs : List A)
    → page skip (a + b) xs ≡ page skip a xs ++ page (skip + a) b xs
page-split skip a b xs =
    take-split a b (drop skip xs)
    ∙ ap (λ ys. take a (drop skip xs) ++ take b ys) (drop-drop skip a xs)

map-append : {A B : Type 0} (f : A → B) (xs ys : List A) → map f (xs ++ ys) ≡ map f xs ++ map f ys
map-append f [] ys = refl
map-append f (x ∷ xs) ys = ap (λ r. f x ∷ r) (map-append f xs ys)

module _ (rt : Runtime)
    (order_by : SortField → Bool → List IncidentModel → List IncidentModel) where
  -- Two consecutive pages of a listing are the one page of both lengths: no incident is shown twice
  -- or left out between them.
  pub list_incidents-append :
      (tenant skip a b : ℕ) (f : IncidentFilter) (sort_by order : String) (s : Store)
      → list_incidents rt order_by tenant skip (a + b) f sort_by order s
        ≡ list_incidents rt order_by tenant skip a f sort_by order s
          ++ list_incidents rt order_by tenant (skip + a) b f sort_by order s
  unfolding list_incidents
  list_incidents-append tenant skip a b f sort_by order s =
      let rows =
        order_by (sort_column sort_by) (str_eq (rt.lower order) "asc")
          (filter (selects rt tenant f) s.incidents) in
      ap (map to_entity) (page-split skip a b rows)
      ∙ map-append to_entity (page skip a rows) (page (skip + a) b rows)

  -- a piece of evidence of an incident of the tenant
  abbrev pub IsOf : ℕ → ℕ → IncidentEvidence → Type 0
  IsOf incident tenant e = (e.incident_id ≡ incident) × (e.tenant_id ≡ tenant)

  -- a line of the answer: an incident that the filters select, with the number of its pieces of
  -- evidence
  abbrev pub Shown : ℕ → IncidentFilter → Store → IncidentResponse → Type 0
  Shown tenant f s r =
      Wanted rt tenant f r.tenant_id r.status r.severity (instant r.created_at)
      × Counted (IsOf r.incident_id tenant) s.evidences r.evidence_count

  count_evidences-Counted :
      (incident tenant : ℕ) (s : Store)
      → Counted (IsOf incident tenant) s.evidences (count_evidences incident tenant s)
  unfolding count_evidences
  count_evidences-Counted incident tenant s =
      length-filter-Counted (IsOf incident tenant) (is_evidence_of incident tenant)
        (λ e h.
          let (p, q) = and_split (e.incident_id == incident) _ h in (==→eq _ _ p, ==→eq _ _ q))
        (λ e h. ground (arith, h.0, h.1, ==-refl incident, ==-refl tenant)) s.evidences

  selected_wanted :
      (tenant : ℕ) (f : IncidentFilter) (rows : List IncidentModel)
      → All (WantedRow rt tenant f) (filter (selects rt tenant f) rows)
  selected_wanted tenant f rows =
      All-imp (selects-WantedRow rt tenant f) _ (filter-holds (selects rt tenant f) rows)

  lines-Shown :
      (tenant : ℕ) (f : IncidentFilter) (s : Store) (ids : List ℕ) (found : List IncidentModel)
      → All (WantedRow rt tenant f) found
      → All (λ (m : IncidentModel). any (λ i. i == m.incident_id) ids ≡ true) found
      → All (Shown tenant f s) (
          map
            (λ (i : Incident).
              incident_response i
                (count_of ◌==◌ i.incident_id (get_evidence_counts_batch tenant ids s)))
            (map to_entity found))
  unfolding incident_response
  lines-Shown tenant f s ids [] wanted listed = tt
  lines-Shown tenant f s ids (m ∷ found) wanted listed = (
    (
      record {
        owned = wanted.0.owned;
        by_status = wanted.0.by_status;
        by_severity = wanted.0.by_severity;
        from = wanted.0.from;
        up_to = wanted.0.up_to;
      },
      subst (Counted (IsOf m.incident_id tenant) s.evidences)
          (sym (get_evidence_counts_batch-agrees tenant ids m.incident_id s listed.0))
          (count_evidences-Counted m.incident_id tenant s),
    ),
    lines-Shown tenant f s ids found wanted.1 listed.1,
  )

  listed_later :
      (i : ℕ) (ids : List ℕ) (found : List IncidentModel)
      → All (λ (m : IncidentModel). any (λ j. j == m.incident_id) ids ≡ true) found
      → All (λ (m : IncidentModel). any (λ j. j == m.incident_id) (i ∷ ids) ≡ true) found
  listed_later i ids [] h = tt
  listed_later i ids (m ∷ found) h = (ground (arith, h.0), listed_later i ids found h.1)

  ids_listed :
      (found : List IncidentModel)
      → All
          (λ (m : IncidentModel).
            any
              (λ j. j == m.incident_id)
              (map (λ (i : Incident). i.incident_id) (map to_entity found))
            ≡ true)
          found
  ids_listed [] = tt
  ids_listed (m ∷ found) = (
    ground (arith, ==-refl m.incident_id),
    listed_later m.incident_id (map (λ (i : Incident). i.incident_id) (map to_entity found)) found
        (ids_listed found),
  )

  length-map : {A B : Type 0} (f : A → B) (xs : List A) → length (map f xs) ≡ length xs
  length-map f [] = refl
  length-map f (x ∷ xs) = ap suc (length-map f xs)

  module _
      (keeps : (P : IncidentModel → Type 0) (c : SortField) (up : Bool) (xs : List IncidentModel)
        → All P xs
        → All P (order_by c up xs)) where
    incident_page-Shown :
        (tenant : ℕ) (q : ListQuery) (f : IncidentFilter) (order : String) (s : Store)
        → All (Shown tenant f s) (incident_page rt order_by tenant q f order s).items
    unfolding incident_page list_incidents
    incident_page-Shown tenant q f order s =
        let rows = filter (selects rt tenant f) s.incidents in
        let found =
          page q.skip q.limit
            (order_by (sort_column q.sort_by) (str_eq (rt.lower order) "asc") rows) in
        lines-Shown tenant f s _ found
          (All-page (WantedRow rt tenant f) q.skip q.limit _ (
            keeps (WantedRow rt tenant f) (sort_column q.sort_by) (str_eq (rt.lower order) "asc")
              rows (selected_wanted tenant f s.incidents)))
          (ids_listed found)

    incident_page-length :
        (tenant : ℕ) (q : ListQuery) (f : IncidentFilter) (order : String) (s : Store)
        → length (incident_page rt order_by tenant q f order s).items ≤ q.limit
    unfolding incident_page list_incidents
    incident_page-length tenant q f order s =
        let found = page q.skip q.limit (
          order_by (sort_column q.sort_by) (str_eq (rt.lower order) "asc")
            (filter (selects rt tenant f) s.incidents)) in
        omega (
          arith,
          length-map
              (λ (i : Incident). incident_response i (
                count_of ◌==◌ i.incident_id (
                  get_evidence_counts_batch tenant
                    (map (λ (i : Incident). i.incident_id) (map to_entity found)) s)))
              (map to_entity found),
          length-map to_entity found,
          length-take-le q.limit (
              drop q.skip (
                order_by (sort_column q.sort_by) (str_eq (rt.lower order) "asc")
                  (filter (selects rt tenant f) s.incidents))),
        )

    -- Where the database orders rows without adding any, a listing that passes the validations
    -- shows at most `limit` incidents, each of the user's tenant, with the status, the severity and
    -- the time that the filters ask for, and with the number of its pieces of evidence; it shows as
    -- the total how many incidents of that tenant the filters ask for; and it changes nothing. The
    -- filters are the query parameters, without blanks around them and in lower case.
    pub list_incidents_route-Shown :
        (user : User) (q : ListQuery) (f : IncidentFilter) (order : String) (s : Store)
        → read_query rt q ≡ ok (f, order)
        → (p : Page IncidentResponse) × (list_incidents_route rt order_by user q s ≡ (ok p, s))
          × AskedBy rt q f
          × All (Shown user.tenant_id f s) p.items
          × (length p.items ≤ q.limit)
          × Counted (WantedRow rt user.tenant_id f) s.incidents p.total
    unfolding list_incidents_route incident_page count_incidents
    list_incidents_route-Shown user q f order s reads = (
      incident_page rt order_by user.tenant_id q f order s,
      rw reads refl,
      read_query-AskedBy rt q f order reads,
      incident_page-Shown user.tenant_id q f order s,
      incident_page-length user.tenant_id q f order s,
      length-filter-Counted (WantedRow rt user.tenant_id f) (selects rt user.tenant_id f)
          (selects-WantedRow rt user.tenant_id f) (WantedRow-selects rt user.tenant_id f)
          s.incidents,
    )
