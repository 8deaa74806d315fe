-- ===== src/Operator/Asked.antt =====
-- What a listing that passes the validations asks for, read off its query parameters.
use mathlib.Core.Path.{subst}
use prefeitura_anti_hack.Prelude.{
  ◌≡◌, refl, true, inl, inr, String, Option, none, some, List, [], ◌∷◌, any, str_eq, Bool-cases,
  arith,
}
use prefeitura_anti_hack.Prelude.Int.{ℤ}
use prefeitura_anti_hack.Prelude.Text.{strip}
use prefeitura_anti_hack.Prelude.Python.{ok, Result-cases}
use prefeitura_anti_hack.Prelude.Runtime.{Runtime}
use prefeitura_anti_hack.Domain.{TimeValue, not_datetime, naive, aware}
use prefeitura_anti_hack.Correlation.Key.{instant}
use prefeitura_anti_hack.Incident.{
  IncidentStatus, open_, acknowledged, investigating, contained, resolved, closed,
}
use prefeitura_anti_hack.Operator.{IncidentFilter, status_value}
use prefeitura_anti_hack.Operator.Routes.{
  ListQuery, valid_incident_statuses, valid_severities, allowed_sort_fields, utc_bound, is_window,
  as_filter, one_of, read_query, parse_status,
}

-- Every status has the text that a listing may ask for and that a request for a change is read
-- from.
status_value-texts :
    (s : IncidentStatus)
    → (parse_status (status_value s) ≡ ok s)
      × (any (str_eq (status_value s)) valid_incident_statuses ≡ true)
unfolding parse_status
status_value-texts open_ = (refl, refl)
status_value-texts acknowledged = (refl, refl)
status_value-texts investigating = (refl, refl)
status_value-texts contained = (refl, refl)
status_value-texts resolved = (refl, refl)
status_value-texts closed = (refl, refl)

abbrev pub moment : Option TimeValue → Option ℤ
moment none = none
moment (some t) = some (instant t)

utc_bound-moment : (o : Option TimeValue) (b : Option ℤ) → utc_bound o ≡ ok b → b ≡ moment o
unfolding utc_bound
utc_bound-moment none b h = cc
utc_bound-moment (some not_datetime) b h = absurd cc
utc_bound-moment (some (naive t)) b h = absurd cc
utc_bound-moment (some (aware t offset)) b h = ground (arith, h)

module _ (rt : Runtime) where
  abbrev pub lowered : Option String → Option String
  lowered none = none
  lowered (some v) = some (rt.lower (strip v))

  -- the filters are those of the query, without blanks around and in lower case
  pub record AskedBy (q : ListQuery) (f : IncidentFilter) : Type 0 where
    pub status : f.status_filter ≡ lowered q.incident_status
    pub severity : f.severity_filter ≡ lowered q.severity
    pub from : f.created_from ≡ moment q.created_from
    pub up_to : f.created_to ≡ moment q.created_to

  one_of-lowered :
      (texts : List String) (o w : Option String) → one_of rt texts o ≡ ok w → w ≡ lowered o
  unfolding one_of
  one_of-lowered texts none w h = cc
  one_of-lowered texts (some v) w h = elim (Bool-cases (any (str_eq (rt.lower (strip v))) texts)) [
    | inl p ↦ ground (arith, p, h)
    | inr p ↦ absurd (ground (arith, p, h))
  ]

  pub read_query-AskedBy :
      (q : ListQuery) (f : IncidentFilter) (order : String)
      → read_query rt q ≡ ok (f, order)
      → AskedBy q f
  unfolding read_query
  read_query-AskedBy q f order h =
      elim (Result-cases (one_of rt valid_incident_statuses q.incident_status)) [
        | inr (x, a) ↦ absurd (ground (arith, a, h))
        | inl (s, a) ↦ elim (Result-cases (one_of rt valid_severities q.severity)) [
          | inr (x, b) ↦ absurd (ground (arith, a, b, h))
          | inl (v, b) ↦ elim (Bool-cases (any (str_eq q.sort_by) allowed_sort_fields)) [
            | inr c ↦ absurd (ground (arith, a, b, c, h))
            | inl c ↦
                let known = any (str_eq (rt.lower (strip q.order))) ("asc" ∷ "desc" ∷ []) in
                elim (Bool-cases known) [
                  | inr d ↦ absurd (ground (arith, a, b, c, d, h))
                  | inl d ↦ elim (Result-cases (utc_bound q.created_from)) [
                    | inr (x, e) ↦ absurd (ground (arith, a, b, c, d, e, h))
                    | inl (l, e) ↦ elim (Result-cases (utc_bound q.created_to)) [
                      | inr (x, g) ↦ absurd (ground (arith, a, b, c, d, e, g, h))
                      | inl (u, g) ↦ elim (Bool-cases (is_window l u)) [
                        | inr i ↦ absurd (ground (arith, a, b, c, d, e, g, i, h))
                        | inl i ↦
                            let same : as_filter s v l u ≡ f =
                              ground (arith, a, b, c, d, e, g, i, h) in
                            subst (AskedBy q) same (record {
                              status = one_of-lowered valid_incident_statuses q.incident_status s a;
                              severity = one_of-lowered valid_severities q.severity v b;
                              from = utc_bound-moment q.created_from l e;
                              up_to = utc_bound-moment q.created_to u g;
                            })
                      ]
                    ]
                  ]
                ]
          ]
        ]
      ]
