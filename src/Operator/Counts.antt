-- ===== src/Operator/Counts.antt =====
-- What the grouped counts say of the rows.
use mathlib.Core.Path.{subst}
use prefeitura_anti_hack.Prelude.{
  ℕ, suc, ◌+◌, ◌≡◌, ◌∙◌, refl, sym, ap, ◌&&◌, and_split, none, some, Bool, true, Option, List, [],
  ◌∷◌, any, filter, map, length, ◌==◌, ==→eq, ==-refl, if◌then◌else◌, arith, inl, inr, Bool-cases,
}
use prefeitura_anti_hack.Incident.{
  IncidentStatus, open_, acknowledged, investigating, contained, resolved, closed, IncidentEvidence,
  SecurityEventSeverity, info, low, medium, high, critical,
}
use prefeitura_anti_hack.Correlation.Store.{Store, IncidentModel, is_active}
use prefeitura_anti_hack.Operator.Selected.{Counted, length-filter-Counted}
use prefeitura_anti_hack.Operator.{
  bump, grouped, count_of, evidence_in, get_evidence_counts_batch, severity_eq, severities,
  in_scope, active_rows, count_open_by_severity, is_evidence_of, count_evidences,
}

module _ {A R : Type 0} (eq : A → A → Bool) (key : R → A) (same : (a b : A) → eq a b ≡ true → a ≡ b)
    (self : (a : A) → eq a a ≡ true) where
  count_of-bump :
      (j k : A) (counts : List (A × ℕ))
      → count_of eq k (bump eq j counts)
        ≡ (if eq j k then suc (count_of eq k counts) else count_of eq k counts)
  unfolding count_of bump
  count_of-bump j k [] = ground arith
  count_of-bump j k ((i, n) ∷ counts) = elim (Bool-cases (eq i j)) [
    | inl p ↦ ground (arith, p, same i j p)
    | inr p ↦ elim (Bool-cases (eq i k)) [
      | inl q ↦ elim (Bool-cases (eq j k)) [
        | inl r ↦ absurd (ground (arith, p, same i k q, same j k r, self k))
        | inr r ↦ ground (arith, p, q, r)
      ]
      | inr q ↦ ground (arith, p, q, count_of-bump j k counts)
    ]
  ]

  -- A group holds as many rows as have its key.
  pub count_of-grouped :
      (k : A) (rows : List R)
      → count_of eq k (grouped eq key rows) ≡ length (filter (λ r. eq (key r) k) rows)
  unfolding count_of grouped
  count_of-grouped k [] = refl
  count_of-grouped k (r ∷ rows) =
      ground (arith, count_of-bump (key r) k (grouped eq key rows), count_of-grouped k rows)

filter_both :
    (tenant : ℕ) (ids : List ℕ) (k : ℕ) (rows : List IncidentEvidence)
    → any (λ i. i == k) ids ≡ true
    → filter (λ (e : IncidentEvidence). e.incident_id == k) (filter (evidence_in tenant ids) rows)
      ≡ filter (is_evidence_of k tenant) rows
filter_both tenant ids k [] h = refl
filter_both tenant ids k (e ∷ rows) h = elim (Bool-cases (e.incident_id == k)) [
  | inl p ↦ ground (arith, ==→eq e.incident_id k p, p, h, filter_both tenant ids k rows h)
  | inr p ↦ ground (arith, p, filter_both tenant ids k rows h)
]

-- For every incident of a page the batch query counts the evidence that the query for that one
-- incident counts, with zero where it has no group.
pub get_evidence_counts_batch-agrees :
    (tenant : ℕ) (ids : List ℕ) (k : ℕ) (s : Store)
    → any (λ i. i == k) ids ≡ true
    → count_of ◌==◌ k (get_evidence_counts_batch tenant ids s) ≡ count_evidences k tenant s
unfolding get_evidence_counts_batch count_evidences
get_evidence_counts_batch-agrees tenant [] k s h = cc
get_evidence_counts_batch-agrees tenant (i ∷ ids) k s h =
    rw
      (
        count_of-grouped ◌==◌ (λ (e : IncidentEvidence). e.incident_id) ==→eq ==-refl k
            (filter (evidence_in tenant (i ∷ ids)) s.evidences),
        filter_both tenant (i ∷ ids) k s.evidences h,
      )
      refl

severities_same : (a b : SecurityEventSeverity) → severity_eq a b ≡ true → a ≡ b
severities_same a b h = ground arith

severities_self : (a : SecurityEventSeverity) → severity_eq a a ≡ true
severities_self a = ground arith

abbrev pub total : List (SecurityEventSeverity × ℕ) → ℕ
total [] = 0
total ((v, n) ∷ counts) = n + total counts

abbrev pub of_severity : SecurityEventSeverity → List IncidentModel → ℕ
of_severity v rows = length (filter (λ (m : IncidentModel). severity_eq m.severity v) rows)

all_severities :
    (rows : List IncidentModel)
    → of_severity info rows
        + (of_severity low rows
            + (of_severity medium rows + (of_severity high rows + (of_severity critical rows + 0))))
      ≡ length rows
all_severities [] = omega arith
all_severities (m ∷ rows) = ground (arith, all_severities rows)

each_severity :
    (v : SecurityEventSeverity) (rows : List IncidentModel)
    → ((u : SecurityEventSeverity)
        → count_of severity_eq u (grouped severity_eq (λ (m : IncidentModel). m.severity) rows)
          ≡ of_severity u rows)
    → count_of severity_eq v (
        map
          (λ (u : SecurityEventSeverity). (
            u,
            count_of severity_eq u (grouped severity_eq (λ (m : IncidentModel). m.severity) rows),
          ))
          severities)
      ≡ of_severity v rows
unfolding count_of
each_severity info rows h = h info
each_severity low rows h = h low
each_severity medium rows h = h medium
each_severity high rows h = h high
each_severity critical rows h = h critical

-- the tenant that is asked for, or any
abbrev pub InScope : Option ℕ → IncidentModel → Type 0
InScope none m = Unit
InScope (some t) m = m.tenant_id ≡ t

-- the life cycle is not over
pub data Ongoing : IncidentStatus → Type 0 where
  is_open : Ongoing open_
  is_acknowledged : Ongoing acknowledged
  is_investigating : Ongoing investigating
  is_contained : Ongoing contained

active-Ongoing : (v : IncidentStatus) → is_active v ≡ true → Ongoing v
active-Ongoing open_ h = is_open
active-Ongoing acknowledged h = is_acknowledged
active-Ongoing investigating h = is_investigating
active-Ongoing contained h = is_contained
active-Ongoing resolved h = absurd cc
active-Ongoing closed h = absurd cc

Ongoing-active : (v : IncidentStatus) → Ongoing v → is_active v ≡ true
Ongoing-active v is_open = refl
Ongoing-active v is_acknowledged = refl
Ongoing-active v is_investigating = refl
Ongoing-active v is_contained = refl

in_scope-InScope : (o : Option ℕ) (m : IncidentModel) → in_scope o m ≡ true → InScope o m
in_scope-InScope none m h = tt
in_scope-InScope (some t) m h = ==→eq _ _ h

InScope-in_scope : (o : Option ℕ) (m : IncidentModel) → InScope o m → in_scope o m ≡ true
InScope-in_scope none m h = refl
InScope-in_scope (some t) m h = ground (arith, h, ==-refl t)

filter-filter :
    {A : Type 0} (p q : A → Bool) (xs : List A)
    → filter p (filter q xs) ≡ filter (λ x. q x && p x) xs
filter-filter p q [] = refl
filter-filter p q (x ∷ xs) = ground (arith, filter-filter p q xs)

-- an incident that the report counts
abbrev pub Reported : Option ℕ → IncidentModel → Type 0
Reported tenant m = InScope tenant m × Ongoing m.status

active_rows-Counted :
    (tenant : Option ℕ) (s : Store)
    → Counted (Reported tenant) s.incidents (length (active_rows tenant s))
active_rows-Counted tenant s =
    subst (λ (rows : List IncidentModel). Counted (Reported tenant) s.incidents (length rows))
      (sym
        (filter-filter (in_scope tenant) (λ (m : IncidentModel). is_active m.status) s.incidents))
      (length-filter-Counted (Reported tenant)
        (λ (m : IncidentModel). is_active m.status && in_scope tenant m)
        (λ m h.
          let (p, q) = and_split (is_active m.status) _ h in
          (in_scope-InScope tenant m q, active-Ongoing m.status p))
        (λ m h. ground (arith, Ongoing-active m.status h.1, InScope-in_scope tenant m h.0))
        s.incidents)

severity-Counted :
    (tenant : Option ℕ) (v : SecurityEventSeverity) (s : Store)
    → Counted
        (λ (m : IncidentModel). Reported tenant m × (m.severity ≡ v))
        s.incidents
        (of_severity v (active_rows tenant s))
severity-Counted tenant v s =
    let is_v = λ (m : IncidentModel). severity_eq m.severity v in
    let wanted = λ (m : IncidentModel). (is_active m.status && in_scope tenant m) && is_v m in
    let same =
      ap (filter is_v)
        (filter-filter (in_scope tenant) (λ (m : IncidentModel). is_active m.status) s.incidents)
      ∙ filter-filter is_v (λ (m : IncidentModel). is_active m.status && in_scope tenant m)
          s.incidents in
    subst
      (λ (rows : List IncidentModel).
        Counted (λ (m : IncidentModel). Reported tenant m × (m.severity ≡ v)) s.incidents
          (length rows))
      (sym same)
      (length-filter-Counted (λ (m : IncidentModel). Reported tenant m × (m.severity ≡ v)) wanted
        (λ m h.
          let (a, b) = and_split (is_active m.status && in_scope tenant m) _ h in
          let (p, q) = and_split (is_active m.status) _ a in
          (
            (in_scope-InScope tenant m q, active-Ongoing m.status p),
            severities_same m.severity v b,
          ))
        (λ m h. ground (
          arith,
          Ongoing-active m.status h.0.1,
          InScope-in_scope tenant m h.0.0,
          h.1,
          severities_self v,
        ))
        s.incidents)

-- For one tenant or for all, the report gives for every severity the number of incidents in scope
-- that are of that severity and neither resolved nor closed, and its numbers add up to all the
-- incidents in scope that are neither resolved nor closed.
pub count_open_by_severity-partitions :
    (tenant : Option ℕ) (s : Store)
    → ((v : SecurityEventSeverity)
        → Counted
            (λ (m : IncidentModel). Reported tenant m × (m.severity ≡ v))
            s.incidents
            (count_of severity_eq v (count_open_by_severity tenant s)))
      × Counted (Reported tenant) s.incidents (total (count_open_by_severity tenant s))
unfolding count_open_by_severity
count_open_by_severity-partitions tenant s =
    let counted = λ (v : SecurityEventSeverity).
      count_of-grouped severity_eq (λ (m : IncidentModel). m.severity) severities_same
        severities_self v (active_rows tenant s) in
    (
      λ v. rw (each_severity v (active_rows tenant s) counted) (severity-Counted tenant v s),
      rw
          (
            counted info,
            counted low,
            counted medium,
            counted high,
            counted critical,
            all_severities (active_rows tenant s),
          )
          (active_rows-Counted tenant s),
    )
