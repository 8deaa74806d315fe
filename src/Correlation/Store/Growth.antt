-- ===== src/Correlation/Store/Growth.antt =====
-- Adding one row to a consistent store, and what stays recorded.
use prefeitura_anti_hack.Prelude.{
  ℕ, ◌+◌, ◌≤◌, ◌<◌, ◌≡◌, ◌∙◌, sym, ◌⊎◌, inl, inr, String, true, [], ◌∷◌, ◌++◌, filter, All-imp,
  All-append, length, filter-concat, filter-nil_of_any, ◌==◌, ==→eq, and_split, str_eq_iff,
  Bool-cases, arith, if◌then◌else◌,
}
use prefeitura_anti_hack.Incident.{IncidentEvidence}
use prefeitura_anti_hack.Correlation.Store.{
  Store, IncidentModel, AuditLog, opens, is_evidence, same_pair,
}
use prefeitura_anti_hack.Correlation.Store.Saving.{IsConsistent, is_pair}
use prefeitura_anti_hack.Correlation.Store.Linking.{no_pair}

-- The event has its evidence in the one active incident of the tenant and the key.
pub record Recorded (t : ℕ) (h : String) (e : ℕ) (s : Store) : Type 0 where
  pub row : IncidentModel
  pub opened : filter (opens t h) s.incidents ≡ row ∷ []
  pub proof : IncidentEvidence
  pub linked : filter (is_evidence row.incident_id e t) s.evidences ≡ proof ∷ []

-- A row that is open under two keys has one key.
opens-key :
    (t u : ℕ) (h k : String) (m : IncidentModel)
    → opens t h m ≡ true
    → opens u k m ≡ true
    → (t ≡ u) × (h ≡ k)
opens-key t u h k m p q =
    ground (arith, str_eq_iff m.correlation_key_hash h, str_eq_iff m.correlation_key_hash k)

abbrev pub with_incident : Store → IncidentModel → AuditLog → Store
with_incident s m log = record s {
  next_id = s.next_id + 1;
  incidents = s.incidents ++ m ∷ [];
  logs = s.logs ++ log ∷ [];
}

abbrev pub with_evidence : Store → IncidentEvidence → Store
with_evidence s x = record s { next_id = s.next_id + 1; evidences = s.evidences ++ x ∷ [] }

abbrev pub with_id : Store → Store
with_id s = record s { next_id = s.next_id + 1 }

-- Where the key of a new row is not open, another key's rows or none are selected.
open_rows :
    (s : Store) (m : IncidentModel) (t : ℕ) (h : String)
    → opens t h m ≡ true
    → filter (opens t h) s.incidents ≡ []
    → (u : ℕ) (k : String)
    → ((filter (opens u k) (s.incidents ++ m ∷ []) ≡ filter (opens u k) s.incidents))
      ⊎ ((filter (opens u k) s.incidents ≡ [])
          × (filter (opens u k) (s.incidents ++ m ∷ []) ≡ m ∷ []))
open_rows s m t h o e u k = elim (Bool-cases (opens u k m)) [
  | inr p ↦ inl (rw (filter-concat, p))
  | inl p ↦
      let (a, b) = opens-key u t k h m p o in
      inr (rw (a, b) e, rw (filter-concat, p) (rw (a, b) (rw e)))
]

abbrev pub with_owner : (ℕ → ℕ) → ℕ → ℕ → ℕ → ℕ
with_owner owner n t i = if i == n then t else owner i

module _ {owner : ℕ → ℕ} (s : Store) (c : IsConsistent owner s) where
  -- A new incident with a new identifier and a key that is not open keeps the constraints.
  pub with_incident-IsConsistent :
      (m : IncidentModel) (log : AuditLog) (t : ℕ) (h : String)
      → m.incident_id ≡ s.next_id
      → opens t h m ≡ true
      → filter (opens t h) s.incidents ≡ []
      → IsConsistent (with_owner owner s.next_id m.tenant_id) (with_incident s m log)
  with_incident-IsConsistent m log t h i o e = record {
    event_once = c.event_once;
    open_once = λ u k. elim (open_rows s m t h o e u k) [
      | inl p ↦ rw p (c.open_once u k)
      | inr (p, q) ↦ rw q (omega arith)
    ];
    evidence_once = c.evidence_once;
    incidents_owned =
        All-append _ s.incidents (m ∷ [])
          (All-imp (λ x k. (omega (arith, k.0), ground (arith, k.0, k.1))) s.incidents
            c.incidents_owned)
          ((omega (arith, i), ground (arith, i)), tt);
    evidences_owned =
        All-imp (λ x k. (omega (arith, k.0), ground (arith, k.0, k.1))) s.evidences
          c.evidences_owned;
  }

  pair_once :
      (x : IncidentEvidence)
      → owner x.incident_id ≡ x.tenant_id
      → filter (is_evidence x.incident_id x.event_id x.tenant_id) s.evidences ≡ []
      → (j f : ℕ) → length (filter (is_pair j f) (s.evidences ++ x ∷ [])) ≤ 1
  pair_once x o e j f = elim (Bool-cases (is_pair j f x)) [
    | inr p ↦ rw (filter-concat, p) (c.evidence_once j f)
    | inl p ↦
        let (a, b) = and_split (x.incident_id == j) (x.event_id == f) p in
        let n : filter (is_pair x.incident_id x.event_id) s.evidences ≡ [] =
          filter-nil_of_any (same_pair x) s.evidences (no_pair s x c o e) in
        let n' : filter (is_pair j f) s.evidences ≡ [] =
          rw (sym (==→eq x.incident_id j a), sym (==→eq x.event_id f b)) n in
        rw (filter-concat, p) (rw n' (omega arith))
  ]

  -- New evidence, under the tenant of its incident, keeps the constraints.
  pub with_evidence-IsConsistent :
      (x : IncidentEvidence)
      → x.incident_id < s.next_id
      → owner x.incident_id ≡ x.tenant_id
      → filter (is_evidence x.incident_id x.event_id x.tenant_id) s.evidences ≡ []
      → IsConsistent owner (with_evidence s x)
  with_evidence-IsConsistent x i o e = record {
    event_once = c.event_once;
    open_once = c.open_once;
    evidence_once = pair_once x o e;
    incidents_owned = All-imp (λ y k. (omega (arith, k.0), k.1)) s.incidents c.incidents_owned;
    evidences_owned =
        All-append _ s.evidences (x ∷ [])
          (All-imp (λ y k. (omega (arith, k.0), k.1)) s.evidences c.evidences_owned)
          ((omega (arith, i), sym o), tt);
  }

  pub with_id-IsConsistent : IsConsistent owner (with_id s)
  with_id-IsConsistent = record {
    event_once = c.event_once;
    open_once = c.open_once;
    evidence_once = c.evidence_once;
    incidents_owned = All-imp (λ y k. (omega (arith, k.0), k.1)) s.incidents c.incidents_owned;
    evidences_owned = All-imp (λ y k. (omega (arith, k.0), k.1)) s.evidences c.evidences_owned;
  }

-- What was recorded stays recorded.
pub Recorded-with_incident :
    (s : Store) (m : IncidentModel) (log : AuditLog) (t : ℕ) (h : String)
    → opens t h m ≡ true
    → filter (opens t h) s.incidents ≡ []
    → {u : ℕ} {k : String} {e : ℕ} → Recorded u k e s
    → Recorded u k e (with_incident s m log)
Recorded-with_incident s m log t h o e {u} {k} r = record {
  row = r.row;
  opened = elim (open_rows s m t h o e u k) [
    | inl p ↦ p ∙ r.opened
    | inr (p, q) ↦ absurd (cc (p, r.opened))
  ];
  proof = r.proof;
  linked = r.linked;
}

pub Recorded-with_evidence :
    (s : Store) (x : IncidentEvidence)
    → filter (is_evidence x.incident_id x.event_id x.tenant_id) s.evidences ≡ []
    → {u : ℕ} {k : String} {e : ℕ} → Recorded u k e s
    → Recorded u k e (with_evidence s x)
Recorded-with_evidence s x n {u} {k} {e} r = record {
  row = r.row;
  opened = r.opened;
  proof = r.proof;
  linked = elim (Bool-cases (is_evidence r.row.incident_id e u x)) [
    | inr p ↦ rw (filter-concat, p) r.linked
    | inl p ↦
        let (a, q) = and_split (x.incident_id == r.row.incident_id) _ p in
        let (b, d) = and_split (x.event_id == e) (x.tenant_id == u) q in
        let n' : filter (is_evidence r.row.incident_id e u) s.evidences ≡ [] =
          rw (sym (==→eq _ _ a), sym (==→eq _ _ b), sym (==→eq _ _ d)) n in
        absurd (cc (n', r.linked))
  ];
}
