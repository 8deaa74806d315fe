-- ===== src/Correlation/Store/Linking.antt =====
-- What the evidence repository does on a consistent store.
use native.Mathlib.Nat.{le_trans}
use prefeitura_anti_hack.Prelude.{
  ℕ, ◌≡◌, ◌∙◌, ap, ◌⊎◌, true, false, [], ◌∷◌, ◌++◌, any, filter, All-imp, ◌==◌, ==→eq, and_split,
  any_of_filter_nil_on, length-filter_mono, one_of_length-le, arith,
}
use prefeitura_anti_hack.Prelude.Python.{ok}
use prefeitura_anti_hack.Incident.{IncidentEvidence}
use prefeitura_anti_hack.Correlation.Store.{
  Store, is_evidence, same_pair, evidence_exists, save_evidence,
}
use prefeitura_anti_hack.Correlation.Store.Saving.{IsConsistent, is_pair}

-- What the query of one piece of evidence finds: at most one row.
pub evidence_cases :
    {owner : ℕ → ℕ} (s : Store) (i e t : ℕ)
    → IsConsistent owner s
    → (filter (is_evidence i e t) s.evidences ≡ [])
      ⊎ ((x : IncidentEvidence) × (filter (is_evidence i e t) s.evidences ≡ x ∷ []))
evidence_cases s i e t c = one_of_length-le _ (
    le_trans
      (length-filter_mono (is_evidence i e t) (is_pair i e) s.evidences (λ x h. ground arith))
      (c.evidence_once i e))

-- Under the tenant of the incident, no row for the query means no row for the constraint.
pub no_pair :
    {owner : ℕ → ℕ} (s : Store) (x : IncidentEvidence)
    → IsConsistent owner s
    → owner x.incident_id ≡ x.tenant_id
    → filter (is_evidence x.incident_id x.event_id x.tenant_id) s.evidences ≡ []
    → any (same_pair x) s.evidences ≡ false
no_pair {owner} s x c o e =
    any_of_filter_nil_on (is_evidence x.incident_id x.event_id x.tenant_id) (same_pair x)
      s.evidences
      (All-imp
        (λ y k h.
          let (p, q) = and_split (y.incident_id == x.incident_id) _ h in
          let r : y.tenant_id ≡ x.tenant_id =
            k.1 ∙ (ap owner (==→eq y.incident_id x.incident_id p) ∙ o) in
          ground arith)
        s.evidences c.evidences_owned)
      e

-- A new piece of evidence is stored as a new row.
pub save_evidence-new :
    {owner : ℕ → ℕ} (s : Store) (x : IncidentEvidence)
    → IsConsistent owner s
    → owner x.incident_id ≡ x.tenant_id
    → filter (is_evidence x.incident_id x.event_id x.tenant_id) s.evidences ≡ []
    → save_evidence x s ≡ (ok x, record s { evidences = s.evidences ++ x ∷ [] })
unfolding save_evidence
save_evidence-new s x c o e = rw (e, no_pair s x c o e)

-- Evidence that is there already is returned, and nothing is stored.
pub save_evidence-again :
    (s : Store) (x y : IncidentEvidence)
    → filter (is_evidence x.incident_id x.event_id x.tenant_id) s.evidences ≡ y ∷ []
    → save_evidence x s ≡ (ok y, s)
unfolding save_evidence
save_evidence-again s x y e = rw e (rw e)

pub evidence_exists-none :
    (s : Store) (i e t : ℕ)
    → filter (is_evidence i e t) s.evidences ≡ []
    → evidence_exists i e t s ≡ (ok false, s)
unfolding evidence_exists
evidence_exists-none s i e t h = rw h

pub evidence_exists-some :
    (s : Store) (i e t : ℕ) (x : IncidentEvidence)
    → filter (is_evidence i e t) s.evidences ≡ x ∷ []
    → evidence_exists i e t s ≡ (ok true, s)
unfolding evidence_exists
evidence_exists-some s i e t x h = rw h
