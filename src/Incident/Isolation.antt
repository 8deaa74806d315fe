-- ===== src/Incident/Isolation.antt =====
-- The tenant of an incident and of its evidence, over any sequence of calls.
use prefeitura_anti_hack.Prelude.{
  ℕ, ◌≡◌, List, [], ◌∷◌, ◌++◌, All, All-append, arith, Bool-cases, inl, inr, ◌==◌, ==→eq, ◌∙◌, ◌≢◌,
  ◌⊎◌,
}
use prefeitura_anti_hack.Prelude.Int.{ℤ}
use prefeitura_anti_hack.Prelude.Python.{ok, err, domain_error}
use prefeitura_anti_hack.Domain.{utc}
use prefeitura_anti_hack.Incident.{
  Incident, IncidentEvidence, TransitionArgs, transition_to, add_evidence, IncidentCall, transition,
  evidence, call, calls,
}
use prefeitura_anti_hack.Incident.Transitions.{Outcome, done, refused, transition_to-outcome}

-- Every piece of evidence has the incident's tenant.
pub record IsIsolated (t : ℕ) (i : Incident) : Type 0 where
  pub owner : i.tenant_id ≡ t
  pub members : All (λ (e : IncidentEvidence). e.tenant_id ≡ t) i.evidences

Outcome-IsIsolated :
    (t : ℕ) (a : TransitionArgs) (i : Incident)
    → Outcome a i
    → IsIsolated t i
    → IsIsolated t (transition_to a i).1
Outcome-IsIsolated t a i (done c e) h = rw e (record { owner = h.owner; members = h.members })
Outcome-IsIsolated t a i (refused x n e) h = rw e h

add_evidence-IsIsolated :
    (t : ℕ) (e : IncidentEvidence) (now : ℤ) (i : Incident)
    → IsIsolated t i
    → IsIsolated t (add_evidence e now i).1
unfolding add_evidence
add_evidence-IsIsolated t e now i h = elim (Bool-cases (e.tenant_id == i.tenant_id)) [
  | inl p ↦ rw p (record {
    owner = h.owner;
    members = All-append _ i.evidences _ h.members (==→eq _ _ p ∙ h.owner, tt);
  })
  | inr p ↦ rw p h
]

call-IsIsolated :
    (t : ℕ) (c : IncidentCall) (i : Incident) → IsIsolated t i → IsIsolated t (call c i).1
unfolding call
call-IsIsolated t (transition a) i h = Outcome-IsIsolated t a i (transition_to-outcome a i) h
call-IsIsolated t (evidence e now) i h = add_evidence-IsIsolated t e now i h

-- From an incident all of whose evidence has its tenant, after any calls, those that raise
-- included, the tenant is the same and all evidence still has it.
pub calls-IsIsolated :
    (t : ℕ) (i : Incident) (cs : List IncidentCall) → IsIsolated t i → IsIsolated t (calls i cs)
unfolding calls
calls-IsIsolated t i [] h = h
calls-IsIsolated t i (c ∷ cs) h = calls-IsIsolated t (call c i).1 cs (call-IsIsolated t c i h)

-- add_evidence accepts a piece of evidence exactly when its tenant is the incident's; it then adds
-- it at the end, and otherwise raises and leaves the incident as it was.
pub add_evidence-exact :
    (e : IncidentEvidence) (now : ℤ) (i : Incident)
    → ((e.tenant_id ≡ i.tenant_id)
        × (add_evidence e now i
            ≡ (ok tt, record i { evidences = i.evidences ++ e ∷ []; updated_at = utc now })))
      ⊎ ((e.tenant_id ≢ i.tenant_id) × (add_evidence e now i ≡ (err domain_error, i)))
unfolding add_evidence
add_evidence-exact e now i = elim (Bool-cases (e.tenant_id == i.tenant_id)) [
  | inl p ↦ inl (==→eq _ _ p, rw p)
  | inr p ↦ inr (ground arith, rw p)
]
