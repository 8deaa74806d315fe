-- ===== src/Incident/History.antt =====
-- The audit history of an incident, over any sequence of calls.
use prefeitura_anti_hack.Prelude.{◌+◌, ◌≤◌, ◌≡◌, refl, ap, ◌∙◌, List, [], ◌∷◌, ◌++◌, length, arith}
use prefeitura_anti_hack.Prelude.Int.{ℤ}
use prefeitura_anti_hack.Incident.{
  IncidentStatus, position, closed, Incident, IncidentEvidence, IncidentStatusChange,
  TransitionArgs, transition_to, add_evidence, IncidentCall, transition, evidence, call, calls,
}
use prefeitura_anti_hack.Incident.Transitions.{
  ◌⟶◌, ⟶-position, Outcome, done, refused, transition_to-outcome,
}

-- The changes lead from `s` to `t`, each along an edge and each from where the last one ended.
abbrev pub Chain : IncidentStatus → List IncidentStatusChange → IncidentStatus → Type 0
Chain s [] t = s ≡ t
Chain s (c ∷ cs) t = (s ≡ c.from_status) × (s ⟶ c.to_status) × Chain c.to_status cs t

Chain-append :
    (s t : IncidentStatus) (cs : List IncidentStatusChange) (c : IncidentStatusChange)
    → Chain s cs t
    → t ≡ c.from_status
    → t ⟶ c.to_status
    → Chain s (cs ++ c ∷ []) c.to_status
Chain-append s t [] c h p e = (h ∙ p, rw h e, refl)
Chain-append s t (d ∷ cs) c h p e = (h.0, h.1, Chain-append d.to_status t cs c h.2 p e)

Chain-position :
    (s t : IncidentStatus) (cs : List IncidentStatusChange)
    → Chain s cs t
    → position t ≡ position s + length cs
Chain-position s t [] h = omega (arith, ap position h)
Chain-position s t (c ∷ cs) h = omega (arith, ⟶-position h.1, Chain-position c.to_status t cs h.2)

position-le : (s : IncidentStatus) → position s ≤ 5
position-le s = ground arith

-- The history of an incident leads from the status `s` to its present one.
pub record IsAudited (s : IncidentStatus) (i : Incident) : Type 0 where
  pub chain : Chain s i.audit_history i.status

Outcome-IsAudited :
    (s : IncidentStatus) (a : TransitionArgs) (i : Incident)
    → Outcome a i
    → IsAudited s i
    → IsAudited s (transition_to a i).1
Outcome-IsAudited s a i (done c e) h =
    rw e (record { chain = Chain-append s i.status i.audit_history _ h.chain refl c.edge })
Outcome-IsAudited s a i (refused x n e) h = rw e h

-- Evidence changes neither the status nor the history.
add_evidence-keeps :
    (e : IncidentEvidence) (now : ℤ) (i : Incident)
    → ((add_evidence e now i).1.status ≡ i.status)
      × ((add_evidence e now i).1.audit_history ≡ i.audit_history)
unfolding add_evidence
add_evidence-keeps e now i = ground arith

call-IsAudited :
    (s : IncidentStatus) (c : IncidentCall) (i : Incident)
    → IsAudited s i
    → IsAudited s (call c i).1
unfolding call
call-IsAudited s (transition a) i h = Outcome-IsAudited s a i (transition_to-outcome a i) h
call-IsAudited s (evidence e now) i h =
    let (p, q) = add_evidence-keeps e now i in record { chain = rw (p, q) h.chain }

calls_from-IsAudited :
    (s : IncidentStatus) (cs : List IncidentCall) (i : Incident)
    → IsAudited s i
    → IsAudited s (calls i cs)
unfolding calls
calls_from-IsAudited s [] i h = h
calls_from-IsAudited s (c ∷ cs) i h =
    calls_from-IsAudited s cs (call c i).1 (call-IsAudited s c i h)

-- From an incident with an empty history, whatever calls are made and whichever of them raise, the
-- history is a path of the life cycle: it starts at the first status, each record starts where the
-- one before it ended and follows an edge, and the last one ends at the present status.
pub calls-IsAudited :
    (i : Incident) (cs : List IncidentCall) → i.audit_history ≡ [] → IsAudited i.status (calls i cs)
calls-IsAudited i cs h = calls_from-IsAudited i.status cs i (record { chain = rw h refl })

-- From an incident with an empty history, after any calls the position of the status in the life
-- cycle has grown by exactly the number of audit records, and never passes that of `closed`.
pub history_counts :
    (i : Incident) (cs : List IncidentCall)
    → i.audit_history ≡ []
    → (position (calls i cs).status ≡ position i.status + length (calls i cs).audit_history)
      × (position i.status + length (calls i cs).audit_history ≤ position closed)
history_counts i cs h =
    let p = Chain-position i.status _ _ (calls-IsAudited i cs h).chain in
    (p, omega (arith, p, position-le (calls i cs).status))
