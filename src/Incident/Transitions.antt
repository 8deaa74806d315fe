-- ===== src/Incident/Transitions.antt =====
-- When `transition_to` succeeds, and what it changes.
use prefeitura_anti_hack.Prelude.{
  any, inl, inr, Bool-cases, ◌⊎◌, zero, suc, ◌+◌, ◌≡◌, refl, true, false, [], ◌∷◌, ◌++◌, arith,
}
use prefeitura_anti_hack.Prelude.Text.{is_blank}
use prefeitura_anti_hack.Prelude.Int.{pos, negsuc}
use prefeitura_anti_hack.Prelude.Python.{
  Exception, Result-cases, ok, err, domain_error, invalid_status_transition,
}
use prefeitura_anti_hack.Domain.{
  TimeValue, aware, not_datetime, naive, validate_utc_datetime, IsUtc, at_zero,
}
use prefeitura_anti_hack.Incident.{
  IncidentStatus, open_, acknowledged, investigating, contained, resolved, closed, Incident,
  position, status_eq, allowed_status_transitions, TransitionArgs, or_now, transition_to,
}

-- The life cycle, as a relation.
infix 40 ◌⟶◌
pub data ◌⟶◌ : IncidentStatus → IncidentStatus → Type 0 where
  acknowledge : open_ ⟶ acknowledged
  investigate : acknowledged ⟶ investigating
  contain : investigating ⟶ contained
  resolve : contained ⟶ resolved
  close : resolved ⟶ closed

pub ruleset edges = (acknowledge, investigate, contain, resolve, close)

-- An edge goes to the next position.
pub ⟶-position : {s t : IncidentStatus} → s ⟶ t → position t ≡ position s + 1
⟶-position acknowledge = refl
⟶-position investigate = refl
⟶-position contain = refl
⟶-position resolve = refl
⟶-position close = refl

-- What a call needs to succeed.
pub record CanTransition (a : TransitionArgs) (i : Incident) : Type 0 where
  pub has_actor : is_blank a.actor_id ≡ false
  pub has_reason : is_blank a.reason ≡ false
  pub edge : i.status ⟶ a.new_status
  pub in_utc : IsUtc (or_now a.timestamp a.now)

-- The incident after a call that succeeds.
abbrev pub transitioned : TransitionArgs → Incident → Incident
transitioned a i = record i {
  status = a.new_status;
  updated_at = or_now a.timestamp a.now;
  audit_history =
      i.audit_history
      ++ record {
        from_status = i.status;
        to_status = a.new_status;
        actor_id = a.actor_id;
        reason = a.reason;
        timestamp = or_now a.timestamp a.now;
        history_id = a.history_id;
      }
        ∷ [];
}

pub IsUtc-valid : {ts : TimeValue} → IsUtc ts → validate_utc_datetime ts ≡ ok tt
unfolding validate_utc_datetime
IsUtc-valid (at_zero t) = refl

pub valid-IsUtc : (ts : TimeValue) {u : Unit {0}} → validate_utc_datetime ts ≡ ok u → IsUtc ts
unfolding validate_utc_datetime
valid-IsUtc not_datetime h = cc
valid-IsUtc (naive t) h = cc
valid-IsUtc (aware t (pos zero)) h = at_zero t
valid-IsUtc (aware t (pos (suc n))) h = cc
valid-IsUtc (aware t (negsuc n)) h = cc

⟶-allowed : {s t : IncidentStatus} → s ⟶ t → any (status_eq t) (allowed_status_transitions s) ≡ true
⟶-allowed acknowledge = refl
⟶-allowed investigate = refl
⟶-allowed contain = refl
⟶-allowed resolve = refl
⟶-allowed close = refl

allowed-⟶ : (s t : IncidentStatus) → any (status_eq t) (allowed_status_transitions s) ≡ true → s ⟶ t
allowed-⟶ s t h = grind (arith, edges)

pub transition_to-succeeds :
    (a : TransitionArgs) (i : Incident)
    → CanTransition a i
    → transition_to a i ≡ (ok tt, transitioned a i)
unfolding transition_to
transition_to-succeeds a i c =
    ground (arith, c.has_actor, c.has_reason, ⟶-allowed c.edge, IsUtc-valid c.in_utc)

-- A call meets the conditions and has its effect, or it raises and leaves the incident as it was.
pub data Outcome (a : TransitionArgs) (i : Incident) : Type 0 where
  done : CanTransition a i → transition_to a i ≡ (ok tt, transitioned a i) → Outcome a i
  refused : (e : Exception) → ¬ CanTransition a i → transition_to a i ≡ (err e, i) → Outcome a i

refusal :
    (a : TransitionArgs) (i : Incident) (e : Exception)
    → transition_to a i ≡ (err e, i)
    → Outcome a i
refusal a i e h = refused e (λ c. cc (transition_to-succeeds a i c)) h

past_guards :
    (a : TransitionArgs) (i : Incident)
    → is_blank a.actor_id ≡ false
    → is_blank a.reason ≡ false
    → any (status_eq a.new_status) (allowed_status_transitions i.status) ≡ true
    → Outcome a i
past_guards a i p q r = elim (Result-cases (validate_utc_datetime (or_now a.timestamp a.now))) [
  | inl (u, v) ↦
      let c : CanTransition a i = record {
        has_actor = p;
        has_reason = q;
        edge = allowed-⟶ i.status a.new_status r;
        in_utc = valid-IsUtc _ v;
      } in
      done c (transition_to-succeeds a i c)
  | inr (e, v) ↦ refusal a i e (unfold transition_to in ground arith)
]

early_outcome :
    (a : TransitionArgs) (i : Incident)
    → (any (status_eq a.new_status) (allowed_status_transitions i.status) ≡ false)
      ⊎ (is_blank a.actor_id ≡ true)
      ⊎ (is_blank a.reason ≡ true)
    → (e : Exception) × (transition_to a i ≡ (err e, i))
unfolding transition_to
early_outcome a i h = elim (Bool-cases (is_blank a.actor_id)) [
  | inl p ↦ (domain_error, ground arith)
  | inr p ↦ elim (Bool-cases (is_blank a.reason)) [
    | inl q ↦ (domain_error, ground arith)
    | inr q ↦ (invalid_status_transition, ground arith)
  ]
]

-- Every call of transition_to either has an actor, a reason, an edge of the life cycle and a UTC
-- timestamp, succeeds, sets the status and the time and appends exactly one audit record; or it
-- fails one of these conditions, raises, and leaves every field of the incident as it was.
pub transition_to-outcome : (a : TransitionArgs) (i : Incident) → Outcome a i
transition_to-outcome a i = elim (Bool-cases (is_blank a.actor_id)) [
  | inl p ↦ let (e, h) = early_outcome a i (ground arith) in refusal a i e h
  | inr p ↦ elim (Bool-cases (is_blank a.reason)) [
    | inl q ↦ let (e, h) = early_outcome a i (ground arith) in refusal a i e h
    | inr q ↦
        elim (Bool-cases (any (status_eq a.new_status) (allowed_status_transitions i.status))) [
          | inl r ↦ past_guards a i p q r
          | inr r ↦ let (e, h) = early_outcome a i (inl r) in refusal a i e h
        ]
  ]
]
