-- ===== src/Alert/Once.antt =====
-- Acknowledging an alert again, in any repository that remembers what it saved.
use mathlib.Core.Path.{subst}
use prefeitura_anti_hack.Prelude.{
  ℕ, ◌≡◌, String, Option, none, some, [], ◌∷◌, ◌⊎◌, arith, inl, inr, Option-cases,
}
use prefeitura_anti_hack.Prelude.Int.{ℤ}
use prefeitura_anti_hack.Prelude.Python.{
  ok, Result-cases, checked-same, validations, raise_if, value_error,
}
use prefeitura_anti_hack.Prelude.Exec.{Exec}
use prefeitura_anti_hack.Alert.{
  AlertAcknowledgement, AckRepository, AcknowledgeAlert, AlertAcknowledgedEvent, unfit, new_ack,
  ack_of, acknowledged_event, parsed_tenant, acknowledge,
}

-- what a lookup by fingerprint returns
abbrev pub Finds :
    {S : Type 0} → AckRepository S → String → ℕ → S → Option AlertAcknowledgement → Type 0
Finds repo print tenant s o = (repo.get_by_fingerprint print tenant s).0 ≡ ok o

-- What a repository gives: a lookup changes nothing, and what was saved is found from then on.
pub record Remembers {S : Type 0} (repo : AckRepository S) : Type 0 where
  pub reads : (k : String) (t : ℕ) (s : S) → (repo.get_by_fingerprint k t s).1 ≡ s
  pub added :
      (a u : AlertAcknowledgement) (s s' : S)
      → Finds repo a.fingerprint a.tenant_id s none
      → repo.save a s ≡ (ok u, s')
      → Finds repo a.fingerprint a.tenant_id s' (some u)
  pub beside :
      (a u x : AlertAcknowledgement) (k : String) (t : ℕ) (s s' : S)
      → Finds repo a.fingerprint a.tenant_id s none
      → repo.save a s ≡ (ok u, s')
      → Finds repo k t s (some x)
      → Finds repo k t s' (some x)

-- the constructor changes nothing
pub new_ack-same : (a v : AlertAcknowledgement) → new_ack a ≡ ok v → v ≡ a
unfolding new_ack
new_ack-same a v h =
    checked-same
      (validations (
        raise_if (unfit 128 a.alert_id) value_error
        ∷ raise_if (unfit 128 a.fingerprint) value_error
        ∷ raise_if (unfit 512 a.reason) value_error
        ∷ raise_if (unfit 128 a.acknowledged_by) value_error
        ∷ []))
      a v h

module _ {S P : Type 0} (repo : AckRepository S)
    (publish : AlertAcknowledgedEvent → Exec P (Unit {0})) (parse_uuid : String → Option ℕ) where
  -- acknowledgements that return, one after the other
  pub data Acks : S × P → S × P → Type 0 where
    done : {s : S × P} → Acks s s
    next :
        {s s' z : S} {p p' y : P} (i : ℕ) (now : ℤ) (c : AcknowledgeAlert)
        (r : AlertAcknowledgement)
        → acknowledge repo publish parse_uuid i now c (s, p) ≡ (ok r, (s', p'))
        → Acks (s', p') (z, y)
        → Acks (s, p) (z, y)

module _ {S P : Type 0} (repo : AckRepository S) (laws : Remembers repo)
    (publish : AlertAcknowledgedEvent → Exec P (Unit {0})) (parse_uuid : String → Option ℕ) where
  -- what a call that returns has found or saved
  abbrev Did : AlertAcknowledgement → AlertAcknowledgement → S → S → Type 0
  Did a r s s' =
      (Finds repo a.fingerprint a.tenant_id s (some r) × (s ≡ s'))
      ⊎ (Finds repo a.fingerprint a.tenant_id s none × (repo.save a s ≡ (ok r, s')))

  acknowledge-Did :
      (i : ℕ) (now : ℤ) (c : AcknowledgeAlert) (t : ℕ) (r : AlertAcknowledgement) (s s' : S)
      (p p' : P)
      → parsed_tenant parse_uuid c.tenant_id ≡ ok t
      → acknowledge repo publish parse_uuid i now c (s, p) ≡ (ok r, (s', p'))
      → Did (ack_of i now t c) r s s'
  unfolding acknowledge
  acknowledge-Did i now c t r s s' p p' q h =
      let same = laws.reads c.fingerprint t s in
      let a = ack_of i now t c in
      elim (Result-cases (repo.get_by_fingerprint c.fingerprint t s).0) [
        | inr (x, e) ↦ absurd (ground (arith, q, e, h))
        | inl (o, e) ↦ elim (Option-cases o) [
          | inr (x, n) ↦ inl (ground (arith, q, e, n, h), ground (arith, q, e, n, same, h))
          | inl n ↦ elim (Result-cases (new_ack a)) [
            | inr (x, f) ↦ absurd (ground (arith, q, e, n, f, h))
            | inl (v, f) ↦
                let f' : new_ack a ≡ ok a = rw (new_ack-same a v f) at f in
                elim (Result-cases (repo.save a s).0) [
                  | inr (x, g) ↦ absurd (ground (arith, q, e, n, f', g, same, h))
                  | inl (u, g) ↦ elim (Result-cases (publish (acknowledged_event u) p).0) [
                    | inr (x, k) ↦ absurd (ground (arith, q, e, n, f', g, k, same, h))
                    | inl (x, k) ↦
                        inr (ground (arith, e, n), ground (arith, q, e, n, f', g, k, same, h))
                  ]
                ]
          ]
        ]
      ]

  -- what is found stays found
  Did-Finds :
      (a r x : AlertAcknowledgement) (k : String) (t : ℕ) (s s' : S)
      → Did a r s s'
      → Finds repo k t s (some x)
      → Finds repo k t s' (some x)
  Did-Finds a r x k t s s' (inl (f, e)) w = subst (λ z. Finds repo k t z (some x)) e w
  Did-Finds a r x k t s s' (inr (f, e)) w = laws.beside a r x k t s s' f e w

  after-Did :
      (a r : AlertAcknowledgement) (s s' : S)
      → Did a r s s'
      → Finds repo a.fingerprint a.tenant_id s' (some r)
  after-Did a r s s' (inl (f, e)) = subst (λ z. Finds repo a.fingerprint a.tenant_id z (some r)) e f
  after-Did a r s s' (inr (f, e)) = laws.added a r s s' f e

  -- a call that returns has a tenant
  has_tenant :
      (i : ℕ) (now : ℤ) (c : AcknowledgeAlert) (r : AlertAcknowledgement) (s z : S × P)
      → acknowledge repo publish parse_uuid i now c s ≡ (ok r, z)
      → (t : ℕ) × (parsed_tenant parse_uuid c.tenant_id ≡ ok t)
  unfolding acknowledge
  has_tenant i now c r s z h = elim (Result-cases (parsed_tenant parse_uuid c.tenant_id)) [
    | inl q ↦ q
    | inr (x, q) ↦ absurd (ground (arith, q, h))
  ]

  acks-Finds :
      (x : AlertAcknowledgement) (k : String) (t : ℕ) (s z : S × P)
      → Acks repo publish parse_uuid s z
      → Finds repo k t s.0 (some x)
      → Finds repo k t z.0 (some x)
  acks-Finds x k t s z done w = w
  acks-Finds x k t s z (next i now c r h rest) w =
      let (b, q) = has_tenant i now c r _ _ h in
      let did = acknowledge-Did i now c b r _ _ _ _ q h in
      acks-Finds x k t _ z rest (Did-Finds (ack_of i now b c) r x k t _ _ did w)

  found_again :
      (i : ℕ) (now : ℤ) (c : AcknowledgeAlert) (t : ℕ) (r : AlertAcknowledgement) (s : S) (p : P)
      → parsed_tenant parse_uuid c.tenant_id ≡ ok t
      → Finds repo c.fingerprint t s (some r)
      → acknowledge repo publish parse_uuid i now c (s, p) ≡ (ok r, (s, p))
  unfolding acknowledge
  found_again i now c t r s p q w =
      let same = laws.reads c.fingerprint t s in ground (arith, q, w, same)

  -- After an alert is acknowledged, and any further acknowledgements that return, acknowledging the
  -- fingerprint again for the same tenant, by whomever and for whatever reason, returns the first
  -- acknowledgement, and changes and publishes nothing.
  pub acknowledge_twice :
      (i : ℕ) (now : ℤ) (c : AcknowledgeAlert) (t : ℕ) (r : AlertAcknowledgement) (s s' z : S)
      (p p' y : P)
      → parsed_tenant parse_uuid c.tenant_id ≡ ok t
      → acknowledge repo publish parse_uuid i now c (s, p) ≡ (ok r, (s', p'))
      → Acks repo publish parse_uuid (s', p') (z, y)
      → (j : ℕ) (later : ℤ) (d : AcknowledgeAlert) → d.fingerprint ≡ c.fingerprint
      → parsed_tenant parse_uuid d.tenant_id ≡ ok t
      → acknowledge repo publish parse_uuid j later d (z, y) ≡ (ok r, (z, y))
  acknowledge_twice i now c t r s s' z p p' y q h acks j later d same u =
      let did = acknowledge-Did i now c t r s s' p p' q h in
      let w =
        acks-Finds r c.fingerprint t (s', p') (z, y) acks
          (after-Did (ack_of i now t c) r s s' did) in
      found_again j later d t r z y u (rw same w)
