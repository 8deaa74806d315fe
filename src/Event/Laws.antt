-- ===== src/Event/Laws.antt =====
-- What holds of every event that the constructor accepts.
use prefeitura_anti_hack.Prelude.{
  Option-cases, ℕ, ◌≡◌, refl, String, false, none, some, arith, inl, inr,
}
use prefeitura_anti_hack.Prelude.Python.{ok, Result-cases}
use prefeitura_anti_hack.Prelude.Runtime.{Runtime}
use prefeitura_anti_hack.Domain.{validate_utc_datetime, IsUtc}
use prefeitura_anti_hack.Incident.Transitions.{valid-IsUtc, IsUtc-valid}
use prefeitura_anti_hack.Sanitize.Masking.{MaskedFields, sanitize_payload-masks}
use prefeitura_anti_hack.Event.{normalized, SecurityEvent, new_event, create_unresolved_asset_event}

module _ (rt : Runtime) (redact : String → String) where
  -- What the constructor guarantees.
  pub record IsNormalized (e : SecurityEvent) : Type 0 where
    pub occurred_in_utc : IsUtc e.occurred_at
    pub received_in_utc : IsUtc e.received_at
    pub masked : MaskedFields rt.lower redact e.payload
    pub unresolved : e.asset_id ≡ none → e.is_asset_resolved ≡ false

  -- What the constructor leaves as it was given.
  pub record SameIdentity (e f : SecurityEvent) : Type 0 where
    pub same_event : f.event_id ≡ e.event_id
    pub same_tenant : f.tenant_id ≡ e.tenant_id
    pub same_source : f.source ≡ e.source
    pub same_type : f.event_type ≡ e.event_type
    pub same_key : f.idempotency_key ≡ e.idempotency_key
    pub same_asset : f.asset_id ≡ e.asset_id
    pub same_time : f.occurred_at ≡ e.occurred_at

  pub normalized_of_ok :
      (e f : SecurityEvent)
      → new_event rt redact e ≡ ok f
      → (f ≡ normalized rt redact e) × IsUtc e.occurred_at × IsUtc e.received_at
  unfolding new_event
  normalized_of_ok e f h = elim (Result-cases (validate_utc_datetime e.occurred_at)) [
    | inr (x, p) ↦ absurd (ground arith)
    | inl (u, p) ↦ elim (Result-cases (validate_utc_datetime e.received_at)) [
      | inr (x, q) ↦ absurd (ground arith)
      | inl (v, q) ↦ (ground arith, valid-IsUtc _ p, valid-IsUtc _ q)
    ]
  ]

  normalized-unresolved :
      (e : SecurityEvent)
      → (normalized rt redact e).asset_id ≡ none
      → (normalized rt redact e).is_asset_resolved ≡ false
  unfolding normalized
  normalized-unresolved e h = ground arith

  normalized-masked :
      (e : SecurityEvent) → MaskedFields rt.lower redact (normalized rt redact e).payload
  unfolding normalized
  normalized-masked e = sanitize_payload-masks rt.lower redact e.payload

  normalized-SameIdentity : (e : SecurityEvent) → SameIdentity e (normalized rt redact e)
  unfolding normalized
  normalized-SameIdentity e = ground arith

  pub normalized-times :
      (e : SecurityEvent)
      → ((normalized rt redact e).occurred_at ≡ e.occurred_at)
        × ((normalized rt redact e).received_at ≡ e.received_at)
  unfolding normalized
  normalized-times e = (refl, refl)

  -- An event that the constructor accepts was given both times in UTC; it comes out with its
  -- payload masked at every depth and marked unresolved if it has no asset, and its identity, its
  -- tenant, its source, its type, its asset, its key and its time are those that were given.
  pub new_event-IsNormalized :
      (e f : SecurityEvent) → new_event rt redact e ≡ ok f → IsNormalized f × SameIdentity e f
  new_event-IsNormalized e f h =
      let (p, q, r) = normalized_of_ok e f h in
      let (o, c) = normalized-times e in
      rw p (
        record {
          occurred_in_utc = rw o q;
          received_in_utc = rw c r;
          masked = normalized-masked e;
          unresolved = normalized-unresolved e;
        },
        normalized-SameIdentity e,
      )

  -- Of an accepted event the contract for an unresolved asset is made exactly when the event has no
  -- asset, it never raises, and it carries the event's identifier, tenant and time.
  pub create_unresolved_asset_event-exact :
      (n : ℕ) (e : SecurityEvent)
      → IsNormalized e
      → create_unresolved_asset_event n e
        ≡ ok (elim e.asset_id [
          | none ↦ some (record {
            tenant_id = e.tenant_id;
            security_event_id = e.event_id;
            event_id = n;
            occurred_at_utc = e.occurred_at;
          })
          | some _ ↦ none
        ])
  unfolding create_unresolved_asset_event
  create_unresolved_asset_event-exact n e h = elim (Option-cases e.asset_id) [
    | inl p ↦ ground (arith, p, h.unresolved p, IsUtc-valid h.occurred_in_utc)
    | inr (a, p) ↦ ground (arith, p)
  ]
