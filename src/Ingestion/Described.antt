-- ===== src/Ingestion/Described.antt =====
-- What an ingestion answers and stores, in the terms of the request: the event, the message and the
-- answer.
use prefeitura_anti_hack.Prelude.{ℕ, ◌≡◌, refl, String, Bool, true, false, Option, none, some}
use prefeitura_anti_hack.Prelude.Runtime.{Runtime}
use prefeitura_anti_hack.Incident.{severity_value}
use prefeitura_anti_hack.Sanitize.Masking.{MaskedFields, sanitize_payload-masks}
use prefeitura_anti_hack.Event.{SecurityEvent, normalized}
use prefeitura_anti_hack.Asset.{Asset}
use prefeitura_anti_hack.Prelude.Int.{ℤ}
use prefeitura_anti_hack.Outbox.{OutboxEvent, pending as pending_, can_claim}
use prefeitura_anti_hack.Ingestion.{Request}
use prefeitura_anti_hack.Ingestion.Tables.{Tables}
use prefeitura_anti_hack.Ingestion.Handler.{Response, response, message}
use prefeitura_anti_hack.Ingestion.Outcomes.{accepted, new_message}

module _ (rt : Runtime) (redact : String → String) where
  -- a message for a stored event that nobody has claimed or published yet
  pub record IsPendingFor (e : SecurityEvent) (m : OutboxEvent) : Type 0 where
    pub tenant : m.tenant_id ≡ e.tenant_id
    pub aggregate : m.aggregate_id ≡ e.event_id
    pub kind : m.event_type ≡ "SecurityEventReceivedEvent"
    pub is_pending : m.status ≡ pending_
    pub claimable : (now : ℤ) → can_claim now m ≡ true
    pub no_retry : (m.retry_count ≡ 0) × (m.next_retry_at ≡ none)
    pub no_claim : (m.claimed_at ≡ none) × (m.claim_expires_at ≡ none)
    pub no_publication : m.published_at ≡ none

  pub new_message-IsPendingFor :
      (asset : Option Asset) (e : SecurityEvent) (t : Tables)
      → IsPendingFor e (new_message rt redact asset e t)
  unfolding message can_claim
  new_message-IsPendingFor asset e t = record {
    tenant = refl;
    aggregate = refl;
    kind = refl;
    is_pending = refl;
    claimable = λ now. refl;
    no_retry = (refl, refl);
    no_claim = (refl, refl);
    no_publication = refl;
  }

  -- an answer that shows a stored event, as a duplicate or not
  abbrev pub Answers : SecurityEvent → Bool → Response → Type 0
  Answers e suppressed r =
      (r.event_id ≡ e.event_id)
      × (r.tenant_id ≡ e.tenant_id)
      × (r.asset_id ≡ e.asset_id)
      × (r.source ≡ e.source)
      × (r.event_type ≡ e.event_type)
      × (r.severity ≡ severity_value e.severity)
      × (r.occurred_at ≡ e.occurred_at)
      × (r.received_at ≡ e.received_at)
      × (r.idempotency_key ≡ e.idempotency_key)
      × (r.is_asset_resolved ≡ e.is_asset_resolved)
      × (r.evidence_hash ≡ e.evidence_hash)
      × (r.is_duplicate_suppressed ≡ suppressed)

  pub response-Answers : (e : SecurityEvent) (b : Bool) → Answers e b (response e b)
  unfolding response
  response-Answers e b = (refl, refl, refl, refl, refl, refl, refl, refl, refl, refl, refl, refl)

  -- whether an event is resolved, and to which asset
  abbrev pub ResolvedTo : Option Asset → SecurityEvent → Type 0
  ResolvedTo none e = (e.asset_id ≡ none) × (e.is_asset_resolved ≡ false)
  ResolvedTo (some a) e = (e.asset_id ≡ some a.asset_id) × (e.is_asset_resolved ≡ true)

  -- an event with what was requested: its data and its asset
  pub record IsMadeOf (r : Request) (asset : Option Asset) (id : ℕ) (e : SecurityEvent)
      : Type 0 where
    pub identifier : e.event_id ≡ id
    pub of_tenant : e.tenant_id ≡ r.tenant
    pub from_source : e.source ≡ r.source_text
    pub of_kind : e.event_type ≡ r.kind
    pub of_severity : e.severity ≡ r.grade
    pub times : (e.occurred_at ≡ r.occurred) × (e.received_at ≡ r.received)
    pub by_key : e.idempotency_key ≡ r.key
    pub resolved_to : ResolvedTo asset e
    pub masks : MaskedFields rt.lower redact e.payload

  resolved-ResolvedTo :
      (r : Request) (asset : Option Asset) (id : ℕ)
      → ResolvedTo asset (accepted rt redact r asset id)
  unfolding normalized
  resolved-ResolvedTo r none id = (refl, refl)
  resolved-ResolvedTo r (some a) id = (refl, refl)

  pub accepted-IsMadeOf :
      (r : Request) (asset : Option Asset) (id : ℕ)
      → IsMadeOf r asset id (accepted rt redact r asset id)
  unfolding normalized
  accepted-IsMadeOf r asset id = record {
    identifier = refl;
    of_tenant = refl;
    from_source = refl;
    of_kind = refl;
    of_severity = refl;
    times = (refl, refl);
    by_key = refl;
    resolved_to = resolved-ResolvedTo r asset id;
    masks = sanitize_payload-masks rt.lower redact r.fields;
  }
