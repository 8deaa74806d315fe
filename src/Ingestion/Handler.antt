-- ===== src/Ingestion/Handler.antt =====
-- IngestSecurityEventHandler.handle of src/core/application/handlers.py: the transaction.
use prefeitura_anti_hack.Prelude.{
  ℕ, String, Bool, true, false, ◌||◌, Option, none, some, List, [], ◌∷◌, if◌then◌else◌,
}
use prefeitura_anti_hack.Prelude.Text.{is_empty, fstring}
use prefeitura_anti_hack.Prelude.Exec.{Exec, pure, lift, gets, ◌>>=◌, ◌>>◌}
use prefeitura_anti_hack.Prelude.Runtime.{Runtime}
use prefeitura_anti_hack.Prelude.Int.{ℤ}
use prefeitura_anti_hack.Domain.{TimeValue, utc}
use prefeitura_anti_hack.Sanitize.{null, text, boolean, end, field, Fields}
use prefeitura_anti_hack.Event.{
  SecurityEvent, UnresolvedAssetEvent, new_event, create_unresolved_asset_event, is_some,
}
use prefeitura_anti_hack.Event.Stored.{save_event}
use prefeitura_anti_hack.Asset.{Asset, resolve_active_asset}
use prefeitura_anti_hack.Outbox.{OutboxEvent, pending as pending_, new_outbox_event}
use prefeitura_anti_hack.Outbox.Postgres.{insert}
use prefeitura_anti_hack.Correlation.Store.{AuditLog, uuid4, save_log}
use prefeitura_anti_hack.Incident.{severity_value}
use prefeitura_anti_hack.Ingestion.{Parsers, IngestCommand, Request, read_request}
use prefeitura_anti_hack.Ingestion.Tables.{
  Tables, Session, on_assets, on_store, on_events, on_outbox, on_pending, commit, within,
}

-- SecurityEventResponseDTO
pub record Response : Type 0 where
  pub event_id : ℕ
  pub tenant_id : ℕ
  pub asset_id : Option ℕ
  pub source : String
  pub event_type : String
  pub severity : String
  pub occurred_at : TimeValue
  pub received_at : TimeValue
  pub idempotency_key : String
  pub is_asset_resolved : Bool
  pub evidence_hash : String
  pub is_duplicate_suppressed : Bool

unfoldable pub response : SecurityEvent → Bool → Response
response e suppressed = record {
  event_id = e.event_id;
  tenant_id = e.tenant_id;
  asset_id = e.asset_id;
  source = e.source;
  event_type = e.event_type;
  severity = severity_value e.severity;
  occurred_at = e.occurred_at;
  received_at = e.received_at;
  idempotency_key = e.idempotency_key;
  is_asset_resolved = e.is_asset_resolved;
  evidence_hash = e.evidence_hash;
  is_duplicate_suppressed = suppressed;
}

abbrev pub asset_of : Option Asset → Option ℕ
asset_of none = none
asset_of (some a) = some a.asset_id

-- the arguments that the constructor of SecurityEvent is given
abbrev pub event_of : Request → Option Asset → ℕ → SecurityEvent
event_of r asset id = record {
  tenant_id = r.tenant;
  source = r.source_text;
  event_type = r.kind;
  severity = r.grade;
  occurred_at = r.occurred;
  received_at = r.received;
  asset_id = asset_of asset;
  payload = r.fields;
  idempotency_key = r.key;
  event_id = id;
  is_asset_resolved = is_some asset;
  evidence_hash = "";
}

-- `if service_name and environment`
abbrev pub resolve : ℕ → Option String → Option String → Exec Tables (Option Asset)
resolve tenant none environment = pure none
resolve tenant (some service) none = pure none
resolve tenant (some service) (some environment) =
    if is_empty service || is_empty environment
    then pure none
    else on_assets (resolve_active_asset tenant service environment)

abbrev pub ingestion_log : ℕ → List String → AuditLog
ingestion_log tenant parts = record {
  tenant_id = tenant;
  source = "SecurityEventIngestion";
  raw_data = fstring parts;
}

module _ (rt : Runtime) (redact : String → String) where
  unfoldable pub suppressed_log : Request → AuditLog
  suppressed_log r =
      ingestion_log r.tenant
        ("Duplicate event suppressed. IdempotencyKey=" ∷ r.key ∷ ", Source=" ∷ r.source_text ∷ [])

  unfoldable pub persisted_log : Request → SecurityEvent → AuditLog
  persisted_log r saved = ingestion_log r.tenant (
      "SecurityEvent persisted. EventID="
      ∷ rt.uuid_text saved.event_id
      ∷ ", IdempotencyKey="
      ∷ r.key
      ∷ [])

  unfoldable pub unresolved_log : Request → SecurityEvent → AuditLog
  unresolved_log r saved = ingestion_log r.tenant (
      "UnresolvedAssetEvent created for event_id="
      ∷ rt.uuid_text saved.event_id
      ∷ ", source="
      ∷ r.source_text
      ∷ [])

  unfoldable pub outbox_payload : SecurityEvent → Fields
  outbox_payload e = field "tenant_id" (text (rt.uuid_text e.tenant_id)) (
      field "security_event_id" (text (rt.uuid_text e.event_id)) (
        field "source" (text e.source) (
          field "security_event_type" (text e.event_type) (
            field "severity" (text (severity_value e.severity)) (
              field "is_asset_resolved" (boolean e.is_asset_resolved) (
                field "asset_id" (elim e.asset_id [ some a ↦ text (rt.uuid_text a) | none ↦ null ])
                  end))))))

  abbrev pub outbox_key : SecurityEvent → String
  outbox_key e = fstring ("outbox-" ∷ rt.uuid_text e.tenant_id ∷ "-" ∷ e.idempotency_key ∷ [])

  -- the arguments that the constructor of OutboxEvent is given, and its defaults
  unfoldable pub message : ℤ → SecurityEvent → ℕ → OutboxEvent
  unfolding outbox_payload
  message now e id = record {
    tenant_id = e.tenant_id;
    aggregate_type = "SecurityEvent";
    aggregate_id = e.event_id;
    event_type = "SecurityEventReceivedEvent";
    payload = outbox_payload e;
    idempotency_key = outbox_key e;
    outbox_event_id = id;
    status = pending_;
    retry_count = 0;
    next_retry_at = none;
    created_at = utc now;
    published_at = none;
    claimed_at = none;
    claim_expires_at = none;
    last_error = none;
  }

  -- the audit of an event without an asset
  abbrev pub log_unresolved :
      Request → SecurityEvent → Option UnresolvedAssetEvent → Exec Tables (Unit {0})
  log_unresolved r saved none = pure tt
  log_unresolved r saved (some u) = on_store (save_log (unresolved_log r saved))

  abbrev pub audit_unresolved : Request → Option Asset → SecurityEvent → Exec Tables (Unit {0})
  audit_unresolved r (some a) saved = pure tt
  audit_unresolved r none saved = do
    id ← on_store uuid4
    unresolved ← lift (create_unresolved_asset_event id saved)
    log_unresolved r saved unresolved

  -- what follows the save of the event, up to the commit
  unfoldable pub conclude : Request → Option Asset → SecurityEvent × Bool → Exec Tables Response
  unfolding suppressed_log persisted_log unresolved_log message response
  conclude r asset (saved, false) = do
    on_store (save_log (suppressed_log r))
    pure (response saved true)
  conclude r asset (saved, true) = do
    on_store (save_log (persisted_log r saved))
    audit_unresolved r asset saved
    id ← on_store uuid4
    now ← gets (λ (t : Tables). t.store.now)
    entry ← lift (new_outbox_event (message now saved id))
    on_outbox (insert entry)
    pure (response saved false)

  -- the body of `async with self.uow`, up to the commit
  unfoldable pub ingest : Request → Option String → Option String → Exec Tables Response
  unfolding conclude
  ingest r service environment = do
    asset ← resolve r.tenant service environment
    id ← on_store uuid4
    event ← lift (new_event rt redact (event_of r asset id))
    saved ← on_events (save_event rt redact [] event)
    conclude r asset saved

  module _ (parsers : Parsers) (commits : Tables → Bool) where
    abbrev pub committed_response : Response → Exec Session Response
    committed_response answer = do commit commits; pure answer

    abbrev pub transaction : IngestCommand → Request → Exec Session Response
    transaction c r =
        within (on_pending (ingest r c.service_name c.environment) >>= committed_response)

    -- IngestSecurityEventHandler.handle
    unfoldable pub handle : IngestCommand → Exec Session Response
    unfolding commit ingest
    handle c = do
      now ← gets (λ (s : Session). s.pending.store.now)
      r ← lift (read_request rt parsers now c)
      transaction c r
