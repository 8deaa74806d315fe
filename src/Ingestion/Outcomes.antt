-- ===== src/Ingestion/Outcomes.antt =====
-- What one ingestion leaves in the tables, on the branch where the event is new and on the one
-- where it is there already.
use prefeitura_anti_hack.Prelude.{
  ℕ, ◌+◌, ◌≡◌, refl, String, true, false, Option, none, some, List, [], ◌∷◌, ◌++◌, arith, inl,
}
use prefeitura_anti_hack.Prelude.Text.{
  fstring, append, is_blank, strip, is_space, HasInk, HasInk-is_blank,
}
use prefeitura_anti_hack.Prelude.Python.{Exception, ok, err}
use prefeitura_anti_hack.Prelude.Runtime.{Runtime}
use prefeitura_anti_hack.Prelude.Int.{ℤ}
use prefeitura_anti_hack.Domain.{IsUtc, validate_utc_datetime}
use prefeitura_anti_hack.Incident.Transitions.{IsUtc-valid}
use prefeitura_anti_hack.Event.{SecurityEvent, new_event, normalized, create_unresolved_asset_event}
use prefeitura_anti_hack.Event.Laws.{
  IsNormalized, SameIdentity, new_event-IsNormalized, create_unresolved_asset_event-exact,
}
use prefeitura_anti_hack.Event.Stored.{save_event}
use prefeitura_anti_hack.Event.Stored.Abstract.{book, IsSound, IsNew}
use prefeitura_anti_hack.Event.Stored.Saving.{save_event-eq}
use prefeitura_anti_hack.Asset.{Asset}
use prefeitura_anti_hack.Outbox.{OutboxEvent, new_outbox_event}
use prefeitura_anti_hack.Outbox.Postgres.{insert, refusal, to_entity}
use prefeitura_anti_hack.Correlation.Store.{AuditLog}
use prefeitura_anti_hack.Ingestion.{Request}
use prefeitura_anti_hack.Ingestion.Tables.{Tables}
use prefeitura_anti_hack.Ingestion.Handler.{
  response, asset_of, event_of, resolve, suppressed_log, persisted_log, unresolved_log, outbox_key,
  message, conclude, ingest,
}

constants-is_blank :
    (is_blank "SecurityEvent" ≡ false) × (is_blank "SecurityEventReceivedEvent" ≡ false)
unfolding is_blank strip
constants-is_blank = (refl, refl)

outbox_key_ink : (s : String) → HasInk (append "outbox-" s)
unfolding append is_space
outbox_key_ink s = inl refl

module _ (rt : Runtime) (redact : String → String) where
  -- the event that the constructor makes of a request
  abbrev pub accepted : Request → Option Asset → ℕ → SecurityEvent
  accepted r asset id = normalized rt redact (event_of r asset id)

  pub accepted-new_event :
      (r : Request) (asset : Option Asset) (id : ℕ)
      → IsUtc r.occurred
      → IsUtc r.received
      → new_event rt redact (event_of r asset id) ≡ ok (accepted r asset id)
  unfolding new_event
  accepted-new_event r asset id o c = ground (arith, IsUtc-valid o, IsUtc-valid c)

  outbox_key-is_blank : (e : SecurityEvent) → is_blank (outbox_key rt redact e) ≡ false
  unfolding fstring
  outbox_key-is_blank e = HasInk-is_blank _ (outbox_key_ink _)

  -- The message of a stored event is one that the constructor accepts.
  pub message-new_outbox_event :
      (s : ℤ) (e : SecurityEvent) (id : ℕ)
      → new_outbox_event (message rt redact s e id) ≡ ok (message rt redact s e id)
  unfolding message new_outbox_event validate_utc_datetime
  message-new_outbox_event s e id =
      rw (constants-is_blank.0, constants-is_blank.1, outbox_key-is_blank e) refl

  message-to_entity :
      (s : ℤ) (e : SecurityEvent) (id : ℕ)
      → to_entity (message rt redact s e id) ≡ ok (message rt redact s e id)
  unfolding to_entity message
  message-to_entity s e id = message-new_outbox_event s e id

  -- where the database takes the message
  pub insert-message :
      (s : ℤ) (e : SecurityEvent) (id : ℕ) (rows : List OutboxEvent)
      → refusal (message rt redact s e id) rows ≡ none
      → insert (message rt redact s e id) rows
        ≡ (ok (message rt redact s e id), rows ++ message rt redact s e id ∷ [])
  unfolding insert
  insert-message s e id rows h = ground (arith, h, message-to_entity s e id)

  -- the logs with those of a new event
  abbrev pub logged : Request → Option Asset → SecurityEvent → List AuditLog → List AuditLog
  logged r (some a) e logs = logs ++ persisted_log rt redact r e ∷ []
  logged r none e logs =
      (logs ++ persisted_log rt redact r e ∷ []) ++ unresolved_log rt redact r e ∷ []

  -- the identifier of the message, after those that the ingestion takes before
  abbrev pub message_id : Option Asset → ℕ → ℕ
  message_id (some a) n = n + 1
  message_id none n = n + 1 + 1

  -- the message of a new event
  abbrev pub new_message : Option Asset → SecurityEvent → Tables → OutboxEvent
  new_message asset e t = message rt redact t.store.now e (message_id asset t.store.next_id)

  -- the tables after the ingestion of a new event: one event, its logs and one message more
  abbrev pub ingested : Request → Option Asset → SecurityEvent → Tables → Tables
  ingested r asset e t = record t {
    store = record t.store {
      events = t.store.events ++ e ∷ [];
      logs = logged r asset e t.store.logs;
      next_id = message_id asset t.store.next_id + 1;
    };
    outbox = t.outbox ++ new_message asset e t ∷ [];
  }

  -- the tables after an ingestion whose key is taken: a log and an identifier that is not used
  abbrev pub suppressed : Request → Tables → Tables
  suppressed r t = record t {
    store = record t.store {
      logs = t.store.logs ++ suppressed_log rt redact r ∷ [];
      next_id = t.store.next_id + 1;
    };
  }

  -- the state once the event is saved: its identifier is taken
  abbrev with_event : SecurityEvent → Tables → Tables
  with_event e t = record t {
    store = record t.store { events = t.store.events ++ e ∷ []; next_id = t.store.next_id + 1 };
  }

  unresolved_contract :
      (e : SecurityEvent) (id : ℕ)
      → IsNormalized rt redact e
      → e.asset_id ≡ none
      → create_unresolved_asset_event id e
        ≡ ok (
            some (record {
              tenant_id = e.tenant_id;
              security_event_id = e.event_id;
              event_id = id;
              occurred_at_utc = e.occurred_at;
            }))
  unresolved_contract e id n same =
      ground (arith, create_unresolved_asset_event-exact rt redact id e n, same)

  conclude-new :
      (r : Request) (asset : Option Asset) (t : Tables) (e : SecurityEvent)
      → IsNormalized rt redact e
      → e.asset_id ≡ asset_of asset
      → refusal (new_message asset e t) t.outbox ≡ none
      → conclude rt redact r asset (e, true) (with_event e t)
        ≡ (ok (response e false), ingested r asset e t)
  unfolding conclude
  conclude-new r (some a) t e n same h =
      rw
        (
          message-new_outbox_event t.store.now e (t.store.next_id + 1),
          insert-message t.store.now e (t.store.next_id + 1) t.outbox h,
        )
        refl
  conclude-new r none t e n same h =
      rw
        (
          unresolved_contract e (t.store.next_id + 1) n same,
          message-new_outbox_event t.store.now e (t.store.next_id + 1 + 1),
          insert-message t.store.now e (t.store.next_id + 1 + 1) t.outbox h,
        )
        refl

  insert-refused :
      (now : ℤ) (e : SecurityEvent) (id : ℕ) (rows : List OutboxEvent) (x : Exception)
      → refusal (message rt redact now e id) rows ≡ some x
      → insert (message rt redact now e id) rows ≡ (err x, rows)
  unfolding insert
  insert-refused now e id rows x h = ground (arith, h)

  -- what an ingestion has written when the outbox refuses the message
  abbrev pub unannounced : Request → Option Asset → SecurityEvent → Tables → Tables
  unannounced r asset e t = record (ingested r asset e t) { outbox = t.outbox }

  conclude-refused :
      (r : Request) (asset : Option Asset) (t : Tables) (e : SecurityEvent) (x : Exception)
      → IsNormalized rt redact e
      → e.asset_id ≡ asset_of asset
      → refusal (new_message asset e t) t.outbox ≡ some x
      → conclude rt redact r asset (e, true) (with_event e t) ≡ (err x, unannounced r asset e t)
  unfolding conclude
  conclude-refused r (some a) t e x n same h =
      rw
        (
          message-new_outbox_event t.store.now e (t.store.next_id + 1),
          insert-refused t.store.now e (t.store.next_id + 1) t.outbox x h,
        )
        refl
  conclude-refused r none t e x n same h =
      rw
        (
          unresolved_contract e (t.store.next_id + 1) n same,
          message-new_outbox_event t.store.now e (t.store.next_id + 1 + 1),
          insert-refused t.store.now e (t.store.next_id + 1 + 1) t.outbox x h,
        )
        refl

  -- what an ingestion finds: the asset, tables that keep their constraints, and a request whose
  -- times are in UTC
  pub record Ready (r : Request) (service environment : Option String) (asset : Option Asset)
      (t : Tables) : Type 0 where
    pub resolves : resolve r.tenant service environment t ≡ (ok asset, t)
    pub events_sound : IsSound rt redact t.store.events
    pub occurred_utc : IsUtc r.occurred
    pub received_utc : IsUtc r.received
    pub accepted_new : IsNew rt redact (accepted r asset t.store.next_id) t.store.events

  module _ (r : Request) (service environment : Option String) (asset : Option Asset) (t : Tables)
      (h : Ready r service environment asset t) where
    accepted-IsNormalized :
        IsNormalized rt redact (accepted r asset t.store.next_id)
        × SameIdentity rt redact
            (event_of r asset t.store.next_id)
            (accepted r asset t.store.next_id)
    accepted-IsNormalized =
        new_event-IsNormalized rt redact _ _
          (accepted-new_event r asset t.store.next_id h.occurred_utc h.received_utc)

    pub save_event-accepted :
        save_event rt redact [] (accepted r asset t.store.next_id) t.store.events
        ≡ elim (book t.store.events r.tenant r.source_text r.key) [
          | none ↦ (
            ok (accepted r asset t.store.next_id, true),
            t.store.events ++ accepted r asset t.store.next_id ∷ [],
          )
          | some x ↦ (ok (x, false), t.store.events)
        ]
    unfolding normalized
    save_event-accepted =
        save_event-eq rt redact (accepted r asset t.store.next_id) t.store.events h.events_sound
          h.accepted_new

    -- the ingestion of a request whose key is free
    pub ingest-new :
        book t.store.events r.tenant r.source_text r.key ≡ none
        → refusal (new_message asset (accepted r asset t.store.next_id) t) t.outbox ≡ none
        → ingest rt redact r service environment t ≡ (
          ok (response (accepted r asset t.store.next_id) false),
          ingested r asset (accepted r asset t.store.next_id) t,
        )
    unfolding ingest
    ingest-new free takes =
        let (normal, same) = accepted-IsNormalized in
        rw
          (
            h.resolves,
            accepted-new_event r asset t.store.next_id h.occurred_utc h.received_utc,
            save_event-accepted,
            free,
            conclude-new r asset t (accepted r asset t.store.next_id) normal same.same_asset takes,
          )
          refl

    -- the ingestion of a request whose key is taken
    pub ingest-again :
        (x : SecurityEvent)
        → book t.store.events r.tenant r.source_text r.key ≡ some x
        → ingest rt redact r service environment t ≡ (ok (response x true), suppressed r t)
    unfolding ingest conclude
    ingest-again x taken =
        rw
          (
            h.resolves,
            accepted-new_event r asset t.store.next_id h.occurred_utc h.received_utc,
            save_event-accepted,
            taken,
          )
          refl

    -- the ingestion of a request whose key is free, where the outbox refuses the message
    pub ingest-refused :
        (x : Exception)
        → book t.store.events r.tenant r.source_text r.key ≡ none
        → refusal (new_message asset (accepted r asset t.store.next_id) t) t.outbox ≡ some x
        → ingest rt redact r service environment t
          ≡ (err x, unannounced r asset (accepted r asset t.store.next_id) t)
    unfolding ingest
    ingest-refused x free refuses =
        let (normal, same) = accepted-IsNormalized in
        rw
          (
            h.resolves,
            accepted-new_event r asset t.store.next_id h.occurred_utc h.received_utc,
            save_event-accepted,
            free,
            conclude-refused r asset t (accepted r asset t.store.next_id) x normal same.same_asset
                refuses,
          )
          refl
