-- ===== src/Ingestion/Delivery.antt =====
-- From the stored message back to the stored event: what the dispatcher reads of the payload, and
-- what the correlation engine finds by it.
use prefeitura_anti_hack.Prelude.{
  ℕ, ◌≡◌, refl, String, false, Option, none, some, List, [], ◌∷◌, ◌++◌, arith, any, filter,
  filter-concat, ◌==◌, ==-refl,
}
use prefeitura_anti_hack.Prelude.Text.{is_empty, HasInk}
use prefeitura_anti_hack.Prelude.Python.{ok}
use prefeitura_anti_hack.Prelude.Runtime.{Runtime}
use prefeitura_anti_hack.Sanitize.{null, text}
use prefeitura_anti_hack.Event.{SecurityEvent}
use prefeitura_anti_hack.Event.Stored.{same_id}
use prefeitura_anti_hack.Event.Stored.Fixed.{IsFixed}
use prefeitura_anti_hack.Asset.{Asset}
use prefeitura_anti_hack.Outbox.Message.{
  SecurityEventReceivedEvent, Outside, optional_uuid, deserialize_event,
}
use prefeitura_anti_hack.Correlation.Store.{Store, get_event_by_id, is_event}
use prefeitura_anti_hack.Incident.{severity_value}
use prefeitura_anti_hack.Ingestion.{Request}
use prefeitura_anti_hack.Ingestion.Handler.{outbox_payload, message}
use prefeitura_anti_hack.Ingestion.Tables.{Tables}
use prefeitura_anti_hack.Ingestion.Outcomes.{accepted, new_message, ingested}

ink-is_empty : (s : String) → HasInk s → is_empty s ≡ false
ink-is_empty String.[] h = absurd h
ink-is_empty (String.◌∷◌ c s) h = refl

-- what is published of a stored event
abbrev pub published_of : SecurityEvent → SecurityEventReceivedEvent
published_of e = record {
  tenant_id = e.tenant_id;
  security_event_id = e.event_id;
  source = e.source;
  security_event_type = e.event_type;
  severity = severity_value e.severity;
  is_asset_resolved = e.is_asset_resolved;
  asset_id = e.asset_id;
}

filter-unused :
    (i t : ℕ) (rows : List SecurityEvent)
    → any (λ (x : SecurityEvent). x.event_id == i) rows ≡ false
    → filter (is_event i t) rows ≡ []
filter-unused i t [] h = refl
filter-unused i t (x ∷ rows) h = ground (arith, filter-unused i t rows)

module _ (rt : Runtime) (redact : String → String) {P : Type 0} (outside : Outside P)
    (parses : (u : ℕ) → outside.parse_uuid (text (rt.uuid_text u)) ≡ ok u)
    (prints : (s : String) → outside.str (text s) ≡ s) where
  optional_uuid-roundtrip :
      (o : Option ℕ)
      → optional_uuid outside (some (elim o [ some a ↦ text (rt.uuid_text a) | none ↦ null ]))
        ≡ ok o
  optional_uuid-roundtrip none = refl
  optional_uuid-roundtrip (some a) =
      rw (ink-is_empty (rt.uuid_text a) (rt.uuid_text_ink a), parses a) refl

  -- Where a UUID is read back from its text, and str() of a text is the text, the dispatcher reads
  -- from the payload of a stored event's message that event's tenant, identifier, source, type,
  -- severity and asset.
  pub deserialize_event-outbox_payload :
      (e : SecurityEvent)
      → deserialize_event outside "SecurityEventReceivedEvent" (outbox_payload rt redact e)
        ≡ ok (published_of e)
  unfolding deserialize_event outbox_payload
  deserialize_event-outbox_payload e =
      rw
        (
          optional_uuid-roundtrip e.asset_id,
          parses e.tenant_id,
          parses e.event_id,
          prints e.source,
          prints e.event_type,
          prints (severity_value e.severity),
        )
        refl

  found_of_unused :
      (s : Store) (e : SecurityEvent) (rows : List SecurityEvent)
      → s.events ≡ rows ++ e ∷ []
      → any (same_id e) rows ≡ false
      → IsFixed rt redact e
      → get_event_by_id rt redact e.event_id e.tenant_id s ≡ (ok (some e), s)
  unfolding get_event_by_id
  found_of_unused s e rows es unused fixed = ground (
    arith,
    fixed,
    es,
    filter-concat (is_event e.event_id e.tenant_id) rows e,
    filter-unused e.event_id e.tenant_id rows unused,
    ==-refl e.event_id,
    ==-refl e.tenant_id,
  )

  -- After the ingestion of a new event whose identifier was not in use and which the constructor
  -- leaves as it is when it is read again, and where a UUID is read back from its text and str() of
  -- a text is the text, what the dispatcher publishes of its message carries the identifier and the
  -- tenant by which the correlation engine loads exactly that event from the committed tables.
  pub ingested_found :
      (r : Request) (asset : Option Asset) (t : Tables)
      → any (same_id (accepted rt redact r asset t.store.next_id)) t.store.events ≡ false
      → IsFixed rt redact (accepted rt redact r asset t.store.next_id)
      → let e = accepted rt redact r asset t.store.next_id in
        let after = ingested rt redact r asset e t in
        (v : SecurityEventReceivedEvent) × (deserialize_event outside
            (new_message rt redact asset e t).event_type
            (new_message rt redact asset e t).payload
          ≡ ok v)
        × (get_event_by_id rt redact v.security_event_id v.tenant_id after.store
            ≡ (ok (some e), after.store))
  unfolding message
  ingested_found r asset t unused fixed =
      let e = accepted rt redact r asset t.store.next_id in
      let after = ingested rt redact r asset e t in
      (
        published_of e,
        deserialize_event-outbox_payload e,
        found_of_unused after.store e t.store.events refl unused fixed,
      )
