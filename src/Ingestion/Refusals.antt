-- ===== src/Ingestion/Refusals.antt =====
-- Requests that pass every validation and find their key free, and that the outbox refuses.
use prefeitura_anti_hack.Prelude.{
  ℕ, ◌+◌, ◌<◌, ◌≡◌, ◌≢◌, refl, String, Bool, true, false, Option, none, some, List, [], ◌∷◌, ◌++◌,
  any, arith, ◌&&◌, Bool-cases, inl, inr, str_eq_refl, ==-refl, ◌==◌, str_eq, find-append,
}
use prefeitura_anti_hack.Prelude.Text.{append, fstring, length as text_length}
use prefeitura_anti_hack.Prelude.Python.{Exception, ok, err, integrity_error, data_error}
use prefeitura_anti_hack.Prelude.Runtime.{Runtime}
use prefeitura_anti_hack.Event.{SecurityEvent, normalized}
use prefeitura_anti_hack.Event.Stored.{exceeds, has_key}
use prefeitura_anti_hack.Event.Stored.Abstract.{book, keys_match}
use prefeitura_anti_hack.Asset.{Asset}
use prefeitura_anti_hack.Outbox.{OutboxEvent}
use prefeitura_anti_hack.Outbox.Postgres.{refusal}
use prefeitura_anti_hack.Ingestion.{Parsers, IngestCommand, Request, read_request}
use prefeitura_anti_hack.Ingestion.Tables.{Tables}
use prefeitura_anti_hack.Ingestion.Handler.{message, handle}
use prefeitura_anti_hack.Ingestion.Outcomes.{accepted, Ready, new_message, ingested, ingest-refused}
use prefeitura_anti_hack.Ingestion.Atomicity.{at, handle-settled}

any-append_last :
    (p : OutboxEvent → Bool) (xs : List OutboxEvent) (e : OutboxEvent)
    → p e ≡ true
    → any p (xs ++ e ∷ []) ≡ true
any-append_last p [] e h = ground (arith, h)
any-append_last p (x ∷ xs) e h = ground (arith, any-append_last p xs e)

length-append_text : (s t : String) → text_length (append s t) ≡ text_length s + text_length t
unfolding append
length-append_text String.[] t = omega arith
length-append_text (String.◌∷◌ c s) t = omega (arith, length-append_text s t)

book_of_other :
    (e : SecurityEvent) (rows : List SecurityEvent) (t : ℕ) (s k : String)
    → e.source ≢ s
    → book rows t s k ≡ none
    → book (rows ++ e ∷ []) t s k ≡ none
book_of_other e rows t s k other free = elim (Bool-cases (has_key t s k e)) [
  | inl p ↦ absurd (other (keys_match t s k e p).1)
  | inr p ↦ ground (arith, find-append (has_key t s k) rows e, free, p)
]

-- the key of the message of a request
abbrev pub request_key : Runtime → Request → String
request_key rt r = fstring ("outbox-" ∷ rt.uuid_text r.tenant ∷ "-" ∷ r.key ∷ [])

abbrev pub has_message_key : Runtime → Request → OutboxEvent → Bool
has_message_key rt r m = m.tenant_id == r.tenant && str_eq m.idempotency_key (request_key rt r)

module _ (rt : Runtime) (redact : String → String) (parsers : Parsers) (commits : Tables → Bool)
    (c : IngestCommand) (r : Request) (asset : Option Asset) (t : Tables)
    (reads : read_request rt parsers t.store.now c ≡ ok r)
    (ready : Ready rt redact r c.service_name c.environment asset t)
    (free : book t.store.events r.tenant r.source_text r.key ≡ none) where
  -- A request that passes every validation and whose key is free is lost where the outbox refuses
  -- its message: the call raises, and neither the event nor a log of it is committed.
  handle-loses :
      (x : Exception)
      → refusal
          (new_message rt redact asset (accepted rt redact r asset t.store.next_id) t)
          t.outbox
        ≡ some x
      → handle rt redact parsers commits c (at t) ≡ (err x, at t)
  handle-loses x refuses =
      rw
        (
          handle-settled rt redact parsers commits c t r reads,
          ingest-refused rt redact r c.service_name c.environment asset t ready x free refuses,
        )
        refl

  refusal_of_long_key :
      ((u : ℕ) → text_length (rt.uuid_text u) ≡ 36)
      → 84 < text_length r.key
      → refusal
          (new_message rt redact asset (accepted rt redact r asset t.store.next_id) t)
          t.outbox
        ≡ some data_error
  unfolding refusal message normalized fstring
  refusal_of_long_key uuid_36 long = ground (
    arith,
    uuid_36 r.tenant,
    length-append_text (rt.uuid_text r.tenant) (String.◌∷◌ "-" (append r.key "")),
    length-append_text r.key "",
  )

  -- Where a UUID prints as 36 characters, a request that passes every validation and whose key is
  -- free and has more than 84 characters is lost: the key of its message does not fit the outbox,
  -- so the call raises and commits nothing. (Keys of up to 128 characters are accepted.)
  pub handle_of_long_key :
      ((u : ℕ) → text_length (rt.uuid_text u) ≡ 36)
      → 84 < text_length r.key
      → handle rt redact parsers commits c (at t) ≡ (err data_error, at t)
  handle_of_long_key uuid_36 long = handle-loses data_error (refusal_of_long_key uuid_36 long)

  refusal_of_used_key :
      exceeds 128 (request_key rt r) ≡ false
      → any (has_message_key rt r) t.outbox ≡ true
      → refusal
          (new_message rt redact asset (accepted rt redact r asset t.store.next_id) t)
          t.outbox
        ≡ some integrity_error
  unfolding refusal message normalized
  refusal_of_used_key fits used = ground (arith, fits, used)

  handle_of_used_key :
      exceeds 128 (request_key rt r) ≡ false
      → any (has_message_key rt r) t.outbox ≡ true
      → handle rt redact parsers commits c (at t) ≡ (err integrity_error, at t)
  handle_of_used_key fits used = handle-loses integrity_error (refusal_of_used_key fits used)

module _ (rt : Runtime) (redact : String → String) where
  used_after :
      (r1 r2 : Request) (asset : Option Asset) (t : Tables)
      → r1.tenant ≡ r2.tenant
      → r1.key ≡ r2.key
      → any
          (has_message_key rt r2)
          (ingested rt redact r1 asset (accepted rt redact r1 asset t.store.next_id) t).outbox
        ≡ true
  unfolding message normalized
  used_after r1 r2 asset t same_tenant same_key =
      any-append_last (has_message_key rt r2) t.outbox
        (new_message rt redact asset (accepted rt redact r1 asset t.store.next_id) t)
        (ground (arith, same_tenant, same_key, ==-refl r2.tenant, str_eq_refl (request_key rt r2)))

  -- The key of a message does not name the source. So after the ingestion of one event, a command
  -- that passes every validation, with the same tenant and key but another source, for which the
  -- key is free and the message would fit, raises and commits nothing: its event is lost.
  pub handle_of_other_source :
      (parsers : Parsers) (commits : Tables → Bool)
      → (r1 : Request) (asset1 : Option Asset) (t : Tables)
      → (c : IngestCommand) (r2 : Request) (asset2 : Option Asset) → r1.tenant ≡ r2.tenant
      → r1.key ≡ r2.key
      → r1.source_text ≢ r2.source_text
      → exceeds 128 (request_key rt r2) ≡ false
      → read_request rt parsers t.store.now c ≡ ok r2
      → (let first =
            ingested rt redact r1 asset1 (accepted rt redact r1 asset1 t.store.next_id) t in
          Ready rt redact r2 c.service_name c.environment asset2 first)
      → book t.store.events r2.tenant r2.source_text r2.key ≡ none
      → let first = ingested rt redact r1 asset1 (accepted rt redact r1 asset1 t.store.next_id) t in
        handle rt redact parsers commits c (at first) ≡ (err integrity_error, at first)
  unfolding normalized
  handle_of_other_source parsers commits r1 asset1 t c r2 asset2 same_tenant same_key other fits
        reads ready free =
      let e = accepted rt redact r1 asset1 t.store.next_id in
      let still_free : book (t.store.events ++ e ∷ []) r2.tenant r2.source_text r2.key ≡ none =
        book_of_other e t.store.events r2.tenant r2.source_text r2.key other free in
      handle_of_used_key rt redact parsers commits c r2 asset2 (ingested rt redact r1 asset1 e t)
        reads ready still_free fits (used_after r1 r2 asset1 t same_tenant same_key)
