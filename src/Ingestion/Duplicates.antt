-- ===== src/Ingestion/Duplicates.antt =====
-- An ingestion, and the same request delivered again.
use prefeitura_anti_hack.Prelude.{
  ◌≡◌, refl, ap, ◌∙◌, String, Bool, true, false, Option, none, some, [], ◌∷◌, ◌++◌, arith,
}
use prefeitura_anti_hack.Prelude.Python.{ok}
use prefeitura_anti_hack.Prelude.Runtime.{Runtime}
use prefeitura_anti_hack.Domain.{IsUtc}
use prefeitura_anti_hack.Event.{SecurityEvent, normalized}
use prefeitura_anti_hack.Event.Stored.Abstract.{book, same_key_refl, IsNew, Saved}
use prefeitura_anti_hack.Event.Stored.Saving.{new-Saved}
use prefeitura_anti_hack.Asset.{Asset}
use prefeitura_anti_hack.Outbox.Postgres.{refusal}
use prefeitura_anti_hack.Ingestion.{Parsers, IngestCommand, Request, read_request}
use prefeitura_anti_hack.Ingestion.Tables.{Tables}
use prefeitura_anti_hack.Ingestion.Handler.{response, resolve, handle}
use prefeitura_anti_hack.Ingestion.Outcomes.{
  accepted, Ready, new_message, ingested, suppressed, ingest-new, ingest-again,
}
use prefeitura_anti_hack.Ingestion.Described.{
  IsMadeOf, accepted-IsMadeOf, IsPendingFor, new_message-IsPendingFor, Answers, response-Answers,
}
use prefeitura_anti_hack.Ingestion.Atomicity.{at, handle-settled}

module _ (rt : Runtime) (redact : String → String) (parsers : Parsers)
    (commits : Tables → Bool) where
  module _ (c : IngestCommand) (r : Request) (asset : Option Asset) (t : Tables)
      (reads : read_request rt parsers t.store.now c ≡ ok r)
      (ready : Ready rt redact r c.service_name c.environment asset t) where
    -- Take a command that passes the validations, an asset lookup that succeeds, times in UTC, and
    -- tables that keep their constraints and take the event, with an identifier that is not in use.
    -- If no event has its tenant, source and key, the outbox takes the message and the commit
    -- succeeds, then the call answers with the new event as no duplicate and commits the event, its
    -- logs and one message, and nothing else. The event has the data of the request, its payload
    -- masked, and the asset that was found. The message is for that event, pending and free to be
    -- claimed, and neither claimed nor published.
    pub handle-ingests :
        book t.store.events r.tenant r.source_text r.key ≡ none
        → refusal
            (new_message rt redact asset (accepted rt redact r asset t.store.next_id) t)
            t.outbox
          ≡ none
        → commits (ingested rt redact r asset (accepted rt redact r asset t.store.next_id) t) ≡ true
        → (handle rt redact parsers commits c (at t) ≡ (
          ok (response (accepted rt redact r asset t.store.next_id) false),
          at (ingested rt redact r asset (accepted rt redact r asset t.store.next_id) t),
        ))
          × IsMadeOf rt redact r asset t.store.next_id (accepted rt redact r asset t.store.next_id)
          × Answers rt redact
              (accepted rt redact r asset t.store.next_id)
              false
              (response (accepted rt redact r asset t.store.next_id) false)
          × IsPendingFor rt redact
              (accepted rt redact r asset t.store.next_id)
              (new_message rt redact asset (accepted rt redact r asset t.store.next_id) t)
    handle-ingests free takes commit = (
      rw
          (
            handle-settled rt redact parsers commits c t r reads,
            ingest-new rt redact r c.service_name c.environment asset t ready free takes,
            commit,
          )
          refl,
      accepted-IsMadeOf rt redact r asset t.store.next_id,
      response-Answers rt redact (accepted rt redact r asset t.store.next_id) false,
      new_message-IsPendingFor rt redact asset (accepted rt redact r asset t.store.next_id) t,
    )

    -- Under the same conditions, if an event has the tenant, the source and the key, the call
    -- answers with that event as a duplicate and commits one log of it: no event and no message.
    pub handle-suppresses :
        (x : SecurityEvent)
        → book t.store.events r.tenant r.source_text r.key ≡ some x
        → commits (suppressed rt redact r t) ≡ true
        → handle rt redact parsers commits c (at t)
          ≡ (ok (response x true), at (suppressed rt redact r t))
    handle-suppresses x taken commit =
        rw
          (
            handle-settled rt redact parsers commits c t r reads,
            ingest-again rt redact r c.service_name c.environment asset t ready x taken,
            commit,
          )
          refl

    first-Saved :
        book t.store.events r.tenant r.source_text r.key ≡ none
        → Saved rt redact (accepted rt redact r asset t.store.next_id) t.store.events (
          ok (accepted rt redact r asset t.store.next_id, true),
          t.store.events ++ accepted rt redact r asset t.store.next_id ∷ [],
        )
    unfolding normalized
    first-Saved free =
        new-Saved rt redact (accepted rt redact r asset t.store.next_id) t.store.events
          ready.events_sound ready.accepted_new free

    first_booked :
        book t.store.events r.tenant r.source_text r.key ≡ none
        → book
            (t.store.events ++ accepted rt redact r asset t.store.next_id ∷ [])
            r.tenant
            r.source_text
            r.key
          ≡ some (accepted rt redact r asset t.store.next_id)
    unfolding normalized
    first_booked free =
        let e = accepted rt redact r asset t.store.next_id in
        let now_booked = ap (λ b. b r.tenant r.source_text r.key) (first-Saved free).booked in
        now_booked ∙ ground (arith, free, same_key_refl e)

    -- Take a first call under the conditions for a new event, and a second command, delivered to
    -- the tables that the first has left, that passes the validations with the same tenant, source
    -- and key, finds its asset or none, has times in UTC, texts that fit and an unused identifier,
    -- and whose commit succeeds. The second call answers with the event of the first, as a
    -- duplicate, and commits a log only: the events and the outbox are those that the first call
    -- has left.
    pub handle_twice :
        book t.store.events r.tenant r.source_text r.key ≡ none
        → (c2 : IngestCommand) (r2 : Request) (asset2 : Option Asset) → r2.tenant ≡ r.tenant
        → r2.source_text ≡ r.source_text
        → r2.key ≡ r.key
        → read_request rt parsers t.store.now c2 ≡ ok r2
        → (let first = ingested rt redact r asset (accepted rt redact r asset t.store.next_id) t in
            resolve r2.tenant c2.service_name c2.environment first ≡ (ok asset2, first))
        → IsUtc r2.occurred
        → IsUtc r2.received
        → (let first = ingested rt redact r asset (accepted rt redact r asset t.store.next_id) t in
            IsNew rt redact (accepted rt redact r2 asset2 first.store.next_id) first.store.events)
        → (let first = ingested rt redact r asset (accepted rt redact r asset t.store.next_id) t in
            commits (suppressed rt redact r2 first) ≡ true)
        → let first = ingested rt redact r asset (accepted rt redact r asset t.store.next_id) t in
          (handle rt redact parsers commits c2 (at first) ≡ (
            ok (response (accepted rt redact r asset t.store.next_id) true),
            at (suppressed rt redact r2 first),
          ))
          × Answers rt redact
              (accepted rt redact r asset t.store.next_id)
              true
              (response (accepted rt redact r asset t.store.next_id) true)
    handle_twice free c2 r2 asset2 same_tenant same_source same_key2 reads2 resolves2 o2 v2 new2
          commit2 =
        let first = ingested rt redact r asset (accepted rt redact r asset t.store.next_id) t in
        let e = accepted rt redact r asset t.store.next_id in
        let ready2 : Ready rt redact r2 c2.service_name c2.environment asset2 first = record {
          resolves = resolves2;
          events_sound = (first-Saved free).sound;
          occurred_utc = o2;
          received_utc = v2;
          accepted_new = new2;
        } in
        (
          rw
              (
                handle-settled rt redact parsers commits c2 first r2 reads2,
                ingest-again rt redact r2 c2.service_name c2.environment asset2 first ready2 e
                    (rw (same_tenant, same_source, same_key2) (first_booked free)),
                commit2,
              )
              refl,
          response-Answers rt redact e true,
        )
