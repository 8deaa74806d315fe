-- ===== src/Ingestion/Announcing.antt =====
-- The events of the table and the messages of the outbox, whatever the tables and the command.
use prefeitura_anti_hack.Prelude.{
  ℕ, ◌+◌, ◌≡◌, refl, ap, String, Bool, true, false, Option, none, some, List, [], ◌∷◌, ◌++◌, arith,
  ◌||◌, ◌&&◌, Bool-cases, inl, inr, any, All, All-append, All-imp, ◌==◌, ==-refl, Option-cases,
}
use mathlib.Core.Path.{subst}
use prefeitura_anti_hack.Prelude.Int.{ℤ}
use prefeitura_anti_hack.Prelude.Text.{is_empty}
use prefeitura_anti_hack.Prelude.Python.{validations, Exception, Result, ok, err, Result-cases}
use prefeitura_anti_hack.Prelude.Exec.{pure, lift, ◌>>◌, ◌>>=◌}
use prefeitura_anti_hack.Prelude.Runtime.{Runtime}
use prefeitura_anti_hack.Event.{SecurityEvent, new_event, create_unresolved_asset_event}
use prefeitura_anti_hack.Event.Stored.{save_event}
use prefeitura_anti_hack.Event.Stored.Ends.{SaveEnds, save_event-SaveEnds}
use prefeitura_anti_hack.Asset.{Asset}
use prefeitura_anti_hack.Outbox.{OutboxEvent, new_outbox_event, checks}
use prefeitura_anti_hack.Outbox.Postgres.{insert, to_entity, refusal}
use prefeitura_anti_hack.Correlation.Store.{Store}
use prefeitura_anti_hack.Ingestion.{Parsers, IngestCommand, Request}
use prefeitura_anti_hack.Ingestion.Tables.{Tables, Session, on_outbox, on_events}
use prefeitura_anti_hack.Ingestion.Handler.{
  Response, response, resolve, message, conclude, ingest, handle, event_of,
}
use prefeitura_anti_hack.Ingestion.Atomicity.{at, Atomic, undone, done, handle-Atomic}

abbrev pub announces : SecurityEvent → OutboxEvent → Bool
announces e m = m.aggregate_id == e.event_id && m.tenant_id == e.tenant_id

-- every event has a message, and every message an event
pub record Announced (t : Tables) : Type 0 where
  pub announced : All (λ e. any (announces e) t.outbox ≡ true) t.store.events
  pub known : All (λ m. any (λ e. announces e m) t.store.events ≡ true) t.outbox

-- what a step does to the two tables: nothing, or one event and the message that announces it
pub data Effect (t after : Tables) : Type 0 where
  nothing : after.store.events ≡ t.store.events → after.outbox ≡ t.outbox → Effect t after
  one :
      (e : SecurityEvent) (m : OutboxEvent)
      → after.store.events ≡ t.store.events ++ e ∷ []
      → after.outbox ≡ t.outbox ++ m ∷ []
      → announces e m ≡ true
      → Effect t after

any_more :
    {A : Type 0} (p : A → Bool) (xs : List A) (y : A)
    → any p xs ≡ true
    → any p (xs ++ y ∷ []) ≡ true
any_more p [] y h = absurd (cc)
any_more p (x ∷ xs) y h = ground (arith, any_more p xs y)

any_last :
    {A : Type 0} (p : A → Bool) (xs : List A) (y : A) → p y ≡ true → any p (xs ++ y ∷ []) ≡ true
any_last p [] y h = ground (arith, h)
any_last p (x ∷ xs) y h = ground (arith, any_last p xs y)

one-Announced :
    (t : Tables) (e : SecurityEvent) (m : OutboxEvent) (after : Tables)
    → announces e m ≡ true
    → Announced t
    → after.store.events ≡ t.store.events ++ e ∷ []
    → after.outbox ≡ t.outbox ++ m ∷ []
    → Announced after
one-Announced t e m after h a es ms = record {
  announced =
      rw (es, ms)
        (All-append _ t.store.events (e ∷ [])
          (All-imp (λ x. any_more (announces x) t.outbox m) t.store.events a.announced)
          (any_last (announces e) t.outbox m h, tt));
  known =
      rw (es, ms)
        (All-append _ t.outbox (m ∷ [])
          (All-imp (λ x. any_more (λ y. announces y x) t.store.events e) t.outbox a.known)
          (any_last (λ y. announces y m) t.store.events e h, tt));
}

Effect-Announced : (t after : Tables) → Effect t after → Announced t → Announced after
Effect-Announced t after (nothing es ms) a = record {
  announced = rw (es, ms) a.announced;
  known = rw (es, ms) a.known;
}
Effect-Announced t after (one e m es ms h) a = one-Announced t e m after h a es ms

taken_lem :
    (m : OutboxEvent) (rows : List OutboxEvent)
    → refusal m rows ≡ none
    → insert m rows ≡ (to_entity m, rows ++ m ∷ [])
unfolding insert
taken_lem m rows h = ground (arith, h)

refused_lem :
    (m : OutboxEvent) (rows : List OutboxEvent) (x : Exception)
    → refusal m rows ≡ some x
    → insert m rows ≡ (err x, rows)
unfolding insert
refused_lem m rows x h = ground (arith, h)

module _ (rt : Runtime) (redact : String → String) where
  abbrev Ends : Tables → Result Response × Tables → Type 0
  Ends t (err x, after) = Unit
  Ends t (ok a, after) = Effect t after

  insert-Ends :
      (t s : Tables) (e : SecurityEvent) (m : OutboxEvent) (answer : Response)
      → s.store.events ≡ t.store.events ++ e ∷ []
      → s.outbox ≡ t.outbox
      → announces e m ≡ true
      → Ends t ((on_outbox (insert m) >> pure answer) s)
  insert-Ends t s e m answer es ms h = elim (Option-cases (refusal m s.outbox)) [
    | inr (x, p) ↦ rw (refused_lem m s.outbox x p) tt
    | inl p ↦ elim (Result-cases (to_entity m)) [
      | inr (x, q) ↦ rw (taken_lem m s.outbox p, q) tt
      | inl (f, q) ↦ rw (taken_lem m s.outbox p, q) (one e m es (ap (λ l. l ++ m ∷ []) ms) h)
    ]
  ]

  message-announces :
      (now : ℤ) (e x : SecurityEvent) (id : ℕ)
      → x.event_id ≡ e.event_id
      → x.tenant_id ≡ e.tenant_id
      → announces e (message rt redact now x id) ≡ true
  unfolding message
  message-announces now e x id p q = ground (arith, p, q, ==-refl e.event_id, ==-refl e.tenant_id)

  -- the rest of the body, from the audit of the new event on
  announce-Ends :
      (t s : Tables) (e x : SecurityEvent) (now : ℤ) (id : ℕ) (answer : Response)
      → s.store.events ≡ t.store.events ++ e ∷ []
      → s.outbox ≡ t.outbox
      → x.event_id ≡ e.event_id
      → x.tenant_id ≡ e.tenant_id
      → Ends t (
          (lift (new_outbox_event (message rt redact now x id)) >>= λ entry.
          on_outbox (insert entry) >> pure answer)
            s)
  unfolding new_outbox_event
  announce-Ends t s e x now id answer es ms p q =
      let m = message rt redact now x id in
      elim (Result-cases (validations (checks m))) [
        | inr (y, r) ↦ rw r tt
        | inl (u, r) ↦ rw r (insert-Ends t s e m answer es ms (message-announces now e x id p q))
      ]

  conclude-Ends :
      (t s : Tables) (r : Request) (asset : Option Asset) (x : SecurityEvent) (created : Bool)
      → SaveEnds rt redact t.store.events (ok (x, created), s.store.events)
      → s.outbox ≡ t.outbox
      → Ends t (conclude rt redact r asset (x, created) s)
  unfolding conclude
  conclude-Ends t s r asset x false same ms = nothing same ms
  conclude-Ends t s r (some a) x true (e, es, p, q) ms =
      announce-Ends t _ e x s.store.now s.store.next_id (response x false) es ms p q
  conclude-Ends t s r none x true (e, es, p, q) ms =
      let made = create_unresolved_asset_event s.store.next_id x in
      elim (Result-cases made) [
        | inr (y, u) ↦ rw u tt
        | inl (o, u) ↦ rw u (elim (Option-cases o) [
          | inl n ↦
              rw n (
                announce-Ends t _ e x s.store.now (s.store.next_id + 1) (response x false) es ms p
                  q)
          | inr (v, n) ↦
              rw n (
                announce-Ends t _ e x s.store.now (s.store.next_id + 1) (response x false) es ms p
                  q)
        ])
      ]

  resolve-frame :
      (tenant : ℕ) (service environment : Option String) (t : Tables)
      → ((resolve tenant service environment t).1.store ≡ t.store)
        × ((resolve tenant service environment t).1.outbox ≡ t.outbox)
  resolve-frame tenant none environment t = (refl, refl)
  resolve-frame tenant (some s) none t = (refl, refl)
  resolve-frame tenant (some s) (some v) t = elim (Bool-cases (is_empty s || is_empty v)) [
    | inl p ↦ rw p (refl, refl)
    | inr p ↦ rw p (refl, refl)
  ]

  save-Ends :
      (t s : Tables) (r : Request) (asset : Option Asset) (e : SecurityEvent)
      → s.store.events ≡ t.store.events
      → s.outbox ≡ t.outbox
      → Ends t
          ((on_events (save_event rt redact [] e) >>= λ saved. conclude rt redact r asset saved) s)
  save-Ends t s r asset e es ms =
      let saved = save_event rt redact [] e s.store.events in
      elim (Result-cases saved.0) [
        | inr (y, q) ↦ rw q tt
        | inl (found, q) ↦
            let ends : SaveEnds rt redact s.store.events (ok found, saved.1) =
              subst (λ o. SaveEnds rt redact s.store.events (o, saved.1)) q
                (save_event-SaveEnds rt redact e s.store.events) in
            let mine : SaveEnds rt redact t.store.events (ok found, saved.1) =
              subst (λ rows. SaveEnds rt redact rows (ok found, saved.1)) es ends in
            rw q (conclude-Ends t _ r asset found.0 found.1 mine ms)
      ]

  ingest-Ends :
      (r : Request) (service environment : Option String) (t : Tables)
      → Ends t (ingest rt redact r service environment t)
  unfolding ingest
  ingest-Ends r service environment t =
      let (same_store, same_outbox) = resolve-frame r.tenant service environment t in
      let s1 = (resolve r.tenant service environment t).1 in
      elim (Result-cases (resolve r.tenant service environment t).0) [
        | inr (y, u) ↦ rw u tt
        | inl (asset, u) ↦
            rw u (elim (Result-cases (new_event rt redact (event_of r asset s1.store.next_id))) [
              | inr (y, v) ↦ rw v tt
              | inl (e, v) ↦
                  rw v (
                    save-Ends t _ r asset e (ap (λ (st : Store). st.events) same_store) same_outbox)
            ])
      ]

  from_atomic :
      (parsers : Parsers) (commits : Tables → Bool) (c : IngestCommand) (t : Tables)
      → Announced t
      → (ran : Result Response × Session) → Atomic rt redact parsers commits c t ran
      → Announced ran.1.committed
  from_atomic parsers commits c t a ran (undone x) = a
  from_atomic parsers commits c t a ran (done r answer after reads ran_ok committed) =
      let ends : Ends t (ok answer, after) =
        subst (Ends t) ran_ok (ingest-Ends r c.service_name c.environment t) in
      Effect-Announced t after ends a

  -- Where every event of the tables has a message in the outbox that carries its identifier and its
  -- tenant, and every message is that of a stored event, the same holds of the committed tables
  -- after any call, whatever its command is and however it ends.
  pub handle-Announced :
      (parsers : Parsers) (commits : Tables → Bool) (c : IngestCommand) (t : Tables)
      → Announced t
      → Announced (handle rt redact parsers commits c (at t)).1.committed
  handle-Announced parsers commits c t a =
      from_atomic parsers commits c t a _ (handle-Atomic rt redact parsers commits c t)
