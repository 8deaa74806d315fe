-- ===== src/Ingestion/Atomicity.antt =====
-- The transaction of an ingestion as a whole: from a session with nothing pending to one.
use prefeitura_anti_hack.Prelude.{
  ◌≡◌, refl, String, Bool, true, inl, inr, Bool-cases, if◌then◌else◌,
}
use prefeitura_anti_hack.Prelude.Python.{Exception, Result, ok, err, runtime_error, Result-cases}
use prefeitura_anti_hack.Prelude.Exec.{Exec, pure, ◌>>=◌, ◌>>◌}
use prefeitura_anti_hack.Prelude.Runtime.{Runtime}
use prefeitura_anti_hack.Ingestion.{Parsers, IngestCommand, Request, read_request}
use prefeitura_anti_hack.Ingestion.Tables.{Tables, Session, commit, within, on_pending}
use prefeitura_anti_hack.Ingestion.Handler.{Response, ingest, handle}

-- a session with nothing pending
abbrev pub at : Tables → Session
at t = record { committed = t; pending = t }

-- what a body that ends in `outcome` leaves, once the commit has been tried
abbrev pub settled : (Tables → Bool) → Tables → Result Response × Tables → Result Response × Session
settled commits t (err x, after) = (err x, at t)
settled commits t (ok a, after) =
    if commits after then (ok a, at after) else (err runtime_error, at t)

module _ (commits : Tables → Bool) (m : Exec Tables Response) (t : Tables) where
  within-settled :
      within (on_pending m >>= λ answer. commit commits >> pure answer) (at t)
      ≡ settled commits t (m t)
  unfolding commit
  within-settled = elim (Result-cases (m t).0) [
    | inr (x, e) ↦ rw e refl
    | inl (a, e) ↦ elim (Bool-cases (commits (m t).1)) [
      | inl p ↦ rw (e, p) refl
      | inr p ↦ rw (e, p) refl
    ]
  ]

module _ (rt : Runtime) (redact : String → String) (parsers : Parsers) (commits : Tables → Bool)
    (c : IngestCommand) (t : Tables) where
  pub handle-settled :
      (r : Request)
      → read_request rt parsers t.store.now c ≡ ok r
      → handle rt redact parsers commits c (at t)
        ≡ settled commits t (ingest rt redact r c.service_name c.environment t)
  unfolding handle
  handle-settled r h =
      rw h (within-settled commits (ingest rt redact r c.service_name c.environment) t)

  pub handle-refused :
      (x : Exception)
      → read_request rt parsers t.store.now c ≡ err x
      → handle rt redact parsers commits c (at t) ≡ (err x, at t)
  unfolding handle
  handle-refused x h = rw h refl

  -- the two ways in which a call can end
  pub data Atomic : Result Response × Session → Type 0 where
    undone : (x : Exception) → Atomic (err x, at t)
    done :
        (r : Request) (a : Response) (after : Tables)
        → read_request rt parsers t.store.now c ≡ ok r
        → ingest rt redact r c.service_name c.environment t ≡ (ok a, after)
        → commits after ≡ true
        → Atomic (ok a, at after)

  settled-Atomic :
      (r : Request)
      → read_request rt parsers t.store.now c ≡ ok r
      → Atomic (settled commits t (ingest rt redact r c.service_name c.environment t))
  settled-Atomic r h =
      let ran = ingest rt redact r c.service_name c.environment t in
      elim (Result-cases ran.0) [
        | inr (x, e) ↦ rw e (undone x)
        | inl (a, e) ↦ elim (Bool-cases (commits ran.1)) [
          | inl p ↦ rw (e, p) (done r a ran.1 h (λ i. (e i, ran.1)) p)
          | inr p ↦ rw (e, p) (undone runtime_error)
        ]
      ]

  -- A call on a session with nothing pending either raises and leaves the committed tables as they
  -- were, or commits exactly the tables that the whole body has left, the event, its logs and its
  -- message together; in both cases nothing stays pending.
  pub handle-Atomic : Atomic (handle rt redact parsers commits c (at t))
  handle-Atomic = elim (Result-cases (read_request rt parsers t.store.now c)) [
    | inr (x, e) ↦ rw (handle-refused x e) (undone x)
    | inl (r, e) ↦ rw (handle-settled r e) (settled-Atomic r e)
  ]
