-- ===== src/Ingestion/Tables.antt =====
-- The tables that the ingestion writes in one transaction, and UnitOfWork of
-- src/core/infrastructure/db/unit_of_work.py: a session has the tables as they are committed, and
-- as the open transaction has left them. Whether the database takes a commit is a parameter. The
-- transaction runs alone.
use prefeitura_anti_hack.Prelude.{Bool, List, if◌then◌else◌}
use prefeitura_anti_hack.Prelude.Python.{Result, ok, err, runtime_error}
use prefeitura_anti_hack.Prelude.Exec.{Exec}
use prefeitura_anti_hack.Event.{SecurityEvent}
use prefeitura_anti_hack.Asset.{Asset}
use prefeitura_anti_hack.Outbox.{OutboxEvent}
use prefeitura_anti_hack.Correlation.Store.{Store}

pub record Tables : Type 0 where
  pub assets : List Asset
  pub store : Store
  pub outbox : List OutboxEvent

pub record Session : Type 0 where
  pub committed : Tables
  pub pending : Tables

module _ {A : Type 0} where
  abbrev pub on_assets : Exec (List Asset) A → Exec Tables A
  on_assets m t = ((m t.assets).0, record t { assets = (m t.assets).1 })

  abbrev pub on_store : Exec Store A → Exec Tables A
  on_store m t = ((m t.store).0, record t { store = (m t.store).1 })

  abbrev pub on_events : Exec (List SecurityEvent) A → Exec Tables A
  on_events m t =
      ((m t.store.events).0, record t { store = record t.store { events = (m t.store.events).1 } })

  abbrev pub on_outbox : Exec (List OutboxEvent) A → Exec Tables A
  on_outbox m t = ((m t.outbox).0, record t { outbox = (m t.outbox).1 })

  -- what the repositories of the unit of work do to the open transaction
  abbrev pub on_pending : Exec Tables A → Exec Session A
  on_pending m s = ((m s.pending).0, record s { pending = (m s.pending).1 })

-- UnitOfWork.commit
unfoldable pub commit : (Tables → Bool) → Exec Session (Unit {0})
commit commits s =
    if commits s.pending
    then (ok tt, record s { committed = s.pending })
    else (err runtime_error, s)

-- UnitOfWork.rollback
abbrev pub rollback : Session → Session
rollback s = record s { pending = s.committed }

-- session.close(): what is not committed is gone
abbrev pub close : Session → Session
close s = record s { pending = s.committed }

module _ {A : Type 0} where
  -- UnitOfWork.__aexit__
  abbrev pub exit : Result A → Session → Session
  exit (ok a) s = close s
  exit (err e) s = close (rollback s)

  -- async with self.uow
  abbrev pub within : Exec Session A → Exec Session A
  within body s = ((body s).0, exit (body s).0 (body s).1)
