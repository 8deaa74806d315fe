-- ===== src/Outbox/Dispatcher.antt =====
-- OutboxDispatcher of src/core/application/outbox_dispatcher.py over the in-memory repository. The
-- commit of the unit of work is left out: a batch that raises nothing ends with it.
pub mod Settling
pub mod Sweep
use prefeitura_anti_hack.Prelude.{ℕ, ◌+◌, List, [], ◌∷◌}
use prefeitura_anti_hack.Prelude.Int.{ℤ}
use prefeitura_anti_hack.Prelude.Exec.{Exec, pure, lift, recover, ◌>>=◌, ◌>>◌}
use prefeitura_anti_hack.Outbox.{OutboxEvent, fetch_pending_and_claim, mark_published, mark_failed}
use prefeitura_anti_hack.Outbox.Message.{
  SecurityEventReceivedEvent, Outside, deserialize_event, sanitize_error_message,
}

-- the repository and the broker
pub record World (P : Type 0) : Type 0 where
  pub events : List OutboxEvent
  pub broker : P

module _ {P : Type 0} (outside : Outside P) where
  -- a call on the repository, and one on the publisher
  abbrev pub on_events : {A : Type 0} → Exec (List OutboxEvent) A → Exec (World P) A
  on_events m w = ((m w.events).0, record { events = (m w.events).1; broker = w.broker })

  abbrev pub on_broker : SecurityEventReceivedEvent → Exec (World P) (Unit {0})
  on_broker d w = (
    (outside.publish d w.broker).0,
    record { events = w.events; broker = (outside.publish d w.broker).1 },
  )

  module _ (max_retries backoff_seconds : ℕ) (now : ℤ) where
    -- the body of the loop: what it adds to processed_count
    unfoldable pub dispatch : OutboxEvent → Exec (World P) ℕ
    dispatch outbox_evt =
        recover
          (do
            domain_event ← lift (deserialize_event outside outbox_evt.event_type outbox_evt.payload)
            on_broker domain_event
            on_events (mark_published now outbox_evt.outbox_event_id)
            pure 1)
          (λ exc. do
            on_events (
                mark_failed now max_retries backoff_seconds outbox_evt.outbox_event_id
                  (sanitize_error_message outside (outside.message exc)))
            pure 0)

    unfoldable pub dispatch_all : List OutboxEvent → Exec (World P) ℕ
    dispatch_all [] = pure 0
    dispatch_all (e ∷ es) = do n ← dispatch e; m ← dispatch_all es; pure (n + m)

    -- OutboxDispatcher.process_outbox_batch
    unfoldable pub process_outbox_batch : ℕ → ℕ → Exec (World P) ℕ
    process_outbox_batch batch_size lease_seconds = do
      claimed_events ← on_events (fetch_pending_and_claim now batch_size lease_seconds)
      dispatch_all claimed_events
