-- ===== src/Outbox/Dispatcher/Settling.antt =====
-- What becomes of each claimed event of a batch.
use prefeitura_anti_hack.Prelude.{
  ◌==◌, ℕ, ◌+◌, ◌≡◌, refl, ◌∙◌, ap, inl, inr, false, some, List, [], ◌∷◌, find, All, arith,
}
use prefeitura_anti_hack.Prelude.Int.{ℤ}
use prefeitura_anti_hack.Prelude.Python.{Exception, Result, Result-cases, ok, err}
use prefeitura_anti_hack.Outbox.{OutboxEvent, is_id, put, as_published, as_failed}
use prefeitura_anti_hack.Outbox.Claims.{IsValid, IsDistinct, put_all}
use prefeitura_anti_hack.Outbox.Message.{
  SecurityEventReceivedEvent, Outside, deserialize_event, sanitize_error_message,
}
use prefeitura_anti_hack.Outbox.Dispatcher.{World, dispatch, dispatch_all}
use prefeitura_anti_hack.Outbox.Marks.{find-put_other, mark_published-found, mark_failed-found}

module _ (now : ℤ) (max_retries backoff_seconds : ℕ) where
  module _ {P : Type 0} (outside : Outside P) where
    abbrev pub reads : OutboxEvent → Result SecurityEventReceivedEvent
    reads c = deserialize_event outside c.event_type c.payload

    -- What becomes of one claimed event: it is stored as published after the publisher has taken
    -- its message; or its payload is not readable, or the publisher has raised, and it is stored as
    -- failed.
    pub data Settled (c : OutboxEvent) (p : P) : OutboxEvent → P → ℕ → Type 0 where
      sent :
          (d : SecurityEventReceivedEvent) (q : P)
          → reads c ≡ ok d
          → outside.publish d p ≡ (ok tt, q)
          → Settled c p (as_published now c) q 1
      unreadable :
          (x : Exception)
          → reads c ≡ err x
          → Settled c p
              (as_failed now max_retries backoff_seconds
                (sanitize_error_message outside (outside.message x))
                c)
              p
              0
      refused :
          (d : SecurityEventReceivedEvent) (x : Exception) (q : P)
          → reads c ≡ ok d
          → outside.publish d p ≡ (err x, q)
          → Settled c p
              (as_failed now max_retries backoff_seconds
                (sanitize_error_message outside (outside.message x))
                c)
              q
              0

    pub record Dispatched (c : OutboxEvent) (w : World P) : Type 0 where
      pub event : OutboxEvent
      pub broker : P
      pub count : ℕ
      pub runs :
          dispatch outside max_retries backoff_seconds now c w
          ≡ (ok count, record { events = put event w.events; broker = broker })
      pub settled : Settled c w.broker event broker count

    dispatch-Settled :
        (c : OutboxEvent) (w : World P)
        → IsValid c
        → find (is_id c.outbox_event_id) w.events ≡ some c
        → Dispatched c w
    unfolding dispatch
    dispatch-Settled c w v h = elim (Result-cases (reads c)) [
      | inr (x, p) ↦
          let m = sanitize_error_message outside (outside.message x) in
          record {
            event = as_failed now max_retries backoff_seconds m c;
            broker = w.broker;
            count = 0;
            runs = rw (p, mark_failed-found now max_retries backoff_seconds m c w.events v h) refl;
            settled = unreadable x p;
          }
      | inl (d, p) ↦ elim (Result-cases (outside.publish d w.broker).0) [
        | inl (t, q) ↦ record {
          event = as_published now c;
          broker = (outside.publish d w.broker).1;
          count = 1;
          runs =
              rw (p, q, mark_published-found now max_retries backoff_seconds c w.events v h) refl;
          settled =
              sent d (outside.publish d w.broker).1 p
                (ap (λ r. (r, (outside.publish d w.broker).1)) q);
        }
        | inr (x, q) ↦
            let m = sanitize_error_message outside (outside.message x) in
            record {
              event = as_failed now max_retries backoff_seconds m c;
              broker = (outside.publish d w.broker).1;
              count = 0;
              runs =
                  rw (p, q, mark_failed-found now max_retries backoff_seconds m c w.events v h)
                    refl;
              settled =
                  refused d x (outside.publish d w.broker).1 p
                    (ap (λ r. (r, (outside.publish d w.broker).1)) q);
            }
      ]
    ]

    pub Settled-id :
        {c : OutboxEvent} {p : P} {f : OutboxEvent} {q : P} {n : ℕ}
        → Settled c p f q n
        → f.outbox_event_id ≡ c.outbox_event_id
    unfolding as_published as_failed
    Settled-id (sent d q r k) = refl
    Settled-id (unreadable x r) = refl
    Settled-id (refused d x q r k) = refl

    -- What becomes of the claimed events, one after the other.
    pub data SettledAll : List OutboxEvent → P → List OutboxEvent → P → ℕ → Type 0 where
      none_left : {p : P} → SettledAll [] p [] p 0
      one_more :
          {c f : OutboxEvent} {cs fs : List OutboxEvent} {p q r : P} {a b : ℕ}
          → Settled c p f q a
          → SettledAll cs q fs r b
          → SettledAll (c ∷ cs) p (f ∷ fs) r (a + b)

    pub SettledAll-skips :
        (i : ℕ) {cs fs : List OutboxEvent} {p q : P} {n : ℕ}
        → SettledAll cs p fs q n
        → All (λ c. is_id i c ≡ false) cs
        → All (λ f. is_id i f ≡ false) fs
    SettledAll-skips i none_left h = tt
    SettledAll-skips i (one_more s ss) (h, hs) =
        (ap (λ j. j == i) (Settled-id s) ∙ h, SettledAll-skips i ss hs)

    pub record Batch (cs : List OutboxEvent) (w : World P) : Type 0 where
      pub events : List OutboxEvent
      pub broker : P
      pub count : ℕ
      pub runs :
          dispatch_all outside max_retries backoff_seconds now cs w
          ≡ (ok count, record { events = put_all events w.events; broker = broker })
      pub settled : SettledAll cs w.broker events broker count

    still_found :
        (f : OutboxEvent) (s cs : List OutboxEvent)
        → All (λ c. is_id f.outbox_event_id c ≡ false) cs
        → All (λ c. find (is_id c.outbox_event_id) s ≡ some c) cs
        → All (λ c. find (is_id c.outbox_event_id) (put f s) ≡ some c) cs
    still_found f s [] h k = tt
    still_found f s (c ∷ cs) (h, hs) (k, ks) =
        let p : is_id c.outbox_event_id f ≡ false = ground (arith, h) in
        (find-put_other f c.outbox_event_id s p ∙ k, still_found f s cs hs ks)

    pub loop_over_events :
        (cs : List OutboxEvent) (w : World P)
        → IsDistinct cs
        → All IsValid cs
        → All (λ c. find (is_id c.outbox_event_id) w.events ≡ some c) cs
        → Batch cs w
    unfolding dispatch_all
    loop_over_events [] w d v h = record {
      events = [];
      broker = w.broker;
      count = 0;
      runs = refl;
      settled = none_left;
    }
    loop_over_events (c ∷ cs) w (d, ds) (v, vs) (h, hs) =
        let one = dispatch-Settled c w v h in
        let others : All (λ e. is_id one.event.outbox_event_id e ≡ false) cs =
          rw (Settled-id one.settled) d in
        let rest =
          loop_over_events cs (record { events = put one.event w.events; broker = one.broker }) ds
            vs (still_found one.event w.events cs others hs) in
        record {
          events = one.event ∷ rest.events;
          broker = rest.broker;
          count = one.count + rest.count;
          runs = rw (one.runs, rest.runs) refl;
          settled = one_more one.settled rest.settled;
        }
