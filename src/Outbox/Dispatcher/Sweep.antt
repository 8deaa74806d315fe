-- ===== src/Outbox/Dispatcher/Sweep.antt =====
-- What a batch does to every event of the table, and to the broker.
use prefeitura_anti_hack.Prelude.{
  ℕ, zero, suc, ◌+◌, ◌≡◌, refl, inl, inr, false, true, List, [], ◌∷◌, All, Bool-cases, arith,
}
use mathlib.Core.Path.{subst}
use prefeitura_anti_hack.Prelude.Int.{ℤ}
use prefeitura_anti_hack.Prelude.Python.{ok}
use prefeitura_anti_hack.Outbox.{OutboxEvent, is_id, put, can_claim, claimed}
use prefeitura_anti_hack.Outbox.Claims.{
  IsValid, IsDistinct, put_all, put_all-skips, selection, selection-skips, claim_first,
  fetch_pending_and_claim-exact,
}
use prefeitura_anti_hack.Outbox.Selection.{selection-IsDistinct, selection-IsValid, selection_found}
use prefeitura_anti_hack.Outbox.Message.{Outside}
use prefeitura_anti_hack.Outbox.Dispatcher.{World, process_outbox_batch}
use prefeitura_anti_hack.Outbox.Dispatcher.Settling.{
  Settled, SettledAll, none_left, one_more, SettledAll-skips, Settled-id, loop_over_events,
}

module _ {P : Type 0} (outside : Outside P) (now : ℤ)
    (max_retries backoff_seconds lease_seconds : ℕ) where
  -- What a batch makes of the table and of the broker, while it may still claim `n` events: it goes
  -- through the table in its order, leaves what cannot be claimed, and claims and settles the rest;
  -- the last number counts what was published.
  pub data Swept : ℕ → List OutboxEvent → P → List OutboxEvent → P → ℕ → Type 0 where
    at_limit : {es : List OutboxEvent} {p : P} → Swept 0 es p es p 0
    at_end : {n : ℕ} {p : P} → Swept (suc n) [] p [] p 0
    left_alone :
        {n k : ℕ} {e : OutboxEvent} {es fs : List OutboxEvent} {p q : P}
        → can_claim now e ≡ false
        → Swept (suc n) es p fs q k
        → Swept (suc n) (e ∷ es) p (e ∷ fs) q k
    handled :
        {n a b : ℕ} {e f : OutboxEvent} {es fs : List OutboxEvent} {p q r : P}
        → can_claim now e ≡ true
        → Settled now max_retries backoff_seconds outside (claimed now lease_seconds e) p f q a
        → Swept n es q fs r b
        → Swept (suc n) (e ∷ es) p (f ∷ fs) r (a + b)

  abbrev Settles : List OutboxEvent → P → List OutboxEvent → P → ℕ → Type 0
  Settles = SettledAll now max_retries backoff_seconds outside

  put_first :
      (c f : OutboxEvent) (s : List OutboxEvent)
      → f.outbox_event_id ≡ c.outbox_event_id
      → put f (c ∷ s) ≡ f ∷ s
  put_first c f s h = let p : is_id f.outbox_event_id c ≡ true = ground (arith, h) in rw p refl

  -- A claimed event at the head of the table, and the events below it that are settled after it.
  sweep_claimed :
      {n k : ℕ} {e : OutboxEvent} {es : List OutboxEvent} {p q : P} (cs us : List OutboxEvent)
      → can_claim now e ≡ true
      → All (λ f. is_id e.outbox_event_id f ≡ false) cs
      → Settles (claimed now lease_seconds e ∷ cs) p us q k
      → ((fs : List OutboxEvent) (r : P) (b : ℕ)
          → Settles cs r fs q b
          → Swept n es r (put_all fs (claim_first now lease_seconds n es)) q b)
      → Swept
          (suc n)
          (e ∷ es)
          p
          (put_all us (claimed now lease_seconds e ∷ claim_first now lease_seconds n es))
          q
          k
  unfolding claimed
  sweep_claimed cs [] c d x rest = elim x [ ]
  sweep_claimed {n} {k} {e} {es} cs (f ∷ fs) c d (one_more s ss) rest =
      let below = claim_first now lease_seconds n es in
      let same = Settled-id now max_retries backoff_seconds outside s in
      let apart : All (λ u. is_id f.outbox_event_id u ≡ false) fs =
        SettledAll-skips now max_retries backoff_seconds outside f.outbox_event_id ss (rw same d) in
      rw (put_first (claimed now lease_seconds e) f below same, put_all-skips fs f below apart)
        (handled c s (rest fs _ _ ss))

  sweep :
      (n : ℕ) (es us : List OutboxEvent) {p q : P} {k : ℕ}
      → IsDistinct es
      → Settles (selection now lease_seconds n es) p us q k
      → Swept n es p (put_all us (claim_first now lease_seconds n es)) q k
  sweep zero es us d none_left = at_limit
  sweep (suc n) [] us d none_left = at_end
  sweep (suc n) (e ∷ es) us {p} {q} {k} (d, ds) h = elim (Bool-cases (can_claim now e)) [
    | inl c ↦
        let same : selection now lease_seconds (suc n) (e ∷ es)
            ≡ claimed now lease_seconds e ∷ selection now lease_seconds n es =
          rw c refl in
        rw c (
          sweep_claimed (selection now lease_seconds n es) us c
            (selection-skips now lease_seconds n e.outbox_event_id es d)
            (subst (λ l. Settles l p us q k) same h) (λ fs r b ss. sweep n es fs ds ss))
    | inr c ↦
        let same : selection now lease_seconds (suc n) (e ∷ es)
            ≡ selection now lease_seconds (suc n) es =
          rw c refl in
        let h' : Settles (selection now lease_seconds (suc n) es) p us q k =
          subst (λ l. Settles l p us q k) same h in
        let apart : All (λ u. is_id e.outbox_event_id u ≡ false) us =
          SettledAll-skips now max_retries backoff_seconds outside e.outbox_event_id h'
            (selection-skips now lease_seconds (suc n) e.outbox_event_id es d) in
        rw (c, put_all-skips us e (claim_first now lease_seconds (suc n) es) apart)
          (left_alone c (sweep (suc n) es us ds h'))
  ]

  -- What a batch returns, and the world that it leaves.
  pub record Processed (batch_size : ℕ) (w : World P) : Type 0 where
    pub count : ℕ
    pub after : World P
    pub runs :
        process_outbox_batch outside max_retries backoff_seconds now batch_size lease_seconds w
        ≡ (ok count, after)
    pub swept : Swept batch_size w.events w.broker after.events after.broker count

  -- On a table of valid events with distinct identifiers a batch never raises, whatever the
  -- payloads and the publisher do. In the order of the table, up to the batch size, every event
  -- that can be claimed is either stored as published after the publisher has taken its message, or
  -- stored as failed because its payload is not readable or the publisher has raised; every other
  -- event stays as it was; and the number returned counts the published ones.
  pub process_outbox_batch-Swept :
      (batch_size : ℕ) (w : World P)
      → IsDistinct w.events
      → All IsValid w.events
      → Processed batch_size w
  unfolding process_outbox_batch
  process_outbox_batch-Swept batch_size w d v =
      let (fetched, le) = fetch_pending_and_claim-exact now lease_seconds batch_size w.events d v in
      let claimed_events = selection now lease_seconds batch_size w.events in
      let between : World P = record {
        events = claim_first now lease_seconds batch_size w.events;
        broker = w.broker;
      } in
      let b =
        loop_over_events now max_retries backoff_seconds outside claimed_events between
          (selection-IsDistinct now lease_seconds batch_size w.events d)
          (selection-IsValid now lease_seconds batch_size w.events v)
          (selection_found now lease_seconds batch_size w.events d) in
      record {
        count = b.count;
        after = record { events = put_all b.events between.events; broker = b.broker };
        runs = rw (fetched, b.runs) refl;
        swept = sweep batch_size w.events b.events d b.settled;
      }
