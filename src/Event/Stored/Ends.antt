-- ===== src/Event/Stored/Ends.antt =====
-- What a save leaves in the table of events, whatever the table holds.
use prefeitura_anti_hack.Prelude.{
  ℕ, ◌≡◌, refl, String, Bool, true, false, Option, none, some, List, [], ◌∷◌, ◌++◌, arith, inl, inr,
  append_nil, Option-cases, Bool-cases,
}
use prefeitura_anti_hack.Prelude.Python.{Exception, Result, ok, err, Result-cases}
use prefeitura_anti_hack.Prelude.Runtime.{Runtime}
use prefeitura_anti_hack.Event.{SecurityEvent, new_event}
use prefeitura_anti_hack.Event.Laws.{new_event-IsNormalized}
use prefeitura_anti_hack.Event.Stored.{
  select_by_key, save_event, insert_event, flush_new, refusal, is_integrity_error,
}

module _ (rt : Runtime) (redact : String → String) where
  -- what the save of an event leaves in the table, where it does not raise
  abbrev pub SaveEnds :
      List SecurityEvent → Result (SecurityEvent × Bool) × List SecurityEvent → Type 0
  SaveEnds rows (err x, after) = Unit
  SaveEnds rows (ok (x, false), after) = after ≡ rows
  SaveEnds rows (ok (x, true), after) =
      (e : SecurityEvent) × (after ≡ rows ++ e ∷ [])
      × (x.event_id ≡ e.event_id)
      × (x.tenant_id ≡ e.tenant_id)

  select_by_key-rows :
      (t : ℕ) (s k : String) (rows : List SecurityEvent)
      → (select_by_key rt redact t s k rows).1 ≡ rows
  unfolding select_by_key
  select_by_key-rows t s k rows = ground arith

  flush_new-SaveEnds :
      (e : SecurityEvent) (rows : List SecurityEvent) (o : Option Exception)
      → SaveEnds rows (flush_new rt redact e o rows)
  unfolding flush_new
  flush_new-SaveEnds e rows none = elim (Result-cases (new_event rt redact e)) [
    | inr (x, p) ↦ rw p tt
    | inl (f, p) ↦
        let same = (new_event-IsNormalized rt redact e f p).1 in
        rw p (e, refl, same.same_event, same.same_tenant)
  ]
  flush_new-SaveEnds e rows (some x) = elim (Bool-cases (is_integrity_error x)) [
    | inr p ↦ rw p tt
    | inl p ↦
        rw p
          (elim (Result-cases
            (select_by_key rt redact e.tenant_id e.source e.idempotency_key rows).0) [
              | inr (y, q) ↦ rw q tt
              | inl (o, q) ↦ rw q (elim (Option-cases o) [
                | inl n ↦ rw n tt
                | inr (f, n) ↦ rw n (select_by_key-rows e.tenant_id e.source e.idempotency_key rows)
              ])
            ])
  ]

  -- Without other transactions a save that does not raise either leaves the table as it was or adds
  -- one row, which has the identifier and the tenant of the event that it returns.
  pub save_event-SaveEnds :
      (e : SecurityEvent) (rows : List SecurityEvent)
      → SaveEnds rows (save_event rt redact [] e rows)
  unfolding save_event insert_event
  save_event-SaveEnds e rows =
      elim (Result-cases (select_by_key rt redact e.tenant_id e.source e.idempotency_key rows).0) [
        | inr (y, q) ↦ rw q tt
        | inl (o, q) ↦
            rw (q, select_by_key-rows e.tenant_id e.source e.idempotency_key rows)
              (elim (Option-cases o) [
                | inl n ↦ rw (n, append_nil rows) (flush_new-SaveEnds e rows (refusal e rows))
                | inr (f, n) ↦ rw n refl
              ])
      ]
