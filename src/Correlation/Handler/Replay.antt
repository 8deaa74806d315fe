-- ===== src/Correlation/Handler/Replay.antt =====
-- CorrelateSecurityEventHandler.handle: totality, isolation, and the replay of an event.
use prefeitura_anti_hack.Prelude.{
  ℕ, ◌<◌, ◌≡◌, ◌∙◌, ◌⊎◌, refl, ap, arith, String, false, inl, inr, Option, none, some, List, [],
  All, All-filter, Option-cases, filter, any, one_of_length-le,
}
use prefeitura_anti_hack.Prelude.Python.{Exception, Result, ok, err, Result-cases}
use prefeitura_anti_hack.Prelude.Runtime.{Runtime}
use prefeitura_anti_hack.Event.{SecurityEvent, new_event}
use prefeitura_anti_hack.Correlation.Rules.{CorrelationRule, is_eligible}
use prefeitura_anti_hack.Correlation.Store.{Store, scalar_one_or_none, is_event, get_event_by_id}
use prefeitura_anti_hack.Correlation.Store.Saving.{IsConsistent}
use prefeitura_anti_hack.Correlation.Store.Growth.{Recorded}
use prefeitura_anti_hack.Correlation.Store.Tenants.{Grows-refl}
use prefeitura_anti_hack.Correlation.Handler.{CorrelationResultItem, handle, correlate_rules}
use prefeitura_anti_hack.Correlation.Handler.Steps.{Reached}
use prefeitura_anti_hack.Correlation.Handler.Loop.{
  SameTables, IsQuiet, RecordedAll, RecordedAll-keeps, correlate_rules-succeeds, run_again,
  run_none,
}

-- Every stored event passes its constructor, which runs again when the event is read.
abbrev pub IsReadable : Runtime → (String → String) → Store → Type 0
IsReadable rt redact s =
    All (λ (e : SecurityEvent). (f : SecurityEvent) × (new_event rt redact e ≡ ok f)) s.events

module _ (rt : Runtime) (redact : String → String) (event_id tenant : ℕ) where
  -- what the lookup of the event returns
  abbrev pub lookup : Store → Result (Option SecurityEvent)
  lookup s = (get_event_by_id rt redact event_id tenant s).0

  pub lookup-eq :
      (s : Store) (r : Result (Option SecurityEvent))
      → lookup s ≡ r
      → get_event_by_id rt redact event_id tenant s ≡ (r, s)
  unfolding get_event_by_id
  lookup-eq s r h =
      elim (Result-cases (scalar_one_or_none (filter (is_event event_id tenant) s.events))) [
        | inl (o, e) ↦ ground (arith, e, h)
        | inr (x, e) ↦ ground (arith, e, h)
      ]

  pub lookup_of_events : (s u : Store) → u.events ≡ s.events → lookup u ≡ lookup s
  unfolding get_event_by_id
  lookup_of_events s u h =
      let same = ap (filter (is_event event_id tenant)) h in
      elim (Result-cases (scalar_one_or_none (filter (is_event event_id tenant) s.events))) [
        | inl (o, e) ↦ ground (arith, same, e)
        | inr (x, e) ↦ ground (arith, same, e)
      ]

  readable_lookup :
      {owner : ℕ → ℕ} (s : Store)
      → IsConsistent owner s
      → IsReadable rt redact s
      → (o : Option SecurityEvent) × (lookup s ≡ ok o)
  unfolding get_event_by_id
  readable_lookup s c h =
      elim (one_of_length-le (filter (is_event event_id tenant) s.events)
        (c.event_once event_id tenant)) [
          | inl n ↦ (none, ground (arith, n))
          | inr (e, n) ↦
              let reads = rw n at (All-filter _ (is_event event_id tenant) s.events h) in
              let (f, q) = reads.0 in (some f, ground (arith, n, q))
        ]

module _ (rt : Runtime) (redact : String → String) (window : ℕ) (rules : List CorrelationRule)
    (tenant event_id : ℕ) where
  pub handle-failed :
      (s : Store) (x : Exception)
      → lookup rt redact event_id tenant s ≡ err x
      → handle rt redact window rules tenant event_id s ≡ (err x, s)
  unfolding handle
  handle-failed s x h = rw (lookup-eq rt redact event_id tenant s (err x) h) refl

  pub handle-none :
      (s : Store)
      → lookup rt redact event_id tenant s ≡ ok none
      → handle rt redact window rules tenant event_id s ≡ (ok [], s)
  unfolding handle
  handle-none s h = rw (lookup-eq rt redact event_id tenant s (ok none) h) refl

  pub handle-some :
      (s : Store) (e : SecurityEvent)
      → lookup rt redact event_id tenant s ≡ ok (some e)
      → handle rt redact window rules tenant event_id s
        ≡ correlate_rules rt redact window tenant event_id e rules s
  unfolding handle
  handle-some s e h = rw (lookup-eq rt redact event_id tenant s (ok (some e)) h) refl

  -- A run of the handler: it returns, the constraints hold afterwards, only rows of the tenant have
  -- been added and what is recorded in open incidents stays, and the event that was read is
  -- recorded in one open incident of the key of every rule that it is eligible for.
  pub record Handled (s : Store) : Type 0 where
    pub items : List CorrelationResultItem
    pub after : Store
    pub runs : handle rt redact window rules tenant event_id s ≡ (ok items, after)
    pub reached : Reached tenant s after
    pub recorded :
        (e : SecurityEvent)
        → lookup rt redact event_id tenant s ≡ ok (some e)
        → RecordedAll rt redact window tenant event_id e rules after

  -- the handler raises where the lookup of the event does, and nowhere else
  pub handle-cases :
      0 < window
      → {owner : ℕ → ℕ} (s : Store) → IsConsistent owner s
      → ((x : Exception) × (handle rt redact window rules tenant event_id s ≡ (err x, s))
          × (lookup rt redact event_id tenant s ≡ err x))
        ⊎ Handled s
  handle-cases positive {owner} s c = elim (Result-cases (lookup rt redact event_id tenant s)) [
    | inr (x, h) ↦ inl (x, handle-failed s x h, h)
    | inl (o, h) ↦ elim (Option-cases o) [
      | inl n ↦ inr (record {
        items = [];
        after = s;
        runs = handle-none s (ground (arith, h, n));
        reached = record { owner = owner; consistent = c; grown = Grows-refl s };
        recorded = λ e q. absurd (ground (arith, h, n, q));
      })
      | inr (e, n) ↦
          let k = correlate_rules-succeeds rt redact window tenant event_id e positive rules s c in
          let found : lookup rt redact event_id tenant s ≡ ok (some e) = ground (arith, h, n) in
          inr (record {
            items = k.items;
            after = k.after;
            runs = handle-some s e found ∙ k.runs;
            reached = k.reached;
            recorded = λ f g. let q : f ≡ e = ground (arith, found, g) in rw q k.recorded;
          })
    ]
  ]

  -- With a window that is not 0, on a store that keeps the constraints of the database and whose
  -- events pass their constructor, the handler never raises, whatever the rules and the event. The
  -- store that it leaves keeps the constraints too; the rows of every other tenant are as they
  -- were, and an event that is recorded in an open incident stays recorded there; and if the event
  -- is found, it has its evidence in the one open incident of the key of each rule that it is
  -- eligible for.
  pub handle-reaches :
      0 < window
      → {owner : ℕ → ℕ} (s : Store) → IsConsistent owner s
      → IsReadable rt redact s
      → Handled s
  handle-reaches positive s c readable =
      let (o, h) = readable_lookup rt redact event_id tenant s c readable in
      elim (handle-cases positive s c) [ inl (x, q, e) ↦ absurd (ground (arith, h, e)) | inr k ↦ k ]

  -- A run that stores nothing and reports nothing new.
  pub record Replayed (s : Store) : Type 0 where
    pub items : List CorrelationResultItem
    pub after : Store
    pub runs : handle rt redact window rules tenant event_id s ≡ (ok items, after)
    pub same : SameTables s after
    pub quiet : All IsQuiet items

  -- A run on a store that has the events and the records that an earlier run left.
  pub replay_on :
      0 < window
      → (s : Store) (k : Handled s) (u : Store) → u.events ≡ s.events
      → ((t : ℕ) (h : String) (e : ℕ) → Recorded t h e k.after → Recorded t h e u)
      → Replayed u
  replay_on positive s k u same_events keeps =
      let same_lookup = lookup_of_events rt redact event_id tenant s u same_events in
      elim (Result-cases (lookup rt redact event_id tenant s)) [
        | inr (x, h) ↦ absurd (let q = handle-failed s x h in ground (arith, q, k.runs))
        | inl (o, h) ↦ elim (Option-cases o) [
          | inl n ↦ record {
            items = [];
            after = u;
            runs = handle-none u (ground (arith, same_lookup, h, n));
            same = record {
              events = refl;
              incidents = refl;
              evidences = refl;
              history = refl;
              logs = refl;
            };
            quiet = tt;
          }
          | inr (e, n) ↦
              let found : lookup rt redact event_id tenant s ≡ ok (some e) = ground (arith, h, n) in
              let kept =
                RecordedAll-keeps rt redact window tenant event_id e rules k.after u keeps
                  (k.recorded e found) in
              let j = run_again rt redact window tenant event_id e positive rules u kept in
              record {
                items = j.items;
                after = j.after;
                runs = handle-some u e (same_lookup ∙ found) ∙ j.runs;
                same = j.same;
                quiet = j.quiet;
              }
        ]
      ]

  -- For an event that is not stored under the tenant, and for one that no rule is eligible for, the
  -- handler returns an empty result and leaves the store exactly as it was.
  pub handle-ignores :
      (s : Store)
      → (lookup rt redact event_id tenant s ≡ ok none)
        ⊎ ((e : SecurityEvent) × (lookup rt redact event_id tenant s ≡ ok (some e))
            × (any (λ r. is_eligible rt r e) rules ≡ false))
      → handle rt redact window rules tenant event_id s ≡ (ok [], s)
  handle-ignores s (inl n) = handle-none s n
  handle-ignores s (inr (e, h, n)) =
      handle-some s e h ∙ run_none rt redact window tenant event_id e rules s n
