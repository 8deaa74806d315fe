-- ===== src/Correlation/Handler/Zero.antt =====
-- The handler with a window of 0 seconds: the first rule that the event is eligible for raises.
use prefeitura_anti_hack.Prelude.{
  ℕ, ◌≡◌, refl, ◌∙◌, arith, inl, inr, String, some, List, [], ◌∷◌, any, Bool-cases, Option-cases,
  if◌then◌else◌,
}
use prefeitura_anti_hack.Prelude.Python.{Result, ok, err, zero_division_error, Result-cases}
use prefeitura_anti_hack.Prelude.Runtime.{Runtime}
use prefeitura_anti_hack.Event.{SecurityEvent}
use prefeitura_anti_hack.Correlation.Key.{compute_time_bucket}
use prefeitura_anti_hack.Correlation.Rules.{CorrelationRule, is_eligible}
use prefeitura_anti_hack.Correlation.Store.{Store}
use prefeitura_anti_hack.Correlation.Handler.{
  CorrelationResultItem, build_correlation_key, correlate, correlate_rules, handle,
}
use prefeitura_anti_hack.Correlation.Handler.Replay.{
  Replayed, lookup, lookup_of_events, handle-failed, handle-none, handle-some,
}

module _ (rt : Runtime) (redact : String → String) (tenant event_id : ℕ) where
  correlate_zero :
      (r : CorrelationRule) (e : SecurityEvent) (s : Store)
      → correlate rt redact 0 tenant event_id r e s ≡ (err zero_division_error, s)
  unfolding correlate build_correlation_key compute_time_bucket
  correlate_zero r e s = refl

  abbrev outcome : List CorrelationRule → SecurityEvent → Result (List CorrelationResultItem)
  outcome rs e = if any (λ r. is_eligible rt r e) rs then err zero_division_error else ok []

  rules_zero :
      (e : SecurityEvent) (rs : List CorrelationRule) (s : Store)
      → correlate_rules rt redact 0 tenant event_id e rs s ≡ (outcome rs e, s)
  unfolding correlate_rules
  rules_zero e [] s = refl
  rules_zero e (r ∷ rs) s = ground (arith, correlate_zero r e s, rules_zero e rs s)

  -- a run writes nothing
  pub handle_zero-keeps :
      (rules : List CorrelationRule) (s : Store)
      → (handle rt redact 0 rules tenant event_id s).1 ≡ s
  handle_zero-keeps rules s = elim (Result-cases (lookup rt redact event_id tenant s)) [
    | inr (x, h) ↦ rw (handle-failed rt redact 0 rules tenant event_id s x h) refl
    | inl (o, h) ↦ elim (Option-cases o) [
      | inl n ↦ rw (handle-none rt redact 0 rules tenant event_id s (ground (arith, h, n))) refl
      | inr (e, n) ↦
          let found : lookup rt redact event_id tenant s ≡ ok (some e) = ground (arith, h, n) in
          rw (handle-some rt redact 0 rules tenant event_id s e found, rules_zero e rules s) refl
    ]
  ]

  idle :
      (rules : List CorrelationRule) (u : Store)
      → handle rt redact 0 rules tenant event_id u ≡ (ok [], u)
      → Replayed rt redact 0 rules tenant event_id u
  idle rules u q = record {
    items = [];
    after = u;
    runs = q;
    same = record {
      events = refl;
      incidents = refl;
      evidences = refl;
      history = refl;
      logs = refl;
    };
    quiet = tt;
  }

  -- a run that returns has done nothing, and neither does the next one
  pub handle_zero-replay :
      (rules : List CorrelationRule) (items : List CorrelationResultItem) (s s' u : Store)
      → u.events ≡ s.events
      → handle rt redact 0 rules tenant event_id s ≡ (ok items, s')
      → Replayed rt redact 0 rules tenant event_id u
  handle_zero-replay rules items s s' u events ran =
      let same_lookup = lookup_of_events rt redact event_id tenant s u events in
      elim (Result-cases (lookup rt redact event_id tenant s)) [
        | inr (x, h) ↦ absurd (
            let q = handle-failed rt redact 0 rules tenant event_id s x h in ground (arith, q, ran))
        | inl (o, h) ↦ elim (Option-cases o) [
          | inl n ↦
              idle rules u (
                handle-none rt redact 0 rules tenant event_id u (ground (arith, same_lookup, h, n)))
          | inr (e, n) ↦
              let found : lookup rt redact event_id tenant s ≡ ok (some e) = ground (arith, h, n) in
              let first = handle-some rt redact 0 rules tenant event_id s e found in
              let again = handle-some rt redact 0 rules tenant event_id u e (same_lookup ∙ found) in
              elim (Bool-cases (any (λ r. is_eligible rt r e) rules)) [
                | inl b ↦ absurd (ground (arith, first, rules_zero e rules s, b, ran))
                | inr b ↦ idle rules u (ground (arith, again, rules_zero e rules u, b))
              ]
        ]
      ]
