-- ===== src/Correlation/Handler/Loop.antt =====
-- The loop over the rules: a run, and a run on a store that has it recorded already.
use prefeitura_anti_hack.Prelude.{
  ℕ, ◌<◌, ◌≡◌, ◌∙◌, refl, String, true, false, inl, inr, some, List, [], ◌∷◌, All, arith,
  Bool-cases, any,
}
use prefeitura_anti_hack.Prelude.Python.{ok}
use prefeitura_anti_hack.Prelude.Runtime.{Runtime}
use prefeitura_anti_hack.Event.{SecurityEvent}
use prefeitura_anti_hack.Correlation.Rules.{CorrelationRule, is_eligible}
use prefeitura_anti_hack.Correlation.Store.{Store, to_entity}
use prefeitura_anti_hack.Correlation.Store.Saving.{IsConsistent, find_open-some}
use prefeitura_anti_hack.Correlation.Store.Growth.{Recorded, with_id}
use prefeitura_anti_hack.Correlation.Store.Tenants.{Grows, Grows-with_id, Grows-refl, Grows-trans}
use prefeitura_anti_hack.Correlation.Handler.{CorrelationResultItem, correlate, correlate_rules}
use prefeitura_anti_hack.Correlation.Handler.Runs.{key_hash, link_evidence-again}
use prefeitura_anti_hack.Correlation.Handler.Steps.{
  Reached, correlated, correlate-eq, found-existing, item_of,
}

-- Two stores hold the same rows; identifiers may have been drawn in between.
pub record SameTables (s s' : Store) : Type 0 where
  pub events : s'.events ≡ s.events
  pub incidents : s'.incidents ≡ s.incidents
  pub evidences : s'.evidences ≡ s.evidences
  pub history : s'.history ≡ s.history
  pub logs : s'.logs ≡ s.logs

pub SameTables-trans : (a b c : Store) → SameTables a b → SameTables b c → SameTables a c
SameTables-trans a b c g h = record {
  events = h.events ∙ g.events;
  incidents = h.incidents ∙ g.incidents;
  evidences = h.evidences ∙ g.evidences;
  history = h.history ∙ g.history;
  logs = h.logs ∙ g.logs;
}

-- Nothing new in a result.
abbrev pub IsQuiet : CorrelationResultItem → Type 0
IsQuiet item = (item.is_new_incident ≡ false) × (item.is_new_evidence ≡ false)

module _ (rt : Runtime) (redact : String → String) (window tenant event_id : ℕ)
    (e : SecurityEvent) where
  -- The event is recorded under the key of every rule that it is eligible for.
  abbrev pub RecordedAll : List CorrelationRule → Store → Type 0
  RecordedAll [] s = Unit
  RecordedAll (r ∷ rs) s =
      (is_eligible rt r e ≡ true
        → Recorded tenant (key_hash rt redact window tenant event_id r e) event_id s)
      × RecordedAll rs s

  pub RecordedAll-keeps :
      (rs : List CorrelationRule) (s s' : Store)
      → ((t : ℕ) (h : String) (i : ℕ) → Recorded t h i s → Recorded t h i s')
      → RecordedAll rs s
      → RecordedAll rs s'
  RecordedAll-keeps [] s s' g h = tt
  RecordedAll-keeps (r ∷ rs) s s' g h = (λ p. g _ _ _ (h.0 p), RecordedAll-keeps rs s s' g h.1)

  RecordedAll-Grows :
      (rs : List CorrelationRule) (s s' : Store)
      → Grows tenant s s'
      → RecordedAll rs s
      → RecordedAll rs s'
  RecordedAll-Grows rs s s' g h = RecordedAll-keeps rs s s' g.keeps h

  -- A run of the loop.
  pub record Run (rs : List CorrelationRule) (s : Store) : Type 0 where
    pub items : List CorrelationResultItem
    pub after : Store
    pub runs : correlate_rules rt redact window tenant event_id e rs s ≡ (ok items, after)
    pub reached : Reached tenant s after
    pub recorded : RecordedAll rs after

  pub correlate_rules-succeeds :
      0 < window
      → (rs : List CorrelationRule) (s : Store) {owner : ℕ → ℕ} → IsConsistent owner s
      → Run rs s
  unfolding correlate_rules
  correlate_rules-succeeds positive [] s {owner} c = record {
    items = [];
    after = s;
    runs = refl;
    reached = record { owner = owner; consistent = c; grown = Grows-refl s };
    recorded = tt;
  }
  correlate_rules-succeeds positive (r ∷ rs) s {owner} c = elim (Bool-cases (is_eligible rt r e)) [
    | inr p ↦
        let k = correlate_rules-succeeds positive rs s c in
        record {
          items = k.items;
          after = k.after;
          runs = rw p k.runs;
          reached = k.reached;
          recorded = (λ q. absurd (ground (arith, p, q)), k.recorded);
        }
    | inl p ↦
        let j = correlated rt redact window tenant event_id e positive r s c in
        let k = correlate_rules-succeeds positive rs j.after j.reached.consistent in
        record {
          items = j.item ∷ k.items;
          after = k.after;
          runs = rw (p, j.runs, k.runs);
          reached = record {
            owner = k.reached.owner;
            consistent = k.reached.consistent;
            grown = Grows-trans s j.after k.after j.reached.grown k.reached.grown;
          };
          recorded = (λ q. k.reached.grown.keeps _ _ _ j.recorded, k.recorded);
        }
  ]

  replayed :
      0 < window
      → (r : CorrelationRule) (s : Store)
      → (h : Recorded tenant (key_hash rt redact window tenant event_id r e) event_id s)
      → correlate rt redact window tenant event_id r e s ≡ (
        ok (item_of rt redact window tenant event_id e r (to_entity h.row) false false),
        with_id s,
      )
  replayed positive r s h =
      let k : String = key_hash rt redact window tenant event_id r e in
      correlate-eq rt redact window tenant event_id e positive r s s (with_id s)
        (some (to_entity h.row)) (to_entity h.row) false false
        (find_open-some tenant k s h.row h.opened)
        (found-existing rt redact window tenant event_id e r s (to_entity h.row))
        (link_evidence-again rt redact window tenant event_id r e s (to_entity h.row) h.proof
          h.linked)

  -- A run that finds everything recorded.
  pub record QuietRun (rs : List CorrelationRule) (s : Store) : Type 0 where
    pub items : List CorrelationResultItem
    pub after : Store
    pub runs : correlate_rules rt redact window tenant event_id e rs s ≡ (ok items, after)
    pub same : SameTables s after
    pub quiet : All IsQuiet items

  pub run_again :
      0 < window → (rs : List CorrelationRule) (s : Store) → RecordedAll rs s → QuietRun rs s
  unfolding correlate_rules
  run_again positive [] s h = record {
    items = [];
    after = s;
    runs = refl;
    same = record {
      events = refl;
      incidents = refl;
      evidences = refl;
      history = refl;
      logs = refl;
    };
    quiet = tt;
  }
  run_again positive (r ∷ rs) s h = elim (Bool-cases (is_eligible rt r e)) [
    | inr p ↦
        let k = run_again positive rs s h.1 in
        record {
          items = k.items;
          after = k.after;
          runs = rw p k.runs;
          same = k.same;
          quiet = k.quiet;
        }
    | inl p ↦
        let k =
          run_again positive rs (with_id s)
            (RecordedAll-Grows rs s (with_id s) (Grows-with_id s) h.1) in
        record {
          items =
              item_of rt redact window tenant event_id e r (to_entity (h.0 p).row) false false
              ∷ k.items;
          after = k.after;
          runs = rw (p, replayed positive r s (h.0 p), k.runs);
          same =
              SameTables-trans s (with_id s) k.after
                (record {
                  events = refl;
                  incidents = refl;
                  evidences = refl;
                  history = refl;
                  logs = refl;
                })
                k.same;
          quiet = ((refl, refl), k.quiet);
        }
  ]

  -- Where no rule is eligible, the loop does nothing.
  pub run_none :
      (rs : List CorrelationRule) (s : Store)
      → any (λ r. is_eligible rt r e) rs ≡ false
      → correlate_rules rt redact window tenant event_id e rs s ≡ (ok [], s)
  unfolding correlate_rules
  run_none [] s h = refl
  run_none (r ∷ rs) s h = ground (arith, run_none rs s)
