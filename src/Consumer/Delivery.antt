-- ===== src/Consumer/Delivery.antt =====
-- What the delivery of a message does.
use prefeitura_anti_hack.Prelude.{
  ℕ, ◌<◌, ◌≡◌, refl, inl, inr, String, Bool, true, false, Option, List, [], All, filter-nil_of_All,
  Bool-cases, Option-cases, arith,
}
use prefeitura_anti_hack.Prelude.Python.{ok, Result-cases}
use prefeitura_anti_hack.Prelude.Runtime.{Runtime}
use prefeitura_anti_hack.Correlation.Rules.{CorrelationRule}
use prefeitura_anti_hack.Correlation.Store.{Store}
use prefeitura_anti_hack.Correlation.Store.Saving.{IsConsistent}
use prefeitura_anti_hack.Correlation.Handler.{handle}
use prefeitura_anti_hack.Correlation.Handler.Loop.{SameTables}
use prefeitura_anti_hack.Correlation.Handler.Replay.{Handled, IsReadable, handle-reaches}
use prefeitura_anti_hack.Correlation.Handler.Redelivery.{Later, handle-replay}
use prefeitura_anti_hack.Consumer.Given.{
  Names, target-Names, Names-target, Given, active_rules-Given,
}
use prefeitura_anti_hack.Consumer.{
  RuleVersion, MessageValue, active_rules, target, process_single_message,
}

-- When every rule of the catalogue is inactive, a message is given to all rules, as with an empty
-- catalogue.
pub active_rules_of_inactive :
    (in_order : List RuleVersion → List RuleVersion)
    → (in_order [] ≡ [])
    → (catalogue : List RuleVersion) (rules : List CorrelationRule)
    → All (λ r. r.is_active ≡ false) catalogue
    → active_rules in_order catalogue rules ≡ rules
unfolding active_rules
active_rules_of_inactive in_order of_none catalogue rules h =
    rw (filter-nil_of_All (λ r. r.is_active) catalogue h, of_none) refl

unchanged : (s : Store) → SameTables s s
unchanged s = record {
  events = refl;
  incidents = refl;
  evidences = refl;
  history = refl;
  logs = refl;
}

module _ (rt : Runtime) (redact : String → String) (window : ℕ) (parse : String → Option ℕ)
    (rules : List CorrelationRule) (in_order : List RuleVersion → List RuleVersion)
    (catalogue : List RuleVersion) (commits : Store → Bool) where
  -- The outcome of one delivery.
  pub data Delivered (msg : MessageValue) (s : Store) : Bool → Store → Type 0 where
    ignored : ((tenant event_id : ℕ) → ¬ Names parse msg tenant event_id) → Delivered msg s true s
    stored :
        (tenant event_id : ℕ) (given : List CorrelationRule)
        → Names parse msg tenant event_id
        → Given in_order catalogue rules given
        → (k : Handled rt redact window given tenant event_id s) → commits k.after ≡ true
        → Delivered msg s true k.after
    rolled_back :
        (tenant event_id : ℕ) (given : List CorrelationRule)
        → Names parse msg tenant event_id
        → Given in_order catalogue rules given
        → (k : Handled rt redact window given tenant event_id s) → commits k.after ≡ false
        → Delivered msg s false s

  -- With a window that is not 0, from a consistent store whose events pass their constructor, a
  -- delivery has exactly these outcomes. A message that names no event is acknowledged and changes
  -- nothing: an event is named by a message of the kind "SecurityEventReceivedEvent" with the UUIDs
  -- of a tenant and of the event. Otherwise the event is correlated under every rule, or, if any of
  -- the first hundred active entries of the catalogue is there, under the rules that these list in
  -- their version; the message is acknowledged with all of it stored if the database commits, and
  -- not acknowledged with the store as it was if it does not.
  pub process_single_message-Delivered :
      0 < window
      → {owner : ℕ → ℕ} (msg : MessageValue) (s : Store) → IsConsistent owner s
      → IsReadable rt redact s
      → Delivered msg s
          (process_single_message rt redact window parse rules in_order catalogue commits msg s).0
          (process_single_message rt redact window parse rules in_order catalogue commits msg s).1
  unfolding process_single_message
  process_single_message-Delivered positive msg s c readable =
      elim (Option-cases (target parse msg)) [
        | inl t ↦ rw t (
            ignored (λ tenant event_id n.
              absurd (let q = Names-target parse msg tenant event_id n in ground (arith, t, q))))
        | inr ((tenant, event_id), t) ↦
            let active = active_rules in_order catalogue rules in
            let given = active_rules-Given in_order catalogue rules in
            let named = target-Names parse msg tenant event_id t in
            let k = handle-reaches rt redact window active tenant event_id positive s c readable in
            elim (Bool-cases (commits k.after)) [
              | inl b ↦ rw (t, k.runs, b) (stored tenant event_id active named given k b)
              | inr b ↦ rw (t, k.runs, b) (rolled_back tenant event_id active named given k b)
            ]
      ]

  -- When a message that was acknowledged from a consistent store is delivered again, with the same
  -- rules and catalogue, after any time and any runs of the handler for events that are stored
  -- already, it changes no table.
  pub process_single_message-redelivers :
      {owner : ℕ → ℕ} (msg : MessageValue) (s : Store)
      → IsConsistent owner s
      → (process_single_message rt redact window parse rules in_order catalogue commits msg s).0
        ≡ true
      → (u : Store)
      → Later rt redact window
          (process_single_message rt redact window parse rules in_order catalogue commits msg s).1
          u
      → SameTables u
          (process_single_message rt redact window parse rules in_order catalogue commits msg u).1
  unfolding process_single_message
  process_single_message-redelivers msg s c h u l = elim (Option-cases (target parse msg)) [
    | inl t ↦ rw t (unchanged u)
    | inr ((tenant, event_id), t) ↦
        let active = active_rules in_order catalogue rules in
        let run = handle rt redact window active tenant event_id s in
        elim (Result-cases run.0) [
          | inr (x, e) ↦ absurd (ground (arith, t, e, h))
          | inl (items, e) ↦ elim (Bool-cases (commits run.1)) [
            | inr d ↦ absurd (ground (arith, t, e, d, h))
            | inl d ↦
                let later : Later rt redact window run.1 u = rw (t, e, d) at l in
                let ran : run ≡ (ok items, run.1) = ground (arith, e) in
                let r = handle-replay rt redact window active tenant event_id s c ran u later in
                elim (Bool-cases (commits r.after)) [
                  | inl b ↦ rw (t, r.runs, b) r.same
                  | inr b ↦ rw (t, r.runs, b) (unchanged u)
                ]
          ]
        ]
  ]
