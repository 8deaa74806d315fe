-- ===== src/Correlation/Handler/Steps.antt =====
-- One rule of the handler on a consistent store, step by step.
use prefeitura_anti_hack.Prelude.{
  ℕ, ◌<◌, ◌≡◌, ◌∙◌, refl, sym, String, Bool, true, false, inl, inr, none, some, Option, [], ◌∷◌,
  filter, filter-holds, All-filter, filter-concat, arith, one_of_length-le, ◌==◌, str_eq_refl,
  ==→eq, and_split,
}
use prefeitura_anti_hack.Prelude.Python.{ok}
use prefeitura_anti_hack.Prelude.Runtime.{Runtime}
use prefeitura_anti_hack.Incident.{Incident}
use prefeitura_anti_hack.Event.{SecurityEvent}
use prefeitura_anti_hack.Correlation.Rules.{rule_id, CorrelationRule}
use prefeitura_anti_hack.Correlation.Store.{
  Store, IncidentModel, find_open_by_correlation_key, opens, to_entity, new_model,
}
use prefeitura_anti_hack.Correlation.Store.Saving.{IsConsistent, find_open-none, find_open-some}
use prefeitura_anti_hack.Correlation.Store.Linking.{evidence_cases}
use prefeitura_anti_hack.Correlation.Store.Growth.{
  Recorded, with_evidence, with_id, with_owner, with_incident-IsConsistent,
  with_evidence-IsConsistent, with_id-IsConsistent,
}
use prefeitura_anti_hack.Correlation.Store.Tenants.{
  Grows, Grows-with_id, Grows-trans, Grows-with_incident, Grows-with_evidence,
}
use prefeitura_anti_hack.Correlation.Handler.{
  CorrelationResultItem, correlation_key, created_incident, creation_log, find_or_create,
  event_evidence, link_evidence, correlate,
}
use prefeitura_anti_hack.Correlation.Handler.Runs.{
  build_correlation_key-succeeds, key_hash, new_incident_in, created_in, find_or_create-new,
  new_evidence_in, link_evidence-new, link_evidence-again,
}

-- A store after a run, that started from `s`, for the tenant.
pub record Reached (tenant : ℕ) (s s' : Store) : Type 0 where
  pub owner : ℕ → ℕ
  pub consistent : IsConsistent owner s'
  pub grown : Grows tenant s s'

module _ (rt : Runtime) (redact : String → String) (window tenant event_id : ℕ)
    (e : SecurityEvent) where
  -- Linking the event to the open incident of the key.
  record Linking (h : String) (r : CorrelationRule) (i : Incident) (s : Store) : Type 0 where
    fresh : Bool
    after : Store
    runs : link_evidence rt redact window tenant event_id r e i s ≡ (ok fresh, after)
    reached : Reached tenant s after
    recorded : Recorded tenant h event_id after

  linking :
      {owner : ℕ → ℕ} (h : String) (r : CorrelationRule) (i : Incident) (s : Store)
      (m : IncidentModel)
      → IsConsistent owner s
      → filter (opens tenant h) s.incidents ≡ m ∷ []
      → m.incident_id ≡ i.incident_id
      → owner i.incident_id ≡ tenant
      → i.incident_id < s.next_id
      → Linking h r i s
  unfolding event_evidence
  linking {owner} h r i s m c f p o l = elim (evidence_cases s i.incident_id event_id tenant c) [
    | inl n ↦
        let x = new_evidence_in rt redact window tenant event_id r e i s in
        record {
          fresh = true;
          after = with_evidence s x;
          runs = link_evidence-new rt redact window tenant event_id r e s i c o n;
          reached = record {
            owner = owner;
            consistent = with_evidence-IsConsistent s c x l o n;
            grown = Grows-with_evidence s x refl n;
          };
          recorded = record {
            row = m;
            opened = f;
            proof = x;
            linked = rw (p, filter-concat, n) (ground arith);
          };
        }
    | inr (x, n) ↦ record {
      fresh = false;
      after = with_id s;
      runs = link_evidence-again rt redact window tenant event_id r e s i x n;
      reached = record {
        owner = owner;
        consistent = with_id-IsConsistent s c;
        grown = Grows-with_id s;
      };
      recorded = record { row = m; opened = f; proof = x; linked = rw p n };
    }
  ]

  -- One eligible rule.
  pub record Correlated (r : CorrelationRule) (s : Store) : Type 0 where
    pub item : CorrelationResultItem
    pub after : Store
    pub runs : correlate rt redact window tenant event_id r e s ≡ (ok item, after)
    pub reached : Reached tenant s after
    pub recorded : Recorded tenant (key_hash rt redact window tenant event_id r e) event_id after

  new_opens :
      (r : CorrelationRule) (s : Store)
      → opens tenant
          (key_hash rt redact window tenant event_id r e)
          (new_model rt (new_incident_in rt redact window tenant event_id r e s))
        ≡ true
  unfolding created_incident
  new_opens r s = ground (arith, str_eq_refl (key_hash rt redact window tenant event_id r e))

  abbrev pub item_of : CorrelationRule → Incident → Bool → Bool → CorrelationResultItem
  item_of r i created linked = record {
    incident = i;
    is_new_incident = created;
    is_new_evidence = linked;
    rule = rule_id r;
  }

  -- The body of the loop, from its three steps.
  pub correlate-eq :
      0 < window
      → (r : CorrelationRule) (s s1 s2 : Store) (found : Option Incident) (i : Incident)
        (b c : Bool)
      → find_open_by_correlation_key tenant (key_hash rt redact window tenant event_id r e) s
        ≡ (ok found, s)
      → find_or_create rt redact window tenant event_id r e
          (correlation_key rt redact window r e)
          found
          s
        ≡ (ok (i, b), s1)
      → link_evidence rt redact window tenant event_id r e i s1 ≡ (ok c, s2)
      → correlate rt redact window tenant event_id r e s ≡ (ok (item_of r i b c), s2)
  unfolding correlate
  correlate-eq positive r s s1 s2 found i b c p q l =
      rw (build_correlation_key-succeeds rt redact window positive r e, p, q, l)

  correlate_new :
      0 < window
      → {owner : ℕ → ℕ} (r : CorrelationRule) (s : Store) → IsConsistent owner s
      → filter (opens tenant (key_hash rt redact window tenant event_id r e)) s.incidents ≡ []
      → Correlated r s
  unfolding created_incident creation_log
  correlate_new positive {owner} r s c n =
      let h : String = key_hash rt redact window tenant event_id r e in
      let m : IncidentModel =
        new_model rt (new_incident_in rt redact window tenant event_id r e s) in
      let s1 : Store = created_in rt redact window tenant event_id r e s in
      let log = creation_log rt redact window tenant r s.next_id event_id h in
      let o = new_opens r s in
      let k =
        linking {owner = with_owner owner s.next_id tenant} h r (to_entity m) s1 m
          (with_incident-IsConsistent s c m log tenant h refl o n) (rw (filter-concat, o, n)) refl
          (ground arith) (omega arith) in
      record {
        item = item_of r (to_entity m) true k.fresh;
        after = k.after;
        runs =
            correlate-eq positive r s s1 k.after none (to_entity m) true k.fresh
              (find_open-none tenant h s n)
              (find_or_create-new rt redact window tenant event_id r e s c n) k.runs;
        reached = record {
          owner = k.reached.owner;
          consistent = k.reached.consistent;
          grown = Grows-trans s s1 k.after (Grows-with_incident s m log h o n refl) k.reached.grown;
        };
        recorded = k.recorded;
      }

  pub found-existing :
      (r : CorrelationRule) (s : Store) (i : Incident)
      → find_or_create rt redact window tenant event_id r e
          (correlation_key rt redact window r e)
          (some i)
          s
        ≡ (ok (i, false), s)
  unfolding find_or_create
  found-existing r s i = refl

  correlate_existing :
      0 < window
      → {owner : ℕ → ℕ} (r : CorrelationRule) (s : Store) (m : IncidentModel) → IsConsistent owner s
      → filter (opens tenant (key_hash rt redact window tenant event_id r e)) s.incidents ≡ m ∷ []
      → Correlated r s
  correlate_existing positive {owner} r s m c n =
      let h : String = key_hash rt redact window tenant event_id r e in
      let held = rw n at (filter-holds (opens tenant h) s.incidents) in
      let owned = rw n at (All-filter _ (opens tenant h) s.incidents c.incidents_owned) in
      let t = ==→eq m.tenant_id tenant (and_split (m.tenant_id == tenant) _ held.0).0 in
      let k = linking h r (to_entity m) s m c n refl (sym owned.0.1 ∙ t) owned.0.0 in
      record {
        item = item_of r (to_entity m) false k.fresh;
        after = k.after;
        runs =
            correlate-eq positive r s s k.after (some (to_entity m)) (to_entity m) false k.fresh
              (find_open-some tenant h s m n) (found-existing r s (to_entity m)) k.runs;
        reached = k.reached;
        recorded = k.recorded;
      }

  pub correlated :
      0 < window
      → {owner : ℕ → ℕ} (r : CorrelationRule) (s : Store) → IsConsistent owner s
      → Correlated r s
  correlated positive r s c =
      elim (one_of_length-le _
        (c.open_once tenant (key_hash rt redact window tenant event_id r e))) [
          | inl n ↦ correlate_new positive r s c n
          | inr (m, n) ↦ correlate_existing positive r s m c n
        ]
