-- ===== src/Correlation/Handler/Redelivery.antt =====
-- A second delivery of an event, whatever was correlated since the first one.
use mathlib.Core.Path.{subst}
use prefeitura_anti_hack.Prelude.{
  ℕ, zero, suc, ◌<◌, ◌≡◌, ◌∙◌, ◌⊎◌, inl, inr, refl, sym, arith, String, List,
}
use prefeitura_anti_hack.Prelude.Int.{ℤ}
use prefeitura_anti_hack.Prelude.Python.{Result, ok}
use prefeitura_anti_hack.Prelude.Runtime.{Runtime}
use prefeitura_anti_hack.Correlation.Rules.{CorrelationRule}
use prefeitura_anti_hack.Correlation.Store.{Store}
use prefeitura_anti_hack.Correlation.Store.Saving.{IsConsistent}
use prefeitura_anti_hack.Correlation.Store.Growth.{Recorded}
use prefeitura_anti_hack.Correlation.Handler.{CorrelationResultItem, handle}
use prefeitura_anti_hack.Correlation.Handler.Replay.{Replayed, handle-cases, replay_on}
use prefeitura_anti_hack.Correlation.Handler.Zero.{handle_zero-keeps, handle_zero-replay}

Nat-cases : (n : ℕ) → (n ≡ 0) ⊎ (0 < n)
Nat-cases zero = inl refl
Nat-cases (suc n) = inr (omega arith)

module _ (rt : Runtime) (redact : String → String) (window : ℕ) where
  -- The stores that come after a store while events are correlated: time passes, and the handler
  -- runs for any tenant, event and rules.
  pub data Later (s : Store) : Store → Type 0 where
    at_once : Later s s
    time_passes : {u : Store} (t : ℤ) → Later s u → Later s (record u { now = t })
    another :
        {u v : Store} (rules : List CorrelationRule) (tenant event_id : ℕ)
        {result : Result (List CorrelationResultItem)}
        → Later s u
        → handle rt redact window rules tenant event_id u ≡ (result, v)
        → Later s v

  record Kept (s u : Store) : Type 0 where
    owner : ℕ → ℕ
    consistent : IsConsistent owner u
    same_events : u.events ≡ s.events
    keeps : (t : ℕ) (h : String) (e : ℕ) → Recorded t h e s → Recorded t h e u

  Later-Kept : {owner : ℕ → ℕ} (s u : Store) → IsConsistent owner s → Later s u → Kept s u
  Later-Kept {owner} s u c at_once = record {
    owner = owner;
    consistent = c;
    same_events = refl;
    keeps = λ t h e r. r;
  }
  Later-Kept s _ c (time_passes {u} t l) =
      let k = Later-Kept s u c l in
      let d = k.consistent in
      record {
        owner = k.owner;
        consistent = record {
          event_once = d.event_once;
          open_once = d.open_once;
          evidence_once = d.evidence_once;
          incidents_owned = d.incidents_owned;
          evidences_owned = d.evidences_owned;
        };
        same_events = k.same_events;
        keeps = λ t h e r.
            let q = k.keeps t h e r in
            record { row = q.row; opened = q.opened; proof = q.proof; linked = q.linked };
      }
  Later-Kept s _ c (another {u} {v} rules tenant event_id l h) =
      let k = Later-Kept s u c l in
      elim (Nat-cases window) [
        | inl z ↦
            let kept =
              subst (λ (n : ℕ). (handle rt redact n rules tenant event_id u).1 ≡ u) (sym z)
                (handle_zero-keeps rt redact tenant event_id rules u) in
            let q : v ≡ u = ground (arith, kept, h) in rw q k
        | inr positive ↦
            elim (handle-cases rt redact window rules tenant event_id positive u k.consistent) [
              | inl (x, ran, e) ↦ let q : v ≡ u = cc (ran, h) in rw q k
              | inr j ↦
                  let q : v ≡ j.after = cc (j.runs, h) in
                  rw q (record {
                    owner = j.reached.owner;
                    consistent = j.reached.consistent;
                    same_events = j.reached.grown.same_events ∙ k.same_events;
                    keeps = λ t h e r. j.reached.grown.keeps t h e (k.keeps t h e r);
                  })
            ]
      ]

  -- After a run of the handler from a consistent store, and after any further runs for whatever
  -- events, tenants and rules and any time that passes, a second run for the same event and rules
  -- returns, stores no row and changes none in any table, and reports no new incident and no new
  -- evidence.
  pub handle-replay :
      (rules : List CorrelationRule) (tenant event_id : ℕ) {owner : ℕ → ℕ} (s : Store)
      → IsConsistent owner s
      → {items : List CorrelationResultItem} {s' : Store}
      → handle rt redact window rules tenant event_id s ≡ (ok items, s')
      → (u : Store) → Later s' u
      → Replayed rt redact window rules tenant event_id u
  handle-replay rules tenant event_id s c {items} {s'} h u l = elim (Nat-cases window) [
    | inl z ↦
        let zero_run : handle rt redact 0 rules tenant event_id s ≡ (ok items, s') =
          subst (λ (n : ℕ). handle rt redact n rules tenant event_id s ≡ (ok items, s')) z h in
        let same : s' ≡ s =
          ground (arith, handle_zero-keeps rt redact tenant event_id rules s, zero_run) in
        let kept = Later-Kept s u c (rw same at l) in
        subst (λ (n : ℕ). Replayed rt redact n rules tenant event_id u) (sym z)
          (handle_zero-replay rt redact tenant event_id rules items s s' u kept.same_events
            zero_run)
    | inr positive ↦ elim (handle-cases rt redact window rules tenant event_id positive s c) [
      | inl (x, ran, e) ↦ absurd (ground (arith, ran, h))
      | inr k ↦
          let q : k.after ≡ s' = cc (k.runs, h) in
          let m = Later-Kept k.after u k.reached.consistent (rw q l) in
          replay_on rt redact window rules tenant event_id positive s k u
            (m.same_events ∙ k.reached.grown.same_events) m.keeps
    ]
  ]
