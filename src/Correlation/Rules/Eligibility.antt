-- ===== src/Correlation/Rules/Eligibility.antt =====
-- How `evaluate` and `is_eligible` are related, and how the two rules overlap.
use prefeitura_anti_hack.Prelude.{
  ◌≡◌, refl, String, true, false, List, [], ◌∷◌, map, filter, arith, inl, inr, Option-cases,
}
use prefeitura_anti_hack.Prelude.Text.{
  contains, contains_tail, is_blank, append, fstring, is_space, HasInk, HasInk-is_blank,
  HasInk-append_right,
}
use prefeitura_anti_hack.Prelude.Python.{ok}
use prefeitura_anti_hack.Prelude.Runtime.{Runtime}
use prefeitura_anti_hack.Event.{SecurityEvent}
use prefeitura_anti_hack.Correlation.Key.{CorrelationKey, new_key, asset_key_of}
use prefeitura_anti_hack.Correlation.Rules.{
  CorrelationRule, infra_availability, auth_brute_force, rule_id, version, category, is_eligible,
  placeholder_key, evaluate,
}

-- The texts of a rule are not blank.
texts_have_ink :
    (r : CorrelationRule)
    → (is_blank (rule_id r) ≡ false)
      × (is_blank (version r) ≡ false)
      × (is_blank (category r) ≡ false)
unfolding is_blank rule_id version category
texts_have_ink infra_availability = (refl, refl, refl)
texts_have_ink auth_brute_force = (refl, refl, refl)

module _ (rt : Runtime) where
  -- No asset key is blank: it is the text of a UUID, or holds a colon.
  pub asset_key_of-HasInk : (e : SecurityEvent) → HasInk (asset_key_of rt e)
  unfolding asset_key_of fstring is_space append
  asset_key_of-HasInk e = elim (Option-cases e.asset_id) [
    | inl p ↦ rw p (HasInk-append_right e.source _ (inl refl))
    | inr (a, p) ↦ rw p (rt.uuid_text_ink a)
  ]

  -- A key with a rule's texts and a window that is not blank is accepted.
  pub new_key-succeeds :
      (r : CorrelationRule) (e : SecurityEvent) (window : String)
      → is_blank window ≡ false
      → let k : CorrelationKey = record {
        tenant_id = e.tenant_id;
        rule_id = rule_id r;
        rule_version = version r;
        asset_key = asset_key_of rt e;
        category = category r;
        time_window = window;
      } in
        new_key k ≡ ok k
  unfolding new_key
  new_key-succeeds r e window h =
      let (p, q, c) = texts_have_ink r in
      ground (arith, p, q, c, HasInk-is_blank (asset_key_of rt e) (asset_key_of-HasInk e))

  placeholder_key-succeeds :
      (r : CorrelationRule) (e : SecurityEvent)
      → new_key (placeholder_key rt r e) ≡ ok (placeholder_key rt r e)
  unfolding placeholder_key
  placeholder_key-succeeds r e = new_key-succeeds r e "placeholder" (unfold is_blank in refl)

  -- For every rule and sequence of events, evaluate returns without raising exactly the keys of the
  -- events that is_eligible accepts, in their order.
  pub evaluate-eq-filter :
      (r : CorrelationRule) (events : List SecurityEvent)
      → evaluate rt r events ≡ ok (map (placeholder_key rt r) (filter (is_eligible rt r) events))
  unfolding evaluate is_eligible
  evaluate-eq-filter infra_availability [] = refl
  evaluate-eq-filter auth_brute_force [] = refl
  evaluate-eq-filter infra_availability (e ∷ es) = ground (
    arith,
    placeholder_key-succeeds infra_availability e,
    evaluate-eq-filter infra_availability es,
  )
  evaluate-eq-filter auth_brute_force (e ∷ es) =
      ground
        (arith, placeholder_key-succeeds auth_brute_force e, evaluate-eq-filter auth_brute_force es)

  -- Every event whose type mentions `auth_failure` is eligible for both rules: it opens an
  -- availability incident as well as an authentication one.
  pub auth_failure_is_both :
      (e : SecurityEvent)
      → contains "auth_failure" (rt.lower e.event_type) ≡ true
      → (is_eligible rt auth_brute_force e ≡ true) × (is_eligible rt infra_availability e ≡ true)
  unfolding is_eligible
  auth_failure_is_both e h =
      let q : contains "failure" (rt.lower e.event_type) ≡ true =
        contains_tail "auth_" "failure" _ (unfold append in h) in
      (ground (arith, h), ground (arith, q))
