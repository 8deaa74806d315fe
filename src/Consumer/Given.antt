-- ===== src/Consumer/Given.antt =====
-- Which event a message names, and which rules it is given to, apart from the code.
use prefeitura_anti_hack.Prelude.{
  ℕ, ◌≡◌, refl, inl, inr, String, Bool, true, false, ◌&&◌, Option, none, some, List, [], ◌∷◌,
  filter, take, str_eq, str_eq_iff, Bool-cases, Option-cases, arith,
}
use prefeitura_anti_hack.Prelude.Text.{is_empty}
use prefeitura_anti_hack.Correlation.Rules.{CorrelationRule, rule_id, version}
use prefeitura_anti_hack.Consumer.{
  RuleVersion, MessageValue, is_received, field_uuid, target, is_catalogued, select_rules,
  active_rules,
}

module _ (parse : String → Option ℕ) where
  -- a field that is there, not empty, and the text of a UUID
  pub record IsUuidField (field : Option String) (k : ℕ) : Type 0 where
    pub value : String
    pub there : field ≡ some value
    pub filled : is_empty value ≡ false
    pub parses : parse value ≡ some k

  -- a message about an event of a tenant that was received
  pub record Names (msg : MessageValue) (tenant event_id : ℕ) : Type 0 where
    pub kind : msg.event_type ≡ some "SecurityEventReceivedEvent"
    pub of_tenant : IsUuidField msg.tenant_id tenant
    pub event : IsUuidField msg.security_event_id event_id

  field_uuid-IsUuidField :
      (field : Option String) (k : ℕ) → field_uuid parse field ≡ some k → IsUuidField field k
  field_uuid-IsUuidField none k h = absurd (ground (arith, h))
  field_uuid-IsUuidField (some s) k h = elim (Bool-cases (is_empty s)) [
    | inl e ↦ absurd (ground (arith, e, h))
    | inr e ↦ record { value = s; there = refl; filled = e; parses = ground (arith, e, h) }
  ]

  IsUuidField-field_uuid :
      (field : Option String) (k : ℕ) → IsUuidField field k → field_uuid parse field ≡ some k
  IsUuidField-field_uuid field k i = ground (arith, i.there, i.filled, i.parses)

  is_received-kind :
      (o : Option String) → is_received o ≡ true → o ≡ some "SecurityEventReceivedEvent"
  is_received-kind none h = absurd (ground (arith, h))
  is_received-kind (some t) h =
      let e = (str_eq_iff t "SecurityEventReceivedEvent").0 h in ground (arith, e)

  kind-is_received :
      (o : Option String) → o ≡ some "SecurityEventReceivedEvent" → is_received o ≡ true
  kind-is_received o h = rw h refl

  pub target-Names :
      (msg : MessageValue) (tenant event_id : ℕ)
      → target parse msg ≡ some (tenant, event_id)
      → Names msg tenant event_id
  unfolding target
  target-Names msg tenant event_id h = elim (Bool-cases (is_received msg.event_type)) [
    | inr k ↦ absurd (ground (arith, k, h))
    | inl k ↦ elim (Option-cases (field_uuid parse msg.tenant_id)) [
      | inl t ↦ absurd (ground (arith, k, t, h))
      | inr (a, t) ↦ elim (Option-cases (field_uuid parse msg.security_event_id)) [
        | inl e ↦ absurd (ground (arith, k, t, e, h))
        | inr (b, e) ↦ record {
          kind = is_received-kind msg.event_type k;
          of_tenant = field_uuid-IsUuidField msg.tenant_id tenant (ground (arith, k, t, e, h));
          event =
              field_uuid-IsUuidField msg.security_event_id event_id (ground (arith, k, t, e, h));
        }
      ]
    ]
  ]

  pub Names-target :
      (msg : MessageValue) (tenant event_id : ℕ)
      → Names msg tenant event_id
      → target parse msg ≡ some (tenant, event_id)
  unfolding target
  Names-target msg tenant event_id n =
      rw
        (
          kind-is_received msg.event_type n.kind,
          IsUuidField-field_uuid msg.tenant_id tenant n.of_tenant,
          IsUuidField-field_uuid msg.security_event_id event_id n.event,
        )
        refl

-- the elements of a list that P holds of, in their order
pub data Chosen {A : Type 0} (P : A → Type 0) : List A → List A → Type 0 where
  no_more : Chosen P [] []
  chosen : {a : A} {xs ys : List A} → P a → Chosen P xs ys → Chosen P (a ∷ xs) (a ∷ ys)
  passed : {a : A} {xs ys : List A} → ¬ P a → Chosen P xs ys → Chosen P (a ∷ xs) ys

filter-Chosen :
    {A : Type 0} (P : A → Type 0) (p : A → Bool)
    → ((a : A) → p a ≡ true → P a)
    → ((a : A) → P a → p a ≡ true)
    → (xs : List A) → Chosen P xs (filter p xs)
filter-Chosen P p sound complete [] = no_more
filter-Chosen P p sound complete (a ∷ xs) =
    let rest = filter-Chosen P p sound complete xs in
    elim (Bool-cases (p a)) [
      | inl h ↦ rw h (chosen (sound a h) rest)
      | inr h ↦ rw h (passed (λ q. absurd (let t = complete a q in ground (arith, h, t))) rest)
    ]

-- an entry of the catalogue for a rule in its version
pub record IsEntryOf (r : CorrelationRule) (v : RuleVersion) : Type 0 where
  pub active : v.is_active ≡ true
  pub same_rule : v.catalogued_rule ≡ rule_id r
  pub same_version : v.catalogued_version ≡ version r

-- one of the entries is for the rule
pub data Listed (r : CorrelationRule) : List RuleVersion → Type 0 where
  here : {v : RuleVersion} {vs : List RuleVersion} → IsEntryOf r v → Listed r (v ∷ vs)
  there : {v : RuleVersion} {vs : List RuleVersion} → Listed r vs → Listed r (v ∷ vs)

abbrev is_entry : CorrelationRule → RuleVersion → Bool
is_entry r v =
    v.is_active && str_eq v.catalogued_rule (rule_id r) && str_eq v.catalogued_version (version r)

is_entry-IsEntryOf : (r : CorrelationRule) (v : RuleVersion) → is_entry r v ≡ true → IsEntryOf r v
is_entry-IsEntryOf r v h = record {
  active = ground (arith, h);
  same_rule = (str_eq_iff v.catalogued_rule (rule_id r)).0 (ground (arith, h));
  same_version = (str_eq_iff v.catalogued_version (version r)).0 (ground (arith, h));
}

IsEntryOf-is_entry : (r : CorrelationRule) (v : RuleVersion) → IsEntryOf r v → is_entry r v ≡ true
IsEntryOf-is_entry r v e =
    let p = (str_eq_iff v.catalogued_rule (rule_id r)).1 e.same_rule in
    let q = (str_eq_iff v.catalogued_version (version r)).1 e.same_version in
    ground (arith, e.active, p, q)

is_catalogued-Listed :
    (r : CorrelationRule) (vs : List RuleVersion) → is_catalogued vs r ≡ true → Listed r vs
is_catalogued-Listed r [] h = absurd (ground (arith, h))
is_catalogued-Listed r (v ∷ vs) h = elim (Bool-cases (is_entry r v)) [
  | inl e ↦ here (is_entry-IsEntryOf r v e)
  | inr e ↦ there (is_catalogued-Listed r vs (ground (arith, e, h)))
]

Listed-is_catalogued :
    (r : CorrelationRule) (vs : List RuleVersion) → Listed r vs → is_catalogued vs r ≡ true
Listed-is_catalogued r [] l = elim l [ ]
Listed-is_catalogued r (v ∷ vs) (here e) = let q = IsEntryOf-is_entry r v e in ground (arith, q)
Listed-is_catalogued r (v ∷ vs) (there l) = let q = Listed-is_catalogued r vs l in ground (arith, q)

module _ (in_order : List RuleVersion → List RuleVersion) (catalogue : List RuleVersion) where
  -- the entries that the consumer sees: the first hundred active ones
  abbrev pub seen : List RuleVersion
  seen = take 100 (in_order (filter (λ v. v.is_active) catalogue))

  -- the rules that a message is given to: every rule if no entry is seen, else those with one
  pub data Given (rules : List CorrelationRule) : List CorrelationRule → Type 0 where
    uncatalogued : seen ≡ [] → Given rules rules
    catalogued :
        {some_rules : List CorrelationRule}
        → ¬ (seen ≡ [])
        → Chosen (λ r. Listed r seen) rules some_rules
        → Given rules some_rules

  select_rules-Given :
      (vs : List RuleVersion) (rules : List CorrelationRule)
      → seen ≡ vs
      → Given rules (select_rules vs rules)
  select_rules-Given [] rules h = uncatalogued h
  select_rules-Given (v ∷ vs) rules h =
      catalogued (λ q. absurd (ground (arith, h, q)))
        (rw h (
          filter-Chosen (λ r. Listed r (v ∷ vs)) (is_catalogued (v ∷ vs))
            (λ r. is_catalogued-Listed r (v ∷ vs)) (λ r. Listed-is_catalogued r (v ∷ vs)) rules))

  pub active_rules-Given :
      (rules : List CorrelationRule) → Given rules (active_rules in_order catalogue rules)
  unfolding active_rules
  active_rules-Given rules = select_rules-Given seen rules refl
