-- ===== src/Consumer.antt =====
-- CorrelationKafkaConsumer of src/core/infrastructure/messaging/correlation_consumer.py: one
-- message, and a batch of one partition. The order of ORDER BY, whether the commit of the database
-- succeeds, whether Kafka takes an offset, and the parsing of a UUID are parameters; a transaction
-- that does not commit leaves the store as it was.
pub mod Given
pub mod Delivery
mod Examples
use prefeitura_anti_hack.Prelude.{
  ℕ, suc, ◌&&◌, String, Bool, true, false, any, Option, none, some, List, [], ◌∷◌, take, filter,
  if◌then◌else◌, str_eq,
}
use prefeitura_anti_hack.Prelude.Text.{is_empty}
use prefeitura_anti_hack.Prelude.Python.{Result, ok, err}
use prefeitura_anti_hack.Prelude.Runtime.{Runtime}
use prefeitura_anti_hack.Correlation.Rules.{CorrelationRule, rule_id, version}
use prefeitura_anti_hack.Correlation.Store.{Store}
use prefeitura_anti_hack.Correlation.Handler.{CorrelationResultItem, handle}

-- CorrelationRuleVersion: what the consumer reads of it
pub record RuleVersion : Type 0 where
  pub catalogued_rule : String
  pub catalogued_version : String
  pub is_active : Bool

-- PostgresCorrelationRuleVersionRepository.list_active, with its default page of 100 rows in the
-- order that ORDER BY rule_id, rule_version gives them
abbrev pub list_active : (List RuleVersion → List RuleVersion) → List RuleVersion → List RuleVersion
list_active in_order catalogue = take 100 (in_order (filter (λ r. r.is_active) catalogue))

-- (r.rule_id, r.version) in active_rule_keys
abbrev pub is_catalogued : List RuleVersion → CorrelationRule → Bool
is_catalogued versions r =
    any
      (λ v.
        v.is_active
        && str_eq v.catalogued_rule (rule_id r)
        && str_eq v.catalogued_version (version r))
      versions

abbrev pub select_rules : List RuleVersion → List CorrelationRule → List CorrelationRule
select_rules [] rules = rules
select_rules (v ∷ versions) rules = filter (is_catalogued (v ∷ versions)) rules

-- the rules that a message is given to
unfoldable pub active_rules :
    (List RuleVersion → List RuleVersion)
    → List RuleVersion
    → List CorrelationRule
    → List CorrelationRule
active_rules in_order catalogue rules = select_rules (list_active in_order catalogue) rules

-- the fields of a message that the consumer reads: `none` is a missing field
pub record MessageValue : Type 0 where
  pub event_type : Option String
  pub tenant_id : Option String
  pub security_event_id : Option String

abbrev pub is_received : Option String → Bool
is_received none = false
is_received (some t) = str_eq t "SecurityEventReceivedEvent"

-- a UUID from a field, if the field is there, not empty and a UUID
abbrev pub field_uuid : (String → Option ℕ) → Option String → Option ℕ
field_uuid parse none = none
field_uuid parse (some s) = if is_empty s then none else parse s

-- the tenant and the event of a message, where `none` is a message that is ignored
unfoldable pub target : (String → Option ℕ) → MessageValue → Option (ℕ × ℕ)
target parse msg =
    if is_received msg.event_type
    then elim (field_uuid parse msg.tenant_id) [
      | none ↦ none
      | some t ↦ elim (field_uuid parse msg.security_event_id) [
        | none ↦ none
        | some e ↦ some (t, e)
      ]
    ]
    else none

module _ (rt : Runtime) (redact : String → String) (window : ℕ) (parse : String → Option ℕ)
    (rules : List CorrelationRule) (in_order : List RuleVersion → List RuleVersion)
    (catalogue : List RuleVersion) (commits : Store → Bool) where
  -- the end of the transaction
  abbrev pub finish : Store → Result (List CorrelationResultItem) × Store → Bool × Store
  finish before (err e, after) = (false, before)
  finish before (ok items, after) = if commits after then (true, after) else (false, before)

  abbrev pub process_target : Option (ℕ × ℕ) → Store → Bool × Store
  process_target none s = (true, s)
  process_target (some (tenant, event_id)) s =
      finish s (handle rt redact window (active_rules in_order catalogue rules) tenant event_id s)

  -- CorrelationKafkaConsumer.process_single_message
  unfoldable pub process_single_message : MessageValue → Store → Bool × Store
  process_single_message msg s = process_target (target parse msg) s

  -- The messages of one partition in CorrelationKafkaConsumer.run: the store that they leave, and
  -- the offset that is committed. A commit of an offset that raises ends the batch.
  unfoldable pub consume :
      (ℕ → Bool) → List (ℕ × MessageValue) → Store → Option ℕ → Store × Option ℕ
  consume takes [] s committed = (s, committed)
  consume takes ((offset, msg) ∷ msgs) s committed =
      let rest = consume takes msgs in
      let processed = process_single_message msg s in
      if processed.0
      then if takes (suc offset)
        then rest processed.1 (some (suc offset))
        else (processed.1, committed)
      else rest processed.1 committed
