-- ===== src/Consumer/Examples.antt =====
-- The theorems on the consumer at a concrete store.
use prefeitura_anti_hack.Prelude.{
  ℕ, ◌≡◌, refl, inl, String, Bool, true, false, Option, none, some, List, [], ◌∷◌, arith,
  if◌then◌else◌, str_eq,
}
use prefeitura_anti_hack.Correlation.Store.{Store, get_event_by_id}
use prefeitura_anti_hack.Correlation.Handler.Loop.{SameTables}
use prefeitura_anti_hack.Correlation.Handler.Replay.{lookup, handle-reaches, handle-ignores}
use prefeitura_anti_hack.Prelude.Int.{pos}
use prefeitura_anti_hack.Correlation.Handler.Redelivery.{at_once, time_passes}
use prefeitura_anti_hack.Correlation.Samples.{
  same, toy, start, start-IsConsistent, start-IsReadable, rules,
}
use prefeitura_anti_hack.Prelude.Python.{ok}
use prefeitura_anti_hack.Consumer.{
  RuleVersion, MessageValue, active_rules, target, process_single_message, consume,
}
use prefeitura_anti_hack.Consumer.Delivery.{
  Delivered, process_single_message-Delivered, process_single_message-redelivers,
}

abbrev old_rule : RuleVersion
old_rule = record {
  catalogued_rule = "R-AUTH-001";
  catalogued_version = "1.0.0";
  is_active = false;
}

-- "7" is the tenant, "4" the failed login, and "9" no event that is stored
abbrev parse : String → Option ℕ
parse s = if str_eq s "7" then some 7 else if str_eq s "4" then some 4 else some 9

abbrev received : String → MessageValue
received id = record {
  event_type = some "SecurityEventReceivedEvent";
  tenant_id = some "7";
  security_event_id = some id;
}

abbrev same_order : List RuleVersion → List RuleVersion
same_order versions = versions

abbrev commits : Store → Bool
commits s = true

process_single_message-Delivered_example :
    Delivered toy same 3600 parse rules same_order [] commits
      (received "4")
      start
      (process_single_message toy same 3600 parse rules same_order [] commits
        (received "4")
        start).0
      (process_single_message toy same 3600 parse rules same_order [] commits
        (received "4")
        start).1
process_single_message-Delivered_example =
    process_single_message-Delivered toy same 3600 parse rules same_order [] commits (omega arith)
      (received "4") start start-IsConsistent start-IsReadable

acknowledged :
    (process_single_message toy same 3600 parse rules same_order [] commits (received "4") start).0
    ≡ true
unfolding process_single_message target
acknowledged =
    let k =
      handle-reaches toy same 3600 (active_rules same_order [] rules) 7 4 (omega arith) start
        start-IsConsistent start-IsReadable in
    rw k.runs refl

abbrev delivered : Store
delivered =
    record (process_single_message toy same 3600 parse rules same_order [] commits (received "4")
      start).1 { now = pos 99 }

process_single_message-redelivers_example :
    SameTables delivered
      (process_single_message toy same 3600 parse rules same_order [] commits
        (received "4")
        delivered).1
process_single_message-redelivers_example =
    process_single_message-redelivers toy same 3600 parse rules same_order [] commits (received "4")
      start start-IsConsistent acknowledged delivered (time_passes (pos 99) at_once)

-- a database that commits nothing
abbrev loses : Store → Bool
loses s = false

abbrev other : MessageValue
other = record { event_type = some "Other"; tenant_id = none; security_event_id = none }

abbrev takes : ℕ → Bool
takes n = true

absent : lookup toy same 9 7 start ≡ ok none
unfolding get_event_by_id
absent = refl

lost :
    process_single_message toy same 3600 parse rules same_order [] loses (received "9") start
    ≡ (false, start)
unfolding process_single_message target
lost =
    let k =
      handle-ignores toy same 3600 (active_rules same_order [] rules) 7 9 start (inl absent) in
    rw k refl

passed_over :
    process_single_message toy same 3600 parse rules same_order [] loses other start ≡ (true, start)
unfolding process_single_message target
passed_over = refl

-- the failed message is passed over: the offset after the next one is committed
skipped_over :
    consume toy same 3600 parse rules same_order [] loses takes
      ((41, received "9") ∷ (42, other) ∷ [])
      start
      none
    ≡ (start, some 43)
unfolding consume
skipped_over = rw (lost, passed_over) refl
