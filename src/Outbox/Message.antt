-- ===== src/Outbox/Message.antt =====
-- SecurityEventReceivedEvent of src/core/domain/events.py, how the dispatcher of
-- src/core/application/outbox_dispatcher.py reads it from a stored payload, and the error text that
-- it stores. The parsing of a UUID, str() of a value, the text of an exception and the publisher
-- (what it returns and the state that it leaves) are parameters.
pub mod Redaction
use prefeitura_anti_hack.Prelude.{
  ℕ, String, Bool, true, false, not, any, Option, none, some, List, [], ◌∷◌, ◌==◌, if◌then◌else◌,
  str_eq,
}
use prefeitura_anti_hack.Prelude.Text.{is_empty, contains, prefix}
use prefeitura_anti_hack.Prelude.Python.{Exception, key_error, value_error, Result, ok, err, ◌>>=◌}
use prefeitura_anti_hack.Sanitize.{
  Value, null, boolean, number, text, list, tuple, set, dict, nil, cons, end, field, Fields,
}

pub record SecurityEventReceivedEvent : Type 0 where
  pub tenant_id : ℕ
  pub security_event_id : ℕ
  pub source : String
  pub security_event_type : String
  pub severity : String
  pub is_asset_resolved : Bool
  pub asset_id : Option ℕ

-- bool(value)
abbrev pub truthy : Value → Bool
truthy null = false
truthy (boolean b) = b
truthy (number n) = not (n == 0)
truthy (text s) = not (is_empty s)
truthy (list nil) = false
truthy (tuple nil) = false
truthy (set nil) = false
truthy (dict end) = false
truthy _ = true

-- payload.get(key)
abbrev pub get : String → Fields → Option Value
get key end = none
get key (field k v fs) = let rest = get key fs in if str_eq k key then some v else rest

-- payload[key]
abbrev pub item : String → Fields → Result Value
item key fs = elim (get key fs) [ none ↦ err key_error | some v ↦ ok v ]

abbrev pub secret_words : List String
secret_words = "password" ∷ "token" ∷ "secret" ∷ "api_key" ∷ "bearer" ∷ []

pub record Outside (P : Type 0) : Type 0 where
  pub parse_uuid : Value → Result ℕ
  pub str : Value → String
  pub message : Exception → String
  pub lower : String → String
  pub publish : SecurityEventReceivedEvent → P → Result (Unit {0}) × P

module _ {P : Type 0} (outside : Outside P) where
  abbrev pub optional_uuid : Option Value → Result (Option ℕ)
  optional_uuid none = ok none
  optional_uuid (some v) =
      if truthy v
      then elim (outside.parse_uuid v) [ ok u ↦ ok (some u) | err e ↦ err e ]
      else ok none

  abbrev pub required : {A : Type 0} → (Value → Result A) → String → Fields → Result A
  required convert key fs = elim (item key fs) [ ok v ↦ convert v | err e ↦ err e ]

  abbrev pub as_text : Value → Result String
  as_text v = ok (outside.str v)

  abbrev pub as_bool : Value → Result Bool
  as_bool v = ok (truthy v)

  -- OutboxDispatcher._deserialize_event
  unfoldable pub deserialize_event : String → Fields → Result SecurityEventReceivedEvent
  deserialize_event event_type payload =
      if str_eq event_type "SecurityEventReceivedEvent"
      then (do
        asset ← (optional_uuid (get "asset_id" payload))
        tenant ← (required outside.parse_uuid "tenant_id" payload)
        event ← (required outside.parse_uuid "security_event_id" payload)
        source ← (required as_text "source" payload)
        kind ← (required as_text "security_event_type" payload)
        severity ← (required as_text "severity" payload)
        resolved ← (required as_bool "is_asset_resolved" payload)
        ok (record {
          tenant_id = tenant;
          security_event_id = event;
          source = source;
          security_event_type = kind;
          severity = severity;
          is_asset_resolved = resolved;
          asset_id = asset;
        }))
      else err value_error

  -- OutboxDispatcher._sanitize_error_message
  unfoldable pub sanitize_error_message : String → String
  sanitize_error_message err_msg =
      let sanitized = prefix 1024 err_msg in
      if any (λ w. contains w (outside.lower sanitized)) secret_words
      then "[REDACTED ERROR MESSAGE]"
      else sanitized
