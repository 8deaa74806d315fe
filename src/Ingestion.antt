-- ===== src/Ingestion.antt =====
-- IngestSecurityEventHandler of src/core/application/handlers.py: how it reads the payload of a
-- command. A value of the payload is a JSON value, a UUID, a severity or a datetime; `none` stands
-- for a service or an environment that is missing. UUID(str(v)), str(v) and
-- datetime.fromisoformat are parameters.
pub mod Tables
pub mod Handler
pub mod Outcomes
pub mod Described
pub mod Duplicates
pub mod Atomicity
pub mod Refusals
pub mod Announcing
pub mod Delivery
mod Examples
use prefeitura_anti_hack.Prelude.{
  ℕ, String, Bool, true, false, not, Option, none, some, ◌==◌, str_eq, if◌then◌else◌,
}
use prefeitura_anti_hack.Prelude.Int.{ℤ}
use prefeitura_anti_hack.Prelude.Text.{is_empty, strip}
use prefeitura_anti_hack.Prelude.Python.{Result, ok, err, domain_error, ◌>>=◌}
use prefeitura_anti_hack.Prelude.Runtime.{Runtime}
use prefeitura_anti_hack.Domain.{TimeValue, utc}
use prefeitura_anti_hack.Sanitize.{Value, null, text, dict, Fields}
use prefeitura_anti_hack.Incident.{
  severity_value, SecurityEventSeverity, info, low, medium, high, critical,
}
use prefeitura_anti_hack.Outbox.Message.{truthy}

pub data Raw : Type 0 where
  plain : Value → Raw
  uuid : ℕ → Raw
  level : SecurityEventSeverity → Raw
  moment : TimeValue → Raw

-- SecurityEventSeverity[name], where the name is a severity_member
unfoldable pub severity_member : String → Option SecurityEventSeverity
severity_member name =
    if str_eq name "INFO"
    then some info
    else if str_eq name "LOW"
    then some low
    else if str_eq name "MEDIUM"
    then some medium
    else if str_eq name "HIGH"
    then some high
    else if str_eq name "CRITICAL"
    then some critical
    else none

pub record Parsers : Type 0 where
  pub parse_uuid : Raw → Option ℕ
  pub str : Raw → String
  pub fromisoformat : String → Option TimeValue

-- the payload of IngestSecurityEventCommand
pub record IngestCommand : Type 0 where
  pub tenant_id : Raw
  pub source : Raw
  pub event_type : Raw
  pub idempotency_key : Raw
  pub payload : Raw
  pub severity : Raw
  pub occurred_at : Raw
  pub received_at : Raw
  pub service_name : Option String
  pub environment : Option String

-- what the validations make of it
pub record Request : Type 0 where
  pub tenant : ℕ
  pub source_text : String
  pub kind : String
  pub key : String
  pub fields : Fields
  pub grade : SecurityEventSeverity
  pub occurred : TimeValue
  pub received : TimeValue

-- bool(value)
abbrev pub is_truthy : Raw → Bool
is_truthy (plain v) = truthy v
is_truthy _ = true

-- the value as a text, if it is one: the severities are texts too
abbrev pub as_str : Raw → Option String
as_str (plain (text s)) = some s
as_str (level l) = some (severity_value l)
as_str _ = none

abbrev pub required {ℓ} : {A : Type ℓ} → Option A → Result A
required none = err domain_error
required (some a) = ok a

module _ (rt : Runtime) (parsers : Parsers) where
  -- str(value)
  abbrev pub str_of : Raw → String
  str_of raw = elim (as_str raw) [ some s ↦ s | none ↦ parsers.str raw ]

  unfoldable pub read_tenant : Raw → Result ℕ
  read_tenant (uuid u) = ok u
  read_tenant raw = if is_truthy raw then required (parsers.parse_uuid raw) else err domain_error

  -- str(value or "").strip(), which must not be empty
  unfoldable pub read_text : Raw → Result String
  unfolding strip
  read_text raw =
      let s = strip (if is_truthy raw then str_of raw else "") in
      if is_empty s then err domain_error else ok s

  unfoldable pub read_payload : Raw → Result Fields
  read_payload (plain (dict fs)) = ok fs
  read_payload _ = err domain_error

  unfoldable pub read_severity : Raw → Result SecurityEventSeverity
  unfolding severity_member strip
  read_severity (level l) = ok l
  read_severity (plain (text s)) = required (severity_member (rt.upper (strip s)))
  read_severity _ = err domain_error

  -- a datetime, or a text in ISO 8601
  unfoldable pub read_moment : Raw → Result TimeValue
  read_moment (moment t) = ok t
  read_moment raw = elim (as_str raw) [
    | some s ↦ required (parsers.fromisoformat s)
    | none ↦ err domain_error
  ]

  abbrev pub read_received : ℤ → Raw → Result TimeValue
  read_received now (plain null) = ok (utc now)
  read_received now raw = read_moment raw

  -- the validations of the handler, in their order; `None` is no datetime
  unfoldable pub read_request : ℤ → IngestCommand → Result Request
  unfolding read_tenant read_text read_payload read_severity read_moment
  read_request now c = do
    tenant ← (read_tenant c.tenant_id)
    source_text ← (read_text c.source)
    kind ← (read_text c.event_type)
    key ← (read_text c.idempotency_key)
    fields ← (read_payload c.payload)
    grade ← (read_severity c.severity)
    occurred ← (read_moment c.occurred_at)
    received ← (read_received now c.received_at)
    ok (record {
      tenant = tenant;
      source_text = source_text;
      kind = kind;
      key = key;
      fields = fields;
      grade = grade;
      occurred = occurred;
      received = received;
    })
