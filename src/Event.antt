-- ===== src/Event.antt =====
-- src/core/domain/incidents.py: the normalised security event and the contract for an event whose
-- asset is not resolved.
pub mod Laws
pub mod Stored
use prefeitura_anti_hack.Prelude.{
  ℕ, ◌≡◌, String, Bool, true, false, not, Option, none, some, List, [], ◌∷◌, if◌then◌else◌, ◌||◌,
}
use prefeitura_anti_hack.Prelude.Text.{is_empty, fstring}
use prefeitura_anti_hack.Prelude.Python.{Result, ok, err, checked, ◌>>◌}
use prefeitura_anti_hack.Prelude.Runtime.{Runtime}
use prefeitura_anti_hack.Domain.{TimeValue, validate_utc_datetime}
use prefeitura_anti_hack.Incident.{SecurityEventSeverity}
use prefeitura_anti_hack.Sanitize.{Fields, sanitize_payload}

-- class SecurityEvent
pub record SecurityEvent : Type 0 where
  pub tenant_id : ℕ
  pub source : String
  pub event_type : String
  pub severity : SecurityEventSeverity
  pub occurred_at : TimeValue
  pub received_at : TimeValue
  pub asset_id : Option ℕ
  pub payload : Fields
  pub idempotency_key : String
  pub event_id : ℕ
  pub is_asset_resolved : Bool
  pub evidence_hash : String

-- class UnresolvedAssetEvent
pub record UnresolvedAssetEvent : Type 0 where
  pub tenant_id : ℕ
  pub security_event_id : ℕ
  pub event_id : ℕ
  pub occurred_at_utc : TimeValue

abbrev pub is_some {ℓ} : {A : Type ℓ} → Option A → Bool
is_some none = false
is_some (some a) = true

module _ (rt : Runtime) (redact : String → String) where
  -- the text that the evidence hash is taken of
  pub evidence_text : SecurityEvent → String
  evidence_text e = fstring (
      rt.uuid_text e.event_id
      ∷ ":"
      ∷ rt.uuid_text e.tenant_id
      ∷ ":"
      ∷ e.source
      ∷ ":"
      ∷ e.event_type
      ∷ ":"
      ∷ e.idempotency_key
      ∷ [])

  -- what __post_init__ assigns once the times are valid
  unfoldable pub normalized : SecurityEvent → SecurityEvent
  unfolding evidence_text
  normalized e = record e {
    payload = sanitize_payload rt.lower redact e.payload;
    is_asset_resolved = elim e.asset_id [ none ↦ false | some _ ↦ e.is_asset_resolved ];
    evidence_hash =
        if is_empty e.evidence_hash then rt.sha256 (evidence_text e) else e.evidence_hash;
  }

  -- SecurityEvent.__post_init__
  unfoldable pub new_event : SecurityEvent → Result SecurityEvent
  new_event e =
      checked (validate_utc_datetime e.occurred_at >> validate_utc_datetime e.received_at)
        (normalized e)

-- UnresolvedAssetEvent.__post_init__
new_unresolved : UnresolvedAssetEvent → Result UnresolvedAssetEvent
new_unresolved u = checked (validate_utc_datetime u.occurred_at_utc) u

-- SecurityEvent.create_unresolved_asset_event, with the identifier that `uuid4` returns
unfoldable pub create_unresolved_asset_event :
    ℕ → SecurityEvent → Result (Option UnresolvedAssetEvent)
unfolding new_unresolved
create_unresolved_asset_event new_id e =
    if is_some e.asset_id || e.is_asset_resolved
    then ok none
    else elim (new_unresolved (record {
      tenant_id = e.tenant_id;
      security_event_id = e.event_id;
      event_id = new_id;
      occurred_at_utc = e.occurred_at;
    })) [ ok u ↦ ok (some u) | err x ↦ err x ]
