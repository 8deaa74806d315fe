-- ===== src/Correlation/Key.antt =====
-- The correlation key (src/core/domain/correlation.py) and how the handler builds one
-- (src/core/application/correlation_handler.py): time buckets and the key of an unresolved asset.
pub mod Buckets
use prefeitura_anti_hack.Prelude.{
  ℕ, ◌≡◌, ◌==◌, if◌then◌else◌, String, Bool, ◌||◌, Option, none, some, List, [], ◌∷◌,
}
use prefeitura_anti_hack.Prelude.Int.{ℤ, pos, trunc_div, floor_div, times}
use prefeitura_anti_hack.Prelude.Text.{is_blank, fstring}
use prefeitura_anti_hack.Prelude.Python.{
  Result, ok, err, domain_error, checked, raise_if, zero_division_error,
}
use prefeitura_anti_hack.Prelude.Runtime.{Runtime}
use prefeitura_anti_hack.Domain.{TimeValue, not_datetime, naive, aware}
use prefeitura_anti_hack.Event.{SecurityEvent}

-- class CorrelationKey
pub record CorrelationKey : Type 0 where
  pub tenant_id : ℕ
  pub rule_id : String
  pub rule_version : String
  pub asset_key : String
  pub category : String
  pub time_window : String

-- CorrelationKey.__post_init__
unfoldable pub new_key : CorrelationKey → Result CorrelationKey
new_key k =
    checked
      (raise_if
        (is_blank k.rule_id
          || is_blank k.rule_version
          || is_blank k.asset_key
          || is_blank k.category
          || is_blank k.time_window)
        domain_error)
      k

-- datetime.timestamp(), in microseconds
abbrev pub instant : TimeValue → ℤ
instant not_datetime = pos 0
instant (naive t) = t
instant (aware t offset) = t

-- the start of the bucket in seconds, for a window that is not 0
unfoldable pub bucket_start : ℤ → ℕ → ℤ
unfolding trunc_div floor_div times
bucket_start micros window = times (floor_div (trunc_div micros 1000000) window) window

module _ (rt : Runtime) where
  -- CorrelationKey.to_canonical_string
  unfoldable pub to_canonical_string : CorrelationKey → String
  to_canonical_string k = fstring (
      rt.uuid_text k.tenant_id
      ∷ ":"
      ∷ k.rule_id
      ∷ ":"
      ∷ k.rule_version
      ∷ ":"
      ∷ k.asset_key
      ∷ ":"
      ∷ k.category
      ∷ ":"
      ∷ k.time_window
      ∷ [])

  -- CorrelationKey.to_hash
  abbrev pub to_hash : CorrelationKey → String
  to_hash k = rt.sha256 (to_canonical_string k)

  unfoldable pub bucket_text : TimeValue → ℕ → String
  bucket_text occurred_at window = rt.isoformat (bucket_start (instant occurred_at) window)

  -- _compute_time_bucket: `//` raises when the window is 0
  unfoldable pub compute_time_bucket : TimeValue → ℕ → Result String
  compute_time_bucket occurred_at window =
      if window == 0 then err zero_division_error else ok (bucket_text occurred_at window)

  -- str(event.asset_id), or f"{event.source}:{event.event_type}"
  unfoldable pub asset_key_of : SecurityEvent → String
  asset_key_of e = elim e.asset_id [
    | some a ↦ rt.uuid_text a
    | none ↦ fstring (e.source ∷ ":" ∷ e.event_type ∷ [])
  ]
