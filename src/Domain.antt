-- ===== src/Domain.antt =====
-- src/core/domain/validation.py, and the values that the domain entities share: UUIDs (compared by
-- equality only, so numbers) and datetimes (microseconds since the epoch, with their UTC offset).
use prefeitura_anti_hack.Prelude.{zero, Bool, true, false, not}
use prefeitura_anti_hack.Prelude.Int.{ℤ, pos}
use prefeitura_anti_hack.Prelude.Python.{Result, err, domain_error, raise_if}

-- The value that a timestamp field is given: no datetime, a naive one, or an instant with the
-- offset that `utcoffset()` returns, in microseconds.
pub data TimeValue : Type 0 where
  not_datetime : TimeValue
  naive : ℤ → TimeValue
  aware : ℤ → ℤ → TimeValue

-- datetime.now(timezone.utc)
abbrev pub utc : ℤ → TimeValue
utc t = aware t (pos 0)

abbrev pub is_zero : ℤ → Bool
is_zero (pos zero) = true
is_zero _ = false

unfoldable pub validate_utc_datetime : TimeValue → Result (Unit {0})
validate_utc_datetime not_datetime = err domain_error
validate_utc_datetime (naive t) = err domain_error
validate_utc_datetime (aware t offset) = raise_if (not (is_zero offset)) domain_error

-- The datetimes that the domain accepts.
pub data IsUtc : TimeValue → Type 0 where
  at_zero : (t : ℤ) → IsUtc (aware t (pos 0))
