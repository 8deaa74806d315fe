-- ===== src/Correlation/Samples.antt =====
-- A small store for runs of the correlation engine: two events of one tenant.
use prefeitura_anti_hack.Prelude.{
  ℕ, ◌≤◌, refl, String, false, inl, none, List, [], ◌∷◌, filter, length, arith,
}
use prefeitura_anti_hack.Prelude.Int.{pos}
use prefeitura_anti_hack.Prelude.Text.{is_space}
use prefeitura_anti_hack.Prelude.Runtime.{Runtime}
use prefeitura_anti_hack.Domain.{utc, validate_utc_datetime}
use prefeitura_anti_hack.Sanitize.{end}
use prefeitura_anti_hack.Incident.{low}
use prefeitura_anti_hack.Event.{SecurityEvent, new_event, normalized}
use prefeitura_anti_hack.Correlation.Rules.{CorrelationRule, get_rules_for_tenant}
use prefeitura_anti_hack.Correlation.Store.{Store, is_event}
use prefeitura_anti_hack.Correlation.Store.Saving.{IsConsistent}
use prefeitura_anti_hack.Correlation.Handler.Replay.{IsReadable}

abbrev pub same : String → String
same s = s

-- A runtime in which every text of a UUID or of an instant is one character.
unfoldable pub toy : Runtime
unfolding is_space
toy = record {
  lower = same;
  upper = same;
  sha256 = same;
  uuid_text = λ u. "7";
  isoformat = λ t. "T";
  uuid_text_ink = λ u. inl refl;
  isoformat_ink = λ t. inl refl;
}

abbrev pub login : SecurityEvent
login = record {
  tenant_id = 7;
  source = "vpn";
  event_type = "auth_failure";
  severity = low;
  occurred_at = utc (pos 5000000);
  received_at = utc (pos 6000000);
  asset_id = none;
  payload = end;
  idempotency_key = "k";
  event_id = 4;
  is_asset_resolved = false;
  evidence_hash = "h";
}

abbrev pub ping : SecurityEvent
ping = record login { event_type = "ping"; event_id = 5 }

abbrev pub start : Store
start = record {
  events = login ∷ ping ∷ [];
  incidents = [];
  evidences = [];
  history = [];
  logs = [];
  next_id = 100;
  now = pos 9000000;
}

event_once_at_start : (i t : ℕ) → length (filter (is_event i t) start.events) ≤ 1
event_once_at_start i t = ground arith

pub start-IsConsistent : IsConsistent (λ i. 0) start
start-IsConsistent = record {
  event_once = event_once_at_start;
  open_once = λ t h. omega arith;
  evidence_once = λ i e. omega arith;
  incidents_owned = tt;
  evidences_owned = tt;
}

abbrev pub rules : List CorrelationRule
rules = get_rules_for_tenant 7

-- both events pass their constructor
pub start-IsReadable : IsReadable toy same start
unfolding new_event validate_utc_datetime
start-IsReadable = ((normalized toy same login, refl), ((normalized toy same ping, refl), tt))
