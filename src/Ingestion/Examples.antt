-- ===== src/Ingestion/Examples.antt =====
-- Runs of the ingestion, and its theorems at concrete tables.
use prefeitura_anti_hack.Prelude.{
  ℕ, zero, suc, ◌+◌, ◌-◌, ap, ◌<◌, ◌≡◌, refl, String, Bool, true, false, inl, none, some, [], any,
  arith, str_eq_iff,
}
use prefeitura_anti_hack.Prelude.Int.{ℤ, pos}
use prefeitura_anti_hack.Prelude.Text.{
  is_space, HasInk, strip, lstrip, rstrip, fstring, length as text_length,
}
use prefeitura_anti_hack.Prelude.Python.{Result, ok, err, integrity_error, data_error, key_error}
use prefeitura_anti_hack.Prelude.Runtime.{Runtime}
use prefeitura_anti_hack.Domain.{utc, validate_utc_datetime, at_zero}
use prefeitura_anti_hack.Sanitize.{Value, sanitize_payload, null, text, dict, end}
use prefeitura_anti_hack.Incident.{low, high}
use prefeitura_anti_hack.Event.{new_event, normalized}
use prefeitura_anti_hack.Event.Stored.{same_id, exceeds}
use prefeitura_anti_hack.Event.Stored.Abstract.{IsSound, IsNew}
use prefeitura_anti_hack.Outbox.Postgres.{refusal}
use prefeitura_anti_hack.Outbox.Message.{SecurityEventReceivedEvent, deserialize_event, Outside}
use prefeitura_anti_hack.Correlation.Store.{get_event_by_id}
use prefeitura_anti_hack.Correlation.Samples.{same, toy, start}
use prefeitura_anti_hack.Ingestion.{
  plain, uuid, level, moment, IngestCommand, Parsers, Request, read_request,
}
use prefeitura_anti_hack.Ingestion.Tables.{Tables}
use prefeitura_anti_hack.Ingestion.Handler.{handle, response, message}
use prefeitura_anti_hack.Ingestion.Outcomes.{Ready, accepted, ingested, suppressed, new_message}
use prefeitura_anti_hack.Ingestion.Described.{IsMadeOf, Answers, IsPendingFor}
use prefeitura_anti_hack.Ingestion.Atomicity.{at, Atomic, handle-Atomic}
use prefeitura_anti_hack.Ingestion.Duplicates.{handle-ingests, handle_twice}
use prefeitura_anti_hack.Ingestion.Announcing.{Announced, handle-Announced}
use prefeitura_anti_hack.Ingestion.Refusals.{
  request_key, handle_of_other_source, handle_of_long_key,
}
use prefeitura_anti_hack.Ingestion.Delivery.{ingested_found}

abbrev no_parsers : Parsers
no_parsers = record { parse_uuid = λ r. none; str = λ r. "x"; fromisoformat = λ s. none }

abbrev probe : IngestCommand
probe = record {
  tenant_id = uuid 7;
  source = plain (text " vpn");
  event_type = plain (text "login");
  idempotency_key = plain (text "k");
  payload = plain (dict end);
  severity = plain (text "LOW ");
  occurred_at = moment (utc (pos 5));
  received_at = plain null;
  service_name = none;
  environment = none;
}

abbrev probe_request : Request
probe_request = record {
  tenant = 7;
  source_text = "vpn";
  kind = "login";
  key = "k";
  fields = end;
  grade = low;
  occurred = utc (pos 5);
  received = utc (pos 9000000);
}

abbrev empty : Tables
empty = record { assets = []; store = record start { events = [] }; outbox = [] }

reads_probe : read_request toy no_parsers (pos 9000000) probe ≡ ok probe_request
unfolding read_request strip lstrip rstrip is_space toy
reads_probe = refl

empty-IsSound : IsSound toy same []
empty-IsSound = record { fixed = tt; key_once = λ t s k. omega arith }

probe-IsNew : IsNew toy same (accepted toy same probe_request none 100) []
unfolding new_event toy validate_utc_datetime normalized sanitize_payload fstring
probe-IsNew = record {
  is_fixed = refl;
  id_unused = refl;
  source_fits = refl;
  type_fits = refl;
  key_fits = refl;
}

probe-Ready : Ready toy same probe_request none none none empty
probe-Ready = record {
  resolves = refl;
  events_sound = empty-IsSound;
  occurred_utc = at_zero (pos 5);
  received_utc = at_zero (pos 9000000);
  accepted_new = probe-IsNew;
}

takes_probe :
    refusal (new_message toy same none (accepted toy same probe_request none 100) empty) [] ≡ none
unfolding refusal message fstring toy normalized
takes_probe = refl

abbrev always : Tables → Bool
always t = true

handle-ingests_example :
    (handle toy same no_parsers always probe (at empty) ≡ (
      ok (response (accepted toy same probe_request none 100) false),
      at (ingested toy same probe_request none (accepted toy same probe_request none 100) empty),
    ))
    × IsMadeOf toy same probe_request none 100 (accepted toy same probe_request none 100)
    × Answers toy same
        (accepted toy same probe_request none 100)
        false
        (response (accepted toy same probe_request none 100) false)
    × IsPendingFor toy same
        (accepted toy same probe_request none 100)
        (new_message toy same none (accepted toy same probe_request none 100) empty)
handle-ingests_example =
    handle-ingests toy same no_parsers always probe probe_request none empty reads_probe probe-Ready
      refl takes_probe refl

handle-Atomic_example :
    Atomic toy same no_parsers always probe empty
      (handle toy same no_parsers always probe (at empty))
handle-Atomic_example = handle-Atomic toy same no_parsers always probe empty

empty-Announced : Announced empty
empty-Announced = record { announced = tt; known = tt }

handle-Announced_example :
    Announced (handle toy same no_parsers always probe (at empty)).1.committed
handle-Announced_example = handle-Announced toy same no_parsers always probe empty empty-Announced

-- the tables after the first call
abbrev once : Tables
once = ingested toy same probe_request none (accepted toy same probe_request none 100) empty

abbrev retry : IngestCommand
retry = record probe { severity = level high; occurred_at = moment (utc (pos 6)) }

abbrev retry_request : Request
retry_request = record probe_request { grade = high; occurred = utc (pos 6) }

reads_retry : read_request toy no_parsers (pos 9000000) retry ≡ ok retry_request
unfolding read_request strip lstrip rstrip is_space toy
reads_retry = refl

retry-IsNew : IsNew toy same (accepted toy same retry_request none 103) once.store.events
unfolding new_event toy validate_utc_datetime normalized sanitize_payload fstring
retry-IsNew = record {
  is_fixed = refl;
  id_unused = refl;
  source_fits = refl;
  type_fits = refl;
  key_fits = refl;
}

handle_twice_example :
    (handle toy same no_parsers always retry (at once) ≡ (
      ok (response (accepted toy same probe_request none 100) true),
      at (suppressed toy same retry_request once),
    ))
    × Answers toy same
        (accepted toy same probe_request none 100)
        true
        (response (accepted toy same probe_request none 100) true)
handle_twice_example =
    handle_twice toy same no_parsers always probe probe_request none empty reads_probe probe-Ready
      refl retry retry_request none refl refl refl reads_retry refl (at_zero (pos 6))
      (at_zero (pos 9000000)) retry-IsNew refl

-- another source with the same key
abbrev waf : IngestCommand
waf = record probe { source = plain (text "waf") }

abbrev waf_request : Request
waf_request = record probe_request { source_text = "waf" }

reads_waf : read_request toy no_parsers (pos 9000000) waf ≡ ok waf_request
unfolding read_request strip lstrip rstrip is_space toy
reads_waf = refl

once-IsSound : IsSound toy same once.store.events
unfolding new_event toy validate_utc_datetime normalized sanitize_payload fstring
once-IsSound = record { fixed = (refl, tt); key_once = λ t s k. ground arith }

waf-Ready : Ready toy same waf_request none none none once
unfolding new_event toy validate_utc_datetime normalized sanitize_payload fstring
waf-Ready = record {
  resolves = refl;
  events_sound = once-IsSound;
  occurred_utc = at_zero (pos 5);
  received_utc = at_zero (pos 9000000);
  accepted_new = record {
    is_fixed = refl;
    id_unused = refl;
    source_fits = refl;
    type_fits = refl;
    key_fits = refl;
  };
}

sources_differ : (probe_request.source_text ≡ waf_request.source_text) → ⊥
sources_differ h = ground (arith, str_eq_iff "vpn" "waf", h)

waf_key_fits : exceeds 128 (request_key toy waf_request) ≡ false
unfolding fstring toy
waf_key_fits = refl

handle_of_other_source_example :
    handle toy same no_parsers always waf (at once) ≡ (err integrity_error, at once)
handle_of_other_source_example =
    handle_of_other_source toy same no_parsers always probe_request none empty waf waf_request none
      refl refl sources_differ waf_key_fits reads_waf waf-Ready refl

-- a runtime whose UUIDs print as 36 characters, and a key of 85
unfoldable wide : Runtime
unfolding is_space
wide = record {
  lower = same;
  upper = same;
  sha256 = same;
  uuid_text = λ u. "00000000-0000-0000-0000-000000000007";
  isoformat = λ t. "T";
  uuid_text_ink = λ u. inl refl;
  isoformat_ink = λ t. inl refl;
}

abbrev long_key : String
long_key = "aaaaaaaaaaaaaaaaaaaaaaaaaaaaaaaaaaaaaaaaaaaaaaaaaaaaaaaaaaaaaaaaaaaaaaaaaaaaaaaaaaaaa"

abbrev long : IngestCommand
long = record probe { idempotency_key = plain (text long_key) }

abbrev long_request : Request
long_request = record probe_request { key = long_key }

reads_long : read_request wide no_parsers (pos 9000000) long ≡ ok long_request
unfolding read_request strip lstrip rstrip is_space wide
reads_long = refl

long-Ready : Ready wide same long_request none none none empty
unfolding new_event wide validate_utc_datetime normalized sanitize_payload fstring
long-Ready = record {
  resolves = refl;
  events_sound = record { fixed = tt; key_once = λ t s k. omega arith };
  occurred_utc = at_zero (pos 5);
  received_utc = at_zero (pos 9000000);
  accepted_new = record {
    is_fixed = refl;
    id_unused = refl;
    source_fits = refl;
    type_fits = refl;
    key_fits = refl;
  };
}

uuids_36 : (u : ℕ) → text_length (wide.uuid_text u) ≡ 36
unfolding wide
uuids_36 u = refl

key_length : 84 < text_length long_key
key_length = omega arith

handle_of_long_key_example :
    handle wide same no_parsers always long (at empty) ≡ (err data_error, at empty)
handle_of_long_key_example =
    handle_of_long_key wide same no_parsers always long long_request none empty reads_long
      long-Ready refl uuids_36 key_length

-- UUIDs that print as so many characters, and a dispatcher that counts them
unfoldable unary : ℕ → String
unary zero = "u"
unary (suc n) = String.◌∷◌ "u" (unary n)

unary_ink : (n : ℕ) → HasInk (unary n)
unfolding unary is_space
unary_ink zero = inl refl
unary_ink (suc n) = inl refl

t_ink : (t : ℤ) → HasInk "T"
unfolding is_space
t_ink t = inl refl

length-unary : (n : ℕ) → text_length (unary n) ≡ n + 1
unfolding unary
length-unary zero = omega arith
length-unary (suc n) = omega (arith, length-unary n)

abbrev counting : Runtime
counting = record {
  lower = same;
  upper = same;
  sha256 = same;
  uuid_text = unary;
  isoformat = λ t. "T";
  uuid_text_ink = unary_ink;
  isoformat_ink = t_ink;
}

abbrev counted : Value → Result ℕ
counted (text s) = ok (text_length s - 1)
counted _ = err key_error

abbrev printed : Value → String
printed (text s) = s
printed _ = ""

abbrev outside : Outside ℕ
outside = record {
  parse_uuid = counted;
  str = printed;
  message = λ e. "";
  lower = same;
  publish = λ v p. (ok tt, p);
}

unary_read : (u : ℕ) → counted (text (unary u)) ≡ ok u
unary_read u = ap ok (omega (arith, length-unary u))

texts_read : (s : String) → printed (text s) ≡ s
texts_read s = refl

unused : any (same_id (accepted counting same probe_request none 100)) [] ≡ false
unused = refl

probe_is_fixed :
    new_event counting same (accepted counting same probe_request none 100)
    ≡ ok (accepted counting same probe_request none 100)
unfolding new_event validate_utc_datetime normalized sanitize_payload fstring unary
probe_is_fixed = refl

ingested_found_example :
    (v : SecurityEventReceivedEvent) × (deserialize_event outside
        (new_message counting same none
          (accepted counting same probe_request none 100)
          empty).event_type
        (new_message counting same none
          (accepted counting same probe_request none 100)
          empty).payload
      ≡ ok v)
    × (get_event_by_id counting same v.security_event_id v.tenant_id
          (ingested counting same probe_request none
            (accepted counting same probe_request none 100)
            empty).store
        ≡ (
          ok (some (accepted counting same probe_request none 100)),
          (ingested counting same probe_request none
              (accepted counting same probe_request none 100)
              empty).store,
        ))
ingested_found_example =
    ingested_found counting same outside unary_read texts_read probe_request none empty unused
      probe_is_fixed
