-- ===== src/Outbox/Examples.antt =====
-- Runs of the outbox, and its theorems at a concrete table.
use prefeitura_anti_hack.Prelude.{
  ◌*◌, ◌^◌, ◌≡◌, refl, ◌≤◌, leb, false, none, some, List, [], ◌∷◌, map, length, All, if◌then◌else◌,
}
use prefeitura_anti_hack.Prelude.Int.{pos, plus, leb_ℤ}
use prefeitura_anti_hack.Prelude.Text.{is_blank}
use prefeitura_anti_hack.Prelude.Python.{Result, ok}
use prefeitura_anti_hack.Domain.{utc, validate_utc_datetime}
use prefeitura_anti_hack.Sanitize.{Fields, end, field, text, boolean}
use prefeitura_anti_hack.Outbox.{
  OutboxEvent, pending, published, can_claim, claimed, as_published, as_failed,
  fetch_pending_and_claim, mark_published, mark_failed,
}
use prefeitura_anti_hack.Outbox.Claims.{
  IsValid, IsDistinct, selection, claim_first, fetch_pending_and_claim-exact,
}
use prefeitura_anti_hack.Outbox.Marks.{can_claim-marks}
use prefeitura_anti_hack.Outbox.Message.{SecurityEventReceivedEvent, Outside}
use prefeitura_anti_hack.Outbox.Dispatcher.{World}
use prefeitura_anti_hack.Outbox.Dispatcher.Sweep.{Processed, process_outbox_batch-Swept}
use prefeitura_anti_hack.Outbox.Postgres.{fetch_and_claim, publish_row, fail_row}
use prefeitura_anti_hack.Outbox.Postgres.Agreement.{without_claim, fetch_and_claim-agrees}
use prefeitura_anti_hack.Outbox.Postgres.Marking.{marks-agree}

abbrev body : Fields
body = field "tenant_id" (text "7") (
    field "security_event_id" (text "4") (
      field "source" (text "vpn") (
        field "security_event_type" (text "auth_failure")
          (field "severity" (text "LOW") (field "is_asset_resolved" (boolean false) end)))))

abbrev fresh : OutboxEvent
fresh = record {
  tenant_id = 7;
  aggregate_type = "SecurityEvent";
  aggregate_id = 4;
  event_type = "SecurityEventReceivedEvent";
  payload = body;
  idempotency_key = "k";
  outbox_event_id = 1;
  status = pending;
  retry_count = 0;
  next_retry_at = none;
  created_at = utc (pos 1);
  published_at = none;
  claimed_at = none;
  claim_expires_at = none;
  last_error = none;
}

abbrev done : OutboxEvent
done = record fresh { outbox_event_id = 2; status = published; published_at = some (utc (pos 2)) }

abbrev broken : OutboxEvent
broken = record fresh { outbox_event_id = 3; event_type = "Other" }

abbrev table : List OutboxEvent
table = fresh ∷ done ∷ broken ∷ []

-- a broker that keeps what it is sent
abbrev keep :
    SecurityEventReceivedEvent
    → List SecurityEventReceivedEvent
    → Result (Unit {0}) × List SecurityEventReceivedEvent
keep d sent = (ok tt, d ∷ sent)

abbrev outside : Outside (List SecurityEventReceivedEvent)
outside = record {
  parse_uuid = λ v. ok 7;
  str = λ v. "text";
  message = λ e. "unknown type";
  lower = λ s. s;
  publish = keep;
}

abbrev start : World (List SecurityEventReceivedEvent)
start = record { events = table; broker = [] }

table-IsDistinct : IsDistinct table
table-IsDistinct = ((refl, (refl, tt)), ((refl, tt), (tt, tt)))

fresh-IsValid : IsValid fresh
unfolding is_blank validate_utc_datetime
fresh-IsValid = record {
  texts = refl;
  known = refl;
  created = refl;
  next_retry = refl;
  published_time = refl;
  claimed_time = refl;
  claim_expires = refl;
}

done-IsValid : IsValid done
unfolding is_blank validate_utc_datetime
done-IsValid = record {
  texts = refl;
  known = refl;
  created = refl;
  next_retry = refl;
  published_time = refl;
  claimed_time = refl;
  claim_expires = refl;
}

broken-IsValid : IsValid broken
unfolding is_blank validate_utc_datetime
broken-IsValid = record {
  texts = refl;
  known = refl;
  created = refl;
  next_retry = refl;
  published_time = refl;
  claimed_time = refl;
  claim_expires = refl;
}

table-IsValid : All IsValid table
table-IsValid = (fresh-IsValid, (done-IsValid, (broken-IsValid, tt)))

fetch_pending_and_claim-exact_example :
    (fetch_pending_and_claim (pos 9) 1 30 table
      ≡ (ok (selection (pos 9) 30 1 table), claim_first (pos 9) 30 1 table))
    × (length (selection (pos 9) 30 1 table) ≤ 1)
fetch_pending_and_claim-exact_example =
    fetch_pending_and_claim-exact (pos 9) 30 1 table table-IsDistinct table-IsValid

can_claim-marks_example :
    (can_claim (pos 9) (as_published (pos 5) fresh) ≡ false)
    × (can_claim (pos 9) (claimed (pos 5) 30 fresh) ≡ leb_ℤ (plus (pos 5) (30 * 1000000)) (pos 9))
    × (can_claim (pos 9) (as_failed (pos 5) 5 10 "x" fresh)
        ≡ (if leb 5 1 then false else leb_ℤ (plus (pos 5) (10 * 2 ^ 0 * 1000000)) (pos 9)))
can_claim-marks_example = can_claim-marks (pos 5) (pos 9) 30 5 10 "x" fresh

process_outbox_batch-Swept_example : Processed outside (pos 9) 5 10 30 100 start
process_outbox_batch-Swept_example =
    process_outbox_batch-Swept outside (pos 9) 5 10 30 100 start table-IsDistinct table-IsValid

abbrev in_order : List OutboxEvent → List OutboxEvent
in_order rows = rows

fetch_and_claim-agrees_example :
    (events after : List OutboxEvent) × (fetch_pending_and_claim (pos 9) 2 30 table
      ≡ (ok events, after))
    × (fetch_and_claim (pos 9) in_order 2 30 table
        ≡ (ok (map (without_claim (pos 9) 30) events), after))
fetch_and_claim-agrees_example =
    fetch_and_claim-agrees (pos 9) 30 in_order 2 table table-IsDistinct table-IsValid refl

marks-agree_example :
    (publish_row (pos 9) 1 table ≡ mark_published (pos 9) 1 table)
    × (fail_row (pos 9) 5 10 1 "down" table ≡ mark_failed (pos 9) 5 10 1 "down" table)
marks-agree_example = marks-agree (pos 9) 5 10 1 "down" table table-IsDistinct table-IsValid
