-- ===== src/Alert.antt =====
-- AlertAcknowledgement of src/core/domain/entities.py, its repositories in
-- src/core/infrastructure/db/repositories.py with the primary key of AlertAcknowledgementModel in
-- src/core/infrastructure/db/models.py, and AcknowledgeAlertHandler of
-- src/core/application/handlers.py, which takes any repository. The reading of a text as a UUID and
-- the order of ORDER BY are parameters; so is whether a publisher raises. A row that is added comes
-- from an entity, whose texts fit the columns.
pub mod Once
pub mod Kept
pub mod Races
mod Examples
use prefeitura_anti_hack.Prelude.{
  ℕ, ◌+◌, String, Bool, true, false, ◌&&◌, ◌||◌, Option, none, some, List, [], ◌∷◌, ◌++◌, any,
  filter, find, page, ltb, ◌==◌, str_eq, if◌then◌else◌,
}
use prefeitura_anti_hack.Prelude.Int.{ℤ}
use prefeitura_anti_hack.Prelude.Text.{length, is_empty}
use prefeitura_anti_hack.Prelude.Python.{
  Result, ok, err, checked, validations, raise_if, value_error, integrity_error,
}
use prefeitura_anti_hack.Prelude.Exec.{Exec, pure, lift, gets, in_store, on_publisher, ◌>>=◌, ◌>>◌}
use prefeitura_anti_hack.Domain.{TimeValue, utc}
use prefeitura_anti_hack.Correlation.Store.{scalar_one_or_none}

pub record AlertAcknowledgement : Type 0 where
  pub id : ℕ
  pub alert_id : String
  pub fingerprint : String
  pub reason : String
  pub acknowledged_by : String
  pub tenant_id : ℕ
  pub timestamp : TimeValue

-- Field(min_length=1, max_length=most)
abbrev pub unfit : ℕ → String → Bool
unfit most s = is_empty s || ltb most (length s)

-- the validations of the fields
unfoldable pub new_ack : AlertAcknowledgement → Result AlertAcknowledgement
new_ack a =
    checked
      (validations (
        raise_if (unfit 128 a.alert_id) value_error
        ∷ raise_if (unfit 128 a.fingerprint) value_error
        ∷ raise_if (unfit 512 a.reason) value_error
        ∷ raise_if (unfit 128 a.acknowledged_by) value_error
        ∷ []))
      a

abbrev pub acknowledges : String → ℕ → AlertAcknowledgement → Bool
acknowledges print tenant a = str_eq a.fingerprint print && a.tenant_id == tenant

-- InMemoryAlertAcknowledgementRepository.save: an acknowledgement of the alert is returned instead
unfoldable pub keep_ack :
    AlertAcknowledgement → Exec (List AlertAcknowledgement) AlertAcknowledgement
keep_ack a acks = elim (find (acknowledges a.fingerprint a.tenant_id) acks) [
  | none ↦ (ok a, a ∷ acks)
  | some x ↦ (ok x, acks)
]

-- InMemoryAlertAcknowledgementRepository.get_by_fingerprint
abbrev pub find_ack : String → ℕ → Exec (List AlertAcknowledgement) (Option AlertAcknowledgement)
find_ack print tenant = gets (find (acknowledges print tenant))

-- if t_uuid: filtered by tenant_id
abbrev pub acks_of : Option ℕ → List AlertAcknowledgement → List AlertAcknowledgement
acks_of none acks = acks
acks_of (some t) acks = filter (λ a. a.tenant_id == t) acks

-- InMemoryAlertAcknowledgementRepository.list
abbrev pub list_acks_in_memory :
    Option ℕ → ℕ → ℕ → List AlertAcknowledgement → List AlertAcknowledgement
list_acks_in_memory tenant skip limit acks = page skip limit (acks_of tenant acks)

abbrev pub same_ack : AlertAcknowledgement → AlertAcknowledgement → Bool
same_ack a x = x.id == a.id

-- PostgresAlertAcknowledgementRepository.save: the table tells rows apart by the identifier only
unfoldable pub insert_ack :
    AlertAcknowledgement → Exec (List AlertAcknowledgement) AlertAcknowledgement
insert_ack a rows =
    if any (same_ack a) rows then (err integrity_error, rows) else (new_ack a, rows ++ a ∷ [])

abbrev pub optional_ack : Option AlertAcknowledgement → Result (Option AlertAcknowledgement)
optional_ack none = ok none
optional_ack (some m) = elim (new_ack m) [ ok a ↦ ok (some a) | err x ↦ err x ]

-- PostgresAlertAcknowledgementRepository.get_by_fingerprint
unfoldable pub select_ack :
    String → ℕ → Exec (List AlertAcknowledgement) (Option AlertAcknowledgement)
select_ack print tenant = do
  rows ← gets (filter (acknowledges print tenant))
  model ← lift (scalar_one_or_none rows)
  lift (optional_ack model)

abbrev pub read_acks : List AlertAcknowledgement → Result (List AlertAcknowledgement)
read_acks [] = ok []
read_acks (m ∷ rows) = elim (new_ack m) [
  | err x ↦ err x
  | ok a ↦ elim (read_acks rows) [ err x ↦ err x | ok acks ↦ ok (a ∷ acks) ]
]

-- PostgresAlertAcknowledgementRepository.list
abbrev pub list_acks :
    (List AlertAcknowledgement → List AlertAcknowledgement)
    → Option ℕ
    → ℕ
    → ℕ
    → Exec (List AlertAcknowledgement) (List AlertAcknowledgement)
list_acks newest_first tenant skip limit rows =
    (read_acks (page skip limit (newest_first (acks_of tenant rows))), rows)

-- The operations of AlertAcknowledgementRepository that the handler calls.
pub record AckRepository (S : Type 0) : Type 0 where
  pub get_by_fingerprint : String → ℕ → Exec S (Option AlertAcknowledgement)
  pub save : AlertAcknowledgement → Exec S AlertAcknowledgement

abbrev pub in_memory_acks : AckRepository (List AlertAcknowledgement)
in_memory_acks = record { get_by_fingerprint = find_ack; save = keep_ack }

abbrev pub postgres_acks : AckRepository (List AlertAcknowledgement)
postgres_acks = record { get_by_fingerprint = select_ack; save = insert_ack }

-- command.payload.get("tenant_id")
pub data RawTenant : Type 0 where
  missing : RawTenant
  uuid : ℕ → RawTenant
  text : String → RawTenant

abbrev pub parsed_tenant : (String → Option ℕ) → RawTenant → Result ℕ
parsed_tenant parse_uuid missing = err value_error
parsed_tenant parse_uuid (uuid t) = ok t
parsed_tenant parse_uuid (text s) =
    if is_empty s
    then err value_error
    else elim (parse_uuid s) [ none ↦ err value_error | some t ↦ ok t ]

-- the payload of AcknowledgeAlertCommand
pub record AcknowledgeAlert : Type 0 where
  pub alert_id : String
  pub fingerprint : String
  pub reason : String
  pub acknowledged_by : String
  pub tenant_id : RawTenant

pub record AlertAcknowledgedEvent : Type 0 where
  pub alert_id : String
  pub fingerprint : String
  pub reason : String
  pub acknowledged_by : String

abbrev pub acknowledged_event : AlertAcknowledgement → AlertAcknowledgedEvent
acknowledged_event a = record {
  alert_id = a.alert_id;
  fingerprint = a.fingerprint;
  reason = a.reason;
  acknowledged_by = a.acknowledged_by;
}

-- the entity that the handler makes, with its generated identifier
abbrev pub ack_of : ℕ → ℤ → ℕ → AcknowledgeAlert → AlertAcknowledgement
ack_of new_id now tenant c = record {
  id = new_id;
  alert_id = c.alert_id;
  fingerprint = c.fingerprint;
  reason = c.reason;
  acknowledged_by = c.acknowledged_by;
  tenant_id = tenant;
  timestamp = utc now;
}

module _ {S P : Type 0} (repo : AckRepository S)
    (publish : AlertAcknowledgedEvent → Exec P (Unit {0})) where
  -- the rest of the handler after the lookup
  abbrev pub acknowledge_new :
      AlertAcknowledgement → Option AlertAcknowledgement → Exec (S × P) AlertAcknowledgement
  acknowledge_new a (some existing) = pure existing
  acknowledge_new a none = do
    ack ← lift (new_ack a)
    saved ← in_store (repo.save ack)
    on_publisher (publish (acknowledged_event saved))
    pure saved

  -- AcknowledgeAlertHandler.handle; its response has the fields of the entity
  unfoldable pub acknowledge :
      (String → Option ℕ) → ℕ → ℤ → AcknowledgeAlert → Exec (S × P) AlertAcknowledgement
  acknowledge parse_uuid new_id now c = do
    tenant ← lift (parsed_tenant parse_uuid c.tenant_id)
    existing ← in_store (repo.get_by_fingerprint c.fingerprint tenant)
    acknowledge_new (ack_of new_id now tenant c) existing
