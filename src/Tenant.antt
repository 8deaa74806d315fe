-- ===== src/Tenant.antt =====
-- Tenant of src/core/domain/entities.py, PostgresTenantRepository and InMemoryTenantRepository of
-- src/core/infrastructure/db/repositories.py with the constraints of TenantModel in
-- src/core/infrastructure/db/models.py, and the handlers of tenants in
-- src/core/application/handlers.py, which take any repository. ILIKE, the order of a query without
-- ORDER BY, and the slug that a regular expression makes of a name are parameters; so is whether a
-- publisher raises.
pub mod Handlers
pub mod Slugs
pub mod Calls
pub mod Memory
pub mod Postgres
mod Examples
use prefeitura_anti_hack.Prelude.{
  ℕ, ◌+◌, String, Bool, true, false, not, ◌&&◌, ◌||◌, Option, none, some, List, [], ◌∷◌, ◌++◌, any,
  filter, find, map, page, ltb, ◌==◌, str_eq, if◌then◌else◌,
}
use prefeitura_anti_hack.Prelude.Int.{ℤ}
use prefeitura_anti_hack.Prelude.Text.{length, is_empty, contains}
use prefeitura_anti_hack.Prelude.Python.{
  Result, ok, err, checked, validations, raise_if, value_error, integrity_error,
}
use prefeitura_anti_hack.Prelude.Exec.{Exec, pure, lift, gets, modify, ◌>>=◌, ◌>>◌}
use prefeitura_anti_hack.Domain.{TimeValue, utc}
use prefeitura_anti_hack.Correlation.Store.{scalar_one_or_none}

-- class TenantStatus(StrEnum)
pub data TenantStatus : Type 0 where
  active inactive suspended : TenantStatus

abbrev pub tenant_status_value : TenantStatus → String
tenant_status_value active = "ACTIVE"
tenant_status_value inactive = "INACTIVE"
tenant_status_value suspended = "SUSPENDED"

-- TenantStatus(value)
unfoldable pub parse_tenant_status : String → Result TenantStatus
parse_tenant_status s =
    if str_eq s "ACTIVE"
    then ok active
    else if str_eq s "INACTIVE"
    then ok inactive
    else if str_eq s "SUSPENDED"
    then ok suspended
    else err value_error

pub record Tenant : Type 0 where
  pub id : ℕ
  pub name : String
  pub slug : String
  pub status : TenantStatus
  pub created_at : TimeValue
  pub updated_at : TimeValue

-- a text outside the bounds of its field
abbrev pub misses : ℕ → ℕ → String → Bool
misses least most s = ltb (length s) least || ltb most (length s)

-- the validations of the fields; pydantic's ValidationError is a ValueError
unfoldable pub new_tenant : Tenant → Result Tenant
new_tenant t =
    checked
      (validations (
        raise_if (misses 2 128 t.name) value_error
        ∷ raise_if (misses 2 64 t.slug) value_error
        ∷ []))
      t

-- Tenant.update_name: an assignment, which is not validated
abbrev pub update_name : String → ℤ → Tenant → Tenant
update_name new_name now t = record t { name = new_name; updated_at = utc now }

-- Tenant.deactivate
abbrev pub deactivate : ℤ → Tenant → Tenant
deactivate now t = record t { status = inactive; updated_at = utc now }

-- Tenant.activate
abbrev pub activate : ℤ → Tenant → Tenant
activate now t = record t { status = active; updated_at = utc now }

abbrev pub has_tenant_id : ℕ → Tenant → Bool
has_tenant_id i t = t.id == i

abbrev pub has_slug : String → Tenant → Bool
has_slug s t = str_eq t.slug s

-- self._tenants[tenant.id] = tenant
abbrev pub put_tenant : Tenant → List Tenant → List Tenant
put_tenant t [] = t ∷ []
put_tenant t (x ∷ xs) =
    let rest = put_tenant t xs in if has_tenant_id t.id x then t ∷ xs else x ∷ rest

-- InMemoryTenantRepository.save
abbrev pub keep_tenant : Tenant → Exec (List Tenant) Tenant
keep_tenant t = do modify (put_tenant t); pure t

-- InMemoryTenantRepository.get_by_id
abbrev pub find_tenant : ℕ → Exec (List Tenant) (Option Tenant)
find_tenant i = gets (find (has_tenant_id i))

-- InMemoryTenantRepository.get_by_slug
abbrev pub find_slug : String → Exec (List Tenant) (Option Tenant)
find_slug s = gets (find (has_slug s))

-- InMemoryTenantRepository.delete: only the status of the stored object is assigned
unfoldable pub remove_tenant : ℕ → Exec (List Tenant) Bool
remove_tenant i tenants = elim (find (has_tenant_id i) tenants) [
  | none ↦ (ok false, tenants)
  | some t ↦ (
    ok true,
    map (λ (x : Tenant). if has_tenant_id i x then record x { status = inactive } else x) tenants,
  )
]

-- the constraints of the table: the primary key and the unique slug
abbrev pub tenant_conflict : Tenant → List Tenant → Bool
tenant_conflict t rows = any (has_tenant_id t.id) rows || any (has_slug t.slug) rows

abbrev pub other_rows : Tenant → List Tenant → List Tenant
other_rows t rows = filter (λ x. not (has_tenant_id t.id x)) rows

-- what an update of a row writes
abbrev pub assigned_tenant : Tenant → Tenant → Tenant
assigned_tenant t m = record m {
  name = t.name;
  slug = t.slug;
  status = t.status;
  updated_at = t.updated_at;
}

-- session.flush() with the row of a tenant added or changed
unfoldable pub flush_tenant : Tenant → Option Tenant → Exec (List Tenant) Tenant
flush_tenant t none rows =
    if tenant_conflict t rows then (err integrity_error, rows) else (new_tenant t, rows ++ t ∷ [])
flush_tenant t (some m) rows =
    let changed = assigned_tenant t m in
    if any (has_slug changed.slug) (other_rows t rows)
    then (err integrity_error, rows)
    else (new_tenant changed, map (λ x. if has_tenant_id t.id x then changed else x) rows)

-- PostgresTenantRepository.save
unfoldable pub save_tenant : Tenant → Exec (List Tenant) Tenant
save_tenant t = do
  rows ← gets (filter (has_tenant_id t.id))
  model ← lift (scalar_one_or_none rows)
  flush_tenant t model

abbrev pub optional_tenant : Option Tenant → Result (Option Tenant)
optional_tenant none = ok none
optional_tenant (some m) = elim (new_tenant m) [ ok t ↦ ok (some t) | err x ↦ err x ]

-- PostgresTenantRepository.get_by_id
unfoldable pub select_tenant : ℕ → Exec (List Tenant) (Option Tenant)
select_tenant i = do
  rows ← gets (filter (has_tenant_id i))
  model ← lift (scalar_one_or_none rows)
  lift (optional_tenant model)

-- PostgresTenantRepository.get_by_slug
unfoldable pub select_slug : String → Exec (List Tenant) (Option Tenant)
select_slug s = do
  rows ← gets (filter (has_slug s))
  model ← lift (scalar_one_or_none rows)
  lift (optional_tenant model)

-- PostgresTenantRepository.delete, at the time `now`
unfoldable pub delete_tenant : ℤ → ℕ → Exec (List Tenant) Bool
delete_tenant now i rows = elim (scalar_one_or_none (filter (has_tenant_id i) rows)) [
  | err x ↦ (err x, rows)
  | ok none ↦ (ok false, rows)
  | ok (some m) ↦
      (ok true, map (λ (x : Tenant). if has_tenant_id i x then deactivate now x else x) rows)
]

-- the optional filters of a listing of tenants
pub record TenantQuery : Type 0 where
  pub search : Option String
  pub wanted : Option String
  pub tenant_filter : Option ℕ

abbrev pub given : Option String → Option String
given none = none
given (some s) = if is_empty s then none else some s

abbrev pub is_wanted : Option ℕ → Tenant → Bool
is_wanted none t = true
is_wanted (some i) t = has_tenant_id i t

abbrev pub has_status : Option String → Tenant → Bool
has_status none t = true
has_status (some s) t = str_eq (tenant_status_value t.status) s

abbrev pub found_by : (String → String → Bool) → Option String → Tenant → Bool
found_by within none t = true
found_by within (some s) t = within s t.name || within s t.slug

-- InMemoryTenantRepository.list
unfoldable pub list_tenants_in_memory :
    (String → String) → ℕ → ℕ → TenantQuery → List Tenant → List Tenant
list_tenants_in_memory lower skip limit q tenants = page skip limit (
    filter (has_status (given q.wanted)) (
      filter (found_by (λ s text. contains (lower s) (lower text)) (given q.search))
        (filter (is_wanted q.tenant_filter) tenants)))

abbrev pub parsed_status : Option String → Result (Option TenantStatus)
parsed_status none = ok none
parsed_status (some s) = elim (parse_tenant_status s) [ ok v ↦ ok (some v) | err x ↦ err x ]

-- PostgresTenantRepository.list: a status that is none raises
unfoldable pub list_tenants :
    (String → String → Bool)
    → (List Tenant → List Tenant)
    → ℕ
    → ℕ
    → TenantQuery
    → Exec (List Tenant) (List Tenant)
unfolding parse_tenant_status
list_tenants ilike in_table_order skip limit q = do
  checked_status ← lift (parsed_status (given q.wanted))
  gets (λ rows. page skip limit (
      in_table_order (
        filter (has_status (given q.wanted))
          (filter (found_by ilike (given q.search)) (filter (is_wanted q.tenant_filter) rows)))))
