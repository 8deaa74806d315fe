-- ===== src/Tenant/Handlers.antt =====
-- CreateTenantHandler, UpdateTenantHandler and DeleteTenantHandler of
-- src/core/application/handlers.py over the operations of a repository, and the two repositories.
use prefeitura_anti_hack.Prelude.{ℕ, String, Bool, Option, none, some, List, if◌then◌else◌}
use prefeitura_anti_hack.Prelude.Int.{ℤ}
use prefeitura_anti_hack.Prelude.Text.{is_empty}
use prefeitura_anti_hack.Prelude.Python.{Result, ok, err, value_error}
use prefeitura_anti_hack.Prelude.Exec.{
  Exec, pure, lift, modify, raise_when, in_store, on_publisher, ◌>>=◌, ◌>>◌,
}
use prefeitura_anti_hack.Event.{is_some}
use prefeitura_anti_hack.Domain.{TimeValue, utc}
use prefeitura_anti_hack.Tenant.{
  Tenant, TenantStatus, active, tenant_status_value, parse_tenant_status, new_tenant, update_name,
  put_tenant, keep_tenant, find_tenant, find_slug, remove_tenant, save_tenant, select_tenant,
  select_slug, delete_tenant,
}

-- The operations of TenantRepository that the handlers call. `assigned` is what the store shows of
-- an assignment to a tenant that get_by_id returned.
pub record TenantRepository (S : Type 0) : Type 0 where
  pub get_by_id : ℕ → Exec S (Option Tenant)
  pub get_by_slug : String → Exec S (Option Tenant)
  pub save : Tenant → Exec S Tenant
  pub delete : ℕ → Exec S Bool
  pub assigned : Tenant → S → S

-- the dictionary holds the objects that it returns
abbrev pub in_memory : TenantRepository (List Tenant)
in_memory = record {
  get_by_id = find_tenant;
  get_by_slug = find_slug;
  save = keep_tenant;
  delete = remove_tenant;
  assigned = put_tenant;
}

-- every query builds new entities
abbrev pub postgres : ℤ → TenantRepository (List Tenant)
postgres now = record {
  get_by_id = select_tenant;
  get_by_slug = select_slug;
  save = save_tenant;
  delete = delete_tenant now;
  assigned = λ t s. s;
}

pub record TenantResponse : Type 0 where
  pub id : ℕ
  pub name : String
  pub slug : String
  pub status : String
  pub created_at : TimeValue
  pub updated_at : TimeValue

abbrev pub tenant_response : Tenant → TenantResponse
tenant_response t = record {
  id = t.id;
  name = t.name;
  slug = t.slug;
  status = tenant_status_value t.status;
  created_at = t.created_at;
  updated_at = t.updated_at;
}

pub record TenantCreatedEvent : Type 0 where
  pub tenant_id : ℕ
  pub name : String
  pub slug : String

-- a text of a payload that is given and not empty
abbrev pub given_or : String → Option String → String
given_or default none = default
given_or default (some s) = if is_empty s then default else s

-- if name: tenant.update_name(name)
abbrev pub renamed : Option String → ℤ → Tenant → Tenant
renamed none now t = t
renamed (some s) now t = if is_empty s then t else update_name s now t

abbrev pub with_status : ℤ → Tenant → Result TenantStatus → Result Tenant
with_status now t (ok v) = ok (record t { status = v; updated_at = utc now })
with_status now t (err x) = err x

-- if status_str: tenant.status = TenantStatus(status_str)
abbrev pub restated : Option String → ℤ → Tenant → Result Tenant
restated none now t = ok t
restated (some s) now t = if is_empty s then ok t else with_status now t (parse_tenant_status s)

-- if not tenant: raise ValueError
abbrev pub present : Option Tenant → Result Tenant
present none = err value_error
present (some t) = ok t

module _ {S : Type 0} (repo : TenantRepository S) where
  -- CreateTenantHandler.handle; `new_id` is the generated identifier and `slug_of` the text that
  -- the regular expression makes of the name
  unfoldable pub create_tenant :
      {P : Type 0}
      → (TenantCreatedEvent → Exec P (Unit {0}))
      → (String → String)
      → ℕ
      → ℤ
      → String
      → Option String
      → Exec (S × P) TenantResponse
  create_tenant publish slug_of new_id now name slug = do
    existing ← in_store (repo.get_by_slug (given_or (slug_of name) slug))
    raise_when (is_some existing) value_error
    tenant ← lift (
        new_tenant (record {
          id = new_id;
          name = name;
          slug = given_or (slug_of name) slug;
          status = active;
          created_at = utc now;
          updated_at = utc now;
        }))
    saved ← in_store (repo.save tenant)
    on_publisher (publish (record { tenant_id = saved.id; name = saved.name; slug = saved.slug }))
    pure (tenant_response saved)

  -- UpdateTenantHandler.handle
  unfoldable pub update_tenant : ℤ → ℕ → Option String → Option String → Exec S TenantResponse
  update_tenant now tenant_id name status = do
    found ← repo.get_by_id tenant_id
    tenant ← lift (present found)
    modify (repo.assigned (renamed name now tenant))
    changed ← lift (restated status now (renamed name now tenant))
    modify (repo.assigned changed)
    saved ← repo.save changed
    pure (tenant_response saved)

  -- DeleteTenantHandler.handle
  unfoldable pub delete_tenant_command : ℕ → Exec S Bool
  delete_tenant_command tenant_id = do
    found ← repo.get_by_id tenant_id
    lift (present found)
    repo.delete tenant_id
