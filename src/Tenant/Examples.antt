-- ===== src/Tenant/Examples.antt =====
-- The handlers of tenants at concrete inputs.
use prefeitura_anti_hack.Prelude.{◌≡◌, refl, true, String, none, some, List, [], ◌∷◌, ◌++◌}
use prefeitura_anti_hack.Prelude.Int.{pos}
use prefeitura_anti_hack.Prelude.Python.{ok, err, value_error}
use prefeitura_anti_hack.Prelude.Exec.{Exec, modify}
use prefeitura_anti_hack.Domain.{utc}
use prefeitura_anti_hack.Tenant.{
  Tenant, active, inactive, new_tenant, save_tenant, flush_tenant, select_slug, select_tenant,
  delete_tenant, parse_tenant_status,
}
use prefeitura_anti_hack.Tenant.Handlers.{
  TenantCreatedEvent, tenant_response, in_memory, postgres, create_tenant, update_tenant,
  delete_tenant_command,
}
use prefeitura_anti_hack.Tenant.Postgres.{postgres-KeepsSlugs}
use prefeitura_anti_hack.Tenant.Calls.{Calls, done, deletes, create_tenant_twice}

abbrev town : Tenant
town = record {
  id = 1;
  name = "Town";
  slug = "town";
  status = active;
  created_at = utc (pos 5);
  updated_at = utc (pos 5);
}

abbrev keep_event : TenantCreatedEvent → Exec (List TenantCreatedEvent) (Unit {0})
keep_event e = modify (λ events. events ++ e ∷ [])

abbrev as_slug : String → String
as_slug name = "town"

abbrev town_created : List TenantCreatedEvent
town_created = record { tenant_id = 1; name = "Town"; slug = "town" } ∷ []

created :
    create_tenant (postgres (pos 7)) keep_event as_slug 1 (pos 5) "Town" none ([], [])
    ≡ (ok (tenant_response town), (town ∷ [], town_created))
unfolding create_tenant select_slug save_tenant flush_tenant new_tenant
created = refl

created_in_memory :
    create_tenant in_memory keep_event as_slug 1 (pos 5) "Town" none ([], [])
    ≡ (ok (tenant_response town), (town ∷ [], town_created))
unfolding create_tenant new_tenant
created_in_memory = refl

abbrev closed_town : Tenant
closed_town = record town { status = inactive; updated_at = utc (pos 7) }

deleted : delete_tenant_command (postgres (pos 7)) 1 (town ∷ []) ≡ (ok true, closed_town ∷ [])
unfolding delete_tenant_command select_tenant delete_tenant new_tenant
deleted = refl

unused : ((postgres (pos 7)).get_by_id 1 []).0 ≡ ok none
unfolding select_tenant
unused = refl

deleted_calls :
    Calls
      (postgres (pos 7))
      keep_event
      as_slug
      (town ∷ [], town_created)
      (closed_town ∷ [], town_created)
deleted_calls = deletes 1 true deleted done

create_tenant_twice_example :
    create_tenant
      (postgres (pos 7))
      keep_event
      as_slug
      2
      (pos 9)
      "Other"
      (some "town")
      (closed_town ∷ [], town_created)
    ≡ (err value_error, (closed_town ∷ [], town_created))
create_tenant_twice_example =
    create_tenant_twice (postgres (pos 7)) (postgres-KeepsSlugs (pos 7)) keep_event as_slug 1
      (pos 5) "Town" none (tenant_response town) [] (town ∷ []) (closed_town ∷ []) [] town_created
      town_created unused created deleted_calls 2 (pos 9) "Other" (some "town") refl

-- a status that is none raises, and the object in the dictionary has the new name already
renamed_before_raise :
    update_tenant in_memory (pos 9) 1 (some "City") (some "OPEN") (town ∷ [])
    ≡ (err value_error, record town { name = "City"; updated_at = utc (pos 9) } ∷ [])
unfolding update_tenant parse_tenant_status
renamed_before_raise = refl

unchanged_in_table :
    update_tenant (postgres (pos 9)) (pos 9) 1 (some "City") (some "OPEN") (town ∷ [])
    ≡ (err value_error, town ∷ [])
unfolding update_tenant parse_tenant_status select_tenant new_tenant
unchanged_in_table = refl
