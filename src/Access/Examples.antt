-- ===== src/Access/Examples.antt =====
-- The theorems on access at concrete users.
use prefeitura_anti_hack.Prelude.{
  ℕ, ◌≡◌, ◌≢◌, refl, ◌⊎◌, String, true, false, Option, none, some, [], ◌∷◌,
}
use prefeitura_anti_hack.Prelude.Python.{ok, err, cross_tenant_access_denied}
use prefeitura_anti_hack.Access.{
  engineer, AuthenticatedUser, uuid, Target, among, parse_uuid, authorize_tenant_access,
  has_required_role, has_permission, user_role, role_allows,
}
use prefeitura_anti_hack.Access.Tenants.{Allowed, authorize_tenant_access-isolates}

abbrev same : String → String
same s = s

abbrev nothing : String → Option ℕ
nothing s = none

abbrev operator : AuthenticatedUser
operator = record { user_id = "ana"; tenant_id = 7; roles = "analyst" ∷ [] }

is_engineer : has_required_role ("guest" ∷ "engineer" ∷ []) engineer ≡ true
unfolding has_required_role user_role
is_engineer = refl

analyst_posts : has_permission same same ("analyst" ∷ []) "logs" "POST" ≡ true
unfolding has_permission user_role role_allows
analyst_posts = refl

admin_reads_users : has_permission same same ("system_admin" ∷ []) "users" "GET" ≡ true
unfolding has_permission user_role role_allows
admin_reads_users = refl

authorize_tenant_access-isolates_example :
    ((t : ℕ) × (authorize_tenant_access nothing operator (some (uuid 8)) ≡ ok t)
      × Allowed nothing operator (some (uuid 8)) t)
    ⊎ ((authorize_tenant_access nothing operator (some (uuid 8)) ≡ err cross_tenant_access_denied)
        × (among "system_admin" operator.roles ≡ false)
        × ((target : Target) × (some (uuid 8) ≡ some target)
            × (parse_uuid nothing target ≢ some operator.tenant_id)))
authorize_tenant_access-isolates_example =
    authorize_tenant_access-isolates nothing operator (some (uuid 8))
