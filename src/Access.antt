-- ===== src/Access.antt =====
-- Roles and permissions (src/core/infrastructure/security/rbac.py), SecurityKernel.authorize of
-- src/core/infrastructure/security/kernel.py, and TenantAuthorizationService of
-- src/core/domain/tenant_auth.py. Case mapping and the parsing of a UUID are parameters.
pub mod Roles
pub mod Tenants
mod Examples
use prefeitura_anti_hack.Prelude.{
  ℕ, ◌==◌, leb, String, Bool, true, false, not, any, ◌||◌, Option, none, some, List, [], ◌∷◌,
  if◌then◌else◌, str_eq,
}
use prefeitura_anti_hack.Prelude.Text.{is_blank, is_empty, strip}
use prefeitura_anti_hack.Prelude.Python.{
  Result, ok, err, permission_error, cross_tenant_access_denied, checked, raise_if,
}

pub data UserRole : Type 0 where
  viewer : UserRole
  analyst : UserRole
  engineer : UserRole
  security_admin : UserRole
  system_admin : UserRole

-- the value of a member of the enumeration
abbrev pub value : UserRole → String
value viewer = "viewer"
value analyst = "analyst"
value engineer = "engineer"
value security_admin = "security_admin"
value system_admin = "system_admin"

abbrev pub user_roles : List UserRole
user_roles = viewer ∷ analyst ∷ engineer ∷ security_admin ∷ system_admin ∷ []

abbrev pub member : String → List UserRole → Option UserRole
member s [] = none
member s (r ∷ rs) = let rest = member s rs in if str_eq (value r) s then some r else rest

-- UserRole(role_str), where `none` is its ValueError
unfoldable pub user_role : String → Option UserRole
user_role s = member s user_roles

abbrev pub role_hierarchy : UserRole → ℕ
role_hierarchy viewer = 1
role_hierarchy analyst = 2
role_hierarchy engineer = 3
role_hierarchy security_admin = 4
role_hierarchy system_admin = 5

abbrev pub role_permissions : UserRole → List (String × List String)
role_permissions viewer =
    ("tenants", "GET" ∷ []) ∷ ("logs", "GET" ∷ []) ∷ ("incidents", "GET" ∷ []) ∷ []
role_permissions analyst =
    ("tenants", "GET" ∷ [])
    ∷ ("logs", "GET" ∷ "POST" ∷ [])
    ∷ ("incidents", "GET" ∷ "POST" ∷ "PUT" ∷ [])
    ∷ []
role_permissions engineer =
    ("tenants", "GET" ∷ "POST" ∷ "PUT" ∷ [])
    ∷ ("logs", "GET" ∷ "POST" ∷ [])
    ∷ ("incidents", "GET" ∷ "POST" ∷ "PUT" ∷ [])
    ∷ []
role_permissions security_admin =
    ("tenants", "GET" ∷ "POST" ∷ "PUT" ∷ "DELETE" ∷ [])
    ∷ ("logs", "GET" ∷ "POST" ∷ "DELETE" ∷ [])
    ∷ ("incidents", "GET" ∷ "POST" ∷ "PUT" ∷ "DELETE" ∷ [])
    ∷ ("policies", "GET" ∷ "POST" ∷ "PUT" ∷ "DELETE" ∷ [])
    ∷ []
role_permissions system_admin =
    ("tenants", "GET" ∷ "POST" ∷ "PUT" ∷ "DELETE" ∷ [])
    ∷ ("logs", "GET" ∷ "POST" ∷ "PUT" ∷ "DELETE" ∷ [])
    ∷ ("incidents", "GET" ∷ "POST" ∷ "PUT" ∷ "DELETE" ∷ [])
    ∷ ("policies", "GET" ∷ "POST" ∷ "PUT" ∷ "DELETE" ∷ [])
    ∷ ("users", "GET" ∷ "POST" ∷ "PUT" ∷ "DELETE" ∷ [])
    ∷ ("system", "GET" ∷ "POST" ∷ "PUT" ∷ "DELETE" ∷ [])
    ∷ []

-- perms.get(resource, set())
abbrev pub allowed_actions : String → List (String × List String) → List String
allowed_actions resource [] = []
allowed_actions resource ((name, actions) ∷ perms) =
    let rest = allowed_actions resource perms in if str_eq name resource then actions else rest

-- s in texts
abbrev pub among : String → List String → Bool
among s texts = any (λ t. str_eq t s) texts

abbrev pub reaches : UserRole → String → Bool
reaches required role_str = elim (user_role role_str) [
  | none ↦ false
  | some role ↦ leb (role_hierarchy required) (role_hierarchy role)
]

-- RBACManager.has_required_role
unfoldable pub has_required_role : List String → UserRole → Bool
has_required_role [] required_role = false
has_required_role (role_str ∷ roles) required_role =
    reaches required_role role_str || has_required_role roles required_role

abbrev pub is_system_admin : UserRole → Bool
is_system_admin r = elim r [ system_admin ↦ true | _ ↦ false ]

-- what one role allows
unfoldable pub role_allows : UserRole → String → String → Bool
role_allows role resource action =
    is_system_admin role
    || (let actions = allowed_actions resource (role_permissions role) in
        among action actions || among "*" actions)

module _ (upper lower : String → String) where
  -- RBACManager.has_permission, of the roles of a user
  unfoldable pub has_permission : List String → String → String → Bool
  has_permission [] resource action = false
  has_permission (role_str ∷ roles) resource action =
      elim (user_role role_str) [
        | none ↦ false
        | some role ↦ role_allows role (lower resource) (upper action)
      ]
      || has_permission roles resource action

  -- SecurityKernel.authorize for a role, and for an action on a resource
  abbrev pub authorize_role : List String → UserRole → Result Bool
  authorize_role roles role =
      checked (raise_if (not (has_required_role roles role)) permission_error) true

  abbrev pub authorize : List String → String → String → Result Bool
  authorize roles resource action =
      if is_empty resource
      then ok true
      else checked (raise_if (not (has_permission roles resource action)) permission_error) true

-- The argument target_tenant of authorize_tenant_access when it is given.
pub data Target : Type 0 where
  uuid : ℕ → Target
  text : String → Target

pub record AuthenticatedUser : Type 0 where
  pub user_id : String
  pub tenant_id : ℕ
  pub roles : List String

module _ (parse : String → Option ℕ) where
  -- TenantAuthorizationService._parse_uuid
  unfoldable pub parse_uuid : Target → Option ℕ
  parse_uuid (uuid u) = some u
  parse_uuid (text s) = if is_empty (strip s) then none else parse (strip s)

  -- TenantAuthorizationService.authorize_tenant_access
  unfoldable pub authorize_tenant_access : AuthenticatedUser → Option Target → Result ℕ
  authorize_tenant_access user none = ok user.tenant_id
  authorize_tenant_access user (some target) =
      let is_sys_admin = among "system_admin" user.roles in
      elim (parse_uuid target) [
        | none ↦ if is_sys_admin then ok user.tenant_id else err cross_tenant_access_denied
        | some t ↦
            if t == user.tenant_id
            then ok user.tenant_id
            else if is_sys_admin
            then ok t
            else err cross_tenant_access_denied
      ]
