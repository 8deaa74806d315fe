-- ===== src/Access/Roles.antt =====
-- The hierarchy of roles, and what each role permits.
use prefeitura_anti_hack.Prelude.{
  ◌≤◌, ◌≡◌, refl, sym, ◌∙◌, inl, inr, String, true, false, some, List, [], ◌∷◌, Bool-cases,
  Option-cases, leb, arith,
}
use prefeitura_anti_hack.Access.{
  UserRole, viewer, analyst, engineer, security_admin, system_admin, value, user_role,
  role_hierarchy, among, reaches, has_required_role, role_allows, has_permission,
}

reaches_mono :
    (s : String) (low high : UserRole)
    → role_hierarchy low ≤ role_hierarchy high
    → reaches high s ≡ true
    → reaches low s ≡ true
reaches_mono s low high l h = elim (Option-cases (user_role s)) [
  | inl p ↦ absurd (ground (arith, p, h))
  | inr (r, p) ↦ ground (arith, l, p, h)
]

-- Whoever has a required role has every role that is not above it in the hierarchy.
pub has_required_role_mono :
    (roles : List String) (low high : UserRole)
    → role_hierarchy low ≤ role_hierarchy high
    → has_required_role roles high ≡ true
    → has_required_role roles low ≡ true
unfolding has_required_role
has_required_role_mono [] low high l h = h
has_required_role_mono (s ∷ roles) low high l h = elim (Bool-cases (reaches high s)) [
  | inl p ↦ rw (reaches_mono s low high l p) refl
  | inr p ↦
      let k : has_required_role roles high ≡ true = ground (arith, h, p) in
      let m : has_required_role roles low ≡ true = has_required_role_mono roles low high l k in
      ground (arith, m)
]

analyst_over_viewer :
    (resource action : String)
    → role_allows viewer resource action ≡ true
    → role_allows analyst resource action ≡ true
unfolding role_allows
analyst_over_viewer resource action h = ground (arith, h)

engineer_over_analyst :
    (resource action : String)
    → role_allows analyst resource action ≡ true
    → role_allows engineer resource action ≡ true
unfolding role_allows
engineer_over_analyst resource action h = ground (arith, h)

security_admin_over_engineer :
    (resource action : String)
    → role_allows engineer resource action ≡ true
    → role_allows security_admin resource action ≡ true
unfolding role_allows
security_admin_over_engineer resource action h = ground (arith, h)

admin_allows : (resource action : String) → role_allows system_admin resource action ≡ true
unfolding role_allows
admin_allows resource action = refl

role_allows_mono :
    (low high : UserRole) (resource action : String)
    → role_hierarchy low ≤ role_hierarchy high
    → role_allows low resource action ≡ true
    → role_allows high resource action ≡ true
role_allows_mono low system_admin s a l h = admin_allows s a
role_allows_mono viewer viewer s a l h = h
role_allows_mono viewer analyst s a l h = analyst_over_viewer s a h
role_allows_mono viewer engineer s a l h = engineer_over_analyst s a (analyst_over_viewer s a h)
role_allows_mono viewer security_admin s a l h =
    security_admin_over_engineer s a (engineer_over_analyst s a (analyst_over_viewer s a h))
role_allows_mono analyst viewer s a l h = absurd (omega (arith, l))
role_allows_mono analyst analyst s a l h = h
role_allows_mono analyst engineer s a l h = engineer_over_analyst s a h
role_allows_mono analyst security_admin s a l h =
    security_admin_over_engineer s a (engineer_over_analyst s a h)
role_allows_mono engineer engineer s a l h = h
role_allows_mono engineer security_admin s a l h = security_admin_over_engineer s a h
role_allows_mono engineer _ s a l h = absurd (omega (arith, l))
role_allows_mono security_admin security_admin s a l h = h
role_allows_mono security_admin _ s a l h = absurd (omega (arith, l))
role_allows_mono system_admin _ s a l h = absurd (omega (arith, l))

user_role-value : (r : UserRole) → user_role (value r) ≡ some r
unfolding user_role
user_role-value viewer = refl
user_role-value analyst = refl
user_role-value engineer = refl
user_role-value security_admin = refl
user_role-value system_admin = refl

other_resources :
    (r : UserRole) (resource action : String)
    → among resource ("tenants" ∷ "logs" ∷ "incidents" ∷ "policies" ∷ []) ≡ false
    → role_allows r resource action ≡ true
    → leb 5 (role_hierarchy r) ≡ true
unfolding role_allows
other_resources viewer resource action n h = absurd (ground (arith, n, h))
other_resources analyst resource action n h = absurd (ground (arith, n, h))
other_resources engineer resource action n h = absurd (ground (arith, n, h))
other_resources security_admin resource action n h = absurd (ground (arith, n, h))
other_resources system_admin resource action n h = refl

module _ (upper lower : String → String) where
  one_role :
      (r : UserRole) (resource action : String)
      → role_allows r (lower resource) (upper action)
        ≡ has_permission upper lower (value r ∷ []) resource action
  unfolding has_permission
  one_role r resource action = rw (user_role-value r) (ground arith)

  -- Whatever a role permits on its own, every role above it permits.
  pub has_permission_mono :
      (low high : UserRole) (resource action : String)
      → role_hierarchy low ≤ role_hierarchy high
      → has_permission upper lower (value low ∷ []) resource action ≡ true
      → has_permission upper lower (value high ∷ []) resource action ≡ true
  has_permission_mono low high resource action l h =
      let k : role_allows low (lower resource) (upper action) ≡ true =
        one_role low resource action ∙ h in
      sym (one_role high resource action)
      ∙ role_allows_mono low high (lower resource) (upper action) l k

  -- A resource that is none of the four that other roles are given is permitted only to system
  -- administrators.
  pub has_permission-denies :
      (roles : List String) (resource action : String)
      → among (lower resource) ("tenants" ∷ "logs" ∷ "incidents" ∷ "policies" ∷ []) ≡ false
      → has_permission upper lower roles resource action ≡ true
      → has_required_role roles system_admin ≡ true
  unfolding has_permission has_required_role
  has_permission-denies [] resource action n h = h
  has_permission-denies (s ∷ roles) resource action n h = elim (Option-cases (user_role s)) [
    | inl p ↦
        let m = has_permission-denies roles resource action n (ground (arith, p, h)) in
        ground (arith, p, m)
    | inr (r, p) ↦ elim (Bool-cases (role_allows r (lower resource) (upper action))) [
      | inl a ↦
          let k = other_resources r (lower resource) (upper action) n a in ground (arith, p, k)
      | inr a ↦
          let k : has_permission upper lower roles resource action ≡ true =
            ground (arith, p, h, a) in
          let m = has_permission-denies roles resource action n k in ground (arith, m)
    ]
  ]
