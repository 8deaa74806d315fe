-- ===== src/Access/Tenants.antt =====
-- The isolation of tenants.
use prefeitura_anti_hack.Prelude.{
  ℕ, ◌≡◌, ◌≢◌, refl, ◌⊎◌, inl, inr, String, true, false, Option, none, some, Bool-cases,
  Option-cases, ◌==◌, arith,
}
use prefeitura_anti_hack.Prelude.Python.{ok, err, cross_tenant_access_denied}
use prefeitura_anti_hack.Access.{
  AuthenticatedUser, Target, among, parse_uuid, authorize_tenant_access,
}

module _ (parse : String → Option ℕ) (user : AuthenticatedUser) where
  -- The tenant that a call may work on.
  pub data Allowed : Option Target → ℕ → Type 0 where
    own : (o : Option Target) → Allowed o user.tenant_id
    crossing :
        (target : Target) (t : ℕ)
        → parse_uuid parse target ≡ some t
        → among "system_admin" user.roles ≡ true
        → Allowed (some target) t

  -- Every call returns the user's own tenant, or for a system administrator the tenant that was
  -- asked for, or it is denied: then the user is no system administrator and a tenant was asked
  -- for that is not the user's own, or is none.
  pub authorize_tenant_access-isolates :
      (o : Option Target)
      → ((t : ℕ) × (authorize_tenant_access parse user o ≡ ok t) × Allowed o t)
        ⊎ ((authorize_tenant_access parse user o ≡ err cross_tenant_access_denied)
            × (among "system_admin" user.roles ≡ false)
            × ((target : Target) × (o ≡ some target)
                × (parse_uuid parse target ≢ some user.tenant_id)))
  unfolding authorize_tenant_access
  authorize_tenant_access-isolates none = inl (user.tenant_id, refl, own none)
  authorize_tenant_access-isolates (some target) =
      elim (Bool-cases (among "system_admin" user.roles)) [
        | inl a ↦ elim (Option-cases (parse_uuid parse target)) [
          | inl p ↦ inl (user.tenant_id, ground (arith, p, a), own (some target))
          | inr (t, p) ↦ elim (Bool-cases (t == user.tenant_id)) [
            | inl q ↦ inl (user.tenant_id, ground (arith, p, q), own (some target))
            | inr q ↦ inl (t, ground (arith, p, q, a), crossing target t p a)
          ]
        ]
        | inr a ↦ elim (Option-cases (parse_uuid parse target)) [
          | inl p ↦ inr (ground (arith, p, a), a, (target, refl, λ h. absurd (cc (h, p))))
          | inr (t, p) ↦ elim (Bool-cases (t == user.tenant_id)) [
            | inl q ↦ inl (user.tenant_id, ground (arith, p, q), own (some target))
            | inr q ↦
                inr (
                  ground (arith, p, q, a),
                  a,
                  (target, refl, λ h. absurd (ground (arith, h, p, q))),
                )
          ]
        ]
      ]
