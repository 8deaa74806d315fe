-- ===== src/Tenant/Slugs.antt =====
-- The slug of a tenant stays taken, in any repository that keeps the laws below.
use mathlib.Core.Path.{subst}
use prefeitura_anti_hack.Prelude.{
  ℕ, ◌≡◌, String, Bool, Option, none, some, [], ◌∷◌, arith, inl, inr, Option-cases,
}
use prefeitura_anti_hack.Prelude.Int.{ℤ}
use prefeitura_anti_hack.Prelude.Python.{
  ok, err, value_error, Result-cases, validations, raise_if, checked-same,
}
use prefeitura_anti_hack.Prelude.Exec.{Exec}
use prefeitura_anti_hack.Domain.{utc}
use prefeitura_anti_hack.Tenant.{Tenant, active, misses, new_tenant}
use prefeitura_anti_hack.Tenant.Handlers.{
  TenantRepository, TenantCreatedEvent, TenantResponse, given_or, create_tenant,
}

-- the tenant that a lookup by slug returns
abbrev pub Taken : {S : Type 0} → TenantRepository S → String → S → Type 0
Taken repo k s = (x : Tenant) × ((repo.get_by_slug k s).0 ≡ ok (some x))

-- the same identifier and slug
abbrev pub Matches : Tenant → Tenant → Type 0
Matches old t = (t.id ≡ old.id) × (t.slug ≡ old.slug)

-- What a repository gives: a lookup changes nothing, a new tenant is found by its slug, and neither
-- a new tenant nor a deletion nor a change of a stored tenant takes a slug away.
pub record KeepsSlugs {S : Type 0} (repo : TenantRepository S) : Type 0 where
  pub id_read : (i : ℕ) (s : S) → (repo.get_by_id i s).1 ≡ s
  pub slug_read : (k : String) (s : S) → (repo.get_by_slug k s).1 ≡ s
  pub added :
      (t u : Tenant) (s s' : S)
      → (repo.get_by_id t.id s).0 ≡ ok none
      → (repo.get_by_slug t.slug s).0 ≡ ok none
      → repo.save t s ≡ (ok u, s')
      → Taken repo t.slug s'
  pub beside :
      (t u : Tenant) (k : String) (s s' : S)
      → (repo.get_by_id t.id s).0 ≡ ok none
      → (repo.get_by_slug t.slug s).0 ≡ ok none
      → repo.save t s ≡ (ok u, s')
      → Taken repo k s
      → Taken repo k s'
  pub deleted :
      (i : ℕ) (k : String) (b : Bool) (s s' : S)
      → repo.delete i s ≡ (ok b, s')
      → Taken repo k s
      → Taken repo k s'
  pub changed :
      (i : ℕ) (old t v u : Tenant) (k : String) (s s' : S)
      → (repo.get_by_id i s).0 ≡ ok (some old)
      → Matches old t
      → Matches old v
      → repo.save v (repo.assigned v (repo.assigned t s)) ≡ (ok u, s')
      → Taken repo k s
      → Taken repo k s'

-- the constructor changes nothing
pub new_tenant-same : (t v : Tenant) → new_tenant t ≡ ok v → v ≡ t
unfolding new_tenant
new_tenant-same t v h =
    checked-same
      (validations (
        raise_if (misses 2 128 t.name) value_error
        ∷ raise_if (misses 2 64 t.slug) value_error
        ∷ []))
      t v h

module _ {S P : Type 0} (repo : TenantRepository S) (laws : KeepsSlugs repo)
    (publish : TenantCreatedEvent → Exec P (Unit {0})) (slug_of : String → String) where
  -- the tenant that a create makes
  abbrev pub new_one : ℕ → ℤ → String → Option String → Tenant
  new_one i now name slug = record {
    id = i;
    name = name;
    slug = given_or (slug_of name) slug;
    status = active;
    created_at = utc now;
    updated_at = utc now;
  }

  abbrev created_event : Tenant → TenantCreatedEvent
  created_event u = record { tenant_id = u.id; name = u.name; slug = u.slug }

  -- a slug that is found refuses another tenant
  pub refused :
      (i : ℕ) (now : ℤ) (name : String) (slug : Option String) (t : Tenant) (s : S) (p : P)
      → (repo.get_by_slug (given_or (slug_of name) slug) s).0 ≡ ok (some t)
      → create_tenant repo publish slug_of i now name slug (s, p) ≡ (err value_error, (s, p))
  unfolding create_tenant
  refused i now name slug t s p h =
      let same = laws.slug_read (given_or (slug_of name) slug) s in ground (arith, h, same)

  -- a create that returns has found no tenant of its slug
  pub free_before :
      (i : ℕ) (now : ℤ) (name : String) (slug : Option String) (s : S) (p : P) (r : TenantResponse)
      (z : S × P)
      → create_tenant repo publish slug_of i now name slug (s, p) ≡ (ok r, z)
      → (repo.get_by_slug (given_or (slug_of name) slug) s).0 ≡ ok none
  unfolding create_tenant
  free_before i now name slug s p r z h =
      elim (Result-cases (repo.get_by_slug (given_or (slug_of name) slug) s).0) [
        | inr (x, e) ↦ absurd (ground (arith, e, h))
        | inl (o, e) ↦ elim (Option-cases o) [
          | inl n ↦ ground (arith, e, n)
          | inr (t, n) ↦ absurd (ground (arith, e, n, h))
        ]
      ]

  -- the rest of a create once the slug was free
  pub saved_by :
      (i : ℕ) (now : ℤ) (name : String) (slug : Option String) (s s' : S) (p p' : P)
      (r : TenantResponse)
      → (repo.get_by_slug (given_or (slug_of name) slug) s).0 ≡ ok none
      → create_tenant repo publish slug_of i now name slug (s, p) ≡ (ok r, (s', p'))
      → (u : Tenant) × (repo.save (new_one i now name slug) s ≡ (ok u, s'))
  unfolding create_tenant
  saved_by i now name slug s s' p p' r free h =
      let same = laws.slug_read (given_or (slug_of name) slug) s in
      let t = new_one i now name slug in
      elim (Result-cases (new_tenant t)) [
        | inr (x, e) ↦ absurd (ground (arith, e, free, h))
        | inl (v, e) ↦ elim (Result-cases (repo.save v s).0) [
          | inr (x, q) ↦ absurd (ground (arith, e, q, free, same))
          | inl (u, q) ↦
              let is_new : v ≡ t = new_tenant-same t v e in
              let q' : (repo.save t s).0 ≡ ok u = subst (λ x. (repo.save x s).0 ≡ ok u) is_new q in
              let e' : new_tenant t ≡ ok t = rw is_new at e in
              let w : (repo.save t s).1 ≡ s' = elim (Result-cases (publish (created_event u) p).0) [
                | inl (y, f) ↦ ground (arith, q', e', f, free, same, h)
                | inr (y, f) ↦ absurd (ground (arith, q', e', f, free, same, h))
              ] in
              (u, ground (arith, q', w))
        ]
      ]
