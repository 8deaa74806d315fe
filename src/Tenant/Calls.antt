-- ===== src/Tenant/Calls.antt =====
-- Calls of the handlers of tenants, one after the other, in any repository that keeps the laws.
use mathlib.Core.Path.{subst}
use prefeitura_anti_hack.Prelude.{
  ℕ, ◌≡◌, refl, String, Bool, Option, none, some, arith, inl, inr, Bool-cases, Option-cases,
}
use prefeitura_anti_hack.Prelude.Int.{ℤ}
use prefeitura_anti_hack.Prelude.Text.{is_empty}
use prefeitura_anti_hack.Prelude.Python.{ok, err, value_error, Result-cases}
use prefeitura_anti_hack.Prelude.Exec.{Exec}
use prefeitura_anti_hack.Domain.{utc}
use prefeitura_anti_hack.Tenant.{Tenant, parse_tenant_status}
use prefeitura_anti_hack.Tenant.Handlers.{
  TenantRepository, TenantCreatedEvent, TenantResponse, given_or, renamed, restated, create_tenant,
  update_tenant, delete_tenant_command,
}
use prefeitura_anti_hack.Tenant.Slugs.{
  Taken, Matches, KeepsSlugs, refused, saved_by, free_before, new_one,
}

renamed-Matches : (name : Option String) (now : ℤ) (t : Tenant) → Matches t (renamed name now t)
renamed-Matches none now t = (refl, refl)
renamed-Matches (some s) now t = elim (Bool-cases (is_empty s)) [
  | inl e ↦ ground (arith, e)
  | inr e ↦ ground (arith, e)
]

restated-Matches :
    (status : Option String) (now : ℤ) (old t v : Tenant)
    → Matches old t
    → restated status now t ≡ ok v
    → Matches old v
restated-Matches none now old t v m h =
    let same : t ≡ v = ground (arith, h) in subst (λ (x : Tenant). Matches old x) same m
restated-Matches (some s) now old t v m h = elim (Bool-cases (is_empty s)) [
  | inl e ↦ let same : t ≡ v = ground (arith, e, h) in subst (λ (x : Tenant). Matches old x) same m
  | inr e ↦ elim (Result-cases (parse_tenant_status s)) [
    | inl (x, q) ↦
        let same : record t { status = x; updated_at = utc now } ≡ v = ground (arith, e, q, h) in
        subst (λ (y : Tenant). Matches old y) same m
    | inr (x, q) ↦ absurd (ground (arith, e, q, h))
  ]
]

module _ {S P : Type 0} (repo : TenantRepository S)
    (publish : TenantCreatedEvent → Exec P (Unit {0})) (slug_of : String → String) where
  -- calls that return, with the events that they publish in the second part of the state
  pub data Calls : S × P → S × P → Type 0 where
    done : {s : S × P} → Calls s s
    creates :
        {s s' z : S} {p p' y : P} (i : ℕ) (now : ℤ) (name : String) (slug : Option String)
        (r : TenantResponse)
        → (repo.get_by_id i s).0 ≡ ok none
        → create_tenant repo publish slug_of i now name slug (s, p) ≡ (ok r, (s', p'))
        → Calls (s', p') (z, y)
        → Calls (s, p) (z, y)
    updates :
        {s s' z : S} {p y : P} (now : ℤ) (i : ℕ) (name status : Option String) (r : TenantResponse)
        → update_tenant repo now i name status s ≡ (ok r, s')
        → Calls (s', p) (z, y)
        → Calls (s, p) (z, y)
    deletes :
        {s s' z : S} {p y : P} (i : ℕ) (b : Bool)
        → delete_tenant_command repo i s ≡ (ok b, s')
        → Calls (s', p) (z, y)
        → Calls (s, p) (z, y)

module _ {S P : Type 0} (repo : TenantRepository S) (laws : KeepsSlugs repo)
    (publish : TenantCreatedEvent → Exec P (Unit {0})) (slug_of : String → String) where
  -- a deletion of a tenant that exists
  deletes-Taken :
      (i : ℕ) (k : String) (b : Bool) (s s' : S)
      → delete_tenant_command repo i s ≡ (ok b, s')
      → Taken repo k s
      → Taken repo k s'
  unfolding delete_tenant_command
  deletes-Taken i k b s s' h w =
      let same = laws.id_read i s in
      elim (Result-cases (repo.get_by_id i s).0) [
        | inr (x, e) ↦ absurd (ground (arith, e, h))
        | inl (o, e) ↦ elim (Option-cases o) [
          | inl n ↦ absurd (ground (arith, e, n, h))
          | inr (t, n) ↦ laws.deleted i k b s s' (ground (arith, e, n, same, h)) w
        ]
      ]

  creates-Taken :
      (i : ℕ) (now : ℤ) (name : String) (slug : Option String) (r : TenantResponse) (k : String)
      (s s' : S) (p p' : P)
      → (repo.get_by_id i s).0 ≡ ok none
      → create_tenant repo publish slug_of i now name slug (s, p) ≡ (ok r, (s', p'))
      → Taken repo k s
      → Taken repo k s'
  creates-Taken i now name slug r k s s' p p' fresh h w =
      let t = new_one repo laws publish slug_of i now name slug in
      let free = free_before repo laws publish slug_of i now name slug s p r (s', p') h in
      let (u, q) = saved_by repo laws publish slug_of i now name slug s s' p p' r free h in
      laws.beside t u k s s' fresh free q w

  updates-Taken :
      (now : ℤ) (i : ℕ) (name status : Option String) (r : TenantResponse) (k : String) (s s' : S)
      → update_tenant repo now i name status s ≡ (ok r, s')
      → Taken repo k s
      → Taken repo k s'
  unfolding update_tenant
  updates-Taken now i name status r k s s' h w =
      let same = laws.id_read i s in
      elim (Result-cases (repo.get_by_id i s).0) [
        | inr (x, e) ↦ absurd (ground (arith, e, h))
        | inl (o, e) ↦ elim (Option-cases o) [
          | inl n ↦ absurd (ground (arith, e, n, h))
          | inr (old, n) ↦
              let t = renamed name now old in
              elim (Result-cases (restated status now t)) [
                | inr (x, f) ↦ absurd (ground (arith, e, n, f, h))
                | inl (v, f) ↦
                    let z = repo.assigned v (repo.assigned t s) in
                    elim (Result-cases (repo.save v z).0) [
                      | inr (x, g) ↦ absurd (ground (arith, e, n, f, g, same, h))
                      | inl (u, g) ↦
                          let q : repo.save v z ≡ (ok u, s') =
                            ground (arith, e, n, f, g, same, h) in
                          laws.changed i old t v u k s s' (ground (arith, e, n))
                            (renamed-Matches name now old)
                            (restated-Matches status now old t v (renamed-Matches name now old) f) q
                            w
                    ]
              ]
        ]
      ]

  -- A slug that is taken stays taken.
  calls-Taken :
      (k : String) (s z : S × P)
      → Calls repo publish slug_of s z
      → Taken repo k s.0
      → Taken repo k z.0
  calls-Taken k s z done w = w
  calls-Taken k s z (creates i now name slug r fresh h rest) w =
      calls-Taken k _ z rest (creates-Taken i now name slug r k _ _ _ _ fresh h w)
  calls-Taken k s z (updates now i name status r h rest) w =
      calls-Taken k _ z rest (updates-Taken now i name status r k _ _ h w)
  calls-Taken k s z (deletes i b h rest) w = calls-Taken k _ z rest (deletes-Taken i k b _ _ h w)

  -- After a tenant is created with an identifier that none has, and any calls that create tenants
  -- with such identifiers, update and delete tenants, that one included, and return, creating a
  -- tenant with the same slug raises ValueError and changes and publishes nothing.
  pub create_tenant_twice :
      (i : ℕ) (now : ℤ) (name : String) (slug : Option String) (r : TenantResponse) (s s' z : S)
      (p p' y : P)
      → (repo.get_by_id i s).0 ≡ ok none
      → create_tenant repo publish slug_of i now name slug (s, p) ≡ (ok r, (s', p'))
      → Calls repo publish slug_of (s', p') (z, y)
      → (j : ℕ) (later : ℤ) (name' : String) (slug' : Option String)
      → given_or (slug_of name') slug' ≡ given_or (slug_of name) slug
      → create_tenant repo publish slug_of j later name' slug' (z, y) ≡ (err value_error, (z, y))
  create_tenant_twice i now name slug r s s' z p p' y fresh h calls j later name' slug' same =
      let t = new_one repo laws publish slug_of i now name slug in
      let free = free_before repo laws publish slug_of i now name slug s p r (s', p') h in
      let (u, q) = saved_by repo laws publish slug_of i now name slug s s' p p' r free h in
      let (x, w) = calls-Taken t.slug (s', p') (z, y) calls (laws.added t u s s' fresh free q) in
      refused repo laws publish slug_of j later name' slug' x z y (rw same w)
