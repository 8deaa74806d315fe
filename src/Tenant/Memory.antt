-- ===== src/Tenant/Memory.antt =====
-- The laws of slugs in InMemoryTenantRepository.
use mathlib.Core.Path.{subst}
use prefeitura_anti_hack.Prelude.{
  ℕ, ◌≡◌, refl, true, false, String, some, List, [], ◌∷◌, any, find, map, arith, inl, inr,
  Bool-cases, Option-cases, any_of_find-none, any_of_find-some, find-holds, str_eq_refl,
  if◌then◌else◌,
}
use prefeitura_anti_hack.Tenant.{
  Tenant, has_tenant_id, has_slug, inactive, put_tenant, remove_tenant,
}
use prefeitura_anti_hack.Tenant.Handlers.{in_memory}
use prefeitura_anti_hack.Tenant.Slugs.{Taken, Matches, KeepsSlugs}

-- a slug that some tenant has is found
found-Taken : (k : String) (xs : List Tenant) → any (has_slug k) xs ≡ true → Taken in_memory k xs
found-Taken k xs h = elim (Option-cases (find (has_slug k) xs)) [
  | inl n ↦ absurd (ground (arith, any_of_find-none (has_slug k) xs n, h))
  | inr (x, n) ↦ (x, ground (arith, n))
]

Taken-found : (k : String) (xs : List Tenant) → Taken in_memory k xs → any (has_slug k) xs ≡ true
Taken-found k xs (x, h) = any_of_find-some (has_slug k) xs x (ground (arith, h))

put-any : (t : Tenant) (xs : List Tenant) → any (has_slug t.slug) (put_tenant t xs) ≡ true
put-any t [] = ground (arith, str_eq_refl t.slug)
put-any t (x ∷ xs) = elim (Bool-cases (has_tenant_id t.id x)) [
  | inl q ↦ ground (arith, q, str_eq_refl t.slug)
  | inr q ↦ ground (arith, q, put-any t xs)
]

-- a tenant that is put beside the others
put_new-any :
    (t : Tenant) (k : String) (xs : List Tenant)
    → any (has_tenant_id t.id) xs ≡ false
    → any (has_slug k) xs ≡ true
    → any (has_slug k) (put_tenant t xs) ≡ true
put_new-any t k [] n h = absurd cc
put_new-any t k (x ∷ xs) n h = ground (arith, n, h, put_new-any t k xs)

-- a tenant that is put in the place of one with its slug
put_old-any :
    (t old : Tenant) (k : String) (xs : List Tenant)
    → find (has_tenant_id t.id) xs ≡ some old
    → t.slug ≡ old.slug
    → any (has_slug k) xs ≡ true
    → any (has_slug k) (put_tenant t xs) ≡ true
put_old-any t old k [] n e h = absurd cc
put_old-any t old k (x ∷ xs) n e h = elim (Bool-cases (has_tenant_id t.id x)) [
  | inl q ↦ ground (arith, q, n, e, h)
  | inr q ↦ ground (arith, q, n, h, put_old-any t old k xs)
]

abbrev deactivated : ℕ → List Tenant → List Tenant
deactivated i xs =
    map (λ (x : Tenant). if has_tenant_id i x then record x { status = inactive } else x) xs

map-any :
    (i : ℕ) (k : String) (xs : List Tenant)
    → any (has_slug k) xs ≡ true
    → any (has_slug k) (deactivated i xs) ≡ true
map-any i k [] h = absurd cc
map-any i k (x ∷ xs) h = ground (arith, h, map-any i k xs)

-- the tenant that was put is the one that its identifier finds
put-find :
    (t : Tenant) (i : ℕ) (xs : List Tenant)
    → t.id ≡ i
    → find (has_tenant_id i) (put_tenant t xs) ≡ some t
put-find t i [] e = ground (arith, e)
put-find t i (x ∷ xs) e = ground (arith, e, put-find t i xs)

-- an object that is changed twice in the dictionary and saved
puts-any :
    (i : ℕ) (old t v : Tenant) (k : String) (xs : List Tenant)
    → find (has_tenant_id i) xs ≡ some old
    → Matches old t
    → Matches old v
    → any (has_slug k) xs ≡ true
    → any (has_slug k) (put_tenant v (put_tenant v (put_tenant t xs))) ≡ true
puts-any i old t v k xs found m n w =
    let is_i = find-holds (has_tenant_id i) xs old found in
    let f0 : find (has_tenant_id t.id) xs ≡ some old = ground (arith, is_i, found, m) in
    let f1 = put-find t v.id xs (ground (arith, m, n)) in
    let f2 = put-find v v.id (put_tenant t xs) refl in
    let w1 = put_old-any t old k xs f0 m.1 w in
    let w2 = put_old-any v t k (put_tenant t xs) f1 (ground (arith, m, n)) w1 in
    put_old-any v v k (put_tenant v (put_tenant t xs)) f2 refl w2

pub in_memory-KeepsSlugs : KeepsSlugs in_memory
unfolding remove_tenant
in_memory-KeepsSlugs = record {
  id_read = λ i s. refl;
  slug_read = λ k s. refl;
  added = λ t u s s' fresh free h.
      let e : put_tenant t s ≡ s' = ground (arith, h) in
      subst (Taken in_memory t.slug) e (found-Taken t.slug _ (put-any t s));
  beside = λ t u k s s' fresh free h w.
      let e : put_tenant t s ≡ s' = ground (arith, h) in
      let n = any_of_find-none (has_tenant_id t.id) s (ground (arith, fresh)) in
      subst (Taken in_memory k) e (found-Taken k _ (put_new-any t k s n (Taken-found k s w)));
  deleted = λ i k b s s' h w. elim (Option-cases (find (has_tenant_id i) s)) [
    | inl n ↦ let e : s ≡ s' = ground (arith, n, h) in subst (Taken in_memory k) e w
    | inr (x, n) ↦
        let e : deactivated i s ≡ s' = ground (arith, n, h) in
        subst (Taken in_memory k) e (found-Taken k _ (map-any i k s (Taken-found k s w)))
  ];
  changed = λ i old t v u k s s' found m n h w.
      let e : put_tenant v (put_tenant v (put_tenant t s)) ≡ s' = ground (arith, h) in
      subst (Taken in_memory k) e
        (found-Taken k _ (puts-any i old t v k s (ground (arith, found)) m n (Taken-found k s w)));
}
