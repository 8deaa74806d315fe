-- ===== src/Tenant/Postgres.antt =====
-- The laws of slugs in PostgresTenantRepository.
use mathlib.Core.Path.{subst}
use prefeitura_anti_hack.Prelude.{
  ℕ, ◌≡◌, refl, Bool, true, String, Option, none, some, List, [], ◌∷◌, ◌++◌, any, filter, map,
  arith, inl, inr, Bool-cases, Option-cases, filter-concat, str_eq_refl, str_eq_iff, find-holds,
  find_of_filter, if◌then◌else◌,
}
use prefeitura_anti_hack.Prelude.Int.{ℤ}
use prefeitura_anti_hack.Prelude.Python.{
  ok, validations, raise_if, value_error, Result-cases, checked-other,
}
use prefeitura_anti_hack.Prelude.Exec.{Exec, gets, lift, ◌>>=◌}
use prefeitura_anti_hack.Correlation.Store.{scalar_one_or_none}
use prefeitura_anti_hack.Correlation.Store.Scalars.{one_of_scalar, scalar-nil}
use prefeitura_anti_hack.Tenant.{
  Tenant, misses, has_tenant_id, has_slug, new_tenant, deactivate, tenant_conflict, assigned_tenant,
  other_rows, flush_tenant, save_tenant, optional_tenant, select_tenant, select_slug, delete_tenant,
}
use prefeitura_anti_hack.Tenant.Handlers.{postgres}
use prefeitura_anti_hack.Tenant.Slugs.{Taken, KeepsSlugs, new_tenant-same}

-- the only row that a lookup reads
abbrev One : (Tenant → Bool) → List Tenant → Type 0
One p rows = (m : Tenant) × (filter p rows ≡ m ∷ []) × ((v : Tenant) × (new_tenant m ≡ ok v))

One-Taken :
    (now : ℤ) (k : String) (rows : List Tenant)
    → One (has_slug k) rows
    → Taken (postgres now) k rows
unfolding select_slug
One-Taken now k rows (m, e, (v, c)) = (v, ground (arith, e, c))

-- what a lookup that finds a row has read
read-One :
    (p : Tenant → Bool) (rows : List Tenant) (o : Option Tenant) (x : Tenant)
    → scalar_one_or_none (filter p rows) ≡ ok o
    → optional_tenant o ≡ ok (some x)
    → One p rows
read-One p rows none x h c = absurd cc
read-One p rows (some m) x h c = (
  m,
  one_of_scalar (filter p rows) m h,
  elim (Result-cases (new_tenant m)) [
    | inl (v, e) ↦ (v, e)
    | inr (y, e) ↦ absurd (ground (arith, e, c))
  ],
)

-- what both lookups do
abbrev lookup : (Tenant → Bool) → Exec (List Tenant) (Option Tenant)
lookup p = do
  rows ← gets (filter p)
  model ← lift (scalar_one_or_none rows)
  lift (optional_tenant model)

lookup-One :
    (p : Tenant → Bool) (rows : List Tenant) (x : Tenant)
    → (lookup p rows).0 ≡ ok (some x)
    → One p rows
lookup-One p rows x h = elim (Result-cases (scalar_one_or_none (filter p rows))) [
  | inr (e, q) ↦ absurd (ground (arith, q, h))
  | inl (o, q) ↦ read-One p rows o x q (ground (arith, q, h))
]

lookup-reads : (p : Tenant → Bool) (rows : List Tenant) → (lookup p rows).1 ≡ rows
lookup-reads p rows = elim (Result-cases (scalar_one_or_none (filter p rows))) [
  | inr (e, q) ↦ ground (arith, q)
  | inl (o, q) ↦ ground (arith, q)
]

-- the rows that a change of one of them leaves
abbrev replaced : (Tenant → Bool) → (Tenant → Tenant) → List Tenant → List Tenant
replaced q f rows = map (λ x. if q x then f x else x) rows

replaced-none :
    (q : Tenant → Bool) (f : Tenant → Tenant) (rows : List Tenant)
    → filter q rows ≡ []
    → replaced q f rows ≡ rows
replaced-none q f [] h = refl
replaced-none q f (x ∷ rows) h = ground (arith, h, replaced-none q f rows)

replaced-filter_none :
    (p q : Tenant → Bool) (f : Tenant → Tenant) (rows : List Tenant)
    → filter q rows ≡ []
    → replaced q f (filter p rows) ≡ filter p rows
replaced-filter_none p q f [] h = refl
replaced-filter_none p q f (x ∷ rows) h = ground (arith, h, replaced-filter_none p q f rows)

-- every row keeps what p tests
filter-replaced :
    (p q : Tenant → Bool) (f : Tenant → Tenant) (rows : List Tenant)
    → ((x : Tenant) → p (f x) ≡ p x)
    → filter p (replaced q f rows) ≡ replaced q f (filter p rows)
filter-replaced p q f [] same = refl
filter-replaced p q f (x ∷ rows) same = ground (arith, same x, filter-replaced p q f rows same)

-- only one row is changed, and it keeps what p tests
filter-replaced_one :
    (p q : Tenant → Bool) (c m : Tenant) (rows : List Tenant)
    → filter q rows ≡ m ∷ []
    → p c ≡ p m
    → filter p (replaced q (λ x. c) rows) ≡ replaced q (λ x. c) (filter p rows)
filter-replaced_one p q c m [] h same = refl
filter-replaced_one p q c m (x ∷ rows) h same = elim (Bool-cases (q x)) [
  | inl e ↦
      let rest : filter q rows ≡ [] = ground (arith, e, h) in
      let is_x : x ≡ m = ground (arith, e, h) in
      let a = replaced-none q (λ y. c) rows rest in
      let b = replaced-filter_none p q (λ y. c) rows rest in ground (arith, e, same, is_x, a, b)
  | inr e ↦ ground (arith, e, h, filter-replaced_one p q c m rows)
]

-- what a lookup that finds nothing has read
read-none :
    (p : Tenant → Bool) (rows : List Tenant) (o : Option Tenant)
    → scalar_one_or_none (filter p rows) ≡ ok o
    → optional_tenant o ≡ ok none
    → filter p rows ≡ []
read-none p rows (some m) h c = elim (Result-cases (new_tenant m)) [
  | inl (v, e) ↦ absurd (ground (arith, e, c))
  | inr (y, e) ↦ absurd (ground (arith, e, c))
]
read-none p rows none h c = scalar-nil (filter p rows) h

lookup-none :
    (p : Tenant → Bool) (rows : List Tenant) → (lookup p rows).0 ≡ ok none → filter p rows ≡ []
lookup-none p rows h = elim (Result-cases (scalar_one_or_none (filter p rows))) [
  | inr (e, q) ↦ absurd (ground (arith, q, h))
  | inl (o, q) ↦ read-none p rows o q (ground (arith, q, h))
]

-- a new row is at the end of the table
insert-eq :
    (t u : Tenant) (s s' : List Tenant)
    → filter (has_tenant_id t.id) s ≡ []
    → save_tenant t s ≡ (ok u, s')
    → (new_tenant t ≡ ok u) × (s ++ t ∷ [] ≡ s')
unfolding save_tenant flush_tenant
insert-eq t u s s' e h = elim (Bool-cases (tenant_conflict t s)) [
  | inl c ↦ absurd (ground (arith, c, e, h))
  | inr c ↦ (ground (arith, c, e, h), ground (arith, c, e, h))
]

-- a row that is changed keeps its place
update-eq :
    (t u m : Tenant) (s s' : List Tenant)
    → filter (has_tenant_id t.id) s ≡ m ∷ []
    → save_tenant t s ≡ (ok u, s')
    → (new_tenant (assigned_tenant t m) ≡ ok u)
      × (replaced (has_tenant_id t.id) (λ x. assigned_tenant t m) s ≡ s')
unfolding save_tenant flush_tenant
update-eq t u m s s' e h = elim (Bool-cases (any (has_slug t.slug) (other_rows t s))) [
  | inl c ↦ absurd (ground (arith, c, e, h))
  | inr c ↦ (ground (arith, c, e, h), ground (arith, c, e, h))
]

-- the constructor reads the name and the slug only
new_tenant-deactivate :
    (now : ℤ) (m v : Tenant)
    → new_tenant m ≡ ok v
    → new_tenant (deactivate now m) ≡ ok (deactivate now m)
unfolding new_tenant
new_tenant-deactivate now m v h =
    checked-other
      (validations (
        raise_if (misses 2 128 m.name) value_error
        ∷ raise_if (misses 2 64 m.slug) value_error
        ∷ []))
      m (deactivate now m) v h

append-One :
    (t : Tenant) (k : String) (rows : List Tenant)
    → filter (has_slug t.slug) rows ≡ []
    → One (has_slug k) rows
    → One (has_slug k) (rows ++ t ∷ [])
append-One t k rows free (m, e, c) = elim (Bool-cases (has_slug k t)) [
  | inl q ↦
      let same : t.slug ≡ k = (str_eq_iff _ _).0 q in absurd (ground (arith, rw same at free, e))
  | inr q ↦ (m, ground (arith, filter-concat (has_slug k) rows t, e, q), c)
]

new-One :
    (t u : Tenant) (rows : List Tenant)
    → filter (has_slug t.slug) rows ≡ []
    → new_tenant t ≡ ok u
    → One (has_slug t.slug) (rows ++ t ∷ [])
new-One t u rows free c =
    (t, ground (arith, filter-concat (has_slug t.slug) rows t, free, str_eq_refl t.slug), (u, c))

-- the row that is read is changed or not, and is read again
replaced-One :
    (p q : Tenant → Bool) (f : Tenant → Tenant) (m : Tenant) (rows : List Tenant)
    → filter p rows ≡ m ∷ []
    → filter p (replaced q f rows) ≡ replaced q f (filter p rows)
    → ((v : Tenant) × (new_tenant m ≡ ok v))
    → ((v : Tenant) × (new_tenant (f m) ≡ ok v))
    → One p (replaced q f rows)
replaced-One p q f m rows e r c d = elim (Bool-cases (q m)) [
  | inl b ↦ (f m, ground (arith, r, e, b), d)
  | inr b ↦ (m, ground (arith, r, e, b), c)
]

deleted-One :
    (now : ℤ) (i : ℕ) (k : String) (b : Bool) (s s' : List Tenant)
    → delete_tenant now i s ≡ (ok b, s')
    → One (has_slug k) s
    → One (has_slug k) s'
unfolding delete_tenant
deleted-One now i k b s s' h (m, e, (v, c)) =
    elim (Result-cases (scalar_one_or_none (filter (has_tenant_id i) s))) [
      | inr (y, q) ↦ absurd (ground (arith, q, h))
      | inl (o, q) ↦ elim (Option-cases o) [
        | inl n ↦
            let same : s ≡ s' = ground (arith, q, n, h) in
            subst (One (has_slug k)) same (m, e, (v, c))
        | inr (x, n) ↦
            let same : replaced (has_tenant_id i) (deactivate now) s ≡ s' =
              ground (arith, q, n, h) in
            let kept =
              filter-replaced (has_slug k) (has_tenant_id i) (deactivate now) s (λ y. refl) in
            let d = new_tenant-deactivate now m v c in
            subst (One (has_slug k)) same (
              replaced-One (has_slug k) (has_tenant_id i) (deactivate now) m s e kept (v, c)
                (deactivate now m, d))
      ]
    ]

changed-One :
    (v u x : Tenant) (k : String) (s s' : List Tenant)
    → filter (has_tenant_id v.id) s ≡ x ∷ []
    → v.slug ≡ x.slug
    → save_tenant v s ≡ (ok u, s')
    → One (has_slug k) s
    → One (has_slug k) s'
changed-One v u x k s s' e same h (m, r, c) =
    let a = assigned_tenant v x in
    let (d, t) = update-eq v u x s s' e h in
    let p : has_slug k a ≡ has_slug k x = rw same refl in
    let kept = filter-replaced_one (has_slug k) (has_tenant_id v.id) a x s e p in
    subst (One (has_slug k)) t
      (replaced-One (has_slug k) (has_tenant_id v.id) (λ y. a) m s r kept c (u, d))

-- the tenant that a lookup returns is the row
lookup-stored :
    (i : ℕ) (s : List Tenant) (old : Tenant)
    → (lookup (has_tenant_id i) s).0 ≡ ok (some old)
    → (filter (has_tenant_id i) s ≡ old ∷ []) × (has_tenant_id i old ≡ true)
lookup-stored i s old h =
    let (y, e, (z, c)) = lookup-One (has_tenant_id i) s old h in
    let is_z : z ≡ old = ground (arith, e, c, h) in
    let is_y : z ≡ y = new_tenant-same y z c in
    let e' : filter (has_tenant_id i) s ≡ old ∷ [] = ground (arith, e, is_z, is_y) in
    (e', find-holds (has_tenant_id i) s old (find_of_filter (has_tenant_id i) s old e'))

pub postgres-KeepsSlugs : (now : ℤ) → KeepsSlugs (postgres now)
unfolding select_tenant select_slug
postgres-KeepsSlugs now = record {
  id_read = λ i. lookup-reads (has_tenant_id i);
  slug_read = λ k. lookup-reads (has_slug k);
  added = λ t u s s' fresh free h.
      let (c, e) = insert-eq t u s s' (lookup-none (has_tenant_id t.id) s fresh) h in
      let n = lookup-none (has_slug t.slug) s free in
      subst (Taken (postgres now) t.slug) e
        (One-Taken now t.slug (s ++ t ∷ []) (new-One t u s n c));
  beside = λ t u k s s' fresh free h (x, w).
      let (c, e) = insert-eq t u s s' (lookup-none (has_tenant_id t.id) s fresh) h in
      let n = lookup-none (has_slug t.slug) s free in
      let one = append-One t k s n (lookup-One (has_slug k) s x w) in
      subst (Taken (postgres now) k) e (One-Taken now k (s ++ t ∷ []) one);
  deleted = λ i k b s s' h (x, w).
      One-Taken now k s' (deleted-One now i k b s s' h (lookup-One (has_slug k) s x w));
  changed = λ i old t v u k s s' found m n h (x, w).
      let (e, is_i) = lookup-stored i s old found in
      let e' : filter (has_tenant_id v.id) s ≡ old ∷ [] = ground (arith, e, is_i, n) in
      One-Taken now k s' (changed-One v u old k s s' e' n.1 h (lookup-One (has_slug k) s x w));
}
