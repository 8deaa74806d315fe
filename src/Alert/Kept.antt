-- ===== src/Alert/Kept.antt =====
-- Both repositories of acknowledgements remember what they save.
use mathlib.Core.Path.{subst}
use prefeitura_anti_hack.Prelude.{
  ℕ, ◌≡◌, refl, true, String, none, some, List, [], ◌∷◌, ◌++◌, any, filter, arith, inl, inr,
  Bool-cases, Option-cases, filter-concat, str_eq_refl, str_eq_iff, ==→eq,
}
use prefeitura_anti_hack.Prelude.Python.{ok, Result-cases}
use prefeitura_anti_hack.Correlation.Store.{scalar_one_or_none}
use prefeitura_anti_hack.Correlation.Store.Scalars.{one_of_scalar, scalar-nil}
use prefeitura_anti_hack.Alert.{
  AlertAcknowledgement, new_ack, acknowledges, keep_ack, same_ack, insert_ack, select_ack,
  in_memory_acks, postgres_acks,
}
use prefeitura_anti_hack.Alert.Once.{Finds, Remembers}

-- an alert is acknowledged by what has its fingerprint and its tenant
pub acknowledges_self : (a : AlertAcknowledgement) → acknowledges a.fingerprint a.tenant_id a ≡ true
acknowledges_self a = ground (arith, str_eq_refl a.fingerprint)

acknowledges-eq :
    (k : String) (t : ℕ) (a : AlertAcknowledgement)
    → acknowledges k t a ≡ true
    → (a.fingerprint ≡ k) × (a.tenant_id ≡ t)
acknowledges-eq k t a h = ((str_eq_iff _ _).0 (ground (arith, h)), ==→eq _ _ (ground (arith, h)))

pub in_memory_acks-Remembers : Remembers in_memory_acks
unfolding keep_ack
in_memory_acks-Remembers = record {
  reads = λ k t s. refl;
  added = λ a u s s' free h. ground (arith, free, h, acknowledges_self a);
  beside = λ a u x k t s s' free h w. elim (Bool-cases (acknowledges k t a)) [
    | inl q ↦ let (e, f) = acknowledges-eq k t a q in absurd (ground (arith, free, e, f, w))
    | inr q ↦ ground (arith, free, h, q, w)
  ];
}

-- what a lookup in the table has read
pub select_ack-none :
    (k : String) (t : ℕ) (rows : List AlertAcknowledgement)
    → Finds postgres_acks k t rows none
    → filter (acknowledges k t) rows ≡ []
unfolding select_ack
select_ack-none k t rows h =
    elim (Result-cases (scalar_one_or_none (filter (acknowledges k t) rows))) [
      | inr (x, e) ↦ absurd (ground (arith, e, h))
      | inl (o, e) ↦ elim (Option-cases o) [
        | inl n ↦ scalar-nil (filter (acknowledges k t) rows) (ground (arith, e, n))
        | inr (m, n) ↦ elim (Result-cases (new_ack m)) [
          | inl (v, f) ↦ absurd (ground (arith, e, n, f, h))
          | inr (v, f) ↦ absurd (ground (arith, e, n, f, h))
        ]
      ]
    ]

select_ack-some :
    (k : String) (t : ℕ) (rows : List AlertAcknowledgement) (x : AlertAcknowledgement)
    → Finds postgres_acks k t rows (some x)
    → (m : AlertAcknowledgement) × (filter (acknowledges k t) rows ≡ m ∷ []) × (new_ack m ≡ ok x)
unfolding select_ack
select_ack-some k t rows x h =
    elim (Result-cases (scalar_one_or_none (filter (acknowledges k t) rows))) [
      | inr (x, e) ↦ absurd (ground (arith, e, h))
      | inl (o, e) ↦ elim (Option-cases o) [
        | inl n ↦ absurd (ground (arith, e, n, h))
        | inr (m, n) ↦ elim (Result-cases (new_ack m)) [
          | inl (v, f) ↦ (
            m,
            one_of_scalar (filter (acknowledges k t) rows) m (ground (arith, e, n)),
            ground (arith, e, n, f, h),
          )
          | inr (v, f) ↦ absurd (ground (arith, e, n, f, h))
        ]
      ]
    ]

pub insert_ack-eq :
    (a u : AlertAcknowledgement) (s s' : List AlertAcknowledgement)
    → insert_ack a s ≡ (ok u, s')
    → (new_ack a ≡ ok u) × (s ++ a ∷ [] ≡ s')
unfolding insert_ack
insert_ack-eq a u s s' h = elim (Bool-cases (any (same_ack a) s)) [
  | inl c ↦ absurd (ground (arith, c, h))
  | inr c ↦ (ground (arith, c, h), ground (arith, c, h))
]

found_row :
    (k : String) (t : ℕ) (m x : AlertAcknowledgement) (rows : List AlertAcknowledgement)
    → filter (acknowledges k t) rows ≡ m ∷ []
    → new_ack m ≡ ok x
    → Finds postgres_acks k t rows (some x)
unfolding select_ack
found_row k t m x rows e c = ground (arith, e, c)

pub select_ack-reads :
    (k : String) (t : ℕ) (rows : List AlertAcknowledgement) → (select_ack k t rows).1 ≡ rows
unfolding select_ack
select_ack-reads k t rows =
    elim (Result-cases (scalar_one_or_none (filter (acknowledges k t) rows))) [
      | inr (x, e) ↦ ground (arith, e)
      | inl (x, e) ↦ ground (arith, e)
    ]

pub postgres_acks-Remembers : Remembers postgres_acks
postgres_acks-Remembers = record {
  reads = select_ack-reads;
  added = λ a u s s' free h.
      let (c, e) = insert_ack-eq a u s s' h in
      let p = acknowledges a.fingerprint a.tenant_id in
      let n = select_ack-none a.fingerprint a.tenant_id s free in
      let only : filter p (s ++ a ∷ []) ≡ a ∷ [] =
        ground (arith, filter-concat p s a, n, acknowledges_self a) in
      found_row a.fingerprint a.tenant_id a u s' (subst (λ z. filter p z ≡ a ∷ []) e only) c;
  beside = λ a u x k t s s' free h w.
      let (c, e) = insert_ack-eq a u s s' h in
      let p = acknowledges k t in
      let (m, r, d) = select_ack-some k t s x w in
      let n = select_ack-none a.fingerprint a.tenant_id s free in
      elim (Bool-cases (p a)) [
        | inl q ↦ let (f, g) = acknowledges-eq k t a q in absurd (ground (arith, n, f, g, r))
        | inr q ↦
            let only : filter p (s ++ a ∷ []) ≡ m ∷ [] =
              ground (arith, filter-concat p s a, r, q) in
            found_row k t m x s' (subst (λ z. filter p z ≡ m ∷ []) e only) d
      ];
}
